-- ===== src/Llist/Tests.antt =====
-- Runs of the list on small heaps, and the applications of the theorems to them.
use mycode_c.Base.{ℕ, some, List, [], ◌∷◌, ◌&&◌, ◌*◌, ◌≡◌, refl, arith, if◌then◌else◌, ◌==◌, ltb}
use mycode_c.Base.Int.{pos}
use mycode_c.Llist.{Ptr, Heap, tail_insert, llist_insert, llist_delete, llist_destroy}
use mycode_c.Llist.Links.{Fresh}
use mycode_c.Llist.Ring.{Ring}
use mycode_c.Llist.Insert.{Inserted, llist_insert-Ring}
use mycode_c.Llist.Find.{search}
use mycode_c.Llist.Remove.{Removed}
use mycode_c.Llist.Delete.{llist_delete-Removed}
use mycode_c.Llist.Destroy.{Freed, llist_destroy-Freed}

-- A list at 1 with the nodes 2 and 3, which hold 20 and 30.
abbrev two : Heap ℕ
two = record {
  alive = λ q. ltb 0 q && ltb q 4;
  prev = λ q. if q == 1 then 3 else if q == 2 then 1 else 2;
  next = λ q. if q == 1 then 2 else if q == 2 then 3 else 1;
  data' = λ q. q * 10;
}

abbrev nodes : List Ptr
nodes = 2 ∷ 3 ∷ []

two-Ring : Ring two 1 nodes
two-Ring = (
  (refl, refl, (refl, refl, (refl, refl))),
  ((ground arith, (ground arith, tt)), ((ground arith, tt), (tt, tt))),
  (refl, (refl, (refl, tt))),
)

new_address : Fresh 7 (1 ∷ nodes)
new_address = (ground arith, (ground arith, (ground arith, tt)))

llist_insert-Ring_example :
    (m' : Heap ℕ) × (llist_insert 7 1 70 tail_insert two ≡ some (pos 0, m'))
    × Inserted 7 1 nodes 70 tail_insert two m'
llist_insert-Ring_example =
    llist_insert-Ring two 7 1 70 tail_insert nodes (ground arith) new_address two-Ring

llist_delete-Removed_example :
    (m' : Heap ℕ) × (llist_delete 3 1 (λ x. x == 20) two ≡ some (pos 0, m'))
    × Removed 1 (λ x. x == 20) nodes two m'
unfolding search
llist_delete-Removed_example =
    llist_delete-Removed two 1 (λ x. x == 20) nodes 3 two-Ring (ground arith)

llist_destroy-Freed_example :
    (m' : Heap ℕ) × (llist_destroy 3 1 two ≡ some (tt, m')) × Freed 1 nodes two m'
llist_destroy-Freed_example = llist_destroy-Freed two 1 nodes 3 two-Ring (ground arith)
