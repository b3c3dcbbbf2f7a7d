-- ===== src/Htable/Tests.antt =====
-- Runs of the table, and the applications of the theorems to small heaps.
use mycode_c.Base.{
  ℕ, true, false, none, some, List, [], ◌∷◌, ◌++◌, ◌&&◌, ◌*◌, ◌%◌, ◌≡◌, ◌↔◌, refl, ◌<◌, arith, All,
  if◌then◌else◌, ◌==◌, ltb,
}
use mycode_c.Base.Int.{pos, negsuc}
use mycode_c.Llist.{Ptr, Heap}
use mycode_c.Llist.Links.{Fresh}
use mycode_c.Llist.Ring.{Same}
use mycode_c.Llist.Remove.{erase}
use mycode_c.Htable.{
  Htable, Student, id_hash, tel_hash, name_hash, replace_it, htable_create, htable_insert,
  htable_destroy,
}
use mycode_c.Htable.Frame.{Bucket, Buckets, rows}
use mycode_c.Htable.Table.{htable_insert-Buckets}
use mycode_c.Htable.Create.{Gone}
use mycode_c.Htable.Handle.{htable_create-Gone, htable_destroy-Gone}
use mycode_c.Htable.Hash.{Fits, id_hash-Fits}

-- A list at 1 with the nodes 2 and 3, which hold 20 and 30, and an empty list at 4.
abbrev memory : Heap ℕ
memory = record {
  alive = λ q. ltb 0 q && ltb q 5;
  prev = λ q. if q == 1 then 3 else if q == 2 then 1 else if q == 3 then 2 else 4;
  next = λ q. if q == 1 then 2 else if q == 2 then 3 else if q == 3 then 1 else 4;
  data' = λ q. q * 10;
}

abbrev two_buckets : List Bucket
two_buckets = (1, 2 ∷ 3 ∷ []) ∷ (4, []) ∷ []

abbrev table : Htable
table = record { capacity = 2; bucket = 1 ∷ 4 ∷ [] }

memory-Buckets : Buckets memory two_buckets
memory-Buckets = (
  (
    (refl, refl, (refl, refl, (refl, refl))),
    ((ground arith, (ground arith, tt)), ((ground arith, tt), (tt, tt))),
    (refl, (refl, (refl, tt))),
  ),
  (((ground arith, tt), ((ground arith, tt), ((ground arith, tt), tt))), tt),
  (((refl, refl), (tt, tt), (refl, tt)), tt, tt),
)

htable_insert-Buckets_example :
    (m' : Heap ℕ) × (htable_insert 3 7
        (some table)
        (some 20)
        (some (λ x capacity. 0))
        (some (λ y x. y == x))
        replace_it
        memory
      ≡ some (pos 0, m'))
    × Buckets m' ((1, erase (λ p. p * 10 == 20) (2 ∷ 3 ∷ []) ++ 7 ∷ []) ∷ (4, []) ∷ [])
    × (rows m' ((1, erase (λ p. p * 10 == 20) (2 ∷ 3 ∷ []) ++ 7 ∷ []) ∷ (4, []) ∷ [])
        ≡ (erase (λ y. y == 20) (20 ∷ 30 ∷ []) ++ 20 ∷ []) ∷ [] ∷ [])
unfolding erase
htable_insert-Buckets_example =
    htable_insert-Buckets memory 3 7 table 20 (λ x capacity. 0) (λ y x. y == x) replace_it [] 1
      (2 ∷ 3 ∷ []) ((4, []) ∷ []) refl refl memory-Buckets (ground arith) (ground arith)
      (ground arith, (ground arith, tt)) ((ground arith, tt), tt)

htable_create-Gone_example :
    (m' : Heap ℕ) × (htable_create 1 (pos 8) (negsuc 0) true true (6 ∷ 7 ∷ 0 ∷ []) memory
      ≡ some (none, m'))
    × All (λ q. m'.alive q ≡ false) (6 ∷ 7 ∷ [])
    × ((q : Ptr) → Fresh q (6 ∷ 7 ∷ []) → Same memory m' q)
htable_create-Gone_example =
    htable_create-Gone memory 1 (pos 8) (negsuc 0) (6 ∷ 7 ∷ []) [] refl (ground arith)
      (ground arith, (ground arith, tt)) ((ground arith, tt), (tt, tt)) (ground arith)

htable_destroy-Gone_example :
    (m' : Heap ℕ) × (htable_destroy 3 (some table) memory ≡ some (tt, m'))
    × Gone two_buckets memory m'
htable_destroy-Gone_example =
    htable_destroy-Gone memory 3 table two_buckets refl memory-Buckets
      (ground arith, (ground arith, tt))

abbrev student : Student
student = record { id = negsuc 2; name = 65 ∷ 109 ∷ []; math = pos 99; tel = pos 1833395 }

id_hash-Fits_example :
    ((id_hash student 8 < 8) ↔ (3 % 8 ≡ 0))
    × ((tel_hash student 8 < 8) ↔ Fits (pos 1833395) 8)
    × (name_hash student 8 < 8)
id_hash-Fits_example = id_hash-Fits student 8 (ground arith) (ground arith)
