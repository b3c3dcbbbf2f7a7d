-- ===== src/Htable/Bucket.antt =====
-- An insertion in its bucket.
use mycode_c.Base.{
  ℕ, Bool, Option, none, some, List, [], ◌∷◌, ◌++◌, length, ◌≡◌, ◌≢◌, inl, inr, refl, ap, ◌∙◌, ◌<◌,
  All, All-append, Bool-cases,
}
use mycode_c.Base.Int.{ℤ, pos, negsuc}
use mycode_c.Llist.{Ptr, Heap, tail_insert}
use mycode_c.Llist.Links.{Fresh}
use mycode_c.Llist.Ring.{Ring, Same, contents}
use mycode_c.Llist.Ring.Steps.{run_then}
use mycode_c.Llist.Insert.{llist_insert-Ring, Same-trans}
use mycode_c.Llist.Find.{search, llist_find-search}
use mycode_c.Llist.Remove.{erase}
use mycode_c.Llist.Delete.{llist_delete-Removed}
use mycode_c.Htable.{Insertion, replace_it, no_same, same, bad_mode, unless_found, insert_in}

-- What a bucket holds after an insertion, and what the call returns, from what a search found.
abbrev pub inserted : {A B : Type 0} → (A → Bool) → A → Insertion → Option B → List A → List A
inserted f x replace_it found xs = erase f xs ++ x ∷ []
inserted f x no_same none xs = xs ++ x ∷ []
inserted f x no_same (some y) xs = xs
inserted f x same found xs = xs ++ x ∷ []
inserted f x bad_mode found xs = xs

abbrev pub insertion_status : {B : Type 0} → Insertion → Option B → ℤ
insertion_status replace_it found = pos 0
insertion_status no_same none = pos 0
insertion_status no_same (some y) = negsuc 1
insertion_status same found = pos 0
insertion_status bad_mode found = negsuc 2

-- The nodes that are in the bucket when the new one is asked for.
abbrev pub left : Insertion → (Ptr → Bool) → List Ptr → List Ptr
left replace_it f ps = erase f ps
left no_same f ps = ps
left same f ps = ps
left bad_mode f ps = ps

pub All-erase : (P : Ptr → Type 0) (f : Ptr → Bool) (ps : List Ptr) → All P ps → All P (erase f ps)
unfolding erase
All-erase P f [] k = tt
All-erase P f (p ∷ ps) k = elim (Bool-cases (f p)) [
  | inl e ↦ rw (e) k.1
  | inr e ↦ rw (e) (k.0, All-erase P f ps k.1)
]

-- The nodes afterwards are nodes of before and the new one.
pub All-inserted :
    {B : Type 0} (P : Ptr → Type 0) (f : Ptr → Bool) (got : Ptr) (mode : Insertion)
    (found : Option B) (ps : List Ptr)
    → P got
    → All P ps
    → All P (inserted f got mode found ps)
All-inserted P f got replace_it found ps g k =
    All-append P (erase f ps) (got ∷ []) (All-erase P f ps k) (g, tt)
All-inserted P f got no_same none ps g k = All-append P ps (got ∷ []) k (g, tt)
All-inserted P f got no_same (some y) ps g k = k
All-inserted P f got same found ps g k = All-append P ps (got ∷ []) k (g, tt)
All-inserted P f got bad_mode found ps g k = k

module _ {A : Type 0} where
  -- What an insertion leaves of the bucket at `b`, and of the rest of memory.
  abbrev pub Fills :
      (got b : Ptr) → List Ptr → (A → Bool) → A → Insertion → Option A → Heap A → Heap A → Type 0
  Fills got b ps cmp x mode found m m' =
      let f = λ (p : Ptr). cmp (m.data' p) in
      Ring m' b (inserted f got mode found ps)
      × (contents m' (inserted f got mode found ps) ≡ inserted cmp x mode found (contents m ps))
      × ((q : Ptr) → Fresh q (got ∷ b ∷ ps) → Same m m' q)

  unless_found-Fills :
      (m : Heap A) (got b : Ptr) (ps : List Ptr) (cmp : A → Bool) (x : A) (found : Option A)
      → got ≢ 0
      → Fresh got (b ∷ ps)
      → Ring m b ps
      → (m' : Heap A) × (unless_found got b x found m ≡ some (insertion_status no_same found, m'))
        × Fills got b ps cmp x no_same found m m'
  unfolding unless_found
  unless_found-Fills m got b ps cmp x none z fr r =
      let ins = llist_insert-Ring m got b x tail_insert ps z fr r in
      (ins.0, ins.1, (ins.2.0, ins.2.1, ins.2.2))
  unless_found-Fills m got b ps cmp x (some y) z fr r =
      (m, refl, (r, refl, λ q g. (refl, refl, refl, refl)))

  pub insert_in-Fills :
      (m : Heap A) (fuel : ℕ) (got b : Ptr) (ps : List Ptr) (cmp : A → A → Bool) (x : A)
      (mode : Insertion)
      → got ≢ 0
      → Fresh got (b ∷ left mode (λ p. cmp (m.data' p) x) ps)
      → Ring m b ps
      → length ps < fuel
      → (m' : Heap A) × (insert_in fuel got cmp x mode b m
          ≡ some (insertion_status mode (search (λ y. cmp y x) (contents m ps)), m'))
        × Fills got b ps (λ y. cmp y x) x mode (search (λ y. cmp y x) (contents m ps)) m m'
  unfolding insert_in
  insert_in-Fills m fuel got b ps cmp x replace_it z fr r n =
      let f = λ (p : Ptr). cmp (m.data' p) x in
      let del = llist_delete-Removed m b (λ y. cmp y x) ps fuel r n in
      let ins = llist_insert-Ring del.0 got b x tail_insert (erase f ps) z fr del.2.0 in
      (
        ins.0,
        run_then _ _ m _ del.0 _ del.1 ins.1,
        (
          ins.2.0,
          ins.2.1 ∙ ap (λ t. t ++ x ∷ []) del.2.1,
          λ q g.
              Same-trans m del.0 ins.0 q (del.2.3 q g.1)
                (ins.2.2 q (g.0, (g.1.0, All-erase (λ y. q ≢ y) f ps g.1.1))),
        ),
      )
  insert_in-Fills m fuel got b ps cmp x no_same z fr r n =
      let found = search (λ y. cmp y x) (contents m ps) in
      let rest = unless_found-Fills m got b ps (λ y. cmp y x) x found z fr r in
      (
        rest.0,
        run_then _ _ m found m _ (llist_find-search m b (λ y. cmp y x) ps fuel r n) rest.1,
        rest.2,
      )
  insert_in-Fills m fuel got b ps cmp x same z fr r n =
      let ins = llist_insert-Ring m got b x tail_insert ps z fr r in
      (ins.0, ins.1, (ins.2.0, ins.2.1, ins.2.2))
  insert_in-Fills m fuel got b ps cmp x bad_mode z fr r n =
      (m, refl, (r, refl, λ q g. (refl, refl, refl, refl)))
