-- ===== src/Htable/Handle.antt =====
-- `htable_create` and `htable_destroy`, from the handle.
use mycode_c.Base.{
  ℕ, true, false, Option, none, some, List, [], ◌∷◌, ◌++◌, length, ◌≡◌, ◌≢◌, sym, refl, ap, ◌∙◌,
  ◌<◌, All, if◌then◌else◌,
}
use mycode_c.Base.Int.{ℤ, pos, leb_ℤ}
use mycode_c.Llist.{Ptr, Heap, pure, ◌>>=◌}
use mycode_c.Llist.Links.{Fresh, Distinct}
use mycode_c.Llist.Ring.{Same}
use mycode_c.Llist.Ring.Steps.{run_then}
use mycode_c.Htable.{
  Htable, destroy_all, make_buckets, with_buckets, real_capacity, htable_create, htable_destroy,
}
use mycode_c.Htable.Frame.{Bucket, Buckets}
use mycode_c.Htable.Table.{heads}
use mycode_c.Htable.Create.{Gone, destroy_all-Gone}
use mycode_c.Htable.Make.{empties, heads-empties, make_buckets-Buckets, make_buckets-Gone}

module _ {A : Type 0} where
  -- What is left of the call when the size is positive and the handle's own memory is there.
  create_run :
      (m m' : Heap A) (fuel : ℕ) (size capacity : ℤ) (gots : List Ptr) (bs : Option (List Ptr))
      → leb_ℤ size (pos 0) ≡ false
      → make_buckets fuel (real_capacity capacity) [] gots m ≡ some (bs, m')
      → htable_create fuel size capacity true true gots m
        ≡ with_buckets (real_capacity capacity) bs m'
  unfolding htable_create
  create_run m m' fuel size capacity gots bs s e =
      ap
        (λ b.
          (if b
              then pure none
              else (make_buckets fuel (real_capacity capacity) [] gots
                  >>= with_buckets (real_capacity capacity)))
            m)
        s
      ∙ run_then _ (with_buckets (real_capacity capacity)) m bs m' _ e refl

  -- With a positive size and new memory for all that is asked for, `htable_create` makes a table of the capacity
  -- asked for, 10 when that is not positive: empty rings that share no memory; other memory is as it was.
  pub htable_create-Buckets :
      (m : Heap A) (fuel : ℕ) (size capacity : ℤ) (gots : List Ptr)
      → leb_ℤ size (pos 0) ≡ false
      → length gots ≡ real_capacity capacity
      → All (λ g. g ≢ 0) gots
      → Distinct gots
      → (m' : Heap A) × (htable_create fuel size capacity true true gots m
          ≡ some (some (record { capacity = real_capacity capacity; bucket = gots }), m'))
        × Buckets m' (empties gots)
        × (heads (empties gots) ≡ gots)
        × ((q : Ptr) → Fresh q gots → Same m m' q)
  unfolding with_buckets
  htable_create-Buckets m fuel size capacity gots s n z d =
      let made = make_buckets-Buckets m fuel [] gots z d tt in
      (
        made.0,
        create_run m made.0 fuel size capacity gots (some gots) s
            (ap (λ k. make_buckets fuel k [] gots m) (sym n) ∙ made.1),
        made.2,
        heads-empties gots,
        made.3,
      )

  -- With a positive size and memory for the handle, but NULL for one of the buckets, `htable_create` returns NULL,
  -- having freed every bucket it had made, and other memory is as it was.
  pub htable_create-Gone :
      (m : Heap A) (fuel : ℕ) (size capacity : ℤ) (good gots : List Ptr)
      → leb_ℤ size (pos 0) ≡ false
      → length good < real_capacity capacity
      → All (λ g. g ≢ 0) good
      → Distinct good
      → 0 < fuel
      → (m' : Heap A) × (htable_create fuel size capacity true true (good ++ 0 ∷ gots) m
          ≡ some (none, m'))
        × All (λ q. m'.alive q ≡ false) good
        × ((q : Ptr) → Fresh q good → Same m m' q)
  unfolding with_buckets
  htable_create-Gone m fuel size capacity good gots s n z d f =
      let gone = make_buckets-Gone m fuel (real_capacity capacity) [] good gots z d tt n f in
      (
        gone.0,
        create_run m gone.0 fuel size capacity (good ++ 0 ∷ gots) none s gone.1,
        gone.2,
        gone.3,
      )

  -- In a table whose buckets are rings that share no memory, with fuel for the longest and one step more,
  -- `htable_destroy` ends, having freed every node and every list head, each once, and other memory is as it was.
  pub htable_destroy-Gone :
      (m : Heap A) (fuel : ℕ) (h : Htable) (t : List Bucket)
      → h.bucket ≡ heads t
      → Buckets m t
      → All (λ e. length e.1 < fuel) t
      → (m' : Heap A) × (htable_destroy fuel (some h) m ≡ some (tt, m')) × Gone t m m'
  unfolding htable_destroy
  htable_destroy-Gone m fuel h t e k n =
      let gone = destroy_all-Gone m fuel t k n in
      (gone.0, ap (λ bs. destroy_all fuel bs m) e ∙ gone.1, gone.2)
