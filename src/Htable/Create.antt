-- ===== src/Htable/Create.antt =====
-- `htable_create` and `htable_destroy`.
use mycode_c.Base.{ℕ, false, some, List, [], ◌∷◌, length, ◌≡◌, refl, ◌∙◌, ◌<◌, All, All-map}
use mycode_c.Llist.{Ptr, Heap}
use mycode_c.Llist.Links.{Fresh, All-both}
use mycode_c.Llist.Ring.{Same, Apart, Apart-swap}
use mycode_c.Llist.Ring.Steps.{run_then}
use mycode_c.Llist.Insert.{Same-trans}
use mycode_c.Llist.Destroy.{llist_destroy-Freed}
use mycode_c.Htable.{destroy_all}
use mycode_c.Htable.Frame.{Bucket, block, Buckets, Buckets-spared}
use mycode_c.Htable.Table.{heads}

All-transpose :
    {B : Type 0} (R : Ptr → B → Type 0) (xs : List Ptr) (t : List B)
    → All (λ o. All (λ x. R x o) xs) t
    → All (λ x. All (λ o. R x o) t) xs
All-transpose R [] t a = tt
All-transpose R (x ∷ xs) t a = (
  All-map (λ o. All (λ y. R y o) (x ∷ xs)) (λ o. R x o) t (λ o k. k.0) a,
  All-transpose R xs t
      (All-map (λ o. All (λ y. R y o) (x ∷ xs)) (λ o. All (λ y. R y o) xs) t (λ o k. k.1) a),
)

module _ {A : Type 0} where
  -- What is left of the memory of all the buckets, and of the rest.
  abbrev pub Gone : List Bucket → Heap A → Heap A → Type 0
  Gone t m m' =
      All (λ e. All (λ q. m'.alive q ≡ false) (block e)) t
      × ((q : Ptr) → All (λ e. Fresh q (block e)) t → Same m m' q)

  -- In a table whose buckets are rings that share no memory, with fuel for the longest bucket and one step more,
  -- destroying the buckets one after another ends, having freed every node and every head, and
  -- memory outside the buckets is as it was.
  pub destroy_all-Gone :
      (m : Heap A) (fuel : ℕ) (t : List Bucket)
      → Buckets m t
      → All (λ e. length e.1 < fuel) t
      → (m' : Heap A) × (destroy_all fuel (heads t) m ≡ some (tt, m')) × Gone t m m'
  unfolding destroy_all
  destroy_all-Gone m fuel [] k n = (m, refl, (tt, λ q f. (refl, refl, refl, refl)))
  destroy_all-Gone m fuel (e ∷ t) k n =
      let one = llist_destroy-Freed m e.0 e.1 fuel k.0 n.0 in
      let m1 = one.0 in
      let clear =
        All-map (λ o. Apart (block e) (block o)) (λ o. Apart (block o) (block e)) t
          (λ o. Apart-swap (block e) (block o)) k.1 in
      let rest =
        destroy_all-Gone m1 fuel t (Buckets-spared m m1 (block e) t one.2.1 k.2 clear).0 n.1 in
      (
        rest.0,
        run_then _ _ m tt m1 _ one.1 rest.1,
        (
          (
            All-both (block e) one.2.0 (All-transpose (λ q o. Fresh q (block o)) (block e) t k.1)
                (λ q dead f. (rest.2.1 q f).0 ∙ dead),
            rest.2.0,
          ),
          λ q f. Same-trans m m1 rest.0 q (one.2.1 q f.0) (rest.2.1 q f.1),
        ),
      )
