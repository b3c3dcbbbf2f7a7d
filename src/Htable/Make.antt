-- ===== src/Htable/Make.antt =====
-- The loop of `htable_create` that makes the buckets.
use mycode_c.Base.{
  ℕ, zero, suc, false, Option, none, some, List, [], ◌∷◌, ◌++◌, length, append_assoc, append-nil,
  ◌≡◌, ◌≢◌, sym, refl, ap, ◌∙◌, subst, ◌<◌, arith, All, All-map, All-append, All-right,
  if◌then◌else◌, ==_ne,
}
use mycode_c.Llist.{Ptr, Heap, llist_create, pure, ◌>>◌}
use mycode_c.Llist.Links.{Fresh, Distinct}
use mycode_c.Llist.Ring.{first_new, Ring, Same, Apart, Apart-swap}
use mycode_c.Llist.Ring.Steps.{run_then}
use mycode_c.Llist.Create.{llist_create-Ring, llist_create_null}
use mycode_c.Llist.Insert.{Same-trans}
use mycode_c.Htable.{destroy_all, make_buckets}
use mycode_c.Htable.Frame.{Bucket, block, Buckets, Buckets-spared}
use mycode_c.Htable.Table.{heads}
use mycode_c.Htable.Create.{destroy_all-Gone}

-- Buckets with no nodes.
abbrev pub empties : List Ptr → List Bucket
empties [] = []
empties (p ∷ ps) = (p, []) ∷ empties ps

pub heads-empties : (ps : List Ptr) → heads (empties ps) ≡ ps
heads-empties [] = refl
heads-empties (p ∷ ps) = ap (λ t. p ∷ t) (heads-empties ps)

empties-append : (ps qs : List Ptr) → empties (ps ++ qs) ≡ empties ps ++ empties qs
empties-append [] qs = refl
empties-append (p ∷ ps) qs = ap (λ t. (p, []) ∷ t) (empties-append ps qs)

clear_of : (x : Ptr) (ps : List Ptr) → Fresh x ps → All (λ e. Fresh x (block e)) (empties ps)
clear_of x [] f = tt
clear_of x (p ∷ ps) f = ((f.0, tt), clear_of x ps f.1)

short : (fuel : ℕ) (ps : List Ptr) → 0 < fuel → All (λ e. length e.1 < fuel) (empties ps)
short fuel [] n = tt
short fuel (p ∷ ps) n = (n, short fuel ps n)

module _ {A : Type 0} where
  Buckets-snoc :
      (m : Heap A) (t : List Bucket) (g : Ptr)
      → Buckets m t
      → Ring m g []
      → All (λ o. Fresh g (block o)) t
      → Buckets m (t ++ (g, []) ∷ [])
  Buckets-snoc m [] g k r f = (r, tt, tt)
  Buckets-snoc m (e ∷ t) g k r f = (
    k.0,
    All-append (λ o. Apart (block e) (block o)) t ((g, []) ∷ []) k.1
        (Apart-swap (g ∷ []) (block e) (f.0, tt), tt),
    Buckets-snoc m t g k.2 r f.1,
  )

  -- One more bucket.
  created :
      (m : Heap A) (made : List Ptr) (g : Ptr)
      → g ≢ 0
      → Fresh g made
      → Buckets m (empties made)
      → (m' : Heap A) × (llist_create g m ≡ some (g, m'))
        × Buckets m' (empties (made ++ g ∷ []))
        × ((q : Ptr) → q ≢ g → Same m m' q)
  created m made g z f k =
      let new = llist_create-Ring m g z in
      let clear = clear_of g made f in
      let kept =
        Buckets-spared m new.0 (g ∷ []) (empties made) (λ q d. new.3 q d.0) k
          (All-map (λ o. Fresh g (block o)) (λ o. Apart (block o) (g ∷ [])) (empties made)
            (λ o d. Apart-swap (g ∷ []) (block o) (d, tt)) clear) in
      (
        new.0,
        new.1,
        subst (Buckets new.0) (sym (empties-append made (g ∷ [])))
            (Buckets-snoc new.0 (empties made) g kept.0 new.2 clear),
        new.3,
      )

  make_step :
      (fuel n : ℕ) (made : List Ptr) (g : Ptr) (gs : List Ptr) (m m' : Heap A)
      (r : Option (Option (List Ptr) × Heap A))
      → g ≢ 0
      → llist_create g m ≡ some (g, m')
      → make_buckets fuel n (made ++ g ∷ []) gs m' ≡ r
      → make_buckets fuel (suc n) made (g ∷ gs) m ≡ r
  unfolding make_buckets
  make_step fuel n made g gs m m' r z e k = run_then _ _ m g m' _ e (
      ap
        (λ b.
          (if b
              then (destroy_all fuel made >> pure none)
              else make_buckets fuel n (made ++ g ∷ []) gs)
            m')
        (==_ne g 0 z)
      ∙ k)

  -- With memory at new addresses for every bucket the loop makes them all.
  pub make_buckets-Buckets :
      (m : Heap A) (fuel : ℕ) (made gots : List Ptr)
      → All (λ g. g ≢ 0) gots
      → Distinct (made ++ gots)
      → Buckets m (empties made)
      → (m' : Heap A) × (make_buckets fuel (length gots) made gots m
          ≡ some (some (made ++ gots), m'))
        × Buckets m' (empties (made ++ gots))
        × ((q : Ptr) → Fresh q gots → Same m m' q)
  unfolding make_buckets
  make_buckets-Buckets m fuel made [] z d k = (
    m,
    ap (λ t. some (some t, m)) (sym (append-nil made)),
    subst (λ t. Buckets m (empties t)) (sym (append-nil made)) k,
    λ q f. (refl, refl, refl, refl),
  )
  make_buckets-Buckets m fuel made (g ∷ gs) z d k =
      let one = created m made g z.0 (first_new made g gs d) k in
      let shape = append_assoc made (g ∷ []) gs in
      let rest =
        make_buckets-Buckets one.0 fuel (made ++ g ∷ []) gs z.1 (subst Distinct (sym shape) d)
          one.2 in
      (
        rest.0,
        make_step fuel (length gs) made g gs m one.0 _ z.0 one.1
            (rest.1 ∙ ap (λ t. some (some t, rest.0)) shape),
        subst (λ t. Buckets rest.0 (empties t)) shape rest.2,
        λ q f. Same-trans m one.0 rest.0 q (one.3 q f.0) (rest.3 q f.1),
      )

  -- When memory gives out, the buckets made so far are given back.
  pub make_buckets-Gone :
      (m : Heap A) (fuel n : ℕ) (made good gots : List Ptr)
      → All (λ g. g ≢ 0) good
      → Distinct (made ++ good)
      → Buckets m (empties made)
      → length good < n
      → 0 < fuel
      → (m' : Heap A) × (make_buckets fuel n made (good ++ 0 ∷ gots) m ≡ some (none, m'))
        × All (λ q. m'.alive q ≡ false) (made ++ good)
        × ((q : Ptr) → Fresh q (made ++ good) → Same m m' q)
  unfolding make_buckets
  make_buckets-Gone m fuel zero made good gots z d k n f = absurd (omega (arith, n))
  make_buckets-Gone m fuel (suc n) made [] gots z d k l f =
      let gone = destroy_all-Gone m fuel (empties made) k (short fuel made f) in
      (
        gone.0,
        run_then _ _ m 0 m _ (llist_create_null m) (
            run_then _ _ m tt gone.0 _
              (ap (λ t. destroy_all fuel t m) (sym (heads-empties made)) ∙ gone.1) refl),
        subst (All (λ q. gone.0.alive q ≡ false)) (sym (append-nil made))
            (dead_heads gone.0 made gone.2.0),
        λ q fr. gone.2.1 q (clear_of q made (subst (Fresh q) (append-nil made) fr)),
      )
    where
      dead_heads :
          (m' : Heap A) (ps : List Ptr)
          → All (λ e. All (λ q. m'.alive q ≡ false) (block e)) (empties ps)
          → All (λ q. m'.alive q ≡ false) ps
      dead_heads m' [] a = tt
      dead_heads m' (p ∷ ps) a = (a.0.0, dead_heads m' ps a.1)
  make_buckets-Gone m fuel (suc n) made (g ∷ good) gots z d k l f =
      let one = created m made g z.0 (first_new made g good d) k in
      let shape = append_assoc made (g ∷ []) good in
      let rest =
        make_buckets-Gone one.0 fuel n (made ++ g ∷ []) good gots z.1 (subst Distinct (sym shape) d)
          one.2 (omega (arith, l)) f in
      (
        rest.0,
        make_step fuel n made g (good ++ 0 ∷ gots) m one.0 _ z.0 one.1 rest.1,
        subst (All (λ q. rest.0.alive q ≡ false)) shape rest.2,
        λ q fr.
            Same-trans m one.0 rest.0 q (one.3 q (All-right (λ y. q ≢ y) made (g ∷ good) fr).0)
              (rest.3 q (subst (Fresh q) (sym shape) fr)),
      )
