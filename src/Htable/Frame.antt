-- ===== src/Htable/Frame.antt =====
-- Buckets that share no memory, and what a change of one of them leaves of the others.
use mycode_c.Base.{
  List, [], ◌∷◌, ◌++◌, map, ◌≡◌, ◌≢◌, sym, refl, ap, ap₂, ◌∙◌, All, All-map, All-left, All-right,
  All-append,
}
use mycode_c.Llist.{Ptr, Heap}
use mycode_c.Llist.Links.{Fresh, All-both, frame}
use mycode_c.Llist.Ring.{Ring, Same, Apart, Apart-swap, contents}

-- The bucket at an address, with its nodes.
abbrev pub Bucket : Type 0
Bucket = Ptr × List Ptr

abbrev pub block : Bucket → List Ptr
block e = e.0 ∷ e.1

-- Every bucket is a ring, and no two of them share memory.
abbrev pub Buckets : {A : Type 0} → Heap A → List Bucket → Type 0
Buckets m [] = Unit {0}
Buckets m (e ∷ t) = Ring m e.0 e.1 × All (λ o. Apart (block e) (block o)) t × Buckets m t

-- The data in each bucket.
abbrev pub rows : {A : Type 0} → Heap A → List Bucket → List (List A)
rows m t = map (λ e. contents m e.1) t

module _ {A : Type 0} where
  -- A ring none of whose addresses changed is still one, with the same data.
  pub Ring-Same :
      (m m' : Heap A) (h : Ptr) (ps : List Ptr)
      → Ring m h ps
      → All (Same m m') (h ∷ ps)
      → Ring m' h ps
  Ring-Same m m' h ps r s = (
    frame m.next m.prev m'.next m'.prev h ps h r.0
        (All-map (Same m m') (λ x. m'.next x ≡ m.next x) (h ∷ ps) (λ x k. k.1) s)
        (All-map (Same m m') (λ x. m'.prev x ≡ m.prev x) ps (λ x k. k.2) s.1) s.0.2,
    r.1,
    All-both (h ∷ ps) s r.2 (λ x k l. k.0 ∙ l),
  )

  pub contents-Same :
      (m m' : Heap A) (ps : List Ptr) → All (Same m m') ps → contents m' ps ≡ contents m ps
  contents-Same m m' [] s = refl
  contents-Same m m' (p ∷ ps) s = ap₂ (λ x xs. x ∷ xs) s.0.3 (contents-Same m m' ps s.1)

  -- What a change says of memory: nothing moved but at the addresses `used`.
  abbrev pub Spares : List Ptr → Heap A → Heap A → Type 0
  Spares used m m' = (q : Ptr) → Fresh q used → Same m m' q

  pub Buckets-spared :
      (m m' : Heap A) (used : List Ptr) (t : List Bucket)
      → Spares used m m'
      → Buckets m t
      → All (λ o. Apart (block o) used) t
      → Buckets m' t × (rows m' t ≡ rows m t)
  Buckets-spared m m' used [] s k c = (tt, refl)
  Buckets-spared m m' used (e ∷ t) s k c =
      let kept = All-map (λ x. Fresh x used) (Same m m') (block e) s c.0 in
      let rest = Buckets-spared m m' used t s k.2 c.1 in
      (
        (Ring-Same m m' e.0 e.1 k.0 kept, k.1, rest.0),
        ap₂ (λ x xs. x ∷ xs) (contents-Same m m' e.1 kept.1) rest.1,
      )

  -- One bucket changed, with the new address `got`, and the others as they were.
  pub bucket_changed :
      (m m' : Heap A) (got b : Ptr) (ps qs : List Ptr) (l r : List Bucket)
      → Spares (got ∷ b ∷ ps) m m'
      → Ring m' b qs
      → ((P : Ptr → Type 0) → P got → All P ps → All P qs)
      → All (λ o. Fresh got (block o)) (l ++ r)
      → Buckets m (l ++ (b, ps) ∷ r)
      → Buckets m' (l ++ (b, qs) ∷ r)
        × (rows m' (l ++ (b, qs) ∷ r) ≡ rows m l ++ contents m' qs ∷ rows m r)
  bucket_changed m m' got b ps qs [] r s ring cover new k =
      let rest =
        Buckets-spared m m' (got ∷ b ∷ ps) r s k.2
          (All-both r new k.1 (λ o f a. Apart-swap (got ∷ b ∷ ps) (block o) (f, a))) in
      (
        (ring, All-both r new k.1 (λ o f a. (a.0, cover (λ x. Fresh x (block o)) f a.1)), rest.0),
        ap (λ t. contents m' qs ∷ t) rest.1,
      )
  bucket_changed m m' got b ps qs (e ∷ l) r s ring cover new k =
      let rest = bucket_changed m m' got b ps qs l r s ring cover new.1 k.2 in
      let apart = All-right (λ o. Apart (block e) (block o)) l ((b, ps) ∷ r) k.1 in
      let clear : Apart (block e) (got ∷ b ∷ ps) =
        All-both (block e) new.0 apart.0 (λ x d f. ((λ q. d (sym q)), f)) in
      let kept = All-map (λ x. Fresh x (got ∷ b ∷ ps)) (Same m m') (block e) s clear in
      (
        (
          Ring-Same m m' e.0 e.1 k.0 kept,
          All-append (λ o. Apart (block e) (block o)) l ((b, qs) ∷ r)
              (All-left (λ o. Apart (block e) (block o)) l ((b, ps) ∷ r) k.1)
              (
                All-map (λ x. Fresh x (got ∷ b ∷ ps)) (λ x. Fresh x (b ∷ qs)) (block e)
                    (λ x f. (f.1.0, cover (λ y. x ≢ y) f.0 f.1.1)) clear,
                apart.1,
              ),
          rest.0,
        ),
        ap₂ (λ x xs. x ∷ xs) (contents-Same m m' e.1 kept.1) rest.1,
      )
