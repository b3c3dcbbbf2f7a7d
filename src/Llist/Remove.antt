-- ===== src/Llist/Remove.antt =====
-- What taking the first node that passes out of a ring does, for `llist_delete`, `llist_fetch` and `llist_destroy`.
use mycode_c.Base.{
  Bool, true, false, none, some, List, [], ◌∷◌, ◌++◌, map, append-nil, ◌≡◌, ◌≢◌, inl, inr, sym,
  refl, ap, ◌∙◌, subst, arith, All, if◌then◌else◌, Bool-cases,
}
use mathlib.Core.Option.{some-injective}
use mycode_c.Llist.{Ptr, Heap, update, unlink}
use mycode_c.Llist.Links.{Fresh, update_ne, update_self}
use mycode_c.Llist.Ring.{Ring, Ring-rotate, All-rotate, Live, Same, contents}
use mycode_c.Llist.Ring.Steps.{unlinked}
use mycode_c.Llist.Ring.Change.{unlinked-Ring, unlink-runs, unlinked-Same, Ring-alive}
use mycode_c.Llist.Find.{search}

-- A list without the first element that passes.
unfoldable pub erase {ℓ} : {A : Type ℓ} → (A → Bool) → List A → List A
erase f [] = []
erase f (x ∷ xs) = if f x then xs else x ∷ erase f xs

module _ {A : Type 0} where
  pub map-erase :
      (f : A → Bool) (g : Ptr → A) (ps : List Ptr)
      → map g (erase (λ p. f (g p)) ps) ≡ erase f (map g ps)
  unfolding erase
  map-erase f g [] = refl
  map-erase f g (p ∷ ps) = elim (Bool-cases (f (g p))) [
    | inl e ↦ rw (e) refl
    | inr e ↦ rw (e) (ap (λ t. g p ∷ t) (map-erase f g ps))
  ]

pub search_hit :
    (f : Ptr → Bool) (q : Ptr) (qs : List Ptr) → f q ≡ true → search f (q ∷ qs) ≡ some q
unfolding search
search_hit f q qs t = ap (λ b. if b then some q else search f qs) t

pub search_miss :
    (f : Ptr → Bool) (q : Ptr) (qs : List Ptr) → f q ≡ false → search f (q ∷ qs) ≡ search f qs
unfolding search
search_miss f q qs t = ap (λ b. if b then some q else search f qs) t

-- The element found, with what stands before and after it.
pub found_at :
    (f : Ptr → Bool) (ps : List Ptr) (p : Ptr)
    → search f ps ≡ some p
    → (before : List Ptr) × (after : List Ptr) × (ps ≡ before ++ p ∷ after)
      × (erase f ps ≡ before ++ after)
unfolding search erase
found_at f [] p e = absurd (ground arith)
found_at f (q ∷ qs) p e = elim (Bool-cases (f q)) [
  | inl t ↦ (
    [],
    qs,
    ap (λ z. z ∷ qs) (some-injective q p (sym (search_hit f q qs t) ∙ e)),
    ap (λ b. if b then qs else q ∷ erase f qs) t,
  )
  | inr t ↦
      let rest = found_at f qs p (sym (search_miss f q qs t) ∙ e) in
      (
        q ∷ rest.0,
        rest.1,
        ap (λ z. q ∷ z) rest.2,
        ap (λ b. if b then qs else q ∷ erase f qs) t ∙ ap (λ z. q ∷ z) rest.3,
      )
]

pub both_ends : {p : Ptr} → none ≢ some p
both_ends e = ground arith

no_hit : (f : Ptr → Bool) (p : Ptr) (ps : List Ptr) → search f (p ∷ ps) ≡ none → f p ≢ true
no_hit f p ps e t = both_ends (sym e ∙ search_hit f p ps t)

pub kept : (f : Ptr → Bool) (ps : List Ptr) → search f ps ≡ none → erase f ps ≡ ps
unfolding search erase
kept f [] e = refl
kept f (p ∷ ps) e = elim (Bool-cases (f p)) [
  | inl t ↦ absurd (no_hit f p ps e t)
  | inr t ↦
      ap (λ b. if b then ps else p ∷ erase f ps) t
      ∙ ap (λ z. p ∷ z) (kept f ps (sym (search_miss f p ps t) ∙ e))
]

module _ {A : Type 0} where
  -- The heap with a node taken out and given back.
  abbrev pub released : Heap A → Ptr → Heap A
  released m cur = let m' = unlinked m cur in record m' { alive = update m'.alive cur false }

  pub released-Ring :
      (m : Heap A) (cur c : Ptr) (cs : List Ptr) → Ring m cur (c ∷ cs) → Ring (released m cur) c cs
  released-Ring m cur c cs r =
      Ring-alive (unlinked m cur) cur false c cs r.1.0 (unlinked-Ring m cur c cs r)

  pub released-Same :
      (m : Heap A) (cur c : Ptr) (cs : List Ptr)
      → Ring m cur (c ∷ cs)
      → (q : Ptr) → Fresh q (cur ∷ c ∷ cs)
      → Same m (released m cur) q
  released-Same m cur c cs r q f =
      let s = unlinked-Same m cur c cs r q f in
      (update_ne m.alive cur false q (λ e. f.0 (sym e)), s.1, s.2, s.3)

  -- What a removal of the first node that passes leaves, from the handle.
  abbrev pub Removed : (h : Ptr) → (A → Bool) → List Ptr → Heap A → Heap A → Type 0
  Removed h cmp ps m m' =
      let f = λ (p : Ptr). cmp (m.data' p) in
      Ring m' h (erase f ps)
      × (contents m' (erase f ps) ≡ erase cmp (contents m ps))
      × ((p : Ptr) → search f ps ≡ some p → m'.alive p ≡ false)
      × ((q : Ptr) → Fresh q (h ∷ ps) → Same m m' q)

  -- A node that was found is the entry of a ring that is not empty, and so the two calls run.
  pub entered :
      (m : Heap A) (h : Ptr) (before : List Ptr) (cur : Ptr) (after : List Ptr)
      → Ring m h (before ++ cur ∷ after)
      → (c : Ptr) × (cs : List Ptr) × Ring m cur (c ∷ cs)
        × (Ring (released m cur) h (before ++ after))
        × ((P : Ptr → Type 0) → All P (h ∷ before ++ cur ∷ after) → All P (cur ∷ c ∷ cs))
  entered m h before cur [] r =
      let turned = Ring-rotate m h before cur [] r in
      (
        h,
        before,
        turned,
        subst (Ring (released m cur) h) (sym (append-nil before))
            (released-Ring m cur h before turned),
        λ P. All-rotate P h before cur [],
      )
  entered m h before cur (a ∷ after) r =
      let turned = Ring-rotate m h before cur (a ∷ after) r in
      (
        a,
        after ++ h ∷ before,
        turned,
        Ring-rotate (released m cur) a after h before
            (released-Ring m cur a (after ++ h ∷ before) turned),
        λ P. All-rotate P h before cur (a ∷ after),
      )

  pub nothing-Removed :
      (m : Heap A) (h : Ptr) (cmp : A → Bool) (ps : List Ptr)
      → Ring m h ps
      → search (λ p. cmp (m.data' p)) ps ≡ none
      → Removed h cmp ps m m
  nothing-Removed m h cmp ps r e = (
    subst (Ring m h) (sym (kept (λ p. cmp (m.data' p)) ps e)) r,
    map-erase cmp m.data' ps,
    (λ p e'. absurd (both_ends (sym e ∙ e'))),
    λ q f. (refl, refl, refl, refl),
  )

  pub one-Removed :
      (m : Heap A) (h : Ptr) (cmp : A → Bool) (ps : List Ptr) (cur : Ptr)
      → Ring m h ps
      → search (λ p. cmp (m.data' p)) ps ≡ some cur
      → Removed h cmp ps m (released m cur)
        × (unlink cur m ≡ some (tt, unlinked m cur))
        × Live m cur
  one-Removed m h cmp ps cur r e =
      let f = λ (p : Ptr). cmp (m.data' p) in
      let at = found_at f ps cur e in
      let in' = entered m h at.0 cur at.1 (subst (Ring m h) at.2 r) in
      (
        (
          subst (Ring (released m cur) h) (sym at.3) in'.3,
          map-erase cmp m.data' ps,
          (λ p e'.
              subst (λ z. (released m cur).alive z ≡ false) (some-injective cur p (sym e ∙ e'))
                (update_self m.alive cur false)),
          λ q fr.
              released-Same m cur in'.0 in'.1 in'.2 q
                (in'.4 (λ z. q ≢ z) (subst (λ t. Fresh q (h ∷ t)) at.2 fr)),
        ),
        unlink-runs m cur in'.0 in'.1 in'.2,
        in'.2.2.0,
      )
