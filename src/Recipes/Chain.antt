-- ===== src/Recipes/Chain.antt =====
-- Lists linked by `next` and ended by NULL: what the list of the nodes' addresses says of the heap.
use mycode_c.Base.{List, [], ◌∷◌, ◌++◌, ◌≡◌, ◌≢◌, refl, sym, ◌∙◌, subst, All}
use mycode_c.Llist.{Ptr, Heap, update}
use mycode_c.Llist.Links.{Fresh, Distinct, update_self, update_ne}
use mycode_c.Llist.Ring.{Live}

-- From `p` the nodes `ps` follow each other and then `z`; all are allocated and none is NULL.
abbrev pub Seg : {A : Type 0} → Heap A → Ptr → List Ptr → Ptr → Type 0
Seg m p [] z = p ≡ z
Seg m p (q ∷ qs) z = (p ≡ q) × (q ≢ 0) × Live m q × Seg m (m.next q) qs z

-- A whole list, at a head pointer.
abbrev pub Chain : {A : Type 0} → Heap A → Ptr → List Ptr → Type 0
Chain m p ps = Seg m p ps 0 × Distinct ps

-- The last node of a list that starts with `q`.
abbrev pub last : Ptr → List Ptr → Ptr
last q [] = q
last q (r ∷ rs) = last r rs

pub last_has : (P : Ptr → Type 0) (q : Ptr) (qs : List Ptr) → All P (q ∷ qs) → P (last q qs)
last_has P q [] a = a.0
last_has P q (r ∷ rs) a = last_has P r rs a.1

module _ {A : Type 0} where
  -- Changes that the nodes of a segment do not see.
  abbrev pub Kept : Heap A → Heap A → Ptr → Type 0
  Kept m m' q = (m'.alive q ≡ m.alive q) × (m'.next q ≡ m.next q)

  pub Seg-Kept :
      (m m' : Heap A) (p : Ptr) (ps : List Ptr) (z : Ptr)
      → Seg m p ps z
      → All (Kept m m') ps
      → Seg m' p ps z
  Seg-Kept m m' p [] z s k = s
  Seg-Kept m m' p (q ∷ qs) z s k = (
    s.0,
    s.1,
    k.0.0 ∙ s.2,
    subst (λ x. Seg m' x qs z) (sym k.0.1) (Seg-Kept m m' (m.next q) qs z s.3 k.1),
  )

  pub Seg-Live : (m : Heap A) (p : Ptr) (ps : List Ptr) (z : Ptr) → Seg m p ps z → All (Live m) ps
  Seg-Live m p [] z s = tt
  Seg-Live m p (q ∷ qs) z s = (s.2, Seg-Live m (m.next q) qs z s.3)

  pub Seg-split :
      (m : Heap A) (p : Ptr) (ps : List Ptr) (c : Ptr) (qs : List Ptr) (z : Ptr)
      → Seg m p (ps ++ c ∷ qs) z
      → Seg m p ps c × Seg m c (c ∷ qs) z
  Seg-split m p [] c qs z s = (s.0, (refl, s.1, s.2, s.3))
  Seg-split m p (q ∷ ps) c qs z s =
      let both = Seg-split m (m.next q) ps c qs z s.3 in ((s.0, s.1, s.2, both.0), both.1)

  pub Seg-join :
      (m : Heap A) (p : Ptr) (ps : List Ptr) (y : Ptr) (qs : List Ptr) (z : Ptr)
      → Seg m p ps y
      → Seg m y qs z
      → Seg m p (ps ++ qs) z
  Seg-join m p [] y qs z s t = subst (λ x. Seg m x qs z) (sym s) t
  Seg-join m p (q ∷ ps) y qs z s t = (s.0, s.1, s.2, Seg-join m (m.next q) ps y qs z s.3 t)

  -- The write that lets a segment end at `x`.
  abbrev pub relinked : Heap A → Ptr → Ptr → Heap A
  relinked m l x = record m { next = update m.next l x }

  pub Seg-relinked :
      (m : Heap A) (p q : Ptr) (qs : List Ptr) (z x : Ptr)
      → Seg m p (q ∷ qs) z
      → Distinct (q ∷ qs)
      → Seg (relinked m (last q qs) x) p (q ∷ qs) x
  Seg-relinked m p q [] z x s d = (s.0, s.1, s.2, update_self m.next q x)
  Seg-relinked m p q (r ∷ rs) z x s d =
      let l = last r rs in
      let apart = last_has (λ y. q ≢ y) r rs d.0 in
      (
        s.0,
        s.1,
        s.2,
        subst (λ y. Seg (relinked m l x) y (r ∷ rs) x)
            (sym (update_ne m.next l x q (λ e. apart (sym e))))
            (Seg-relinked m (m.next q) r rs z x s.3 d.1),
      )

  -- Nodes that are not the one written.
  pub relinked-Kept :
      (m : Heap A) (l x : Ptr) (qs : List Ptr) → Fresh l qs → All (Kept m (relinked m l x)) qs
  relinked-Kept m l x [] f = tt
  relinked-Kept m l x (q ∷ qs) f = ((refl, update_ne m.next l x q f.0), relinked-Kept m l x qs f.1)

  -- The head of a list that is not empty is not NULL.
  pub head_of : (m : Heap A) (p q : Ptr) (qs : List Ptr) (z : Ptr) → Seg m p (q ∷ qs) z → p ≢ 0
  head_of m p q qs z s e = s.1 (sym s.0 ∙ e)
