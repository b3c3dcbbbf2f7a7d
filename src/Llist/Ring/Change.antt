-- ===== src/Llist/Ring/Change.antt =====
-- What linking a node in and taking one out make of a ring.
use mycode_c.Base.{Bool, some, List, [], ◌∷◌, map, ◌≡◌, ◌≢◌, sym, refl, ap₂, ◌∙◌, subst, All}
use mycode_c.Base.Int.{pos}
use mycode_c.Llist.{Ptr, Heap, update, link, unlink}
use mycode_c.Llist.Links.{
  Links, All-both, Fresh, update_ne, update_both, first_of, last_of, link-Links, unlink-Links,
}
use mycode_c.Llist.Ring.{Ring, Live, Same, contents}
use mycode_c.Llist.Ring.Steps.{linked, unlinked, link_run, unlink_run}

module _ {A : Type 0} where
  -- Every node's neighbour in a ring has what all of them have.
  pub next_has :
      (m : Heap A) (P : Ptr → Type 0) (h : Ptr) (ps : List Ptr)
      → Ring m h ps
      → All P (h ∷ ps)
      → P (m.next h)
  next_has m P h ps r k = first_of m.next m.prev P h ps h r.0 k.1 k.0

  pub prev_has :
      (m : Heap A) (P : Ptr → Type 0) (h : Ptr) (ps : List Ptr)
      → Ring m h ps
      → All P (h ∷ ps)
      → P (m.prev h)
  prev_has m P h ps r k = last_of m.next m.prev P h ps h r.0 k

  pub linked-Ring :
      (m : Heap A) (new p : Ptr) (ps : List Ptr)
      → Ring m p ps
      → Fresh new (p ∷ ps)
      → Live m new
      → Ring (linked m new p) p (new ∷ ps)
  linked-Ring m new p ps r f l = (
    link-Links m.next m.prev new p (m.next p) ps refl r.0 r.1 f,
    (((λ e. f.0 (sym e)), r.1.0), (f.1, r.1.1)),
    (r.2.0, (l, r.2.1)),
  )

  pub link-runs :
      (m : Heap A) (new p : Ptr) (ps : List Ptr)
      → Ring m p ps
      → Fresh new (p ∷ ps)
      → Live m new
      → link new p m ≡ some (pos 0, linked m new p)
  link-runs m new p ps r f l = link_run m new p f.0 l r.2.0 (next_has m (Live m) p ps r r.2)

  pub linked-Same :
      (m : Heap A) (new p : Ptr) (ps : List Ptr)
      → Ring m p ps
      → (q : Ptr) → Fresh q (new ∷ p ∷ ps)
      → Same m (linked m new p) q
  linked-Same m new p ps r q f =
      let ends = next_has m (λ x. q ≢ x) p ps r f.1 in
      (
        refl,
        update_both m.next new p (m.next p) new q (λ e. f.0 (sym e)) (λ e. f.1.0 (sym e)),
        update_both m.prev new (m.next p) p new q (λ e. f.0 (sym e)) (λ e. ends (sym e)),
        refl,
      )

  pub unlinked-Ring :
      (m : Heap A) (cur c : Ptr) (cs : List Ptr) → Ring m cur (c ∷ cs) → Ring (unlinked m cur) c cs
  unlinked-Ring m cur c cs r = (
    subst (λ x. Links (update m.next (m.prev cur) x) (update m.prev x (m.prev cur)) c cs c)
        (sym r.0.0) (unlink-Links m.next m.prev cur c cs r.0 r.1.1),
    r.1.1,
    r.2.1,
  )

  pub unlink-runs :
      (m : Heap A) (cur c : Ptr) (cs : List Ptr)
      → Ring m cur (c ∷ cs)
      → unlink cur m ≡ some (tt, unlinked m cur)
  unlink-runs m cur c cs r =
      unlink_run m cur (λ e. r.1.0.0 (sym e ∙ r.0.0)) r.2.0 (next_has m (Live m) cur (c ∷ cs) r r.2)
        (prev_has m (Live m) cur (c ∷ cs) r r.2)

  pub unlinked-Same :
      (m : Heap A) (cur c : Ptr) (cs : List Ptr)
      → Ring m cur (c ∷ cs)
      → (q : Ptr) → Fresh q (cur ∷ c ∷ cs)
      → Same m (unlinked m cur) q
  unlinked-Same m cur c cs r q f =
      let before = prev_has m (λ x. q ≢ x) cur (c ∷ cs) r f in
      let after = next_has m (λ x. q ≢ x) cur (c ∷ cs) r f in
      (
        refl,
        update_ne m.next (m.prev cur) (m.next cur) q (λ e. before (sym e)),
        update_ne m.prev (m.next cur) (m.prev cur) q (λ e. after (sym e)),
        refl,
      )

  -- A change of the nodes' allocation or data that the ring does not see.
  pub Ring-alive :
      (m : Heap A) (p : Ptr) (b : Bool) (h : Ptr) (ps : List Ptr)
      → Fresh p (h ∷ ps)
      → Ring m h ps
      → Ring (record m { alive = update m.alive p b }) h ps
  Ring-alive m p b h ps f r =
      (r.0, r.1, All-both (h ∷ ps) f r.2 (λ x d l. update_ne m.alive p b x d ∙ l))

  pub contents-Fresh :
      (m : Heap A) (p : Ptr) (x : A) (ps : List Ptr)
      → Fresh p ps
      → map (update m.data' p x) ps ≡ contents m ps
  contents-Fresh m p x [] f = refl
  contents-Fresh m p x (q ∷ qs) f =
      ap₂ (λ y ys. y ∷ ys) (update_ne m.data' p x q f.0) (contents-Fresh m p x qs f.1)
