-- ===== src/Recipes/Taken.antt =====
-- The heap after a node was taken out of a list and given back.
use mycode_c.Base.{
  false, some, List, [], ◌∷◌, ◌++◌, ◌≡◌, ◌≢◌, refl, sym, ◌∙◌, All, All-map, All-append, All-left,
  All-right,
}
use mycode_c.Llist.{Ptr, Heap, update}
use mycode_c.Llist.Links.{Fresh, update_ne}
use mycode_c.Llist.Ring.{Live, Same, Distinct-split, Distinct-join}
use mycode_c.Llist.Ring.Steps.{free_run}
use mycode_c.Recipes.{Recipe, free_recipe}
use mycode_c.Recipes.Chain.{
  Chain, Kept, last, last_has, Seg-join, Seg-split, Seg-relinked, relinked, relinked-Kept, Seg-Kept,
}
use mycode_c.Recipes.Find.{not_null}

-- The heap with a node given back, and with the node `c` that follows `a` taken out first.
abbrev pub freed : {A : Type 0} → Heap A → Ptr → Heap A
freed m c = record m { alive = update m.alive c false }

abbrev pub taken : {A : Type 0} → Heap A → Ptr → Ptr → Heap A
taken m a c = freed (relinked m a (m.next c)) c

pub freed-Kept :
    {A : Type 0} (m : Heap A) (c : Ptr) (qs : List Ptr) → Fresh c qs → All (Kept m (freed m c)) qs
freed-Kept m c [] f = tt
freed-Kept m c (q ∷ qs) f = ((update_ne m.alive c false q f.0, refl), freed-Kept m c qs f.1)

pub free_recipe_run :
    (m : Heap Recipe) (p : Ptr) → p ≢ 0 → Live m p → free_recipe p m ≡ some (tt, freed m p)
unfolding free_recipe
free_recipe_run m p n l = not_null _ _ m p n ∙ free_run m p l

module _ {A : Type 0} where
  pub taken-Chain :
      (m : Heap A) (p q : Ptr) (before : List Ptr) (c : Ptr) (after : List Ptr)
      → Chain m p (q ∷ before ++ c ∷ after)
      → Chain (taken m (last q before) c) p (q ∷ before ++ after)
  taken-Chain m p q before c after k =
      let s = Seg-split m p (q ∷ before) c after 0 k.0 in
      let d = Distinct-split (q ∷ before) (c ∷ after) k.1 in
      let l = last q before in
      let m1 = relinked m l (m.next c) in
      let clear = last_has (λ x. Fresh x (c ∷ after)) q before d.2 in
      let joined =
        Seg-join m1 p (q ∷ before) (m.next c) after 0
          (Seg-relinked m p q before c (m.next c) s.0 d.0)
          (Seg-Kept m m1 (m.next c) after 0 s.1.3 (relinked-Kept m l (m.next c) after clear.1)) in
      let others =
        All-append (λ x. c ≢ x) (q ∷ before) after
          (All-map (λ x. Fresh x (c ∷ after)) (λ x. c ≢ x) (q ∷ before) (λ x f e. f.0 (sym e)) d.2)
          d.1.0 in
      (
        Seg-Kept m1 (freed m1 c) p (q ∷ before ++ after) 0 joined
            (freed-Kept m1 c (q ∷ before ++ after) others),
        Distinct-join (q ∷ before) after d.0 d.1.1
            (All-map (λ x. Fresh x (c ∷ after)) (λ x. Fresh x after) (q ∷ before) (λ x f. f.1) d.2),
      )

  pub taken-Same :
      (m : Heap A) (p q : Ptr) (before : List Ptr) (c : Ptr) (after : List Ptr) (x : Ptr)
      → Fresh x (q ∷ before ++ c ∷ after)
      → Same m (taken m (last q before) c) x
  taken-Same m p q before c after x f =
      let front =
        last_has (λ y. x ≢ y) q before (f.0, All-left (λ y. x ≢ y) before (c ∷ after) f.1) in
      let back = All-right (λ y. x ≢ y) before (c ∷ after) f.1 in
      (
        update_ne m.alive c false x (λ e. back.0 (sym e)),
        update_ne m.next (last q before) (m.next c) x (λ e. front (sym e)),
        refl,
        refl,
      )
