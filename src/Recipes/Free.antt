-- ===== src/Recipes/Free.antt =====
-- The loop of `main` in c+ds/main.c that frees a list.
use mycode_c.Base.{
  ℕ, zero, suc, ◌<◌, false, some, List, [], ◌∷◌, length, ◌≡◌, refl, sym, ◌∙◌, subst, arith, All,
}
use mycode_c.Llist.{Ptr, Heap}
use mycode_c.Llist.Links.{Fresh, update_self, update_ne}
use mycode_c.Llist.Ring.{Same}
use mycode_c.Llist.Ring.Steps.{run_then, get_next_run, free_run}
use mycode_c.Llist.Insert.{Same-trans}
use mycode_c.Recipes.{Recipe}
use mycode_c.Recipes.Lists.{free_all}
use mycode_c.Recipes.Chain.{Chain, Seg-Kept}
use mycode_c.Recipes.Find.{not_null}
use mycode_c.Recipes.Taken.{freed, freed-Kept}

-- On a whole list, with one step of fuel more than there are nodes, the loop ends, having freed every node, each once;
-- memory outside the list is as it was.
pub free_all-Freed :
    (m : Heap Recipe) (p : Ptr) (ps : List Ptr) (fuel : ℕ)
    → Chain m p ps
    → length ps < fuel
    → (m' : Heap Recipe) × (free_all fuel p m ≡ some (tt, m'))
      × All (λ q. m'.alive q ≡ false) ps
      × ((q : Ptr) → Fresh q ps → Same m m' q)
unfolding free_all
free_all-Freed m p ps zero k n = absurd (omega (arith, n))
free_all-Freed m p [] (suc fuel) k n = (
  m,
  subst (λ x. free_all (suc fuel) x m ≡ some (tt, m)) (sym k.0) refl,
  tt,
  λ q f. (refl, refl, refl, refl),
)
free_all-Freed m p (q ∷ qs) (suc fuel) k n =
    let m1 = freed m q in
    let rest =
      free_all-Freed m1 (m.next q) qs fuel
        (Seg-Kept m m1 (m.next q) qs 0 k.0.3 (freed-Kept m q qs k.1.0), k.1.1) (omega (arith, n)) in
    (
      rest.0,
      subst (λ x. free_all (suc fuel) x m ≡ some (tt, rest.0)) (sym k.0.0)
          (not_null _ _ m q k.0.1
            ∙ run_then _ _ m (m.next q) m _ (get_next_run m q _ k.0.2 refl)
                (run_then _ _ m tt m1 _ (free_run m q k.0.2) rest.1)),
      ((rest.3 q k.1.0).0 ∙ update_self m.alive q false, rest.2),
      λ x f.
          Same-trans m m1 rest.0 x
            (update_ne m.alive q false x (λ e. f.0 (sym e)), refl, refl, refl) (rest.3 x f.1),
    )
