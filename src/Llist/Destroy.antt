-- ===== src/Llist/Destroy.antt =====
-- `llist_destroy`.
use mycode_c.Base.{
  ◌≢◌, ℕ, zero, suc, false, some, List, [], ◌∷◌, length, ◌≡◌, sym, refl, ◌∙◌, subst, ◌<◌, arith,
  All,
}
use mycode_c.Llist.{Ptr, Heap, update, destroy_from, llist_destroy}
use mycode_c.Llist.Links.{Fresh, update_self, update_ne}
use mycode_c.Llist.Ring.{Same, Ring}
use mycode_c.Llist.Ring.Steps.{run_then, get_next_run, free_run, unlinked}
use mycode_c.Llist.Ring.Change.{unlink-runs}
use mycode_c.Llist.Insert.{Same-trans}
use mycode_c.Llist.Find.{at_head, past_head}
use mycode_c.Llist.Remove.{released, released-Same, entered}

module _ {A : Type 0} where
  -- What is left of the list's memory.
  abbrev pub Freed : (h : Ptr) → List Ptr → Heap A → Heap A → Type 0
  Freed h ps m m' =
      All (λ q. m'.alive q ≡ false) (h ∷ ps) × ((q : Ptr) → Fresh q (h ∷ ps) → Same m m' q)

  -- The first node freed, and then what is left of the list.
  Freed-cons :
      (m : Heap A) (h p : Ptr) (ps : List Ptr) (m' : Heap A)
      → Fresh p (h ∷ ps)
      → ((q : Ptr) → Fresh q (h ∷ p ∷ ps) → Same m (released m p) q)
      → Freed h ps (released m p) m'
      → Freed h (p ∷ ps) m m'
  Freed-cons m h p ps m' d s f = (
    (f.0.0, ((f.1 p d).0 ∙ update_self m.alive p false, f.0.1)),
    λ q g. Same-trans m (released m p) m' q (s q g) (f.1 q (g.0, g.1.1)),
  )

  destroy_from-Freed :
      (m : Heap A) (h cur : Ptr) (ps : List Ptr) (fuel : ℕ)
      → Ring m h ps
      → m.next h ≡ cur
      → length ps < fuel
      → (m' : Heap A) × (destroy_from fuel h cur m ≡ some (tt, m')) × Freed h ps m m'
  unfolding destroy_from
  destroy_from-Freed m h cur ps zero r e n = absurd (omega (arith, n))
  destroy_from-Freed m h cur [] (suc fuel) r e n =
      let m' = record m { alive = update m.alive h false } in
      (
        m',
        subst (λ c. destroy_from (suc fuel) h c m ≡ some (tt, m')) (sym r.0.0 ∙ e)
            (at_head _ _ m h ∙ free_run m h r.2.0),
        (
          (update_self m.alive h false, tt),
          λ q f. (update_ne m.alive h false q (λ e. f.0 (sym e)), refl, refl, refl),
        ),
      )
  destroy_from-Freed m h cur (p ∷ ps) (suc fuel) r e n =
      let m1 = released m p in
      let first = entered m h [] p ps r in
      let rest = destroy_from-Freed m1 h (m1.next h) ps fuel first.3 refl (omega (arith, n)) in
      (
        rest.0,
        subst (λ c. destroy_from (suc fuel) h c m ≡ some (tt, rest.0)) (sym r.0.0 ∙ e)
            (past_head _ _ m h p r.1.0.0
              ∙ run_then _ _ m tt (unlinked m p) _ (unlink-runs m p first.0 first.1 first.2) (
                  run_then _ _ (unlinked m p) tt m1 _ (free_run (unlinked m p) p first.2.2.0) (
                    run_then _ _ m1 (m1.next h) m1 _ (get_next_run m1 h _ first.3.2.0 refl)
                      rest.1))),
        Freed-cons m h p ps rest.0 ((λ q. r.1.0.0 (sym q)), r.1.1.0)
            (λ q g. released-Same m p first.0 first.1 first.2 q (first.4 (λ z. q ≢ z) g)) rest.2,
      )

  -- In a ring, with one step of fuel more than there are nodes, `llist_destroy` ends, having freed every
  -- node and the head, each once, and memory outside the list is as it was.
  pub llist_destroy-Freed :
      (m : Heap A) (h : Ptr) (ps : List Ptr) (fuel : ℕ)
      → Ring m h ps
      → length ps < fuel
      → (m' : Heap A) × (llist_destroy fuel h m ≡ some (tt, m')) × Freed h ps m m'
  unfolding llist_destroy
  llist_destroy-Freed m h ps fuel r n =
      let rest = destroy_from-Freed m h (m.next h) ps fuel r refl n in
      (rest.0, run_then _ _ m (m.next h) m _ (get_next_run m h _ r.2.0 refl) rest.1, rest.2)
