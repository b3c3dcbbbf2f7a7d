-- ===== src/Recipes/Remove.antt =====
-- The loop of `delete_recipe_by_id`.
use mycode_c.Base.{
  ℕ, zero, suc, ◌<◌, Bool, some, none, List, [], ◌∷◌, ◌++◌, length, ◌≡◌, refl, sym, ap, ◌∙◌, subst,
  inl, inr, arith, if◌then◌else◌, Bool-cases,
}
use mathlib.Core.Option.{some-injective}
use mycode_c.Llist.{Ptr, Heap}
use mycode_c.Llist.Ring.Steps.{run_then, get_next_run, get_data_run}
use mycode_c.Llist.Find.{search}
use mycode_c.Llist.Remove.{erase, search_hit, search_miss, both_ends}
use mycode_c.Recipes.{Recipe}
use mycode_c.Recipes.Lists.{find_before}
use mycode_c.Recipes.Chain.{Seg, last}
use mycode_c.Recipes.Find.{not_null}

-- Where the loop stops: the node before, and the first node that passes or NULL.
unfoldable pub stop_at : (Ptr → Bool) → Ptr → List Ptr → Ptr × Ptr
stop_at f a [] = (a, 0)
stop_at f a (q ∷ qs) = let rest = stop_at f q qs in if f q then (a, q) else rest

pub find_before-stop_at :
    (m : Heap Recipe) (test : Recipe → Bool) (a p : Ptr) (ps : List Ptr) (fuel : ℕ)
    → Seg m p ps 0
    → length ps < fuel
    → find_before fuel test a p m ≡ some (stop_at (λ q. test (m.data' q)) a ps, m)
unfolding find_before stop_at
find_before-stop_at m test a p ps zero s n = absurd (omega (arith, n))
find_before-stop_at m test a p [] (suc fuel) s n =
    subst (λ x. find_before (suc fuel) test a x m ≡ some ((a, 0), m)) (sym s) refl
find_before-stop_at m test a p (q ∷ qs) (suc fuel) s n =
    let tests = λ (q : Ptr). test (m.data' q) in
    subst (λ x. find_before (suc fuel) test a x m ≡ some (stop_at tests a (q ∷ qs), m)) (sym s.0)
      (not_null _ _ m q s.1
        ∙ run_then _ _ m (m.data' q) m _ (get_data_run m q s.2) (elim (Bool-cases (tests q)) [
          | inl t ↦ rw (t) refl
          | inr t ↦ rw (t) (
              run_then _ _ m (m.next q) m _ (get_next_run m q _ s.2 refl)
                (find_before-stop_at m test q (m.next q) qs fuel s.3 (omega (arith, n))))
        ]))

-- The node found, what stands before and after it, and the node that the loop ends at.
abbrev pub Parted : (Ptr → Bool) → Ptr → List Ptr → Ptr → Type 0
Parted f a ps c =
    (before : List Ptr) × (after : List Ptr) × (ps ≡ before ++ c ∷ after)
    × (erase f ps ≡ before ++ after)
    × (stop_at f a ps ≡ (last a before, c))

pub parted :
    (f : Ptr → Bool) (a : Ptr) (ps : List Ptr) (c : Ptr) → search f ps ≡ some c → Parted f a ps c
unfolding search erase stop_at
parted f a [] c e = absurd (both_ends e)
parted f a (q ∷ qs) c e = elim (Bool-cases (f q)) [
  | inl t ↦
      let same = some-injective q c (sym (search_hit f q qs t) ∙ e) in
      (
        [],
        qs,
        ap (λ z. z ∷ qs) same,
        ap (λ b. if b then qs else q ∷ erase f qs) t,
        ap (λ b. if b then (a, q) else stop_at f q qs) t ∙ ap (λ z. (a, z)) same,
      )
  | inr t ↦
      let rest = parted f q qs c (sym (search_miss f q qs t) ∙ e) in
      (
        q ∷ rest.0,
        rest.1,
        ap (λ z. q ∷ z) rest.2,
        ap (λ b. if b then qs else q ∷ erase f qs) t ∙ ap (λ z. q ∷ z) rest.3,
        ap (λ b. if b then (a, q) else stop_at f q qs) t ∙ rest.4,
      )
]

pub no_stop :
    (f : Ptr → Bool) (a : Ptr) (ps : List Ptr) → search f ps ≡ none → (stop_at f a ps).1 ≡ 0
unfolding search stop_at
no_stop f a [] e = refl
no_stop f a (q ∷ qs) e = elim (Bool-cases (f q)) [
  | inl t ↦ absurd (both_ends (sym e ∙ search_hit f q qs t))
  | inr t ↦ rw (t) (no_stop f q qs (sym (search_miss f q qs t) ∙ e))
]
