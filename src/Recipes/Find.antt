-- ===== src/Recipes/Find.antt =====
-- The walks along a list: the searches, the count, the rows that are printed, and the way to the last node.
use mycode_c.Base.{
  ℕ, zero, suc, ◌+◌, ◌<◌, Bool, Option, some, none, List, [], ◌∷◌, map, length, ◌≡◌, ◌≢◌, refl, sym,
  ap, ◌∙◌, subst, inl, inr, arith, if◌then◌else◌, ◌==◌, Bool-cases,
}
use mycode_c.Base.Int.{ℤ}
use mycode_c.Llist.{Ptr, Heap, Cmd}
use mycode_c.Llist.Ring.{contents}
use mycode_c.Llist.Ring.Steps.{run_then, get_next_run, get_data_run}
use mycode_c.Llist.Find.{search, past_head}
use mycode_c.Recipes.{Text, Recipe, row}
use mycode_c.Recipes.Lists.{
  find_last, find_by, has_id, is_named, find_recipe_by_id, find_recipe_by_name, count_from,
  count_recipes, rows_from,
}
use mycode_c.Recipes.Chain.{Seg, Chain, last}

-- The tests on NULL.
pub not_null :
    {A B : Type 0} (c d : Cmd A B) (m : Heap A) (p : Ptr)
    → p ≢ 0
    → (if p == 0 then c else d) m ≡ d m
not_null c d m p n = past_head c d m 0 p (λ e. n (sym e))

-- The address of the first node whose recipe passes, NULL when none does.
abbrev pub or_null : Option Ptr → Ptr
or_null none = 0
or_null (some p) = p

pub find_last-last :
    (m : Heap Recipe) (p q : Ptr) (qs : List Ptr) (fuel : ℕ)
    → Seg m p (q ∷ qs) 0
    → length qs < fuel
    → find_last fuel p m ≡ some (last q qs, m)
unfolding find_last
find_last-last m p q qs zero s n = absurd (omega (arith, n))
find_last-last m p q [] (suc fuel) s n =
    subst (λ x. find_last (suc fuel) x m ≡ some (q, m)) (sym s.0)
      (run_then _ _ m 0 m _ (get_next_run m q 0 s.2 s.3) refl)
find_last-last m p q (r ∷ rs) (suc fuel) s n =
    subst (λ x. find_last (suc fuel) x m ≡ some (last r rs, m)) (sym s.0)
      (run_then _ _ m (m.next q) m _ (get_next_run m q _ s.2 refl) (
        not_null _ _ m (m.next q) (λ e. s.3.1 (sym s.3.0 ∙ e))
        ∙ find_last-last m (m.next q) r rs fuel s.3 (omega (arith, n))))

pub find_by-search :
    (m : Heap Recipe) (test : Recipe → Bool) (p : Ptr) (ps : List Ptr) (fuel : ℕ)
    → Seg m p ps 0
    → length ps < fuel
    → find_by fuel test p m ≡ some (or_null (search (λ q. test (m.data' q)) ps), m)
unfolding find_by search
find_by-search m test p ps zero s n = absurd (omega (arith, n))
find_by-search m test p [] (suc fuel) s n =
    subst (λ x. find_by (suc fuel) test x m ≡ some (0, m)) (sym s) refl
find_by-search m test p (q ∷ qs) (suc fuel) s n =
    let tests = λ (q : Ptr). test (m.data' q) in
    subst (λ x. find_by (suc fuel) test x m ≡ some (or_null (search tests (q ∷ qs)), m)) (sym s.0)
      (not_null _ _ m q s.1
        ∙ run_then _ _ m (m.data' q) m _ (get_data_run m q s.2) (elim (Bool-cases (tests q)) [
          | inl t ↦ rw (t) refl
          | inr t ↦ rw (t) (
              run_then _ _ m (m.next q) m _ (get_next_run m q _ s.2 refl)
                (find_by-search m test (m.next q) qs fuel s.3 (omega (arith, n))))
        ]))

-- On a whole list, with one step of fuel more than there are nodes, the two searches return the first node whose
-- recipe has the id, and the first whose name has the string in it, NULL when there is none; the heap stays.
pub find_recipe-search :
    (m : Heap Recipe) (head : Ptr) (ps : List Ptr) (fuel : ℕ) (id : ℤ) (name : Text)
    → Chain m head ps
    → length ps < fuel
    → (find_recipe_by_id fuel head id m
        ≡ some (or_null (search (λ q. has_id id (m.data' q)) ps), m))
      × (find_recipe_by_name fuel head name m
          ≡ some (or_null (search (λ q. is_named name (m.data' q)) ps), m))
unfolding find_recipe_by_id find_recipe_by_name
find_recipe-search m head ps fuel id name c n = (
  find_by-search m (has_id id) head ps fuel c.0 n,
  find_by-search m (is_named name) head ps fuel c.0 n,
)

pub count_from-length :
    (m : Heap Recipe) (count : ℕ) (p : Ptr) (ps : List Ptr) (fuel : ℕ)
    → Seg m p ps 0
    → length ps < fuel
    → count_from fuel count p m ≡ some (count + length ps, m)
unfolding count_from
count_from-length m count p ps zero s n = absurd (omega (arith, n))
count_from-length m count p [] (suc fuel) s n =
    let e0 : count ≡ count + 0 = omega arith in
    subst (λ x. count_from (suc fuel) count x m ≡ some (count + 0, m)) (sym s)
      (ap (λ k. some (k, m)) e0)
count_from-length m count p (q ∷ qs) (suc fuel) s n =
    let e1 : count + 1 + length qs ≡ count + suc (length qs) = omega arith in
    subst (λ x. count_from (suc fuel) count x m ≡ some (count + suc (length qs), m)) (sym s.0)
      (not_null _ _ m q s.1
        ∙ run_then _ _ m (m.next q) m _ (get_next_run m q _ s.2 refl) (
            count_from-length m (count + 1) (m.next q) qs fuel s.3 (omega (arith, n))
            ∙ ap (λ k. some (k, m)) e1))

pub count_recipes-length :
    (m : Heap Recipe) (head : Ptr) (ps : List Ptr) (fuel : ℕ)
    → Seg m head ps 0
    → length ps < fuel
    → count_recipes fuel head m ≡ some (length ps, m)
unfolding count_recipes
count_recipes-length m head ps fuel s n =
    let e : 0 + length ps ≡ length ps = omega arith in
    count_from-length m 0 head ps fuel s n ∙ ap (λ k. some (k, m)) e

-- `display_all_recipes` prints a row for every recipe, in the order of the list.
pub rows_from-contents :
    (m : Heap Recipe) (p : Ptr) (ps : List Ptr) (fuel : ℕ)
    → Seg m p ps 0
    → length ps < fuel
    → rows_from fuel p m ≡ some (map row (contents m ps), m)
unfolding rows_from
rows_from-contents m p ps zero s n = absurd (omega (arith, n))
rows_from-contents m p [] (suc fuel) s n =
    subst (λ x. rows_from (suc fuel) x m ≡ some ([], m)) (sym s) refl
rows_from-contents m p (q ∷ qs) (suc fuel) s n =
    subst (λ x. rows_from (suc fuel) x m ≡ some (map row (contents m (q ∷ qs)), m)) (sym s.0)
      (not_null _ _ m q s.1
        ∙ run_then _ _ m (m.data' q) m _ (get_data_run m q s.2) (
            run_then _ _ m (m.next q) m _ (get_next_run m q _ s.2 refl) (
              run_then _ _ m (map row (contents m qs)) m _
                (rows_from-contents m (m.next q) qs fuel s.3 (omega (arith, n))) refl)))
