-- ===== src/Recipes/Menu/Rounds.antt =====
-- The two loops of `add_new_recipe` of c+ds/main.c, from a recipe without entries on.
use mycode_c.Base.{
  ℕ, zero, suc, ◌-◌, ◌<◌, ◌≤◌, false, Option, none, some, List, [], ◌∷◌, ◌≡◌, ◌≢◌, ◌∙◌, arith, leb,
  length,
}
use mycode_c.Llist.{Ptr, Heap}
use mycode_c.Llist.Ring.{Live}
use mycode_c.Llist.Ring.Steps.{run_then, get_data_run, set_data_run}
use mycode_c.Recipes.{
  Text, Recipe, max_ingredients, max_steps, with_ingredient, add_ingredient, with_step, add_step,
}
use mycode_c.Recipes.Find.{not_null}
use mycode_c.Recipes.Menu.{
  enter, read_ingredient, ingredient_there, has_line, read_step, ingredients_full, steps_full,
}
use mycode_c.Recipes.Menu.Entries.{Lasts, entries, with_all, filled, enter-entries}

pub length-entries :
    {E : Type 0} (read : List ℕ → Option E × List ℕ) (room : ℕ) (input : List ℕ)
    → length (entries read room input).0 ≤ room
unfolding entries
length-entries read zero input = omega arith
length-entries {E = E} read (suc room) input =
    by_entry (read input).0 (read input).1 (length-entries read room (read input).1)
  where
    by_entry :
        (o : Option E) (rest : List ℕ)
        → length (entries read room rest).0 ≤ room
        → length
            (elim o as (λ x. List E × List ℕ) [
              | none ↦ ([], rest)
              | some e ↦ (e ∷ (entries read room rest).0, (entries read room rest).1)
            ]).0
          ≤ suc room
    by_entry none rest h = omega arith
    by_entry (some e) rest h = omega (arith, h)

add_ingredient_run :
    (m : Heap Recipe) (p : Ptr) (e : Text × Text)
    → p ≢ 0
    → Live m p
    → add_ingredient p e.0 e.1 m ≡ some (tt, filled m p (with_ingredient e.0 e.1 (m.data' p)))
unfolding add_ingredient
add_ingredient_run m p e z l =
    not_null _ _ m p z
    ∙ run_then _ _ m (m.data' p) m _ (get_data_run m p l)
        (set_data_run m p (with_ingredient e.0 e.1 (m.data' p)) l)

add_step_run :
    (m : Heap Recipe) (p : Ptr) (s : Text)
    → p ≢ 0
    → Live m p
    → add_step p s m ≡ some (tt, filled m p (with_step s (m.data' p)))
unfolding add_step
add_step_run m p s z l =
    not_null _ _ m p z
    ∙ run_then _ _ m (m.data' p) m _ (get_data_run m p l)
        (set_data_run m p (with_step s (m.data' p)) l)

ingredient_room :
    (e : Text × Text) (r : Recipe)
    → 0 < max_ingredients - r.ingredient_count
    → max_ingredients - (with_ingredient e.0 e.1 r).ingredient_count
      ≡ max_ingredients - r.ingredient_count - 1
unfolding with_ingredient
ingredient_room e r h =
    let free : leb max_ingredients r.ingredient_count ≡ false = ground (arith, h) in
    rw free (omega arith)

step_room :
    (s : Text) (r : Recipe)
    → 0 < max_steps - r.step_count
    → max_steps - (with_step s r).step_count ≡ max_steps - r.step_count - 1
unfolding with_step
step_room s r h =
    let free : leb max_steps r.step_count ≡ false = ground (arith, h) in rw free (omega arith)

-- The two loops on a recipe without entries.
pub enter_ingredients :
    (m : Heap Recipe) (p : Ptr) (input : List ℕ)
    → p ≢ 0
    → Live m p
    → (m.data' p).ingredient_count ≡ 0
    → Lasts read_ingredient ingredient_there max_ingredients input
    → enter read_ingredient ingredient_there
        (λ q e. add_ingredient q e.0 e.1)
        ingredients_full
        max_ingredients
        p
        input
        m
      ≡ some (
        (entries read_ingredient max_ingredients input).1,
        filled m p (
            with_all
              (λ e. with_ingredient e.0 e.1)
              (entries read_ingredient max_ingredients input).0
              (m.data' p)),
      )
enter_ingredients m p input z l c here =
    enter-entries read_ingredient ingredient_there (λ q e. add_ingredient q e.0 e.1)
      ingredients_full (λ e. with_ingredient e.0 e.1) (λ r. max_ingredients - r.ingredient_count)
      add_ingredient_run (λ r. ground arith) ingredient_room max_ingredients 19 m p input z l
      (omega (arith, c)) (ground arith) here

pub enter_steps :
    (m : Heap Recipe) (p : Ptr) (input : List ℕ)
    → p ≢ 0
    → Live m p
    → (m.data' p).step_count ≡ 0
    → Lasts read_step has_line max_steps input
    → enter read_step has_line add_step steps_full max_steps p input m
      ≡ some (
        (entries read_step max_steps input).1,
        filled m p (with_all with_step (entries read_step max_steps input).0 (m.data' p)),
      )
enter_steps m p input z l c here =
    enter-entries read_step has_line add_step steps_full with_step (λ r. max_steps - r.step_count)
      add_step_run (λ r. ground arith) step_room max_steps 9 m p input z l (omega (arith, c))
      (ground arith) here
