-- ===== src/Recipes/Menu/Added.antt =====
-- `add_new_recipe` of c+ds/main.c.
use mycode_c.Base.Int.{ℤ}
use mycode_c.Recipes.{Recipe, fresh_recipe, with_ingredient, with_step}
use mycode_c.Recipes.Chain.{Chain}
use mycode_c.Recipes.Menu.Entries.{with_all}
use mycode_c.Recipes.Menu.Typed.{Typed}

-- What is made of a recipe's memory when `t` is typed.
abbrev made_of : Typed → ℤ → Recipe → Recipe
made_of t next_id old = with_all with_step t.steps (
    with_all (λ e. with_ingredient e.0 e.1) t.ingredients
      (fresh_recipe t.name t.cuisine t.difficulty t.prep_time next_id old))
