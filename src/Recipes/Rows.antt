-- ===== src/Recipes/Rows.antt =====
-- The arrays of a recipe: `add_ingredient` and `add_step`, and what `display_recipe` shows of them.
use mycode_c.Base.{
  ℕ, suc, ◌+◌, ◌<◌, ◌≤◌, Bool, true, false, List, [], ◌∷◌, ◌++◌, map, length, length-set, take,
  take-set, set, get_or, ◌≡◌, refl, ap, ap₂, ◌∙◌, arith, if◌then◌else◌, leb,
}
use mathlib.Core.List.{map-append}
use mycode_c.Recipes.{
  Text, Ingredient, Recipe, max_ingredients, max_steps, blank_ingredient, c_string, strncpy,
  with_ingredient, with_step,
}
use mycode_c.Recipes.Strings.{IsString, copied, c_string-strncpy}

-- The arrays have their lengths and the counts stay within them.
abbrev pub IsRecipe : Recipe → Type 0
IsRecipe r =
    (length r.ingredients ≡ max_ingredients)
    × (r.ingredient_count ≤ max_ingredients)
    × (length r.steps ≡ max_steps)
    × (r.step_count ≤ max_steps)

-- A property of a conditional that speaks of its test.
if_with_test :
    {A : Type 0} (P : A → Bool → Type 0) (b : Bool) (x y : A)
    → (b ≡ true → P x true)
    → (b ≡ false → P y false)
    → P (if b then x else y) b
if_with_test P true x y f g = f refl
if_with_test P false x y f g = g refl

-- The rows after one more element is written.
rows-set :
    {A B : Type 0} (f : A → B) (xs : List A) (i : ℕ) (x : A) (y : B)
    → i < length xs
    → f x ≡ y
    → map f (take (i + 1) (set xs i x)) ≡ map f (take i xs) ++ y ∷ []
rows-set f xs i x y l e =
    let one : i + 1 ≡ suc i = omega arith in
    ap (λ k. map f (take k (set xs i x))) one
    ∙ ap (map f) (take-set xs i x l)
    ∙ map-append f (take i xs) (x ∷ [])
    ∙ ap (λ z. map f (take i xs) ++ z ∷ []) e

-- The rows that `display_recipe` prints.
abbrev pub ingredient_rows : Recipe → List (Text × Text)
ingredient_rows r =
    map (λ i. (c_string i.name, c_string i.amount)) (take r.ingredient_count r.ingredients)

abbrev pub step_rows : Recipe → List Text
step_rows r = map c_string (take r.step_count r.steps)

abbrev pub one_more : {A : Type 0} → Bool → A → List A → List A
one_more full x xs = if full then xs else xs ++ x ∷ []

-- A recipe whose arrays have their lengths has them still after `add_ingredient` and `add_step`; when the
-- array is not full, the row shown last is what was copied of the strings, and when it is full nothing changes.
pub with_ingredient-rows :
    (r : Recipe) (name amount step : Text)
    → IsRecipe r
    → IsString name
    → IsString amount
    → IsString step
    → let old = get_or r.ingredients r.ingredient_count blank_ingredient in
      (IsRecipe (with_ingredient name amount r)
        × (ingredient_rows (with_ingredient name amount r)
            ≡ one_more
                (leb max_ingredients r.ingredient_count)
                (copied old.name name 49, copied old.amount amount 29)
                (ingredient_rows r))
        × (step_rows (with_ingredient name amount r) ≡ step_rows r))
      × (IsRecipe (with_step step r)
          × (step_rows (with_step step r)
              ≡ one_more
                  (leb max_steps r.step_count)
                  (copied (get_or r.steps r.step_count []) step 255)
                  (step_rows r))
          × (ingredient_rows (with_step step r) ≡ ingredient_rows r))
unfolding with_ingredient with_step
with_ingredient-rows r name amount step w sn sa ss =
    let old = get_or r.ingredients r.ingredient_count blank_ingredient in
    let pair : Text × Text = (copied old.name name 49, copied old.amount amount 29) in
    let new : Ingredient = record {
      name = strncpy old.name name 49;
      amount = strncpy old.amount amount 29;
    } in
    let line = get_or r.steps r.step_count [] in
    (
      if_with_test
          (λ z b.
            IsRecipe z
            × (ingredient_rows z ≡ one_more b pair (ingredient_rows r))
            × (step_rows z ≡ step_rows r))
          (leb max_ingredients r.ingredient_count) r _ (λ full. (w, refl, refl))
          (λ room. (
            (
              length-set r.ingredients r.ingredient_count new ∙ w.0,
              ground (arith, w.1, room),
              w.2,
              w.3,
            ),
            rows-set (λ i. (c_string i.name, c_string i.amount)) r.ingredients r.ingredient_count
                new pair (ground (arith, w.0, room))
                (ap₂ (λ a b. (a, b)) (c_string-strncpy old.name name 49 (ground arith) sn)
                  (c_string-strncpy old.amount amount 29 (ground arith) sa)),
            refl,
          )),
      if_with_test
          (λ z b.
            IsRecipe z
            × (step_rows z ≡ one_more b (copied line step 255) (step_rows r))
            × (ingredient_rows z ≡ ingredient_rows r))
          (leb max_steps r.step_count) r _ (λ full. (w, refl, refl))
          (λ room. (
            (
              w.0,
              w.1,
              length-set r.steps r.step_count (strncpy line step 255) ∙ w.2,
              ground (arith, w.3, room),
            ),
            rows-set c_string r.steps r.step_count (strncpy line step 255) (copied line step 255)
                (ground (arith, w.2, room)) (c_string-strncpy line step 255 (ground arith) ss),
            refl,
          )),
    )
