-- ===== src/Recipes/Menu/Typed.antt =====
-- What is typed for a new recipe of c+ds/main.c, and the recipe that is made of it.
use mathlib.Core.List.{append_assoc}
use mycode_c.Base.{
  ℕ, ◌+◌, ◌<◌, ◌≤◌, true, false, List, [], ◌∷◌, ◌++◌, ◌≡◌, refl, sym, ap, ap₂, ◌∙◌, arith, leb, ltb,
  if◌then◌else◌, All, length, append-nil, get_or, take, drop,
}
use mycode_c.Base.Int.{ℤ}
use mycode_c.Recipes.{
  Text, Recipe, max_ingredients, max_steps, blank_ingredient, c_string, with_ingredient, with_step,
  row,
}
use mycode_c.Recipes.Strings.{IsString, copied}
use mycode_c.Recipes.Rows.{IsRecipe, ingredient_rows, step_rows, one_more, with_ingredient-rows}
use mycode_c.Recipes.Menu.{
  line_read, clear_input_buffer, read_ingredient, read_step, has_line, ingredient_there,
}
use mycode_c.Recipes.Menu.Entries.{Lasts, entries, with_all}

pub record Typed : Type 0 where
  pub name : Text
  pub cuisine : Text
  pub difficulty : Text
  pub prep_time : ℤ
  pub ingredients : List (Text × Text)
  pub steps : List Text
  pub rest : List ℕ

-- The lines of a new recipe in the input.
unfoldable pub typed : (scan_int : List ℕ → ℤ × List ℕ) → List ℕ → Typed
typed scan_int input =
    let name : Text × List ℕ = line_read 99 input in
    let cuisine : Text × List ℕ = line_read 49 name.1 in
    let difficulty : Text × List ℕ = line_read 19 cuisine.1 in
    let prep_time : ℤ × List ℕ = scan_int difficulty.1 in
    let ingredients : List (Text × Text) × List ℕ =
      entries read_ingredient max_ingredients (clear_input_buffer prep_time.1) in
    let steps : List Text × List ℕ = entries read_step max_steps ingredients.1 in
    record {
      name = name.0;
      cuisine = cuisine.0;
      difficulty = difficulty.0;
      prep_time = prep_time.0;
      ingredients = ingredients.0;
      steps = steps.0;
      rest = steps.1;
    }

-- The input does not end before all of these lines are read.
abbrev pub IsWhole : (scan_int : List ℕ → ℤ × List ℕ) → List ℕ → Type 0
IsWhole scan_int input =
    let name : Text × List ℕ = line_read 99 input in
    let cuisine : Text × List ℕ = line_read 49 name.1 in
    let difficulty : Text × List ℕ = line_read 19 cuisine.1 in
    let rest = clear_input_buffer (scan_int difficulty.1).1 in
    (has_line input ≡ true)
    × (has_line name.1 ≡ true)
    × (has_line cuisine.1 ≡ true)
    × Lasts read_ingredient ingredient_there max_ingredients rest
    × Lasts read_step has_line max_steps (entries read_ingredient max_ingredients rest).1

-- No byte is zero, and there are fewer than `n`.
abbrev pub IsShort : ℕ → Text → Type 0
IsShort n s = IsString s × (length s < n)

abbrev pub AllShort : Typed → Type 0
AllShort t =
    IsShort 99 t.name
    × IsShort 49 t.cuisine
    × IsShort 19 t.difficulty
    × All (λ e. IsShort 49 e.0 × IsShort 29 e.1) t.ingredients
    × All (IsShort 255) t.steps

pub copied_short : (dest src : Text) (n : ℕ) → length src < n → copied dest src n ≡ src
copied_short dest src n l =
    let e : ltb (length src) n ≡ true = ground arith in
    ap (λ b. if b then src else take n src ++ c_string (drop n dest)) e

pub with_ingredient_one :
    (r : Recipe) (e : Text × Text)
    → IsRecipe r
    → r.ingredient_count < max_ingredients
    → IsShort 49 e.0
    → IsShort 29 e.1
    → IsRecipe (with_ingredient e.0 e.1 r)
      × (ingredient_rows (with_ingredient e.0 e.1 r) ≡ ingredient_rows r ++ e ∷ [])
      × (step_rows (with_ingredient e.0 e.1 r) ≡ step_rows r)
      × (row (with_ingredient e.0 e.1 r) ≡ row r)
      × ((with_ingredient e.0 e.1 r).ingredient_count ≡ r.ingredient_count + 1)
      × ((with_ingredient e.0 e.1 r).step_count ≡ r.step_count)
unfolding with_ingredient row
with_ingredient_one r e w room n a =
    let old = get_or r.ingredients r.ingredient_count blank_ingredient in
    let rows = (with_ingredient-rows r e.0 e.1 [] w n.0 a.0 tt).0 in
    let free : leb max_ingredients r.ingredient_count ≡ false = ground (arith, room) in
    (
      rows.0,
      rows.1
          ∙ ap
              (λ b.
                one_more b (copied old.name e.0 49, copied old.amount e.1 29) (ingredient_rows r))
              free
          ∙ ap₂ (λ x y. ingredient_rows r ++ (x, y) ∷ []) (copied_short old.name e.0 49 n.1)
              (copied_short old.amount e.1 29 a.1),
      rows.2,
      rw free refl,
      rw free refl,
      rw free refl,
    )

pub with_step_one :
    (r : Recipe) (s : Text)
    → IsRecipe r
    → r.step_count < max_steps
    → IsShort 255 s
    → IsRecipe (with_step s r)
      × (step_rows (with_step s r) ≡ step_rows r ++ s ∷ [])
      × (ingredient_rows (with_step s r) ≡ ingredient_rows r)
      × (row (with_step s r) ≡ row r)
      × ((with_step s r).step_count ≡ r.step_count + 1)
unfolding with_step row
with_step_one r s w room n =
    let rows = (with_ingredient-rows r [] [] s w tt tt n.0).1 in
    let free : leb max_steps r.step_count ≡ false = ground (arith, room) in
    (
      rows.0,
      rows.1
          ∙ ap (λ b. one_more b (copied (get_or r.steps r.step_count []) s 255) (step_rows r)) free
          ∙ ap (λ x. step_rows r ++ x ∷ [])
              (copied_short (get_or r.steps r.step_count []) s 255 n.1),
      rows.2,
      rw free refl,
      rw free refl,
    )

pub with_all_ingredients :
    (es : List (Text × Text)) (r : Recipe)
    → IsRecipe r
    → r.ingredient_count + length es ≤ max_ingredients
    → All (λ e. IsShort 49 e.0 × IsShort 29 e.1) es
    → let r' = with_all (λ e. with_ingredient e.0 e.1) es r in
      IsRecipe r'
      × (ingredient_rows r' ≡ ingredient_rows r ++ es)
      × (step_rows r' ≡ step_rows r)
      × (row r' ≡ row r)
      × (r'.step_count ≡ r.step_count)
unfolding with_all
with_all_ingredients [] r w h a = (w, sym (append-nil (ingredient_rows r)), refl, refl, refl)
with_all_ingredients (e ∷ es) r w h a =
    let one = with_ingredient_one r e w (omega (arith, h)) a.0.0 a.0.1 in
    let r1 = with_ingredient e.0 e.1 r in
    let more = with_all_ingredients es r1 one.0 (omega (arith, h, one.4)) a.1 in
    (
      more.0,
      more.1 ∙ ap (λ xs. xs ++ es) one.1 ∙ append_assoc (ingredient_rows r) (e ∷ []) es,
      more.2 ∙ one.2,
      more.3 ∙ one.3,
      more.4 ∙ one.5,
    )

pub with_all_steps :
    (ss : List Text) (r : Recipe)
    → IsRecipe r
    → r.step_count + length ss ≤ max_steps
    → All (IsShort 255) ss
    → let r' = with_all with_step ss r in
      (step_rows r' ≡ step_rows r ++ ss)
      × (ingredient_rows r' ≡ ingredient_rows r)
      × (row r' ≡ row r)
unfolding with_all
with_all_steps [] r w h a = (sym (append-nil (step_rows r)), refl, refl)
with_all_steps (s ∷ ss) r w h a =
    let one = with_step_one r s w (omega (arith, h)) a.0 in
    let more = with_all_steps ss (with_step s r) one.0 (omega (arith, h, one.4)) a.1 in
    (
      more.0 ∙ ap (λ xs. xs ++ ss) one.1 ∙ append_assoc (step_rows r) (s ∷ []) ss,
      more.1 ∙ one.2,
      more.2 ∙ one.3,
    )
