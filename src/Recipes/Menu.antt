-- ===== src/Recipes/Menu.antt =====
-- The functions of c+ds/main.c that read from the terminal, on the recipes. The input is the list of its
-- bytes, of which none is zero; `scanf("%d")` is the argument `scan_int`, which also says what the `int`
-- holds when no number is found. `none` is also an array that is used although `fgets` found the end of the
-- input and wrote nothing to it. What is printed is left out, but for what `display_recipe` prints.
pub mod Entries
pub mod Typed
pub mod Rounds
pub mod Added
pub mod Answers
pub mod Reload
mod Tests
use mycode_c.Base.{
  ℕ, zero, suc, ◌+◌, Bool, true, false, Option, none, some, List, [], ◌∷◌, ◌==◌, if◌then◌else◌, leb,
  ltb, ◌&&◌, ◌||◌, length,
}
use mycode_c.Base.Int.{ℤ, pos, eqb_ℤ}
use mycode_c.Llist.{Ptr, Cmd, pure, ◌>>=◌, ◌>>◌, get_data}
use mycode_c.Recipes.{
  Text, Recipe, max_ingredients, max_steps, create_recipe, add_ingredient, add_step, display_recipe,
}
use mycode_c.Recipes.Lists.{
  add_recipe_to_list, find_recipe_by_id, find_recipe_by_name, delete_recipe_by_id, count_recipes,
  free_all,
}
use mycode_c.Recipes.Files.{RecipeFile, save_recipes_to_file, load_recipes_from_file}

abbrev newline : ℕ
newline = 10

unfoldable pub clear_input_buffer : List ℕ → List ℕ
clear_input_buffer [] = []
clear_input_buffer (c ∷ cs) = let rest = clear_input_buffer cs in if c == newline then cs else rest

-- What `fgets` puts into an array of `room + 1` bytes, without the newline, and the input that is left.
unfoldable pub line_read : (room : ℕ) → List ℕ → Text × List ℕ
line_read zero cs = ([], cs)
line_read (suc room) [] = ([], [])
line_read (suc room) (c ∷ cs) =
    let rest : Text × List ℕ = line_read room cs in
    if c == newline then ([], cs) else (c ∷ rest.0, rest.1)

-- Whether `fgets` finds a byte.
abbrev pub has_line : List ℕ → Bool
has_line [] = false
has_line (c ∷ cs) = true

-- `fgets` and the removal of the newline. At the end of the input the array stays as it was, without a value.
unfoldable pub read_line : (room : ℕ) → List ℕ → Cmd Recipe (Text × List ℕ)
unfolding line_read
read_line room input = if has_line input then pure (line_read room input) else (λ m. none)

-- What `display_recipe` prints of a recipe.
abbrev pub Shown : Type 0
Shown = (Text × ℤ × Text × Text × ℤ) × List (Text × Text) × List Text

-- An entry that ends the loop is `none`: one whose first line is empty.
unfoldable pub read_ingredient : List ℕ → Option (Text × Text) × List ℕ
unfolding line_read
read_ingredient input =
    let name : Text × List ℕ = line_read 49 input in
    let amount : Text × List ℕ = line_read 29 name.1 in
    if length name.0 == 0 then (none, name.1) else (some (name.0, amount.0), amount.1)

-- Whether every `fgets` of the entry finds a byte.
unfoldable pub ingredient_there : List ℕ → Bool
unfolding line_read
ingredient_there input =
    let name : Text × List ℕ = line_read 49 input in
    has_line input && (length name.0 == 0 || has_line name.1)

unfoldable pub read_step : List ℕ → Option Text × List ℕ
unfolding line_read
read_step input =
    let step : Text × List ℕ = line_read 255 input in
    if length step.0 == 0 then (none, step.1) else (some step.0, step.1)

module _ {E : Type 0} (read : List ℕ → Option E × List ℕ) (there : List ℕ → Bool)
    (add : Ptr → E → Cmd Recipe (Unit {0})) (full : Recipe → Bool) where
  -- The two loops that read entries and add them; what is left of the input.
  unfoldable pub enter : (fuel : ℕ) → Ptr → List ℕ → Cmd Recipe (List ℕ)
  enter zero p input = λ m. none
  enter (suc fuel) p input =
      let got = read input in
      if there input
      then (elim got.0 [
        | none ↦ pure got.1
        | some e ↦ do add p e; r ← get_data p; (if full r then pure got.1 else enter fuel p got.1)
      ])
      else (λ m. none)

abbrev pub ingredients_full : Recipe → Bool
ingredients_full r = leb max_ingredients r.ingredient_count

abbrev pub steps_full : Recipe → Bool
steps_full r = leb max_steps r.step_count

-- The part of `add_new_recipe` that follows `create_recipe`: the head, the next id, and what is left of the input.
unfoldable pub fill_recipe :
    (fuel : ℕ) → (head recipe : Ptr) → (next_id : ℤ) → List ℕ → Cmd Recipe (Ptr × ℤ × List ℕ)
unfolding enter read_ingredient ingredient_there read_step
fill_recipe fuel head recipe next_id input =
    if recipe == 0 then pure (head, next_id, input) else (do
      rest ←
          enter read_ingredient ingredient_there (λ p e. add_ingredient p e.0 e.1) ingredients_full
            max_ingredients recipe input
      rest' ← enter read_step has_line add_step steps_full max_steps recipe rest
      head' ← add_recipe_to_list fuel head recipe
      pure (head', next_id, rest'))

-- What a search ends with.
pub data Found (A : Type 0) : Type 0 where
  found : A → Found A
  not_found : Found A
  invalid : Found A

-- What is done with the result of a search.
unfoldable pub display_found : (recipe : Ptr) → Cmd Recipe (Found (Option Shown))
display_found recipe =
    if recipe == 0 then pure not_found else (do s ← display_recipe recipe; pure (found s))

module _ (scan_int : List ℕ → ℤ × List ℕ) where
  unfoldable pub add_new_recipe :
      (fuel : ℕ) → (got head : Ptr) → (next_id : ℤ) → List ℕ → Cmd Recipe (Ptr × ℤ × List ℕ)
  unfolding read_line clear_input_buffer fill_recipe
  add_new_recipe fuel got head next_id input = do
    name ← read_line 99 input
    cuisine ← read_line 49 name.1
    difficulty ← read_line 19 cuisine.1
    prep_time ← pure (scan_int difficulty.1)
    made ← create_recipe got name.0 cuisine.0 difficulty.0 prep_time.0 next_id
    fill_recipe fuel head made.0 made.1 (clear_input_buffer prep_time.1)

  -- A number, and the input after its line.
  unfoldable pub read_number : List ℕ → ℤ × List ℕ
  unfolding clear_input_buffer
  read_number input =
      let scanned : ℤ × List ℕ = scan_int input in (scanned.0, clear_input_buffer scanned.1)

  unfoldable pub search_recipe :
      (fuel : ℕ) → (head : Ptr) → List ℕ → Cmd Recipe (Found (Option Shown) × List ℕ)
  unfolding read_number read_line display_found
  search_recipe fuel head input =
      let choice = read_number input in
      if eqb_ℤ choice.0 (pos 1)
      then (let id = read_number choice.1 in
          do recipe ← find_recipe_by_id fuel head id.0; a ← display_found recipe; pure (a, id.1))
      else (if eqb_ℤ choice.0 (pos 2)
          then (do
            name ← read_line 99 choice.1
            recipe ← find_recipe_by_name fuel head name.0
            a ← display_found recipe
            pure (a, name.1))
          else pure (invalid, choice.1))

  unfoldable pub view_recipe_detail :
      (fuel : ℕ) → (head : Ptr) → List ℕ → Cmd Recipe (Found (Option Shown) × List ℕ)
  unfolding read_number display_found
  view_recipe_detail fuel head input =
      let id = read_number input in
      do recipe ← find_recipe_by_id fuel head id.0; a ← display_found recipe; pure (a, id.1)

  -- The new head, and what is left of the input.
  unfoldable pub delete_recipe : (fuel : ℕ) → (head : Ptr) → List ℕ → Cmd Recipe (Ptr × List ℕ)
  unfolding read_number
  delete_recipe fuel head input =
      let id = read_number input in
      do deleted ← delete_recipe_by_id fuel head id.0; pure (deleted.1, id.1)

-- The choice 7 of the menu: the head and the next id.
unfoldable pub reload_recipes :
    (fuel : ℕ)
    → (gots : List Ptr) → (opened : Bool) → (head : Ptr) → (next_id unset : ℤ) → RecipeFile
    → Cmd Recipe (Ptr × ℤ)
reload_recipes fuel gots opened head next_id unset file = do
  loaded ← load_recipes_from_file fuel gots opened next_id unset file
  (if loaded.0 == 0 then pure (head, loaded.1) else (do free_all fuel head; pure loaded))

-- The choice 0, and the end of `main`: the file that is written, if one is. `wanted` is that the answer is y or Y.
unfoldable pub quit :
    (fuel : ℕ)
    → (wanted opened : Bool) → (head : Ptr) → (next_id : ℤ) → Cmd Recipe (Option RecipeFile)
quit fuel wanted opened head next_id = do
  count ← count_recipes fuel head
  file ← if ltb 0 count && wanted then save_recipes_to_file fuel opened next_id head else pure none
  free_all fuel head
  pure file
