-- ===== src/Recipes/Files.antt =====
-- The file of recipes: `save_recipes_to_file` and `load_recipes_from_file` of c+ds/recipe.c. A file is the
-- sequence of the `int`s and then of the records that are written to it; the `next` of a record is
-- overwritten when it is read and is left out. Whether `fopen` succeeds is an argument, and so is what an
-- `int` that `fread` did not fill holds.
pub mod RoundTrip
use mycode_c.Base.{ℕ, zero, suc, Bool, Option, none, some, List, [], ◌∷◌, ◌==◌, if◌then◌else◌}
use mycode_c.Base.Int.{ℤ, pos, negsuc}
use mycode_c.Llist.{Ptr, Cmd, pure, ◌>>=◌, ◌>>◌, get_next, get_data, set_next, set_data, take_block}
use mycode_c.Recipes.{Recipe}
use mycode_c.Recipes.Lists.{add_recipe_to_list, count_recipes}

pub record RecipeFile : Type 0 where
  pub ints : List ℤ
  pub records : List Recipe

-- The loop that writes the records.
pub save_from : (fuel : ℕ) → Ptr → Cmd Recipe (List Recipe)
save_from zero current = λ m. none
save_from (suc fuel) current = if current == 0 then pure [] else (do
  r ← get_data current
  after ← get_next current
  rest ← save_from fuel after
  pure (r ∷ rest))

-- The file that is written, `none` when it cannot be opened.
pub save_recipes_to_file :
    (fuel : ℕ) → (opened : Bool) → (next_id : ℤ) → (head : Ptr) → Cmd Recipe (Option RecipeFile)
unfolding save_from
save_recipes_to_file fuel opened next_id head =
    if opened
    then (do
      count ← count_recipes fuel head
      records ← save_from fuel head
      pure (some (record { ints = next_id ∷ pos count ∷ []; records = records })))
    else pure none

-- `fread` of an `int`: what it holds afterwards, and the `int`s that are left.
pub read_int : ℤ → List ℤ → ℤ × List ℤ
read_int old [] = (old, [])
read_int old (i ∷ is') = (i, is')

-- `fread` of a record into the new node, with the records that are left.
pub read_record : Ptr → List Recipe → Cmd Recipe (List Recipe)
read_record got [] = pure []
read_record got (r ∷ rs) = do set_data got r; pure rs

-- The loop that reads them; the addresses are what `malloc` returns, 0 when they have run out.
pub load_from : (fuel n : ℕ) → (gots : List Ptr) → List Recipe → (head : Ptr) → Cmd Recipe Ptr
unfolding read_record
load_from fuel zero gots records head = pure head
load_from fuel (suc n) [] records head = pure head
load_from fuel (suc n) (got ∷ gots) records head = if got == 0 then pure head else (do
  take_block got
  rest ← read_record got records
  set_next got 0
  head' ← add_recipe_to_list fuel head got
  load_from fuel n gots rest head')

-- How often the loop runs for a count.
pub rounds_for : ℤ → ℕ
rounds_for (pos n) = n
rounds_for (negsuc n) = 0

-- The head, NULL when the file cannot be opened, and `next_id`.
pub load_recipes_from_file :
    (fuel : ℕ)
    → (gots : List Ptr) → (opened : Bool) → (next_id unset : ℤ) → RecipeFile
    → Cmd Recipe (Ptr × ℤ)
unfolding read_int load_from rounds_for
load_recipes_from_file fuel gots opened next_id unset file =
    if opened
    then (let (next_id', ints) = read_int next_id file.ints in
        let (count, left) = read_int unset ints in
        do head ← load_from fuel (rounds_for count) gots file.records 0; pure (head, next_id'))
    else pure (0, next_id)
