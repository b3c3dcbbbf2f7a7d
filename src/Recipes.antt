-- ===== src/Recipes.antt =====
-- The recipes of c+ds/recipe.c: a list of recipes linked by `next`, on the heap of Llist, whose `prev` is not used;
-- a recipe's other fields are the data of its node. A `char` array is the list of its bytes. What `malloc` returns is
-- an argument, and so is `next_id`, whose new value a call gives back. What is printed is given as a value.
pub mod Lists
pub mod Chain
pub mod Strings
pub mod Rows
pub mod Find
pub mod Remove
pub mod Taken
pub mod Delete
pub mod Free
pub mod Make
pub mod Files
pub mod Menu
mod Tests
use mycode_c.Base.{
  ℕ, zero, suc, ◌+◌, ◌-◌, Bool, true, false, ◌||◌, Option, none, some, List, [], ◌∷◌, ◌++◌, map,
  ◌==◌, leb, if◌then◌else◌, get_or, set, take, drop, replicate,
}
use mycode_c.Base.Int.{ℤ, pos, ◌+ℤ◌, eqb_ℤ}
use mycode_c.Llist.{
  Ptr, Cmd, pure, ◌>>=◌, ◌>>◌, get_next, set_next, get_data, set_data, free, take_block,
}

abbrev pub Text : Type 0
Text = List ℕ

abbrev pub max_ingredients : ℕ
max_ingredients = 20

abbrev pub max_steps : ℕ
max_steps = 10

pub record Ingredient : Type 0 where
  pub name : Text
  pub amount : Text

pub record Recipe : Type 0 where
  pub id : ℤ
  pub name : Text
  pub cuisine : Text
  pub difficulty : Text
  pub prep_time : ℤ
  pub ingredients : List Ingredient
  pub ingredient_count : ℕ
  pub steps : List Text
  pub step_count : ℕ

-- `strncpy`: the bytes of the string, zeros up to `n` bytes, and the array's own bytes from there on.
pub strncpy : Text → Text → ℕ → Text
strncpy dest src n = take n (src ++ replicate n 0) ++ drop n dest

-- The string in an array: the bytes before the first zero.
pub c_string : Text → Text
c_string [] = []
c_string (c ∷ cs) = let rest = c_string cs in if c == 0 then [] else c ∷ rest

pub starts_with : Text → Text → Bool
starts_with cs [] = true
starts_with [] (d ∷ ds) = false
starts_with (c ∷ cs) (d ∷ ds) = let rest = starts_with cs ds in if c == d then rest else false

-- `strstr(cs, ds) != NULL`
pub strstr : Text → Text → Bool
unfolding starts_with
strstr [] ds = starts_with [] ds
strstr (c ∷ cs) ds = let rest = strstr cs ds in starts_with (c ∷ cs) ds || rest

-- The assignments of `create_recipe`, on what the memory held.
pub fresh_recipe : (name cuisine difficulty : Text) → (prep_time next_id : ℤ) → Recipe → Recipe
unfolding strncpy
fresh_recipe name cuisine difficulty prep_time next_id r = record r {
  id = next_id;
  name = strncpy r.name name 99;
  cuisine = strncpy r.cuisine cuisine 49;
  difficulty = strncpy r.difficulty difficulty 19;
  prep_time = prep_time;
  ingredient_count = 0;
  step_count = 0;
}

-- The address, or 0, with the next id.
pub create_recipe :
    (got : Ptr) → (name cuisine difficulty : Text) → (prep_time next_id : ℤ) → Cmd Recipe (Ptr × ℤ)
unfolding fresh_recipe
create_recipe got name cuisine difficulty prep_time next_id =
    if got == 0 then pure (0, next_id) else (do
      take_block got
      r ← get_data got
      set_data got (fresh_recipe name cuisine difficulty prep_time next_id r)
      set_next got 0
      pure (got, next_id +ℤ pos 1))

abbrev pub blank_ingredient : Ingredient
blank_ingredient = record { name = []; amount = [] }

pub with_ingredient : Text → Text → Recipe → Recipe
unfolding strncpy
with_ingredient name amount r =
    if leb max_ingredients r.ingredient_count
    then r
    else (let i = r.ingredient_count in
        let old = get_or r.ingredients i blank_ingredient in
        record r {
          ingredients =
              set r.ingredients i
                (record { name = strncpy old.name name 49; amount = strncpy old.amount amount 29 });
          ingredient_count = i + 1;
        })

pub add_ingredient : Ptr → (name amount : Text) → Cmd Recipe (Unit {0})
unfolding with_ingredient
add_ingredient p name amount =
    if p == 0 then pure tt else (do r ← get_data p; set_data p (with_ingredient name amount r))

pub with_step : Text → Recipe → Recipe
unfolding strncpy
with_step step r = if leb max_steps r.step_count then r else record r {
  steps = set r.steps r.step_count (strncpy (get_or r.steps r.step_count []) step 255);
  step_count = r.step_count + 1;
}

pub add_step : Ptr → Text → Cmd Recipe (Unit {0})
unfolding with_step
add_step p step = if p == 0 then pure tt else (do r ← get_data p; set_data p (with_step step r))

-- What `display_recipe` prints: the fields, and the rows of the two loops.
pub shown : Recipe → (Text × ℤ × Text × Text × ℤ) × List (Text × Text) × List Text
unfolding c_string
shown r = (
  (c_string r.name, r.id, c_string r.cuisine, c_string r.difficulty, r.prep_time),
  map (λ i. (c_string i.name, c_string i.amount)) (take r.ingredient_count r.ingredients),
  map c_string (take r.step_count r.steps),
)

pub display_recipe :
    Ptr → Cmd Recipe (Option ((Text × ℤ × Text × Text × ℤ) × List (Text × Text) × List Text))
unfolding shown
display_recipe p = if p == 0 then pure none else (do r ← get_data p; pure (some (shown r)))

-- The row that `display_recipe_simple` prints.
pub row : Recipe → ℤ × Text × Text × Text × ℤ
unfolding c_string
row r = (r.id, c_string r.name, c_string r.cuisine, c_string r.difficulty, r.prep_time)

pub free_recipe : Ptr → Cmd Recipe (Unit {0})
free_recipe p = if p == 0 then pure tt else free p
