-- ===== src/Recipes/Lists.antt =====
-- The list operations of c+ds/recipe.c. A loop takes fuel, one step for each node and one for the end; a call that
-- changes `*head` gives the new head back.
use mycode_c.Base.{ℕ, zero, suc, ◌+◌, Bool, none, List, [], ◌∷◌, ◌==◌, if◌then◌else◌}
use mycode_c.Base.Int.{ℤ, eqb_ℤ}
use mycode_c.Llist.{Ptr, Cmd, pure, ◌>>=◌, ◌>>◌, get_next, set_next, get_data, free}
use mycode_c.Recipes.{Text, Recipe, c_string, strstr, row, free_recipe}

-- The loop of `add_recipe_to_list`.
unfoldable pub find_last : (fuel : ℕ) → Ptr → Cmd Recipe Ptr
find_last zero current = λ m. none
find_last (suc fuel) current = do
  after ← get_next current
  (if after == 0 then pure current else find_last fuel after)

unfoldable pub add_recipe_to_list : (fuel : ℕ) → (head new_recipe : Ptr) → Cmd Recipe Ptr
unfolding find_last
add_recipe_to_list fuel head new_recipe =
    if new_recipe == 0
    then pure head
    else (if head == 0
        then pure new_recipe
        else (do last ← find_last fuel head; set_next last new_recipe; pure head))

-- The loops of the two searches; 0 is NULL.
unfoldable pub find_by : (fuel : ℕ) → (Recipe → Bool) → Ptr → Cmd Recipe Ptr
find_by zero test current = λ m. none
find_by (suc fuel) test current = if current == 0 then pure 0 else (do
  r ← get_data current
  (if test r then pure current else (do after ← get_next current; find_by fuel test after)))

abbrev pub has_id : ℤ → Recipe → Bool
has_id id r = eqb_ℤ r.id id

abbrev pub is_named : Text → Recipe → Bool
is_named name r = strstr (c_string r.name) name

unfoldable pub find_recipe_by_id : (fuel : ℕ) → (head : Ptr) → (id : ℤ) → Cmd Recipe Ptr
unfolding find_by
find_recipe_by_id fuel head id = find_by fuel (has_id id) head

unfoldable pub find_recipe_by_name : (fuel : ℕ) → (head : Ptr) → Text → Cmd Recipe Ptr
unfolding find_by
find_recipe_by_name fuel head name = find_by fuel (is_named name) head

-- The loop of `delete_recipe_by_id`: `prev` and `current` when it ends.
unfoldable pub find_before :
    (fuel : ℕ) → (Recipe → Bool) → (prev current : Ptr) → Cmd Recipe (Ptr × Ptr)
find_before zero test prev current = λ m. none
find_before (suc fuel) test prev current = if current == 0 then pure (prev, current) else (do
  r ← get_data current
  (if test r
      then pure (prev, current)
      else (do after ← get_next current; find_before fuel test current after)))

-- What follows that loop: the result, and the head.
unfoldable pub take_out : (head prev current : Ptr) → Cmd Recipe (ℕ × Ptr)
unfolding free_recipe
take_out head prev current =
    if current == 0
    then pure (0, head)
    else (do after ← get_next current; set_next prev after; free_recipe current; pure (1, head))

unfoldable pub delete_recipe_by_id : (fuel : ℕ) → (head : Ptr) → (id : ℤ) → Cmd Recipe (ℕ × Ptr)
unfolding find_before take_out free_recipe
delete_recipe_by_id fuel head id = if head == 0 then pure (0, head) else (do
  r ← get_data head
  (if has_id id r
      then (do after ← get_next head; free_recipe head; pure (1, after))
      else (do found ← find_before fuel (has_id id) 0 head; take_out head found.0 found.1)))

-- The loop, with what `count` is so far.
unfoldable pub count_from : (fuel : ℕ) → (count : ℕ) → Ptr → Cmd Recipe ℕ
count_from zero count current = λ m. none
count_from (suc fuel) count current =
    if current == 0
    then pure count
    else (do after ← get_next current; count_from fuel (count + 1) after)

unfoldable pub count_recipes : (fuel : ℕ) → (head : Ptr) → Cmd Recipe ℕ
unfolding count_from
count_recipes fuel head = count_from fuel 0 head

-- The rows of the loop of `display_all_recipes`.
unfoldable pub rows_from : (fuel : ℕ) → Ptr → Cmd Recipe (List (ℤ × Text × Text × Text × ℤ))
unfolding row
rows_from zero current = λ m. none
rows_from (suc fuel) current = if current == 0 then pure [] else (do
  r ← get_data current
  after ← get_next current
  rest ← rows_from fuel after
  pure (row r ∷ rest))

-- The loop of `main` that frees a list.
unfoldable pub free_all : (fuel : ℕ) → Ptr → Cmd Recipe (Unit {0})
free_all zero current = λ m. none
free_all (suc fuel) current =
    if current == 0
    then pure tt
    else (do after ← get_next current; free current; free_all fuel after)
