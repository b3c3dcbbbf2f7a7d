-- ===== src/Recipes/Tests.antt =====
-- Runs of the recipes on small heaps, and the applications of the theorems to them.
use mycode_c.Base.{
  ℕ, true, some, List, [], ◌∷◌, ◌&&◌, ◌+◌, ◌≡◌, ◌≢◌, refl, arith, if◌then◌else◌, ◌==◌, ltb,
  replicate,
}
use mycode_c.Base.Int.{◌+ℤ◌, pos}
use mycode_c.Llist.{Ptr, Heap}
use mycode_c.Llist.Links.{Fresh}
use mycode_c.Llist.Ring.{Same, contents}
use mycode_c.Llist.Find.{search}
use mycode_c.Recipes.{Recipe, row, create_recipe}
use mycode_c.Recipes.Lists.{has_id, delete_recipe_by_id}
use mycode_c.Recipes.Chain.{Seg, Chain}
use mycode_c.Recipes.Delete.{Deleted, delete_recipe_by_id-Deleted}
use mycode_c.Recipes.Make.{create_recipe-row}
use mycode_c.Recipes.Files.{RecipeFile, save_recipes_to_file, load_recipes_from_file}
use mycode_c.Recipes.Files.RoundTrip.{save-load}

-- Recipes with arrays of zeros; their name is one letter.
abbrev pub plain : ℕ → Recipe
plain id = record {
  id = pos id;
  name = (64 + id) ∷ replicate 99 0;
  cuisine = replicate 50 0;
  difficulty = replicate 20 0;
  prep_time = pos 15;
  ingredients = replicate 20 (record { name = replicate 50 0; amount = replicate 30 0 });
  ingredient_count = 0;
  steps = replicate 10 (replicate 256 0);
  step_count = 0;
}

-- A list at 1: the node 1 and then the node 2, with the ids 1 and 2.
abbrev pub memory : Heap Recipe
memory = record {
  alive = λ q. ltb 0 q && ltb q 3;
  prev = λ q. 0;
  next = λ q. if q == 1 then 2 else 0;
  data' = plain;
}

abbrev pub nodes : List Ptr
nodes = 1 ∷ 2 ∷ []

pub memory-Chain : Chain memory 1 nodes
memory-Chain =
    ((refl, ground arith, refl, (refl, ground arith, refl, refl)), ((ground arith, tt), (tt, tt)))

delete_recipe_by_id-Deleted_example :
    (head' : Ptr) × (m' : Heap Recipe) × (delete_recipe_by_id 3 1 (pos 2) memory
      ≡ some ((1, head'), m'))
    × Deleted (λ q. has_id (pos 2) (plain q)) nodes head' memory m'
unfolding search
delete_recipe_by_id-Deleted_example =
    delete_recipe_by_id-Deleted memory 1 nodes (pos 2) 3 memory-Chain (ground arith)

save-load_example :
    (file : RecipeFile) × (save_recipes_to_file 3 true (pos 3) 1 memory ≡ some (some file, memory))
    × (head' : Ptr) × (m' : Heap Recipe) × (load_recipes_from_file 3
          (7 ∷ 8 ∷ [])
          true
          (pos 1)
          (pos 0)
          file
          memory
        ≡ some ((head', pos 3), m'))
    × Chain m' head' (7 ∷ 8 ∷ [])
    × (contents m' (7 ∷ 8 ∷ []) ≡ plain 1 ∷ plain 2 ∷ [])
    × ((q : Ptr) → Fresh q (7 ∷ 8 ∷ []) → Same memory m' q)
save-load_example =
    save-load memory 1 nodes (pos 3) 3 memory (7 ∷ 8 ∷ []) (pos 1) (pos 0) memory-Chain
      (ground arith) refl (ground arith, (ground arith, tt)) ((ground arith, tt), (tt, tt))

create_recipe-row_example :
    (m' : Heap Recipe) × (create_recipe 7 (65 ∷ 66 ∷ []) (67 ∷ []) (68 ∷ []) (pos 20) (pos 3) memory
      ≡ some ((7, pos 4), m'))
    × Seg m' 7 (7 ∷ []) 0
    × (row (m'.data' 7) ≡ (pos 3, 65 ∷ 66 ∷ [], 67 ∷ [], 68 ∷ [], pos 20))
    × ((q : Ptr) → q ≢ 7 → Same memory m' q)
unfolding ◌+ℤ◌
create_recipe-row_example =
    create_recipe-row memory 7 (65 ∷ 66 ∷ []) (67 ∷ []) (68 ∷ []) (pos 20) (pos 3) (ground arith)
      (ground arith, (ground arith, tt)) (ground arith, tt) (ground arith, tt)

-- The two nodes, not linked yet.
abbrev apart : Heap Recipe
apart = record memory { next = λ q. 0 }
