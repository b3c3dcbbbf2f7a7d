-- ===== src/Recipes/Menu/Tests.antt =====
-- Runs of the menu's functions on a small heap and a short input, and the applications of the theorems to them.
use mycode_c.Base.{All, false, true, ℕ, ◌-◌, some, List, [], ◌∷◌, ◌≡◌, ◌≢◌, refl, arith}
use mycode_c.Base.Int.{ℤ, pos}
use mycode_c.Llist.{Ptr, Heap}
use mycode_c.Recipes.{Recipe}
use mycode_c.Recipes.Chain.{Chain}
use mycode_c.Recipes.Tests.{plain, memory, nodes, memory-Chain}
use mycode_c.Recipes.Menu.{reload_recipes}
use mycode_c.Llist.Links.{Fresh}
use mycode_c.Llist.Ring.{Same, contents}
use mycode_c.Recipes.Files.{RecipeFile}
use mycode_c.Recipes.Menu.Reload.{reload_recipes-Replaced}

-- Numbers of one digit.
abbrev scan_digit : List ℕ → ℤ × List ℕ
scan_digit [] = (pos 0, [])
scan_digit (c ∷ cs) = (pos (c - 48), cs)

-- A, B, C, 5, the ingredient x with the amount 1, the step s.
abbrev lines : List ℕ
lines = 65 ∷ 10 ∷ 66 ∷ 10 ∷ 67 ∷ 10 ∷ 53 ∷ 10 ∷ 120 ∷ 10 ∷ 49 ∷ 10 ∷ 10 ∷ 115 ∷ 10 ∷ 10 ∷ []

-- A file with one recipe, which replaces the two of the list; a file with none, whose next id is taken.
reload_recipes-Replaced_example :
    let file : RecipeFile = record { ints = pos 9 ∷ pos 1 ∷ []; records = plain 8 ∷ [] } in
    (plain 8 ∷ [] ≡ []
      → reload_recipes 3 (7 ∷ []) true 1 (pos 3) (pos 0) file memory ≡ some ((1, pos 9), memory))
    × (plain 8 ∷ [] ≢ []
        → (head' : Ptr) × (m' : Heap Recipe) × (reload_recipes 3
              (7 ∷ [])
              true
              1
              (pos 3)
              (pos 0)
              file
              memory
            ≡ some ((head', pos 9), m'))
          × Chain m' head' (7 ∷ [])
          × (contents m' (7 ∷ []) ≡ plain 8 ∷ [])
          × All (λ q. m'.alive q ≡ false) nodes
          × ((q : Ptr) → Fresh q (7 ∷ []) → Fresh q nodes → Same memory m' q))
reload_recipes-Replaced_example =
    reload_recipes-Replaced memory 1 nodes (7 ∷ []) (plain 8 ∷ []) 3 (pos 9) (pos 3) (pos 0)
      memory-Chain (ground arith) (ground arith) refl (ground arith, tt) (tt, tt)
      ((ground arith, (ground arith, tt)), tt)
