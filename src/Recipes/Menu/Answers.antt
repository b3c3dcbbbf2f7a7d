-- ===== src/Recipes/Menu/Answers.antt =====
-- The searches of c+ds/main.c.
use mycode_c.Base.{Option, none, some}
use mycode_c.Llist.{Ptr, Heap}
use mycode_c.Recipes.{Recipe, shown}
use mycode_c.Recipes.Chain.{Chain}
use mycode_c.Recipes.Menu.{Found, found, not_found, Shown}

-- What is displayed of the node that was found.
pub answered : Heap Recipe → Option Ptr → Found (Option Shown)
answered m none = not_found
answered m (some p) = found (some (shown (m.data' p)))
