-- ===== src/Tree/Height.antt =====
-- The height of the tree that `tree_balance` of tree/01tree.c leaves.
use native.Mathlib.Nat.{pow-suc}
use native.Mathlib.Decide.{dec_le}
use mycode_c.Base.{ℕ, suc, ◌+◌, ◌*◌, ◌^◌, ◌≤◌, ◌<◌, ◌≡◌, some, arith, max}
use mycode_c.Tree.{Tree, null, node, getnum, tree_balance}
use mycode_c.Tree.Balance.{IsBalanced, Rebuilt, tree_balance-Rebuilt, same_getnum}

-- the number of nodes on the longest path, which bounds what a search visits
unfoldable pub height : Tree → ℕ
height null = 0
height (node l r d) = suc (max (height l) (height r))

pow_max : (a b m : ℕ) → 2 ^ a ≤ m → 2 ^ b ≤ m → 2 ^ max a b ≤ m
pow_max a b m h k = elim (dec_le a b) [
  | yes p ↦ let e : max a b ≡ b = omega arith in rw e k
  | no p ↦ let e : max a b ≡ a = omega arith in rw e h
]

height_of_balanced : (t : Tree) → IsBalanced t → 2 ^ height t ≤ max 1 (2 * getnum t)
unfolding height getnum
height_of_balanced null h = omega arith
height_of_balanced (node l r d) (even, hl, hr) =
    let n : ℕ = 1 + getnum l + getnum r in
    let step : 2 ^ max (height l) (height r) ≤ n =
      pow_max (height l) (height r) n (omega (arith, height_of_balanced l hl))
        (omega (arith, height_of_balanced r hr)) in
    rw pow-suc (omega arith)

-- What `tree_balance` makes of a tree of n nodes has a height of at most log₂ n + 1.
pub height-tree_balance :
    (fuel : ℕ) (t : Tree)
    → getnum t < fuel
    → (t' : Tree) × (tree_balance fuel t ≡ some t') × (2 ^ height t' ≤ max 1 (2 * getnum t))
height-tree_balance fuel t lt =
    let v : Rebuilt t (tree_balance fuel t) = tree_balance-Rebuilt fuel t lt in
    (
      v.result,
      v.returns,
      rw (← same_getnum v.result t v.order) (height_of_balanced v.result v.balanced),
    )
