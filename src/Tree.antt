-- ===== src/Tree.antt =====
-- The binary tree of students of tree/01tree.c. A node is owned by the one pointer that leads to it,
-- so a subtree is a value, and a function that changes `*root` returns the new tree. Whether `malloc`
-- succeeds is an argument; `none` stands for a read through NULL or for fuel that ran out. What the
-- program prints is returned as a list.

pub mod Order
pub mod Edit
pub mod Search
pub mod Turns
pub mod Balance
pub mod Height
pub mod Print
pub mod Distroy
mod Tests
use mycode_c.Base.{
  ℕ, zero, suc, ◌+◌, Bool, true, false, Option, none, some, List, [], ◌∷◌, ◌++◌, if◌then◌else◌, ltb,
}
use mycode_c.Base.Int.{ℤ, pos, negsuc, ltb_ℤ, eqb_ℤ}

-- `struct stu`
pub record Stu : Type 0 where
  pub id : ℤ
  pub name : List ℕ
  pub math : ℤ

-- `struct tree_node`, or NULL; the left child comes first.
pub data Tree : Type 0 where
  null : Tree
  node : Tree → Tree → Stu → Tree

pub tree_insert : (got : Bool) → Tree → Stu → Tree
tree_insert got null data' = if got then node null null data' else null
tree_insert got (node l r d) data' =
    if ltb_ℤ d.id data'.id
    then node l (tree_insert got r data') d
    else node (tree_insert got l data') r d

pub tree_find : Tree → ℤ → Option Stu
tree_find null find_id = none
tree_find (node l r d) find_id =
    if eqb_ℤ d.id find_id
    then some d
    else (if ltb_ℤ find_id d.id then tree_find l find_id else tree_find r find_id)

-- The node that the C function points at, with all that hangs below it.
pub find_max : Tree → Tree
find_max null = null
find_max (node l null d) = node l null d
find_max (node l (node rl rr rd) d) = find_max (node rl rr rd)

pub find_min : Tree → Tree
find_min null = null
find_min (node null r d) = node null r d
find_min (node (node ll lr ld) r d) = find_min (node ll lr ld)

-- `find_max(root)->r = sub`: a write through NULL where there is no node.
pub set_max_right : Tree → Tree → Option Tree
set_max_right null sub = none
set_max_right (node l null d) sub = some (node l sub d)
set_max_right (node l (node rl rr rd) d) sub = elim (set_max_right (node rl rr rd) sub) [
  | none ↦ none
  | some r' ↦ some (node l r' d)
]

-- `find_min(root)->l = sub`
pub set_min_left : Tree → Tree → Option Tree
set_min_left null sub = none
set_min_left (node null r d) sub = some (node sub r d)
set_min_left (node (node ll lr ld) r d) sub = elim (set_min_left (node ll lr ld) sub) [
  | none ↦ none
  | some l' ↦ some (node l' r d)
]

-- What takes the place of a deleted node.
pub splice : Tree → Tree → Option Tree
splice null r = some r
splice (node ll lr ld) r = set_max_right (node ll lr ld) r

-- A deletion in a subtree leaves the node above in place.
pub under_left : Tree → Stu → Option (ℤ × Tree) → Option (ℤ × Tree)
under_left r d none = none
under_left r d (some (st, l)) = some (st, node l r d)

pub under_right : Tree → Stu → Option (ℤ × Tree) → Option (ℤ × Tree)
under_right l d none = none
under_right l d (some (st, r)) = some (st, node l r d)

-- The status is 0 or -1.
pub tree_delete : Tree → ℤ → Option (ℤ × Tree)
tree_delete null find_id = some (negsuc 0, null)
tree_delete (node l r d) find_id =
    if eqb_ℤ d.id find_id
    then elim (splice l r) [ none ↦ none | some t ↦ some (pos 0, t) ]
    else (if ltb_ℤ d.id find_id
        then under_right l d (tree_delete r find_id)
        else under_left r d (tree_delete l find_id))

-- The students in the order in which `tree_display` prints them.
pub tree_display : Tree → List Stu
tree_display null = []
tree_display (node l r d) = tree_display l ++ (tree_display r ++ (d ∷ []))

-- The indentation and the id of each line that `_draw` prints.
pub draw : Tree → ℕ → List (ℕ × ℤ)
draw null level = []
draw (node l r d) level = draw r (level + 1) ++ ((level, d.id) ∷ draw l (level + 1))

pub getnum : Tree → ℕ
getnum null = 0
getnum (node l r d) = 1 + getnum l + getnum r

pub turnleft : Tree → Option Tree
turnleft null = none
turnleft (node l r d) = set_min_left r (node l null d)

pub turnright : Tree → Option Tree
turnright null = none
turnright (node l r d) = set_max_right l (node null r d)

-- `num < -1` and `num > 1` for `num = getnum(l) - getnum(r)`, without the subtraction.
pub right_heavy : Tree → Bool
right_heavy null = false
right_heavy (node l r d) = ltb (getnum l + 1) (getnum r)

pub left_heavy : Tree → Bool
left_heavy null = false
left_heavy (node l r d) = ltb (getnum r + 1) (getnum l)

-- The `while (1)` of `tree_balance`. The fuel bounds its rounds.
pub balance_loop : ℕ → Tree → Option Tree
unfolding right_heavy left_heavy
balance_loop zero t = none
balance_loop (suc fuel) t = elim (right_heavy t) [
  | true ↦ elim (turnleft t) [ none ↦ none | some t' ↦ balance_loop fuel t' ]
  | false ↦ elim (left_heavy t) [
    | true ↦ elim (turnright t) [ none ↦ none | some t' ↦ balance_loop fuel t' ]
    | false ↦ some t
  ]
]

-- The two calls on the children, whose results take their places; `rec` is `tree_balance`.
pub join : Stu → Option Tree → Option Tree → Option Tree
join d none r = none
join d (some l) none = none
join d (some l) (some r) = some (node l r d)

pub balance_children : (rec : Tree → Option Tree) → Option Tree → Option Tree
unfolding join
balance_children rec none = none
balance_children rec (some null) = some null
balance_children rec (some (node l r d)) = join d (rec l) (rec r)

pub tree_balance : ℕ → Tree → Option Tree
unfolding balance_children
tree_balance zero t = none
tree_balance (suc fuel) null = some null
tree_balance (suc fuel) (node l r d) =
    balance_children (tree_balance fuel) (balance_loop (suc fuel) (node l r d))
