-- ===== src/Tree/Tests.antt =====
-- Runs of tree/01tree.c on its own data, and the theorems at concrete trees.
use mathlib.Core.Option
use mycode_c.Base.{
  ℕ, ◌≡◌, refl, true, some, ltb, ◌&&◌, ◌==◌, if◌then◌else◌, List, [], ◌∷◌, ◌^◌, ◌*◌, ◌≤◌, max, map,
  arith,
}
use mycode_c.Base.Int.{ℤ, pos}
use mycode_c.Tree.{
  Stu, Tree, null, node, tree_insert, tree_find, tree_delete, tree_balance, getnum, balance_loop,
  turnleft, turnright, set_min_left, set_max_right, splice, under_right,
}
use mycode_c.Tree.Order.{inorder}
use mycode_c.Tree.Edit.{insert_sorted, inorder-tree_insert}
use mycode_c.Tree.Search.{Found, Deleted, tree_find-Found, tree_delete-Deleted}
use mycode_c.Tree.Balance.{Rebuilt, tree_balance-Rebuilt}
use mycode_c.Tree.Distroy.{
  Shape, leaf, branch, nodes, depth, Rooted, Freed, tree_distroy, tree_distroy-Freed,
}
use mycode_c.Llist.{Heap}
use mycode_c.Llist.Links.{Distinct}
use mycode_c.Tree.Height.{height, height-tree_balance}

abbrev stu : ℕ → Stu
stu n = record { id = pos n; name = []; math = pos 60 }

abbrev insert_all : Tree → List ℕ → Tree
insert_all t [] = t
insert_all t (n ∷ ns) = insert_all (tree_insert true t (stu n)) ns

-- `main` inserts 1, 2, 3, 7, 6, 5, 4, 9, 8 in this order.
abbrev sample : Tree
sample =
    node null
      (node null
        (node null
          (node (node (node (node null null (stu 4)) null (stu 5)) null (stu 6))
            (node (node null null (stu 8)) null (stu 9)) (stu 7))
          (stu 3))
        (stu 2))
      (stu 1)

sample_built : insert_all null (1 ∷ 2 ∷ 3 ∷ 7 ∷ 6 ∷ 5 ∷ 4 ∷ 9 ∷ 8 ∷ []) ≡ sample
unfolding tree_insert
sample_built = refl

abbrev ids : Tree → List ℤ
ids t = map (λ (x : Stu). x.id) (inorder t)

sample_deleted :
    Option.map (λ (p : ℤ × Tree). ids p.1) (tree_delete sample (pos 7))
    ≡ some (pos 1 ∷ pos 2 ∷ pos 3 ∷ pos 4 ∷ pos 5 ∷ pos 6 ∷ pos 8 ∷ pos 9 ∷ [])
unfolding tree_delete splice set_max_right under_right
sample_deleted = refl

-- The root of the balanced tree is the student in the middle.
sample_balanced : Option.map height (tree_balance 10 sample) ≡ some 4
unfolding tree_balance balance_loop turnleft turnright set_min_left set_max_right getnum height
sample_balanced = refl

inorder-tree_insert_example :
    inorder (tree_insert true sample (stu 5)) ≡ insert_sorted (stu 5) (inorder sample)
inorder-tree_insert_example = inorder-tree_insert true sample (stu 5) (omega arith)

tree_find-Found_example : Found (inorder sample) (pos 6) (tree_find sample (pos 6))
tree_find-Found_example = tree_find-Found sample (pos 6) (omega arith)

tree_delete-Deleted_example : Deleted sample (pos 7) (tree_delete sample (pos 7))
tree_delete-Deleted_example = tree_delete-Deleted sample (pos 7) (omega arith)

tree_balance-Rebuilt_example : Rebuilt sample (tree_balance 10 sample)
tree_balance-Rebuilt_example = tree_balance-Rebuilt 10 sample (unfold getnum in omega arith)

height-tree_balance_example :
    (t' : Tree) × (tree_balance 10 sample ≡ some t') × (2 ^ height t' ≤ max 1 (2 * getnum sample))
height-tree_balance_example = height-tree_balance 10 sample (unfold getnum in omega arith)

-- The node 1 with the nodes 2 and 3 under it.
abbrev memory : Heap Stu
memory = record {
  alive = λ q. ltb 0 q && ltb q 4;
  prev = λ q. if q == 1 then 2 else 0;
  next = λ q. if q == 1 then 3 else 0;
  data' = stu;
}

abbrev three : Shape
three = branch 1 (branch 2 leaf leaf) (branch 3 leaf leaf)

memory-Rooted : Rooted memory 1 three
unfolding Rooted
memory-Rooted = (
  refl,
  ground arith,
  refl,
  (refl, ground arith, refl, refl, refl),
  (refl, ground arith, refl, refl, refl),
)

three-Distinct : Distinct (nodes three)
unfolding nodes
three-Distinct = ((ground arith, (ground arith, tt)), ((ground arith, tt), (tt, tt)))

tree_distroy-Freed_example :
    (m' : Heap Stu) × (tree_distroy 3 1 memory ≡ some (tt, m')) × Freed (nodes three) memory m'
tree_distroy-Freed_example =
    tree_distroy-Freed 3 memory 1 three memory-Rooted three-Distinct (unfold depth in omega arith)
