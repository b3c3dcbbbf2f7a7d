-- ===== src/Tree/Order.antt =====
-- The order of ids in the tree of tree/01tree.c, and the list that the tree stands for.
use mycode_c.Base.{List, [], ◌∷◌, ◌++◌, All, All-append, All-left, All-right, All-map, arith}
use mycode_c.Base.Int.{ℤ, ◌≤ℤ◌}
use mycode_c.Tree.{Stu, Tree, null, node}

-- the students from the left to the right
abbrev pub inorder : Tree → List Stu
inorder null = []
inorder (node l r d) = inorder l ++ (d ∷ inorder r)

abbrev pub Above : ℤ → List Stu → Type 0
Above i = All (λ y. i ≤ℤ y.id)

abbrev pub Below : ℤ → List Stu → Type 0
Below i = All (λ y. y.id ≤ℤ i)

abbrev pub IsSorted : List Stu → Type 0
IsSorted [] = Unit
IsSorted (x ∷ xs) = Above x.id xs × IsSorted xs

-- A search tree: ids do not fall from the left to the right.
abbrev pub IsOrdered : Tree → Type 0
IsOrdered t = IsSorted (inorder t)

-- A sorted list with a mark in it.
pub record Parts (d : Stu) (xs ys : List Stu) : Type 0 where
  pub left : IsSorted xs
  pub below : Below d.id xs
  pub above : Above d.id ys
  pub right : IsSorted ys

pub sorted-Parts : (d : Stu) (xs ys : List Stu) → IsSorted (xs ++ (d ∷ ys)) → Parts d xs ys
sorted-Parts d [] ys h = record { left = tt; below = tt; above = h.0; right = h.1 }
sorted-Parts d (x ∷ xs) ys h =
    let p = sorted-Parts d xs ys h.1 in
    record {
      left = (All-left _ xs (d ∷ ys) h.0, p.left);
      below = ((All-right _ xs (d ∷ ys) h.0).0, p.below);
      above = p.above;
      right = p.right;
    }

pub IsSorted-join : (d : Stu) (xs ys : List Stu) → Parts d xs ys → IsSorted (xs ++ (d ∷ ys))
IsSorted-join d [] ys p = (p.above, p.right)
IsSorted-join d (x ∷ xs) ys p =
    let rest : Parts d xs ys = record {
      left = p.left.1;
      below = p.below.1;
      above = p.above;
      right = p.right;
    } in
    let far : Above x.id ys = All-map _ _ ys (λ y h. omega (arith, p.below.0)) p.above in
    (All-append _ xs (d ∷ ys) p.left.0 (p.below.0, far), IsSorted-join d xs ys rest)
