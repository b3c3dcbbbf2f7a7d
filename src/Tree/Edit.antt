-- ===== src/Tree/Edit.antt =====
-- Insertion, search and deletion in the tree of tree/01tree.c, against the list of its students.
use mycode_c.Base.{
  ◌≡◌, refl, sym, ap, Bool, List, [], ◌∷◌, ◌++◌, All, All-map, if◌then◌else◌, arith, true, false,
  Bool-cases, inl, inr,
}
use mycode_c.Base.Int.{ltb_ℤ}
use mycode_c.Tree.{Stu, Tree, null, node, tree_insert}
use mycode_c.Tree.Order.{inorder, Below, IsSorted, IsOrdered, sorted-Parts}

-- Insertion into a sorted list, before the first id that is not smaller.
unfoldable pub insert_sorted : Stu → List Stu → List Stu
insert_sorted x [] = x ∷ []
insert_sorted x (y ∷ ys) = if ltb_ℤ y.id x.id then y ∷ insert_sorted x ys else x ∷ (y ∷ ys)

insert_before :
    (x d : Stu) (xs ys : List Stu)
    → ltb_ℤ d.id x.id ≡ false
    → insert_sorted x (xs ++ (d ∷ ys)) ≡ insert_sorted x xs ++ (d ∷ ys)
unfolding insert_sorted
insert_before x d [] ys e = rw e
insert_before x d (y ∷ xs) ys e = ground (arith, insert_before x d xs ys e)

insert_after :
    (x d : Stu) (xs ys : List Stu)
    → Below d.id xs
    → ltb_ℤ d.id x.id ≡ true
    → insert_sorted x (xs ++ (d ∷ ys)) ≡ xs ++ (d ∷ insert_sorted x ys)
unfolding insert_sorted
insert_after x d [] ys b e = rw e
insert_after x d (y ∷ xs) ys b e = ground (arith, insert_after x d xs ys b.1 e)

inserted_sorted :
    (t : Tree) (x : Stu)
    → IsOrdered t
    → inorder (tree_insert true t x) ≡ insert_sorted x (inorder t)
unfolding tree_insert insert_sorted
inserted_sorted null x h = refl
inserted_sorted (node l r d) x h = elim (Bool-cases (ltb_ℤ d.id x.id)) [
  | inl e ↦
      rw (e, inserted_sorted r x (sorted-Parts d (inorder l) (inorder r) h).right)
        (sym (
          insert_after x d (inorder l) (inorder r) (sorted-Parts d (inorder l) (inorder r) h).below
            e))
  | inr e ↦
      rw (e, inserted_sorted l x (sorted-Parts d (inorder l) (inorder r) h).left)
        (sym (insert_before x d (inorder l) (inorder r) e))
]

no_memory_lem : (t : Tree) (x : Stu) → tree_insert false t x ≡ t
unfolding tree_insert
no_memory_lem null x = refl
no_memory_lem (node l r d) x = elim (Bool-cases (ltb_ℤ d.id x.id)) [
  | inl e ↦ rw (e, no_memory_lem r x) refl
  | inr e ↦ rw (e, no_memory_lem l x) refl
]

-- Where `malloc` succeeds, `tree_insert` puts the student into a search tree before the first student
-- whose id is not smaller, and moves no other; where it fails, the tree stays as it is and the student is lost.
pub inorder-tree_insert :
    (got : Bool) (t : Tree) (x : Stu)
    → IsOrdered t
    → inorder (tree_insert got t x) ≡ (if got then insert_sorted x (inorder t) else inorder t)
inorder-tree_insert true t x h = inserted_sorted t x h
inorder-tree_insert false t x h = ap inorder (no_memory_lem t x)

All-insert_sorted :
    (P : Stu → Type 0) (x : Stu) (xs : List Stu) → P x → All P xs → All P (insert_sorted x xs)
unfolding insert_sorted
All-insert_sorted P x [] p h = (p, tt)
All-insert_sorted P x (y ∷ ys) p h = elim (Bool-cases (ltb_ℤ y.id x.id)) [
  | inl e ↦ rw e (h.0, All-insert_sorted P x ys p h.1)
  | inr e ↦ rw e (p, h)
]

insert_sorted-IsSorted : (x : Stu) (xs : List Stu) → IsSorted xs → IsSorted (insert_sorted x xs)
unfolding insert_sorted
insert_sorted-IsSorted x [] h = (tt, tt)
insert_sorted-IsSorted x (y ∷ ys) h = elim (Bool-cases (ltb_ℤ y.id x.id)) [
  | inl e ↦ rw e (All-insert_sorted _ x ys (ground arith) h.0, insert_sorted-IsSorted x ys h.1)
  | inr e ↦ rw e ((ground arith, All-map _ _ ys (λ z k. ground arith) h.0), h)
]

-- `tree_insert` keeps a search tree one, so every tree built by it alone is one.
pub tree_insert-IsOrdered : (t : Tree) (x : Stu) → IsOrdered t → IsOrdered (tree_insert true t x)
tree_insert-IsOrdered t x h = rw (inserted_sorted t x h) (insert_sorted-IsSorted x (inorder t) h)
