-- ===== src/Tree/Search.antt =====
-- Search and deletion in the tree of tree/01tree.c, against the list of its students.
use mycode_c.Base.{
  ◌≡◌, ◌≢◌, refl, ap, sym, List, [], ◌∷◌, ◌++◌, Option, none, some, All, All-append, All-map,
  append_assoc, arith, Bool-cases, inl, inr, ◌⊎◌,
}
use mycode_c.Base.Int.{ℤ, pos, negsuc, ◌<ℤ◌, ltb_ℤ, eqb_ℤ}
use mycode_c.Tree.{
  Stu, Tree, null, node, tree_find, tree_delete, splice, set_max_right, under_left, under_right,
}
use mycode_c.Tree.Order.{inorder, Above, Below, IsOrdered, Parts, sorted-Parts}

-- `ys` holds `d`
abbrev pub Holds : List Stu → Stu → Type 0
Holds ys d = (xs : List Stu) × (zs : List Stu) × (ys ≡ xs ++ (d ∷ zs))

abbrev pub Absent : ℤ → List Stu → Type 0
Absent i = All (λ y. y.id ≢ i)

-- the outcome of a search for an id among students
abbrev pub Found : List Stu → ℤ → Option Stu → Type 0
Found ys i none = Absent i ys
Found ys i (some d) = (d.id ≡ i) × Holds ys d

Holds-left : (d x : Stu) (xs ys : List Stu) → Holds xs d → Holds (xs ++ (x ∷ ys)) d
Holds-left d x xs ys (before, after, e) =
    (before, after ++ (x ∷ ys), rw e (append_assoc before (d ∷ after) (x ∷ ys)))

Holds-right : (d x : Stu) (xs ys : List Stu) → Holds ys d → Holds (xs ++ (x ∷ ys)) d
Holds-right d x xs ys (before, after, e) =
    (xs ++ (x ∷ before), after, rw e (sym (append_assoc xs (x ∷ before) (d ∷ after))))

-- Below a smaller mark, and above a greater one, an id is absent.
Absent-Below : (i j : ℤ) (xs : List Stu) → j <ℤ i → Below j xs → Absent i xs
Absent-Below i j xs lt b = All-map _ _ xs (λ y h e. absurd (ground arith)) b

Absent-Above : (i j : ℤ) (xs : List Stu) → i <ℤ j → Above j xs → Absent i xs
Absent-Above i j xs lt b = All-map _ _ xs (λ y h e. absurd (ground arith)) b

Found-left :
    (i : ℤ) (d : Stu) (l r : List Stu) (o : Option Stu)
    → i <ℤ d.id
    → Above d.id r
    → Found l i o
    → Found (l ++ (d ∷ r)) i o
Found-left i d l r none lt up f =
    All-append _ l (d ∷ r) f ((λ e. absurd (ground arith)), Absent-Above i d.id r lt up)
Found-left i d l r (some x) lt up f = (f.0, Holds-left x d l r f.1)

Found-right :
    (i : ℤ) (d : Stu) (l r : List Stu) (o : Option Stu)
    → d.id <ℤ i
    → Below d.id l
    → Found r i o
    → Found (l ++ (d ∷ r)) i o
Found-right i d l r none lt down f =
    All-append _ l (d ∷ r) (Absent-Below i d.id l lt down) ((λ e. absurd (ground arith)), f)
Found-right i d l r (some x) lt down f = (f.0, Holds-right x d l r f.1)

-- In a search tree `tree_find` returns a student of the tree with the id asked for, and NULL
-- exactly if no student of the tree has that id.
pub tree_find-Found : (t : Tree) (i : ℤ) → IsOrdered t → Found (inorder t) i (tree_find t i)
unfolding tree_find
tree_find-Found null i h = tt
tree_find-Found (node l r d) i h = elim (Bool-cases (eqb_ℤ d.id i)) [
  | inl e ↦ rw e (ground arith, (inorder l, inorder r, refl))
  | inr ne ↦ elim (Bool-cases (ltb_ℤ i d.id)) [
    | inl lt ↦
        rw (ne, lt)
          (Found-left i d (inorder l) (inorder r) (tree_find l i) (ground arith) p.above
            (tree_find-Found l i p.left))
    | inr ge ↦
        rw (ne, ge)
          (Found-right i d (inorder l) (inorder r) (tree_find r i) (ground arith) p.below
            (tree_find-Found r i p.right))
  ]
]
  where
    p : Parts d (inorder l) (inorder r)
    p = sorted-Parts d (inorder l) (inorder r) h

-- The tree holds its students but for one with the id `i`.
pub record Removed (before : List Stu) (i : ℤ) (after : List Stu) : Type 0 where
  pub left : List Stu
  pub gone : Stu
  pub right : List Stu
  pub had : before ≡ left ++ (gone ∷ right)
  pub has : after ≡ left ++ right
  pub is : gone.id ≡ i

-- the outcome of a deletion: -1 and the same tree, or 0 and one student less
abbrev pub Deleted : Tree → ℤ → Option (ℤ × Tree) → Type 0
Deleted t i none = ⊥
Deleted t i (some (st, t')) =
    (st ≡ negsuc 0) × (t' ≡ t) × Absent i (inorder t)
    ⊎ (st ≡ pos 0) × Removed (inorder t) i (inorder t')

-- Writing at the right end hangs the subtree behind all students.
pub set_max_right_lem :
    (l r c : Tree) (d : Stu)
    → (t : Tree) × (set_max_right (node l r d) c ≡ some t)
      × (inorder t ≡ inorder (node l r d) ++ inorder c)
unfolding set_max_right
set_max_right_lem l null c d =
    (node l c d, refl, sym (append_assoc (inorder l) (d ∷ []) (inorder c)))
set_max_right_lem l (node rl rr rd) c d =
    let (t, e, p) = set_max_right_lem rl rr c rd in
    (
      node l t d,
      rw e,
      rw p (sym (append_assoc (inorder l) (d ∷ inorder (node rl rr rd)) (inorder c))),
    )

splice_lem :
    (l r : Tree) → (t : Tree) × (splice l r ≡ some t) × (inorder t ≡ inorder l ++ inorder r)
unfolding splice
splice_lem null r = (r, refl, refl)
splice_lem (node ll lr ld) r = set_max_right_lem ll lr r ld

Removed-right :
    (i : ℤ) (d : Stu) (l r r' : List Stu)
    → Removed r i r'
    → Removed (l ++ (d ∷ r)) i (l ++ (d ∷ r'))
Removed-right i d l r r' v = record {
  left = l ++ (d ∷ v.left);
  gone = v.gone;
  right = v.right;
  had = rw v.had (sym (append_assoc l (d ∷ v.left) (v.gone ∷ v.right)));
  has = rw v.has (sym (append_assoc l (d ∷ v.left) v.right));
  is = v.is;
}

Removed-left :
    (i : ℤ) (d : Stu) (l l' r : List Stu)
    → Removed l i l'
    → Removed (l ++ (d ∷ r)) i (l' ++ (d ∷ r))
Removed-left i d l l' r v = record {
  left = v.left;
  gone = v.gone;
  right = v.right ++ (d ∷ r);
  had = rw v.had (append_assoc v.left (v.gone ∷ v.right) (d ∷ r));
  has = rw v.has (append_assoc v.left v.right (d ∷ r));
  is = v.is;
}

Deleted-right :
    (l r : Tree) (d : Stu) (i : ℤ) (o : Option (ℤ × Tree))
    → d.id <ℤ i
    → Below d.id (inorder l)
    → Deleted r i o
    → Deleted (node l r d) i (under_right l d o)
unfolding under_right
Deleted-right l r d i none lt down f = f
Deleted-right l r d i (some (st, t)) lt down (inl (e, same, out)) = inl (
  e,
  ap (λ x. node l x d) same,
  All-append _ (inorder l) (d ∷ inorder r) (Absent-Below i d.id (inorder l) lt down)
      ((λ q. absurd (ground arith)), out),
)
Deleted-right l r d i (some (st, t)) lt down (inr (e, v)) =
    inr (e, Removed-right i d (inorder l) (inorder r) (inorder t) v)

Deleted-left :
    (l r : Tree) (d : Stu) (i : ℤ) (o : Option (ℤ × Tree))
    → i <ℤ d.id
    → Above d.id (inorder r)
    → Deleted l i o
    → Deleted (node l r d) i (under_left r d o)
unfolding under_left
Deleted-left l r d i none lt up f = f
Deleted-left l r d i (some (st, t)) lt up (inl (e, same, out)) = inl (
  e,
  ap (λ x. node x r d) same,
  All-append _ (inorder l) (d ∷ inorder r) out
      ((λ q. absurd (ground arith)), Absent-Above i d.id (inorder r) lt up),
)
Deleted-left l r d i (some (st, t)) lt up (inr (e, v)) =
    inr (e, Removed-left i d (inorder l) (inorder t) (inorder r) v)

-- In a search tree `tree_delete` returns -1 and leaves the tree exactly if no student has the id;
-- otherwise it returns 0 and takes one student with that id out, and the order of the others stays.
pub tree_delete-Deleted : (t : Tree) (i : ℤ) → IsOrdered t → Deleted t i (tree_delete t i)
unfolding tree_delete
tree_delete-Deleted null i h = inl (refl, refl, tt)
tree_delete-Deleted (node l r d) i h = elim (Bool-cases (eqb_ℤ d.id i)) [
  | inl e ↦
      let (t, s, q) = splice_lem l r in
      rw (e, s)
        (inr (
          refl,
          record {
            left = inorder l;
            gone = d;
            right = inorder r;
            had = refl;
            has = q;
            is = ground arith;
          },
        ))
  | inr ne ↦ elim (Bool-cases (ltb_ℤ d.id i)) [
    | inl lt ↦
        rw (ne, lt)
          (Deleted-right l r d i (tree_delete r i) (ground arith) p.below
            (tree_delete-Deleted r i p.right))
    | inr ge ↦
        rw (ne, ge)
          (Deleted-left l r d i (tree_delete l i) (ground arith) p.above
            (tree_delete-Deleted l i p.left))
  ]
]
  where
    p : Parts d (inorder l) (inorder r)
    p = sorted-Parts d (inorder l) (inorder r) h
