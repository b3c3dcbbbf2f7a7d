-- ===== src/Tree/Print.antt =====
-- What the functions of tree/01tree.c print.
use mathlib.Core.List.{reverse, reverse-append, map-append, Perm, perm_append_comm}
use mathlib.Core.List.Perm
use mycode_c.Base.{ℕ, ◌+◌, ◌≡◌, refl, ap, ap₂, sym, ◌∙◌, List, [], ◌∷◌, ◌++◌, map, append_assoc}
use mycode_c.Base.Int.{ℤ}
use mycode_c.Tree.{Stu, Tree, null, node, tree_display, draw}
use mycode_c.Tree.Order.{inorder}

-- `tree_display` prints every student of the tree once.
pub tree_display-perm : (t : Tree) → Perm (tree_display t) (inorder t)
unfolding tree_display
tree_display-perm null = Perm.refl []
tree_display-perm (node l r d) =
    Perm.append (tree_display-perm l)
      (Perm.trans (perm_append_comm (tree_display r) (d ∷ [])) (Perm.cons d (tree_display-perm r)))

abbrev ids : List Stu → List ℤ
ids = map (λ (x : Stu). x.id)

reverse-cons {ℓ} : {A : Type ℓ} (x : A) (xs : List A) → reverse (x ∷ xs) ≡ reverse xs ++ (x ∷ [])
reverse-cons x xs = reverse-append (x ∷ []) xs

ids_node :
    (l r : Tree) (d : Stu)
    → ids (inorder (node l r d)) ≡ ids (inorder l) ++ (d.id ∷ ids (inorder r))
ids_node l r d = map-append _ (inorder l) (d ∷ inorder r)

-- `_draw` prints each id once, from the greatest place in the order down to the least.
pub draw-reverse :
    (t : Tree) (level : ℕ) → map (λ (p : ℕ × ℤ). p.1) (draw t level) ≡ reverse (ids (inorder t))
unfolding draw
draw-reverse null level = refl
draw-reverse (node l r d) level =
    map-append _ (draw r (level + 1)) ((level, d.id) ∷ draw l (level + 1))
    ∙ ap₂ (λ xs ys. xs ++ (d.id ∷ ys)) (draw-reverse r (level + 1)) (draw-reverse l (level + 1))
    ∙ sym (
        ap reverse (ids_node l r d)
        ∙ reverse-append (ids (inorder l)) (d.id ∷ ids (inorder r))
        ∙ ap (λ xs. xs ++ reverse (ids (inorder l))) (reverse-cons d.id (ids (inorder r)))
        ∙ append_assoc (reverse (ids (inorder r))) (d.id ∷ []) (reverse (ids (inorder l))))
