-- ===== src/Tree/Turns.antt =====
-- `turnleft` and `turnright` of tree/01tree.c: what they make of a node, and the subtrees that one
-- turn hangs at the end of a spine, which a later turn the other way does not reach.
use mycode_c.Base.{
  ℕ, ◌+◌, ◌≤◌, ◌≡◌, refl, sym, subst, append-nil, [], ◌∷◌, ◌++◌, some, append_assoc, arith, ◌⊎◌,
  inl, inr, length, length-append,
}
use mycode_c.Tree.{Stu, Tree, null, node, getnum, set_min_left, set_max_right, turnleft, turnright}
use mycode_c.Tree.Order.{inorder}

pub getnum-inorder : (t : Tree) → getnum t ≡ length (inorder t)
unfolding getnum
getnum-inorder null = refl
getnum-inorder (node l r d) =
    omega (arith, getnum-inorder l, getnum-inorder r, length-append (inorder l) (d ∷ inorder r))

-- The left spine ends in a subtree of `p` nodes.
abbrev pub HeldLeft : ℕ → Tree → Type 0
HeldLeft p null = p ≡ 0
HeldLeft p (node l r d) = (p ≡ getnum (node l r d)) ⊎ HeldLeft p l

abbrev pub HeldRight : ℕ → Tree → Type 0
HeldRight q null = q ≡ 0
HeldRight q (node l r d) = (q ≡ getnum (node l r d)) ⊎ HeldRight q r

pub HeldLeft-le : (p : ℕ) (t : Tree) → HeldLeft p t → p ≤ getnum t
unfolding getnum
HeldLeft-le p null h = omega arith
HeldLeft-le p (node l r d) (inl e) = omega arith
HeldLeft-le p (node l r d) (inr h) = omega (arith, HeldLeft-le p l h)

pub HeldRight-le : (q : ℕ) (t : Tree) → HeldRight q t → q ≤ getnum t
unfolding getnum
HeldRight-le q null h = omega arith
HeldRight-le q (node l r d) (inl e) = omega arith
HeldRight-le q (node l r d) (inr h) = omega (arith, HeldRight-le q r h)

HeldLeft-self : (t : Tree) → HeldLeft (getnum t) t
unfolding getnum
HeldLeft-self null = refl
HeldLeft-self (node l r d) = inl refl

HeldRight-self : (t : Tree) → HeldRight (getnum t) t
unfolding getnum
HeldRight-self null = refl
HeldRight-self (node l r d) = inl refl

-- the left child `l` with `c` hung at the end of its left spine
record HungLeft (c l l' : Tree) : Type 0 where
  pub order : inorder l' ≡ inorder c ++ inorder l
  pub held : HeldLeft (getnum c) l'

record HungRight (c r r' : Tree) : Type 0 where
  pub order : inorder r' ≡ inorder r ++ inorder c
  pub held : HeldRight (getnum c) r'

set_min_left_lem :
    (l r : Tree) (d : Stu) (c : Tree)
    → (l' : Tree) × (set_min_left (node l r d) c ≡ some (node l' r d)) × HungLeft c l l'
unfolding set_min_left
set_min_left_lem null r d c =
    (c, refl, record { order = sym (append-nil (inorder c)); held = HeldLeft-self c })
set_min_left_lem (node ll lr ld) r d c =
    let (t, e, h) = set_min_left_lem ll lr ld c in
    (
      node t lr ld,
      rw e,
      record {
        order = rw h.order (append_assoc (inorder c) (inorder ll) (ld ∷ inorder lr));
        held = inr h.held;
      },
    )

set_max_right_lem :
    (l r : Tree) (d : Stu) (c : Tree)
    → (r' : Tree) × (set_max_right (node l r d) c ≡ some (node l r' d)) × HungRight c r r'
unfolding set_max_right
set_max_right_lem l null d c = (c, refl, record { order = refl; held = HeldRight-self c })
set_max_right_lem l (node rl rr rd) d c =
    let (t, e, h) = set_max_right_lem rl rr rd c in
    (
      node rl t rd,
      rw e,
      record {
        order = rw h.order (sym (append_assoc (inorder rl) (rd ∷ inorder rr) (inorder c)));
        held = inr h.held;
      },
    )

-- The right child becomes the root, and the old root hangs at the end of the left spine.
pub turnleft_lem :
    (l rl rr : Tree) (d rd : Stu)
    → (l' : Tree) × (turnleft (node l (node rl rr rd) d) ≡ some (node l' rr rd))
      × (inorder (node l' rr rd) ≡ inorder (node l (node rl rr rd) d))
      × HeldLeft (getnum l + 1) l'
unfolding turnleft
turnleft_lem l rl rr d rd =
    let (l', e, h) = set_min_left_lem rl rr rd (node l null d) in
    (l', e, rw h.order (shuffle l rl rr d rd), subst (λ n. HeldLeft n l') (one_more l d) h.held)
  where
    one_more : (l : Tree) (d : Stu) → getnum (node l null d) ≡ getnum l + 1
    one_more l d = unfold getnum in omega arith

    shuffle :
        (l rl rr : Tree) (d rd : Stu)
        → ((inorder l ++ (d ∷ [])) ++ inorder rl) ++ (rd ∷ inorder rr)
          ≡ inorder l ++ (d ∷ (inorder rl ++ (rd ∷ inorder rr)))
    shuffle l rl rr d rd = simp append_assoc

pub turnright_lem :
    (ll lr r : Tree) (d ld : Stu)
    → (r' : Tree) × (turnright (node (node ll lr ld) r d) ≡ some (node ll r' ld))
      × (inorder (node ll r' ld) ≡ inorder (node (node ll lr ld) r d))
      × HeldRight (getnum r + 1) r'
unfolding turnright
turnright_lem ll lr r d ld =
    let (r', e, h) = set_max_right_lem ll lr ld (node null r d) in
    (r', e, rw h.order (shuffle ll lr r d ld), subst (λ n. HeldRight n r') (one_more r d) h.held)
  where
    one_more : (r : Tree) (d : Stu) → getnum (node null r d) ≡ getnum r + 1
    one_more r d = unfold getnum in omega arith

    shuffle :
        (ll lr r : Tree) (d ld : Stu)
        → inorder ll ++ (ld ∷ (inorder lr ++ (d ∷ inorder r)))
          ≡ (inorder ll ++ (ld ∷ inorder lr)) ++ (d ∷ inorder r)
    shuffle ll lr r d ld = simp append_assoc
