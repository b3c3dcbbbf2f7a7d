-- ===== src/Tree/Balance.antt =====
-- `tree_balance` of tree/01tree.c: its loop ends, and what it leaves.
use mycode_c.Base.{
  ℕ, zero, suc, ◌+◌, ◌*◌, ◌≤◌, ◌<◌, ◌≡◌, refl, ap, ap₂, sym, ◌∙◌, ◌∷◌, ◌++◌, Option, some, none,
  arith, inl, inr, length, Bool-cases, ltb, ltb→lt,
}
use mycode_c.Tree.{
  Stu, Tree, null, node, getnum, turnleft, turnright, balance_loop, join, balance_children,
  tree_balance,
}
use mycode_c.Tree.Order.{inorder}
use mycode_c.Tree.Turns.{
  getnum-inorder, HeldLeft, HeldRight, HeldLeft-le, HeldRight-le, turnleft_lem, turnright_lem,
}

-- The sizes of the two subtrees of the root differ by one at most.
abbrev pub IsEven : Tree → Type 0
IsEven null = Unit
IsEven (node l r d) = (getnum l ≤ getnum r + 1) × (getnum r ≤ getnum l + 1)

-- So they do at every node.
abbrev pub IsBalanced : Tree → Type 0
IsBalanced null = Unit
IsBalanced (node l r d) = IsEven (node l r d) × IsBalanced l × IsBalanced r

pub same_getnum : (s t : Tree) → inorder s ≡ inorder t → getnum s ≡ getnum t
same_getnum s t e = getnum-inorder s ∙ ap length e ∙ sym (getnum-inorder t)

-- A held chunk that is not the whole subtree is held by the child.
HeldRight-child :
    (q : ℕ) (l r : Tree) (d : Stu)
    → HeldRight q (node l r d)
    → q < getnum (node l r d)
    → HeldRight q r
HeldRight-child q l r d (inl e) lt = absurd (omega arith)
HeldRight-child q l r d (inr h) lt = h

HeldLeft-child :
    (p : ℕ) (l r : Tree) (d : Stu)
    → HeldLeft p (node l r d)
    → p < getnum (node l r d)
    → HeldLeft p l
HeldLeft-child p l r d (inl e) lt = absurd (omega arith)
HeldLeft-child p l r d (inr h) lt = h

-- What the loop started at `t` has made of it.
pub record Evened (t : Tree) (out : Option Tree) : Type 0 where
  pub result : Tree
  pub returns : out ≡ some result
  pub order : inorder result ≡ inorder t
  pub even : IsEven result

Evened-after :
    (t t' : Tree) (out : Option Tree) → inorder t' ≡ inorder t → Evened t' out → Evened t out
Evened-after t t' out e v = record {
  result = v.result;
  returns = v.returns;
  order = v.order ∙ e;
  even = v.even;
}

-- The loop, on this fuel: `p` students stand below every root to come, and `q` above.
abbrev LoopEnds : ℕ → Type 0
LoopEnds fuel =
    (p q : ℕ) (l r : Tree) (d : Stu)
    → HeldLeft p l
    → HeldRight q r
    → 2 * p < getnum (node l r d)
    → 2 * q < getnum (node l r d)
    → getnum (node l r d) < fuel + p + q
    → Evened (node l r d) (balance_loop fuel (node l r d))

-- A turn adds to the students below.
left_turn :
    (f p q : ℕ) (l r : Tree) (d : Stu)
    → LoopEnds f
    → HeldLeft p l
    → HeldRight q r
    → 2 * q < getnum (node l r d)
    → getnum (node l r d) < suc f + p + q
    → getnum l + 1 < getnum r
    → Evened (node l r d) (elim (turnleft (node l r d)) [ none ↦ none | some t ↦ balance_loop f t ])
unfolding getnum
left_turn f p q l null d ih hl hr hi lt low = absurd (omega arith)
left_turn f p q l (node rl rr rd) d ih hl hr hi lt low =
    let (l', e, order, held) = turnleft_lem l rl rr d rd in
    let size : getnum (node l' rr rd) ≡ getnum (node l (node rl rr rd) d) =
      same_getnum (node l' rr rd) (node l (node rl rr rd) d) order in
    let below : p ≤ getnum l = HeldLeft-le p l hl in
    rw e (
      Evened-after (node l (node rl rr rd) d) (node l' rr rd) (balance_loop f (node l' rr rd)) order
        (ih (getnum l + 1) q l' rr rd held (HeldRight-child q rl rr rd hr (omega arith))
          (omega arith) (omega arith) (omega arith)))

right_turn :
    (f p q : ℕ) (l r : Tree) (d : Stu)
    → LoopEnds f
    → HeldLeft p l
    → HeldRight q r
    → 2 * p < getnum (node l r d)
    → getnum (node l r d) < suc f + p + q
    → getnum r + 1 < getnum l
    → Evened
        (node l r d)
        (elim (turnright (node l r d)) [ none ↦ none | some t ↦ balance_loop f t ])
unfolding getnum
right_turn f p q null r d ih hl hr lo lt high = absurd (omega arith)
right_turn f p q (node ll lr ld) r d ih hl hr lo lt high =
    let (r', e, order, held) = turnright_lem ll lr r d ld in
    let size : getnum (node ll r' ld) ≡ getnum (node (node ll lr ld) r d) =
      same_getnum (node ll r' ld) (node (node ll lr ld) r d) order in
    let above : q ≤ getnum r = HeldRight-le q r hr in
    rw e (
      Evened-after (node (node ll lr ld) r d) (node ll r' ld) (balance_loop f (node ll r' ld)) order
        (ih p (getnum r + 1) ll r' ld (HeldLeft-child p ll lr ld hl (omega arith)) held
          (omega arith) (omega arith) (omega arith)))

balance_loop-Evened : (fuel : ℕ) → LoopEnds fuel
unfolding balance_loop getnum
balance_loop-Evened zero p q l r d hl hr lo hi lt = absurd (omega arith)
balance_loop-Evened (suc f) p q l r d hl hr lo hi lt =
    elim (Bool-cases (ltb (getnum l + 1) (getnum r))) [
      | inl low ↦
          rw (low, balance_loop)
            (left_turn f p q l r d (balance_loop-Evened f) hl hr hi lt (ltb→lt _ _ low))
      | inr not_low ↦ elim (Bool-cases (ltb (getnum r + 1) (getnum l))) [
        | inl high ↦
            rw (not_low, high, balance_loop)
              (right_turn f p q l r d (balance_loop-Evened f) hl hr lo lt (ltb→lt _ _ high))
        | inr not_high ↦
            rw (not_low, not_high, balance_loop)
              (record {
                result = node l r d;
                returns = refl;
                order = refl;
                even = (ground arith, ground arith);
              })
      ]
    ]

HeldLeft-none : (t : Tree) → HeldLeft 0 t
HeldLeft-none null = refl
HeldLeft-none (node l r d) = inr (HeldLeft-none l)

HeldRight-none : (t : Tree) → HeldRight 0 t
HeldRight-none null = refl
HeldRight-none (node l r d) = inr (HeldRight-none r)

-- The loop of `tree_balance` ends within `getnum` rounds.
pub balance_loop_total :
    (fuel : ℕ) (l r : Tree) (d : Stu)
    → getnum (node l r d) < fuel
    → Evened (node l r d) (balance_loop fuel (node l r d))
unfolding getnum
balance_loop_total fuel l r d lt =
    balance_loop-Evened fuel 0 0 l r d (HeldLeft-none l) (HeldRight-none r) (omega arith)
      (omega arith) (omega arith)

-- The same students in the same order, in a tree that is balanced at every node.
pub record Rebuilt (t : Tree) (out : Option Tree) : Type 0 where
  pub result : Tree
  pub returns : out ≡ some result
  pub order : inorder result ≡ inorder t
  pub balanced : IsBalanced result

balance_children-Rebuilt :
    (f : ℕ) (rec : Tree → Option Tree) (t result : Tree)
    → ((s : Tree) → getnum s < f → Rebuilt s (rec s))
    → getnum t < suc f
    → inorder result ≡ inorder t
    → IsEven result
    → Rebuilt t (balance_children rec (some result))
unfolding balance_children join
balance_children-Rebuilt f rec t null ih lt e even = record {
  result = null;
  returns = refl;
  order = e;
  balanced = tt;
}
balance_children-Rebuilt f rec t (node l r d) ih lt e even =
    let lb : Rebuilt l (rec l) = ih l (unfold getnum in omega (arith, size)) in
    let rb : Rebuilt r (rec r) = ih r (unfold getnum in omega (arith, size)) in
    let sl : getnum lb.result ≡ getnum l = same_getnum lb.result l lb.order in
    let sr : getnum rb.result ≡ getnum r = same_getnum rb.result r rb.order in
    record {
      result = node lb.result rb.result d;
      returns = rw (lb.returns, rb.returns) refl;
      order = ap₂ (λ xs ys. xs ++ (d ∷ ys)) lb.order rb.order ∙ e;
      balanced = ((omega arith, omega arith), lb.balanced, rb.balanced);
    }
  where
    size : getnum (node l r d) ≡ getnum t
    size = same_getnum (node l r d) t e

-- With more fuel than there are nodes, `tree_balance` ends without a fault: its loop never turns
-- back and forth. The tree that it leaves has the same students in the same order, and at every node
-- the sizes of the two subtrees differ by one at most.
pub tree_balance-Rebuilt : (fuel : ℕ) (t : Tree) → getnum t < fuel → Rebuilt t (tree_balance fuel t)
unfolding tree_balance
tree_balance-Rebuilt zero t lt = absurd (omega arith)
tree_balance-Rebuilt (suc f) null lt = record {
  result = null;
  returns = refl;
  order = refl;
  balanced = tt;
}
tree_balance-Rebuilt (suc f) (node l r d) lt =
    let v : Evened (node l r d) (balance_loop (suc f) (node l r d)) =
      balance_loop_total (suc f) l r d lt in
    rw v.returns (
      balance_children-Rebuilt f (tree_balance f) (node l r d) v.result (tree_balance-Rebuilt f) lt
        v.order v.even)
