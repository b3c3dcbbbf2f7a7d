-- ===== src/Calc/Eval.antt =====
-- stack/04repolish/main.c: what `repolish` computes from the postfix form of an expression.
use mycode_c.Base.{
  ℕ, ◌+◌, ◌≤◌, ◌<◌, ◌≡◌, ap, sym, subst, ◌∙◌, arith, Option, none, some, List, [], ◌∷◌, ◌++◌,
  append_assoc, append-nil, length,
}
use mycode_c.Base.Int.{ℤ, pos, negsuc}
use mycode_c.Stack.{Stack, stacksize, stack_create, stack_push}
use mycode_c.Stack.Holds.{Holds, push-Holds, Holds-stack_create}
use mycode_c.Calc.{space, Answer, repolish}
use mycode_c.Calc.Expr.{
  Oper, char_of, Expr, number, bin, paren, spaced, postfix_form, IsInfix, int_value, int_apply,
  int_apply_both, int_eval, numbers,
}
use mycode_c.Calc.Rounds.{
  loop, Computed, loop-space, loop_number, loop_op, loop-append, loop_end, repolish-loop,
}

-- Rounds before a text, and a space behind it.
from_before :
    (text text' rest : List ℕ) (s s' : Stack) (xs : List ℤ) (o : Option ℤ)
    → loop text s ≡ loop text' s'
    → Computed text' rest s' xs o
    → Computed text rest s xs o
from_before text text' rest s s' xs none e c = e ∙ c
from_before text text' rest s s' xs (some v) e (s'', h, f) = (s'', h, e ∙ f)

skip_space :
    (text rest : List ℕ) (s : Stack) (xs : List ℤ) (o : Option ℤ)
    → Computed text (space ∷ rest) s xs o
    → Computed text rest s xs o
skip_space text rest s xs none c = c
skip_space text rest s xs (some v) (s', h, f) = (s', h, f ∙ loop-space rest s')

-- The two operands, then the operator.
both :
    (o : Oper) (text mid rest : List ℕ) (s : Stack) (xs : List ℤ) (left right : Option ℤ)
    → length xs < stacksize
    → Computed text mid s xs left
    → ((a : ℤ) (s' : Stack) → Holds s' (a ∷ xs) → Computed mid (char_of o ∷ rest) s' (a ∷ xs) right)
    → Computed text rest s xs (int_apply_both o left right)
both o text mid rest s xs none right room l r = l
both o text mid rest s xs (some a) none room (s', h, e) r = e ∙ r a s' h
both o text mid rest s xs (some a) (some b) room (s', h, e) r =
    let (s'', h', e') = r a s' h in
    from_before text (char_of o ∷ rest) rest s s'' xs (int_apply o a b) (e ∙ e')
      (loop_op rest s'' a b xs h' room o)

-- The postfix form of an expression, before any text, leaves the expression's value on the stack.
pub postfix-Computed :
    (e : Expr) (rest : List ℕ) (s : Stack) (xs : List ℤ)
    → IsInfix e
    → Holds s xs
    → length xs + numbers e ≤ stacksize
    → Computed (postfix_form e ++ rest) rest s xs (int_eval e)
unfolding postfix_form int_eval numbers IsInfix
postfix-Computed (number d ds) rest s xs ok h room = (
  (stack_push s (int_value (pos 0) (d ∷ ds))).1,
  push-Holds (int_value (pos 0) (d ∷ ds)) h (omega arith),
  ap (λ t. loop t s) (append_assoc (d ∷ ds) (space ∷ []) rest) ∙ loop_number d ds rest s ok,
)
postfix-Computed (paren e) rest s xs ok h room = postfix-Computed e rest s xs ok h room
postfix-Computed (spaced e) rest s xs ok h room = postfix-Computed e rest s xs ok h room
postfix-Computed (bin o l r) rest s xs (okl, okr, _, _) h room =
    let mid = postfix_form r ++ (char_of o ∷ space ∷ rest) in
    let shape =
      append_assoc (postfix_form l) (postfix_form r ++ (char_of o ∷ space ∷ [])) rest
      ∙ ap (λ t. postfix_form l ++ t)
          (append_assoc (postfix_form r) (char_of o ∷ space ∷ []) rest) in
    let left = postfix-Computed l mid s xs okl h (omega arith) in
    skip_space _ rest s xs (int_apply_both o (int_eval l) (int_eval r)) (
      subst (λ t. Computed t (space ∷ rest) s xs (int_apply_both o (int_eval l) (int_eval r)))
        (sym shape)
        (both o (postfix_form l ++ mid) mid (space ∷ rest) s xs (int_eval l) (int_eval r)
          (omega arith) left
          λ a s' h'.
            postfix-Computed r (char_of o ∷ space ∷ rest) s' (a ∷ xs) okr h' (omega arith)))

-- The answer to a value, and to a division by zero.
abbrev pub answer_of : Option ℤ → Answer
answer_of none = (negsuc 3, none)
answer_of (some v) = (pos 0, some v)

answers :
    (s : Stack) (text : List ℕ) (o : Option ℤ)
    → Computed text [] s [] o
    → loop text s ≡ some (answer_of o)
answers s text none c = c
answers s text (some v) (s', h, e) = e ∙ loop_end s' v h

-- On the postfix form of an expression that needs at most six numbers at once, written without
-- the last space, `repolish` returns 0 and the value of the expression, or -4 where it divides by zero.
pub repolish-int_eval :
    (garbage : List ℤ) (e : Expr) (text : List ℕ)
    → length garbage ≡ stacksize
    → IsInfix e
    → numbers e ≤ stacksize
    → text ++ (space ∷ []) ≡ postfix_form e
    → repolish garbage text ≡ some (answer_of (int_eval e))
repolish-int_eval garbage e text size ok room shape =
    let s = stack_create garbage in
    repolish-loop garbage text
    ∙ sym (loop-append text s)
    ∙ ap (λ t. loop t s) (shape ∙ sym (append-nil (postfix_form e)))
    ∙ answers s (postfix_form e ++ []) (int_eval e)
        (postfix-Computed e [] s [] ok (Holds-stack_create garbage size) (omega arith))
