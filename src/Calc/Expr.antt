-- ===== src/Calc/Expr.antt =====
-- The expressions that stack/04repolish/main.c is meant for: their two notations and their values.
use mycode_c.Base.{
  ℕ, ◌+◌, ◌-◌, ◌<◌, ◌≤◌, ◌≡◌, max, true, Option, none, some, List, [], ◌∷◌, ◌++◌, All,
  if◌then◌else◌,
}
use mycode_c.Base.Int.{ℤ, pos, eqb_ℤ, int_of, IsInt, ◌+ℤ◌, ◌-ℤ◌, ◌*ℤ◌, ◌/ℤ◌}
use mycode_c.Calc.{space, is_digit}

pub data Oper : Type 0 where
  plus minus times over : Oper

abbrev pub char_of : Oper → ℕ
char_of plus = 43
char_of minus = 45
char_of times = 42
char_of over = 47

abbrev pub rank : Oper → ℕ
rank plus = 1
rank minus = 1
rank times = 2
rank over = 2

-- A number is its digits, at least one; `paren` and `spaced` are the brackets and the space that stand in the
-- infix notation.
pub data Expr : Type 0 where
  number : ℕ → List ℕ → Expr
  bin : Oper → Expr → Expr → Expr
  paren : Expr → Expr
  spaced : Expr → Expr

unfoldable pub infix_form : Expr → List ℕ
infix_form (number d ds) = d ∷ ds
infix_form (bin o l r) = infix_form l ++ (char_of o ∷ infix_form r)
infix_form (paren e) = 40 ∷ (infix_form e ++ (41 ∷ []))
infix_form (spaced e) = space ∷ infix_form e

-- With a space behind each number and each operator.
unfoldable pub postfix_form : Expr → List ℕ
postfix_form (number d ds) = (d ∷ ds) ++ (space ∷ [])
postfix_form (bin o l r) = postfix_form l ++ (postfix_form r ++ (char_of o ∷ space ∷ []))
postfix_form (paren e) = postfix_form e
postfix_form (spaced e) = postfix_form e

-- How tightly an operand binds.
unfoldable pub level : Expr → ℕ
level (number d ds) = 3
level (bin o l r) = rank o
level (paren e) = 3
level (spaced e) = level e

abbrev pub IsDigit : ℕ → Type 0
IsDigit c = is_digit c ≡ true

-- Where brackets may be left out: operators associate to the left, `*` and `/` bind tighter.
unfoldable pub IsInfix : Expr → Type 0
unfolding level
IsInfix (number d ds) = All IsDigit (d ∷ ds)
IsInfix (bin o l r) = IsInfix l × IsInfix r × (rank o ≤ level l) × (rank o < level r)
IsInfix (paren e) = IsInfix e
IsInfix (spaced e) = IsInfix e

unfoldable pub value : ℤ → List ℕ → ℤ
value n [] = n
value n (c ∷ cs) = value (n *ℤ pos 10 +ℤ pos (c - 48)) cs

unfoldable pub apply : Oper → ℤ → ℤ → Option ℤ
apply plus a b = some (a +ℤ b)
apply minus a b = some (a -ℤ b)
apply times a b = some (a *ℤ b)
apply over a b = if eqb_ℤ b (pos 0) then none else some (a /ℤ b)

abbrev pub apply_both : Oper → Option ℤ → Option ℤ → Option ℤ
apply_both o none b = none
apply_both o (some a) none = none
apply_both o (some a) (some b) = apply o a b

-- The value over all integers; `none` is a division by zero.
unfoldable pub eval : Expr → Option ℤ
unfolding value apply
eval (number d ds) = some (value (pos 0) (d ∷ ds))
eval (bin o l r) = apply_both o (eval l) (eval r)
eval (paren e) = eval e
eval (spaced e) = eval e

-- The value in the arithmetic of an `int`, which wraps around.
unfoldable pub int_value : ℤ → List ℕ → ℤ
int_value n [] = n
int_value n (c ∷ cs) = int_value (int_of (n *ℤ pos 10 +ℤ pos (c - 48))) cs

unfoldable pub int_apply : Oper → ℤ → ℤ → Option ℤ
int_apply plus a b = some (int_of (a +ℤ b))
int_apply minus a b = some (int_of (a -ℤ b))
int_apply times a b = some (int_of (a *ℤ b))
int_apply over a b = if eqb_ℤ b (pos 0) then none else some (int_of (a /ℤ b))

abbrev pub int_apply_both : Oper → Option ℤ → Option ℤ → Option ℤ
int_apply_both o none b = none
int_apply_both o (some a) none = none
int_apply_both o (some a) (some b) = int_apply o a b

unfoldable pub int_eval : Expr → Option ℤ
unfolding int_value int_apply
int_eval (number d ds) = some (int_value (pos 0) (d ∷ ds))
int_eval (bin o l r) = int_apply_both o (int_eval l) (int_eval r)
int_eval (paren e) = int_eval e
int_eval (spaced e) = int_eval e

-- The numbers, and the values of all subexpressions, are within the range of an `int`.
unfoldable pub FitsDigits : ℤ → List ℕ → Type 0
FitsDigits n [] = Unit {0}
FitsDigits n (c ∷ cs) = let more = n *ℤ pos 10 +ℤ pos (c - 48) in IsInt more × FitsDigits more cs

abbrev pub FitsValue : Option ℤ → Type 0
FitsValue none = Unit {0}
FitsValue (some v) = IsInt v

unfoldable pub FitsInt : Expr → Type 0
unfolding FitsDigits eval
FitsInt (number d ds) = FitsDigits (pos 0) (d ∷ ds)
FitsInt (bin o l r) = FitsInt l × FitsInt r × FitsValue (apply_both o (eval l) (eval r))
FitsInt (paren e) = FitsInt e
FitsInt (spaced e) = FitsInt e

-- How many numbers, and how many operators and brackets, are held at once.
unfoldable pub numbers : Expr → ℕ
numbers (number d ds) = 1
numbers (bin o l r) = max (numbers l) (1 + numbers r)
numbers (paren e) = numbers e
numbers (spaced e) = numbers e

unfoldable pub operators : Expr → ℕ
operators (number d ds) = 0
operators (bin o l r) = max (operators l) (1 + operators r)
operators (paren e) = 1 + operators e
operators (spaced e) = operators e
