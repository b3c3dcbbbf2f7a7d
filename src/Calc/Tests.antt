-- ===== src/Calc/Tests.antt =====
-- Runs of the calculator of stack/04repolish/main.c.
use mycode_c.Base.{◌≡◌, refl, some, List, [], ◌∷◌, replicate, arith}
use mycode_c.Base.Int.{ℤ, pos, negsuc, ◌+ℤ◌, ◌-ℤ◌, ◌*ℤ◌}
use mycode_c.Calc.{calculate, answered}
use mycode_c.Calc.Expr.{
  plus, times, minus, over, Expr, number, bin, paren, spaced, IsInfix, level, infix_form,
  postfix_form, eval, value, apply, FitsInt, FitsDigits, numbers, operators,
}
use mycode_c.Calc.Eval.{answer_of}
use mycode_c.Calc.Convert.{calculate-eval}

abbrev garbage : List ℤ
garbage = replicate 6 (pos 99)

-- 12 - (3 + 4) * 5, with a space
abbrev sample : Expr
sample =
    bin minus (number 49 (50 ∷ []))
      (bin times (spaced (paren (bin plus (number 51 []) (number 52 [])))) (number 53 []))

sample-IsInfix : IsInfix sample
unfolding IsInfix level
sample-IsInfix = (
  (refl, (refl, tt)),
  (((refl, tt), (refl, tt), omega arith, omega arith), (refl, tt), omega arith, omega arith),
  omega arith,
  omega arith,
)

sample_value : eval sample ≡ some (negsuc 22)
unfolding eval value apply ◌+ℤ◌ ◌-ℤ◌ ◌*ℤ◌
sample_value = refl

-- 6 / (5 - 5)
abbrev by_zero : Expr
by_zero = bin over (number 54 []) (paren (bin minus (number 53 []) (number 53 [])))

by_zero-IsInfix : IsInfix by_zero
unfolding IsInfix level
by_zero-IsInfix =
    ((refl, tt), ((refl, tt), (refl, tt), omega arith, omega arith), omega arith, omega arith)

sample-FitsInt : FitsInt sample
unfolding FitsInt FitsDigits eval value apply ◌+ℤ◌ ◌-ℤ◌ ◌*ℤ◌
sample-FitsInt = (
  (omega arith, (omega arith, tt)),
  (((omega arith, tt), (omega arith, tt), omega arith), (omega arith, tt), omega arith),
  omega arith,
)

calculate-eval_example :
    calculate garbage garbage (infix_form sample) ≡ answered (answer_of (eval sample))
calculate-eval_example =
    calculate-eval garbage garbage sample refl refl sample-IsInfix (unfold operators in omega arith)
      (unfold numbers in omega arith) (unfold postfix_form in omega arith)
      (unfold infix_form in omega arith) sample-FitsInt
