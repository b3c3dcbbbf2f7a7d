-- ===== src/Calc/Exact.antt =====
-- stack/04repolish/main.c: where no `int` overflows, its arithmetic is that of the integers.
use mycode_c.Base.{
  ℕ, ◌-◌, ◌≡◌, refl, ap, ap₂, ◌∙◌, Bool, true, false, Option, none, some, List, [], ◌∷◌,
  if◌then◌else◌,
}
use mycode_c.Base.Int.{ℤ, pos, eqb_ℤ, int_of, int_of-id, ◌+ℤ◌, ◌-ℤ◌, ◌*ℤ◌, ◌/ℤ◌}
use mycode_c.Calc.Expr.{
  Oper, plus, minus, times, over, Expr, number, bin, paren, spaced, value, apply, apply_both, eval,
  int_value, int_apply, int_apply_both, int_eval, FitsDigits, FitsValue, FitsInt,
}

int_value-value : (n : ℤ) (cs : List ℕ) → FitsDigits n cs → int_value n cs ≡ value n cs
unfolding int_value value FitsDigits
int_value-value n [] f = refl
int_value-value n (c ∷ cs) f =
    let more = n *ℤ pos 10 +ℤ pos (c - 48) in
    ap (λ z. int_value z cs) (int_of-id more f.0) ∙ int_value-value more cs f.1

quotient :
    (zero_b : Bool) (v : ℤ)
    → FitsValue (if zero_b then none else some v)
    → (if zero_b then none else some (int_of v)) ≡ (if zero_b then none else some v)
quotient true v f = refl
quotient false v f = ap some (int_of-id v f)

int_apply-apply : (o : Oper) (a b : ℤ) → FitsValue (apply o a b) → int_apply o a b ≡ apply o a b
unfolding apply int_apply
int_apply-apply plus a b f = ap some (int_of-id (a +ℤ b) f)
int_apply-apply minus a b f = ap some (int_of-id (a -ℤ b) f)
int_apply-apply times a b f = ap some (int_of-id (a *ℤ b) f)
int_apply-apply over a b f = quotient (eqb_ℤ b (pos 0)) (a /ℤ b) f

both-exact :
    (o : Oper) (x y : Option ℤ)
    → FitsValue (apply_both o x y)
    → int_apply_both o x y ≡ apply_both o x y
both-exact o none y f = refl
both-exact o (some a) none f = refl
both-exact o (some a) (some b) f = int_apply-apply o a b f

pub int_eval-eval : (e : Expr) → FitsInt e → int_eval e ≡ eval e
unfolding int_eval eval FitsInt
int_eval-eval (number d ds) f = ap some (int_value-value (pos 0) (d ∷ ds) f)
int_eval-eval (bin o l r) f =
    ap₂ (int_apply_both o) (int_eval-eval l f.0) (int_eval-eval r f.1)
    ∙ both-exact o (eval l) (eval r) f.2
int_eval-eval (paren e) f = int_eval-eval e f
int_eval-eval (spaced e) f = int_eval-eval e f
