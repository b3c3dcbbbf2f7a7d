-- ===== src/Calc/Pending.antt =====
-- stack/04repolish/main.c: what is written of an expression and what stays on the stack.
use mycode_c.Base.{
  ℕ, ◌≤◌, ◌<◌, ◌≡◌, refl, ap, sym, ◌∙◌, arith, false, List, [], ◌∷◌, ◌++◌, map, append_assoc,
  append-nil, length, length-append, All, All-append, All-map,
}
use mycode_c.Base.Int.{ℤ, pos}
use mycode_c.Calc.{space, is_digit}
use mycode_c.Calc.Expr.{
  Oper, plus, minus, times, over, char_of, rank, Expr, number, bin, paren, spaced, postfix_form,
  level, IsInfix, operators,
}
use mycode_c.Calc.Operators.{item, ops_text, Under, get_priority-item, get_priority_bracket}

-- What has been written after an expression was read, and the operators still on the stack, newest first.
unfoldable pub emitted : Expr → List ℕ
emitted (number d ds) = (d ∷ ds) ++ (space ∷ [])
emitted (bin o l r) = postfix_form l ++ emitted r
emitted (paren e) = postfix_form e
emitted (spaced e) = emitted e

unfoldable pub pending : Expr → List Oper
pending (number d ds) = []
pending (bin o l r) = pending r ++ (o ∷ [])
pending (paren e) = []
pending (spaced e) = pending e

ops_text-append : (ps qs : List Oper) → ops_text (ps ++ qs) ≡ ops_text ps ++ ops_text qs
unfolding ops_text
ops_text-append [] qs = refl
ops_text-append (p ∷ ps) qs = ap (λ t. char_of p ∷ space ∷ t) (ops_text-append ps qs)

pub map-append : (ps qs : List Oper) → map item (ps ++ qs) ≡ map item ps ++ map item qs
map-append [] qs = refl
map-append (p ∷ ps) qs = ap (λ t. item p ∷ t) (map-append ps qs)

pub emitted-pending : (e : Expr) → emitted e ++ ops_text (pending e) ≡ postfix_form e
unfolding emitted pending postfix_form ops_text
emitted-pending (number d ds) = append-nil ((d ∷ ds) ++ (space ∷ []))
emitted-pending (paren e) = append-nil (postfix_form e)
emitted-pending (spaced e) = emitted-pending e
emitted-pending (bin o l r) =
    append_assoc (postfix_form l) (emitted r) (ops_text (pending r ++ (o ∷ [])))
    ∙ ap (λ t. postfix_form l ++ t)
        (ap (λ t. emitted r ++ t) (ops_text-append (pending r) (o ∷ []))
          ∙ sym (append_assoc (emitted r) (ops_text (pending r)) (ops_text (o ∷ [])))
          ∙ ap (λ t. t ++ (char_of o ∷ space ∷ [])) (emitted-pending r))

-- The pending operators bind at least as tightly as the expression.
pub pending-rank : (e : Expr) → IsInfix e → All (λ p. level e ≤ rank p) (pending e)
unfolding pending level IsInfix
pending-rank (number d ds) ok = tt
pending-rank (paren e) ok = tt
pending-rank (spaced e) ok = pending-rank e ok
pending-rank (bin o l r) (okl, okr, _, tight) =
    All-append (λ p. rank o ≤ rank p) (pending r) (o ∷ [])
      (All-map (λ p. level r ≤ rank p) (λ p. rank o ≤ rank p) (pending r) (λ p h. omega arith)
        (pending-rank r okr))
      (omega arith, tt)

pub length-pending : (e : Expr) → length (pending e) ≤ operators e
unfolding pending operators
length-pending (number d ds) = omega arith
length-pending (paren e) = omega arith
length-pending (spaced e) = length-pending e
length-pending (bin o l r) = omega (arith, length-append (pending r) (o ∷ []), length-pending r)

pub level_pos : (e : Expr) → 1 ≤ level e
unfolding level
level_pos (number d ds) = omega arith
level_pos (paren e) = omega arith
level_pos (spaced e) = level_pos e
level_pos (bin plus l r) = omega arith
level_pos (bin minus l r) = omega arith
level_pos (bin times l r) = omega arith
level_pos (bin over l r) = omega arith

pub Under-le : (xs : List ℤ) (n m : ℕ) → n ≤ m → Under xs n → Under xs m
Under-le [] n m h u = tt
Under-le (x ∷ xs) n m h u = omega arith

pub Under-item : (o : Oper) (xs : List ℤ) (n : ℕ) → rank o < n → Under (item o ∷ xs) n
Under-item o xs n h = rw (get_priority-item o) (omega arith)

pub bracket-Under : (xs : List ℤ) (n : ℕ) → 1 ≤ n → Under (pos 40 ∷ xs) n
bracket-Under xs n h = rw get_priority_bracket (omega arith)

pub op_no_digit : (o : Oper) → is_digit (char_of o) ≡ false
op_no_digit plus = refl
op_no_digit minus = refl
op_no_digit times = refl
op_no_digit over = refl
