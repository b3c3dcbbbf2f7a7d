-- ===== src/Calc/Reading.antt =====
-- stack/04repolish/main.c: the rounds of `infix_to_postfix`.
use mycode_c.Base.{
  ℕ, ◌≤◌, ◌≡◌, refl, ap, sym, subst, arith, true, false, some, Option, List, [], ◌∷◌, ◌++◌, length,
  All, if_elim, ◌==◌,
}
use mycode_c.Base.Int.{ℤ, pos}
use mycode_c.Stack.{Stack, stack_create, stack_push}
use mycode_c.Scan.{Round, next, Shrinks, scan_all, scan_all-next, scan_all-some}
use mycode_c.Calc.{
  space, is_digit, is_op, copy_num, close, reduce, Converted, infix_round, infix_end,
  infix_to_postfix,
}
use mycode_c.Calc.Expr.{Oper, plus, minus, times, over, char_of, IsDigit}
use mycode_c.Calc.Operators.{item}

abbrev State : Type 0
State = List ℕ × Stack

abbrev Short : List ℕ → Round State Converted → Type 0
Short cs = Shrinks (length cs)

length-copy_num : (cs : List ℕ) → length (copy_num cs).1 ≤ length cs
unfolding copy_num
length-copy_num [] = omega arith
length-copy_num (c ∷ cs) = ground (arith, length-copy_num cs)

copy_digit : (c : ℕ) (cs : List ℕ) → is_digit c ≡ true → (copy_num (c ∷ cs)).1 ≡ (copy_num cs).1
unfolding copy_num
copy_digit c cs h = rw (h, copy_num) refl

infix_round-Short : (c : ℕ) (cs : List ℕ) (p : State) → Short cs (infix_round c cs p)
unfolding infix_round
infix_round-Short c cs (out, s) =
    let same : length cs ≤ length cs = omega arith in
    if_elim (Short cs) (c == space) _ _ (λ _. same)
      λ _.
        if_elim (Short cs) (is_digit c) _ _
          (λ d.
            subst (λ n. n ≤ length cs) (sym (ap length (copy_digit c cs d))) (length-copy_num cs))
          λ _.
            if_elim (Short cs) (c == 40) _ _ (λ _. same)
              λ _.
                if_elim (Short cs) (c == 41) _ _ (λ _. same)
                  λ _. if_elim (Short cs) (is_op c) _ _ (λ _. same) (λ _. tt)

abbrev pub conv : List ℕ → State → Option Converted
conv = scan_all infix_round infix_end

abbrev goes :
    (c : ℕ) (cs rest : List ℕ) (p q : State)
    → infix_round c cs p ≡ next rest q
    → conv (c ∷ cs) p ≡ conv rest q
goes = scan_all-next infix_round infix_end infix_round-Short

-- `infix_to_postfix` comes to an end on every string.
pub infix_to_postfix-some :
    (garbage : List ℤ) (text : List ℕ) → (r : Converted) × (infix_to_postfix garbage text ≡ some r)
unfolding infix_to_postfix
infix_to_postfix-some garbage text =
    scan_all-some infix_round infix_end infix_round-Short text ([], stack_create garbage)

-- A number does not end before a digit.
abbrev pub NoDigit : List ℕ → Type 0
NoDigit [] = Unit {0}
NoDigit (c ∷ cs) = is_digit c ≡ false

copy_num-append :
    (ds rest : List ℕ) → All IsDigit ds → NoDigit rest → copy_num (ds ++ rest) ≡ (ds, rest)
unfolding copy_num
copy_num-append [] [] a n = refl
copy_num-append [] (c ∷ rest) a n = rw (n, copy_num) refl
copy_num-append (d ∷ ds) rest a n = rw (a.0, copy_num-append ds rest a.1 n, copy_num) refl

-- The rounds, by the character at the front.
pub conv-space : (cs : List ℕ) (p : State) → conv (space ∷ cs) p ≡ conv cs p
unfolding infix_round
conv-space cs (out, s) = goes space cs cs (out, s) (out, s) refl

pub conv_number :
    (d : ℕ) (ds rest out : List ℕ) (s : Stack)
    → All IsDigit (d ∷ ds)
    → NoDigit rest
    → conv ((d ∷ ds) ++ rest) (out, s) ≡ conv rest (out ++ ((d ∷ ds) ++ (space ∷ [])), s)
unfolding infix_round
conv_number d ds rest out s a n =
    let ne : (d == space) ≡ false = ground (arith, a.0) in
    goes d (ds ++ rest) rest (out, s) (out ++ ((d ∷ ds) ++ (space ∷ [])), s)
      (rw (ne, a.0, copy_num-append ds rest a.1 n, infix_round) refl)

pub conv_open :
    (cs out : List ℕ) (s : Stack)
    → conv (40 ∷ cs) (out, s) ≡ conv cs (out, (stack_push s (pos 40)).1)
unfolding infix_round
conv_open cs out s = goes 40 cs cs (out, s) (out, (stack_push s (pos 40)).1) refl

pub conv-close :
    (cs out : List ℕ) (s : Stack)
    → conv (41 ∷ cs) (out, s) ≡ conv cs (out ++ (close s.stack_top s).0, (close s.stack_top s).1)
unfolding infix_round
conv-close cs out s = goes 41 cs cs (out, s) _ refl

pub conv_op :
    (o : Oper) (cs out : List ℕ) (s : Stack)
    → let r = reduce (item o) s.stack_top s in
      conv (char_of o ∷ cs) (out, s) ≡ conv cs (out ++ r.0, (stack_push r.1 (item o)).1)
unfolding infix_round
conv_op plus cs out s = goes 43 cs cs (out, s) _ refl
conv_op minus cs out s = goes 45 cs cs (out, s) _ refl
conv_op times cs out s = goes 42 cs cs (out, s) _ refl
conv_op over cs out s = goes 47 cs cs (out, s) _ refl
