-- ===== src/Calc/Convert.antt =====
-- stack/04repolish/main.c: what `infix_to_postfix` makes of the infix form of an expression.
use mycode_c.Base.{
  ℕ, ◌+◌, ◌≤◌, ◌<◌, ◌≡◌, refl, ap, sym, subst, ◌∙◌, arith, true, some, List, [], ◌∷◌, ◌++◌, map,
  append_assoc, append-nil, length, length-append, leb, All, All-map, take-all,
}
use mycode_c.Base.Int.{ℤ, pos}
use mycode_c.Stack.{Stack, stacksize, stack_create, stack_push}
use mycode_c.Stack.Holds.{Holds, push-Holds, Holds-stack_create, stack_top-Holds}
use mycode_c.Calc.{
  space, close, reduce, flush, converted, cut_last, infix_end, infix_to_postfix, calculate, report,
  answer, answered, buffer,
}
use mycode_c.Calc.Expr.{
  Oper, char_of, rank, Expr, number, bin, paren, spaced, infix_form, postfix_form, level, IsInfix,
  operators, numbers, eval, FitsInt,
}
use mycode_c.Calc.Operators.{item, ops_text, Under, flush_lem, close-Left, reduce-Left}
use mycode_c.Scan.{scan_all}
use mycode_c.Calc.Eval.{answer_of, repolish-int_eval}
use mycode_c.Calc.Exact.{int_eval-eval}
use mycode_c.Calc.Reading.{conv, NoDigit, conv-space, conv_number, conv_open, conv-close, conv_op}
use mycode_c.Calc.Pending.{
  emitted, pending, map-append, emitted-pending, pending-rank, level_pos, Under-le, Under-item,
  bracket-Under, op_no_digit,
}

-- An expression has been read: where the loop goes on, and what the stack holds.
record Read (text rest out : List ℕ) (s : Stack) (more : List ℕ) (ops : List Oper) (xs : List ℤ)
    : Type 0 where
  after : Stack
  on : conv text (out, s) ≡ conv rest (out ++ more, after)
  stack : Holds after (map item ops ++ xs)

length-items :
    (ops : List Oper) (xs : List ℤ) → length (map item ops ++ xs) ≡ length ops + length xs
length-items [] xs = omega arith
length-items (o ∷ ops) xs = omega (arith, length-items ops xs)

op_step :
    (o : Oper) (ops : List Oper) (xs : List ℤ) (cs out : List ℕ) (s : Stack)
    → Holds s (map item ops ++ xs)
    → All (λ p. rank o ≤ rank p) ops
    → Under xs (rank o)
    → length xs < stacksize
    → Read (char_of o ∷ cs) cs out s (ops_text ops) [] (item o ∷ xs)
op_step o ops xs cs out s h a u room =
    let (text, held) =
      reduce-Left s.stack_top o s ops xs h a u
        (omega (arith, stack_top-Holds h, length-items ops xs)) in
    let s' = (stack_push (reduce (item o) s.stack_top s).1 (item o)).1 in
    record {
      after = s';
      on = conv_op o cs out s ∙ ap (λ t. conv cs (out ++ t, s')) text;
      stack = push-Holds (item o) held room;
    }

close_step :
    (ops : List Oper) (xs : List ℤ) (cs out : List ℕ) (s : Stack)
    → Holds s (map item ops ++ (pos 40 ∷ xs))
    → Read (41 ∷ cs) cs out s (ops_text ops) [] xs
close_step ops xs cs out s h =
    let (text, held) =
      close-Left s.stack_top s ops xs h
        (omega (arith, stack_top-Holds h, length-items ops (pos 40 ∷ xs))) in
    record {
      after = (close s.stack_top s).1;
      on = conv-close cs out s ∙ ap (λ t. conv cs (out ++ t, (close s.stack_top s).1)) text;
      stack = held;
    }

-- The operators that an operand left are written with the operand.
written_all :
    (e : Expr) (out : List ℕ) → (out ++ emitted e) ++ ops_text (pending e) ≡ out ++ postfix_form e
written_all e out =
    append_assoc out (emitted e) (ops_text (pending e)) ∙ ap (λ t. out ++ t) (emitted-pending e)

-- The stack between the reading of the operands, and after it.
reads :
    (e : Expr) (rest out : List ℕ) (s : Stack) (xs : List ℤ)
    → IsInfix e
    → Holds s xs
    → Under xs (level e)
    → length xs + operators e ≤ stacksize
    → NoDigit rest
    → Read (infix_form e ++ rest) rest out s (emitted e) (pending e) xs
unfolding infix_form emitted pending level operators IsInfix
reads (number d ds) rest out s xs ok h u room n = record {
  after = s;
  on = conv_number d ds rest out s ok n;
  stack = h;
}
reads (spaced e) rest out s xs ok h u room n =
    let r = reads e rest out s xs ok h u room n in
    record {
      after = r.after;
      on = conv-space (infix_form e ++ rest) (out, s) ∙ r.on;
      stack = r.stack;
    }
reads (paren e) rest out s xs ok h u room n =
    let s1 = (stack_push s (pos 40)).1 in
    let low : Under (pos 40 ∷ xs) (level e) = bracket-Under xs (level e) (level_pos e) in
    let r =
      reads e (41 ∷ rest) out s1 (pos 40 ∷ xs) ok (push-Holds (pos 40) h (omega arith)) low
        (omega arith) refl in
    let c = close_step (pending e) xs rest (out ++ emitted e) r.after r.stack in
    record {
      after = c.after;
      on =
          ap (λ t. conv (40 ∷ t) (out, s)) (append_assoc (infix_form e) (41 ∷ []) rest)
          ∙ conv_open (infix_form e ++ (41 ∷ rest)) out s
          ∙ r.on
          ∙ c.on
          ∙ ap (λ t. conv rest (t, c.after)) (written_all e out);
      stack = c.stack;
    }
reads (bin o l r) rest out s xs (okl, okr, weak, tight) h u room n =
    let tail = infix_form r ++ rest in
    let a =
      reads l (char_of o ∷ tail) out s xs okl h (Under-le xs (rank o) (level l) weak u)
        (omega arith) (op_no_digit o) in
    let ranks =
      All-map (λ p. level l ≤ rank p) (λ p. rank o ≤ rank p) (pending l) (λ p k. omega arith)
        (pending-rank l okl) in
    let b =
      op_step o (pending l) xs tail (out ++ emitted l) a.after a.stack ranks u (omega arith) in
    let c =
      reads r rest (out ++ postfix_form l) b.after (item o ∷ xs) okr b.stack
        (Under-item o xs (level r) tight) (omega arith) n in
    record {
      after = c.after;
      on =
          ap (λ t. conv t (out, s)) (append_assoc (infix_form l) (char_of o ∷ infix_form r) rest)
          ∙ a.on
          ∙ b.on
          ∙ ap (λ t. conv tail (t, b.after)) (written_all l out)
          ∙ c.on
          ∙ ap (λ t. conv rest (t, c.after)) (append_assoc out (postfix_form l) (emitted r));
      stack =
          subst (Holds c.after)
            (sym (
              ap (λ t. t ++ xs) (map-append (pending r) (o ∷ []))
              ∙ append_assoc (map item (pending r)) (item o ∷ []) xs))
            c.stack;
    }

cut-append : (t : List ℕ) (c : ℕ) → cut_last (t ++ (c ∷ [])) ≡ converted t
unfolding cut_last
cut-append [] c = refl
cut-append (d ∷ []) c = refl
cut-append (d ∷ d' ∷ t) c = rw (cut-append (d' ∷ t) c, cut_last) refl

-- A postfix form ends in a space.
ends_in_space : (e : Expr) → (t : List ℕ) × (t ++ (space ∷ []) ≡ postfix_form e)
unfolding postfix_form
ends_in_space (number d ds) = (d ∷ ds, refl)
ends_in_space (paren e) = ends_in_space e
ends_in_space (spaced e) = ends_in_space e
ends_in_space (bin o l r) = (
  postfix_form l ++ (postfix_form r ++ (char_of o ∷ [])),
  append_assoc (postfix_form l) (postfix_form r ++ (char_of o ∷ [])) (space ∷ [])
      ∙ ap (λ t. postfix_form l ++ t) (append_assoc (postfix_form r) (char_of o ∷ []) (space ∷ [])),
)

at_end :
    (out : List ℕ) (s : Stack) → conv [] (out, s) ≡ some (cut_last (out ++ flush s.stack_top s))
unfolding scan_all infix_end
at_end out s = refl

-- On the infix form of an expression, with brackets where they are needed and perhaps elsewhere,
-- that needs at most six operators and brackets at once, `infix_to_postfix` returns 0 and writes the
-- postfix form without its last space.
pub infix_to_postfix-postfix_form :
    (garbage : List ℤ) (e : Expr)
    → length garbage ≡ stacksize
    → IsInfix e
    → operators e ≤ stacksize
    → (text : List ℕ) × (infix_to_postfix garbage (infix_form e) ≡ some (converted text))
      × (text ++ (space ∷ []) ≡ postfix_form e)
unfolding infix_to_postfix
infix_to_postfix-postfix_form garbage e size ok room =
    let s = stack_create garbage in
    let r = reads e [] [] s [] ok (Holds-stack_create garbage size) tt (omega arith) tt in
    let held = subst (Holds r.after) (append-nil (map item (pending e))) r.stack in
    let rest =
      flush_lem r.after.stack_top r.after (pending e) held
        (omega (arith, stack_top-Holds r.stack, length-items (pending e) [])) in
    let (text, shape) = ends_in_space e in
    (
      text,
      ap (λ t. conv t ([], s)) (sym (append-nil (infix_form e)))
          ∙ r.on
          ∙ at_end (emitted e) r.after
          ∙ ap (λ t. some (cut_last (emitted e ++ t))) rest
          ∙ ap (λ t. some (cut_last t)) (emitted-pending e ∙ sym shape)
          ∙ ap some (cut-append text space),
      shape,
    )

-- Typed in its infix form of at most 31 characters, an expression that fits both stacks, whose postfix form
-- fits the array of 32 bytes, and in which every number and the value of every subexpression fits an `int`,
-- is answered with its value, or with -4 where it divides by zero.
pub calculate-eval :
    (garbage garbage' : List ℤ) (e : Expr)
    → length garbage ≡ stacksize
    → length garbage' ≡ stacksize
    → IsInfix e
    → operators e ≤ stacksize
    → numbers e ≤ stacksize
    → length (postfix_form e) ≤ buffer
    → length (infix_form e) ≤ 31
    → FitsInt e
    → calculate garbage garbage' (infix_form e) ≡ answered (answer_of (eval e))
unfolding calculate report answer
calculate-eval garbage garbage' e size size' ok room room' fits line ints =
    let (text, written, shape) = infix_to_postfix-postfix_form garbage e size ok room in
    let small : length text + 1 ≤ buffer =
      omega (arith, ap length shape, length-append text (space ∷ [])) in
    let fit : leb (length text + 1) buffer ≡ true = ground arith in
    ap (report garbage garbage') (take-all 31 (infix_form e) line)
    ∙ rw (written, fit, repolish-int_eval garbage' e text size' ok room' shape, report, answer)
        (ap (λ v. answered (answer_of v)) (int_eval-eval e ints))
