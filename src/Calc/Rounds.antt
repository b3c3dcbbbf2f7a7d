-- ===== src/Calc/Rounds.antt =====
-- stack/04repolish/main.c: the rounds of `repolish`.
use mycode_c.Base.{
  ℕ, zero, suc, ◌-◌, ◌≤◌, ◌<◌, ◌≡◌, refl, ap, sym, subst, ◌∙◌, arith, true, false, Option, none,
  some, List, [], ◌∷◌, ◌++◌, length, All, ◌==◌, Bool-cases, inl, inr, if◌then◌else◌, if_elim,
}
use mycode_c.Base.Int.{ℤ, pos, negsuc, eqb_ℤ, int_of, ◌+ℤ◌, ◌-ℤ◌, ◌*ℤ◌, ◌/ℤ◌}
use mycode_c.Stack.{Stack, stacksize, is_empty, stack_create, stack_push, stack_pop}
use mycode_c.Stack.Holds.{Holds, push-Holds, Popped, pop-Popped, is_empty-nil}
use mycode_c.Scan.{
  Round, next, stop, Shrinks, scan_all, scan_all-next, scan_all-stop, scan_all-some,
}
use mycode_c.Calc.{
  space, is_digit, is_op, popped, Answer, operate, read_num, pop_two, repolish_round, repolish_end,
  repolish,
}
use mycode_c.Calc.Expr.{Oper, plus, minus, times, over, char_of, IsDigit, int_value, int_apply}

length-read_num : (num : ℤ) (cs : List ℕ) → length (read_num num cs).1 ≤ length cs
unfolding read_num
length-read_num num [] = omega arith
length-read_num num (c ∷ cs) =
    ground (arith, length-read_num (int_of (num *ℤ pos 10 +ℤ pos (c - 48))) cs)

pub popped-elim :
    {B : Type 0} (P : B → Type 0) (r : ℤ × Option ℤ × Stack) (failed : B) (go : ℤ → Stack → B)
    → P failed
    → ((x : ℤ) (s : Stack) → P (go x s))
    → P (popped r failed go)
popped-elim P (st, none, s) failed go a b = a
popped-elim P (st, some x, s) failed go a b = b x s

abbrev Short : List ℕ → Round Stack Answer → Type 0
Short cs = Shrinks (length cs)

operate-Short : (c : ℕ) (cs : List ℕ) (a b : ℤ) (s : Stack) → Short cs (operate c cs a b s)
unfolding operate
operate-Short c cs a b s =
    let same : length cs ≤ length cs = omega arith in
    if_elim (Short cs) (c == 43) _ _ (λ _. same)
      λ _.
        if_elim (Short cs) (c == 45) _ _ (λ _. same)
          λ _.
            if_elim (Short cs) (c == 42) _ _ (λ _. same)
              λ _. if_elim (Short cs) (eqb_ℤ b (pos 0)) _ _ (λ _. tt) (λ _. same)

pop_two-Short : (c : ℕ) (cs : List ℕ) (s : Stack) → Short cs (pop_two c cs s)
unfolding pop_two
pop_two-Short c cs s =
    popped-elim (Short cs) (stack_pop s) _ _ tt
      λ b s2. popped-elim (Short cs) (stack_pop s2) _ _ tt λ a s1. operate-Short c cs a b s1

read_num_digit :
    (num : ℤ) (c : ℕ) (cs : List ℕ)
    → is_digit c ≡ true
    → read_num num (c ∷ cs) ≡ read_num (int_of (num *ℤ pos 10 +ℤ pos (c - 48))) cs
unfolding read_num
read_num_digit num c cs h = rw (h, read_num) refl

repolish_round-Short : (c : ℕ) (cs : List ℕ) (s : Stack) → Short cs (repolish_round c cs s)
unfolding repolish_round
repolish_round-Short c cs s =
    let same : length cs ≤ length cs = omega arith in
    if_elim (Short cs) (c == space) _ _ (λ _. same)
      λ _.
        if_elim (Short cs) (is_digit c) _ _
          (λ d.
            subst (λ n. n ≤ length cs)
              (sym (ap (λ (r : ℤ × List ℕ). length r.1) (read_num_digit (pos 0) c cs d)))
              (length-read_num _ cs))
          λ _. if_elim (Short cs) (is_op c) _ _ (λ _. pop_two-Short c cs s) (λ _. tt)

abbrev pub loop : List ℕ → Stack → Option Answer
loop = scan_all repolish_round repolish_end

abbrev goes :
    (c : ℕ) (cs rest : List ℕ) (s s' : Stack)
    → repolish_round c cs s ≡ next rest s'
    → loop (c ∷ cs) s ≡ loop rest s'
goes = scan_all-next repolish_round repolish_end repolish_round-Short

abbrev stops :
    (c : ℕ) (cs : List ℕ) (s : Stack) (r : Answer)
    → repolish_round c cs s ≡ stop r
    → loop (c ∷ cs) s ≡ some r
stops = scan_all-stop repolish_round repolish_end repolish_round-Short

-- `repolish` comes to an end on every string, with some status.
pub repolish-some :
    (garbage : List ℤ) (text : List ℕ) → (r : Answer) × (repolish garbage text ≡ some r)
unfolding repolish
repolish-some garbage text =
    scan_all-some repolish_round repolish_end repolish_round-Short text (stack_create garbage)

-- The rounds at a space, a number and an operator.
pub loop-space : (cs : List ℕ) (s : Stack) → loop (space ∷ cs) s ≡ loop cs s
unfolding repolish_round
loop-space cs s = goes space cs cs s s refl

read_num-append :
    (n : ℤ) (ds rest : List ℕ)
    → All IsDigit ds
    → read_num n (ds ++ (space ∷ rest)) ≡ (int_value n ds, space ∷ rest)
unfolding read_num int_value
read_num-append n [] rest h = refl
read_num-append n (d ∷ ds) rest h =
    rw (h.0, read_num) (read_num-append (int_of (n *ℤ pos 10 +ℤ pos (d - 48))) ds rest h.1)

digit_round :
    (c : ℕ) (cs : List ℕ) (s : Stack)
    → is_digit c ≡ true
    → repolish_round c cs s
      ≡ (let (num, rest) = read_num (pos 0) (c ∷ cs) in next rest (stack_push s num).1)
unfolding repolish_round
digit_round c cs s h =
    let ne : (c == space) ≡ false = ground arith in rw (ne, h, repolish_round) refl

pub loop_number :
    (d : ℕ) (ds rest : List ℕ) (s : Stack)
    → All IsDigit (d ∷ ds)
    → loop ((d ∷ ds) ++ (space ∷ rest)) s ≡ loop rest (stack_push s (int_value (pos 0) (d ∷ ds))).1
loop_number d ds rest s h =
    goes d (ds ++ (space ∷ rest)) (space ∷ rest) s (stack_push s (int_value (pos 0) (d ∷ ds))).1 (
      digit_round d (ds ++ (space ∷ rest)) s h.0
      ∙ ap (λ (r : ℤ × List ℕ). next r.1 (stack_push s r.0).1)
          (read_num-append (pos 0) (d ∷ ds) rest h))
    ∙ loop-space rest (stack_push s (int_value (pos 0) (d ∷ ds))).1

-- What comes of a text on a stack that holds `xs`: the status of a division by zero, or the value
-- pushed and the rest of the text.
abbrev pub Computed : (text rest : List ℕ) → Stack → List ℤ → Option ℤ → Type 0
Computed text rest s xs none = loop text s ≡ some (negsuc 3, none)
Computed text rest s xs (some v) = (s' : Stack) × Holds s' (v ∷ xs) × (loop text s ≡ loop rest s')

module _ (cs : List ℕ) (s : Stack) (a b : ℤ) (xs : List ℤ) (h : Holds s (b ∷ a ∷ xs))
    (room : length xs < stacksize) where
  abbrev one : Popped s b (a ∷ xs)
  one = pop-Popped h

  abbrev two : Popped one.after a xs
  two = pop-Popped one.rest

  pop_two-operate : (c : ℕ) → pop_two c cs s ≡ operate c cs a b two.after
  unfolding pop_two
  pop_two-operate c =
      let inner = λ (n : ℤ) (s2 : Stack).
        popped (stack_pop s2) (stop (negsuc 2, none)) (λ m s1. operate c cs m n s1) in
      ap (λ r. popped r (stop (negsuc 1, none)) inner) one.result
      ∙ ap (λ r. popped r (stop (negsuc 2, none)) (λ m s1. operate c cs m b s1)) two.result

  op_round : (o : Oper) → repolish_round (char_of o) cs s ≡ pop_two (char_of o) cs s
  unfolding repolish_round
  op_round plus = refl
  op_round minus = refl
  op_round times = refl
  op_round over = refl

  pushes :
      (c : ℕ) (v : ℤ)
      → repolish_round c cs s ≡ pop_two c cs s
      → operate c cs a b two.after ≡ next cs (stack_push two.after v).1
      → Computed (c ∷ cs) cs s xs (some v)
  pushes c v e f = (
    (stack_push two.after v).1,
    push-Holds v two.rest room,
    goes c cs cs s (stack_push two.after v).1 (e ∙ pop_two-operate c ∙ f),
  )

  pub loop_op : (o : Oper) → Computed (char_of o ∷ cs) cs s xs (int_apply o a b)
  unfolding int_apply operate
  loop_op plus = pushes 43 (int_of (a +ℤ b)) (op_round plus) refl
  loop_op minus = pushes 45 (int_of (a -ℤ b)) (op_round minus) refl
  loop_op times = pushes 42 (int_of (a *ℤ b)) (op_round times) refl
  loop_op over = elim (Bool-cases (eqb_ℤ b (pos 0))) [
    | inl zero_b ↦
        rw (zero_b, int_apply)
          (stops 47 cs s (negsuc 3, none)
            (op_round over ∙ pop_two-operate 47 ∙ rw (zero_b, operate) refl))
    | inr more ↦
        rw (more, int_apply) (pushes 47 (int_of (a /ℤ b)) (op_round over) (rw (more, operate) refl))
  ]

-- A space at the end of the text changes nothing.
abbrev longer : Round Stack Answer → Round Stack Answer
longer (next rest s) = next (rest ++ (space ∷ [])) s
longer (stop r) = stop r

operate-append :
    (c : ℕ) (cs : List ℕ) (a b : ℤ) (s : Stack)
    → operate c (cs ++ (space ∷ [])) a b s ≡ longer (operate c cs a b s)
unfolding operate
operate-append c cs a b s = ground arith

read_num-space :
    (n : ℤ) (cs : List ℕ)
    → read_num n (cs ++ (space ∷ [])) ≡ ((read_num n cs).0, (read_num n cs).1 ++ (space ∷ []))
unfolding read_num
read_num-space n [] = refl
read_num-space n (c ∷ cs) = ground (arith, read_num-space (int_of (n *ℤ pos 10 +ℤ pos (c - 48))) cs)

longer-popped :
    (r : ℤ × Option ℤ × Stack) (q : Answer) (go go' : ℤ → Stack → Round Stack Answer)
    → ((x : ℤ) (s : Stack) → go' x s ≡ longer (go x s))
    → popped r (stop q) go' ≡ longer (popped r (stop q) go)
longer-popped (st, none, s) q go go' h = refl
longer-popped (st, some x, s) q go go' h = h x s

pop_two-append :
    (c : ℕ) (cs : List ℕ) (s : Stack) → pop_two c (cs ++ (space ∷ [])) s ≡ longer (pop_two c cs s)
unfolding pop_two
pop_two-append c cs s =
    longer-popped (stack_pop s) _ _ _
      λ b s2. longer-popped (stack_pop s2) _ _ _ λ a s1. operate-append c cs a b s1

repolish_round-append :
    (c : ℕ) (cs : List ℕ) (s : Stack)
    → repolish_round c (cs ++ (space ∷ [])) s ≡ longer (repolish_round c cs s)
unfolding repolish_round
repolish_round-append c cs s =
    ground (arith, pop_two-append c cs s, read_num-space (pos 0) (c ∷ cs))

longer_round :
    (c : ℕ) (cs : List ℕ) (s : Stack) (r : Round Stack Answer)
    → repolish_round c cs s ≡ r
    → Shrinks (length cs) r
    → ((rest : List ℕ) (s' : Stack)
        → length rest ≤ length cs
        → loop (rest ++ (space ∷ [])) s' ≡ loop rest s')
    → loop ((c ∷ cs) ++ (space ∷ [])) s ≡ loop (c ∷ cs) s
longer_round c cs s (next rest s') e short same =
    goes c (cs ++ (space ∷ [])) (rest ++ (space ∷ [])) s s'
      (repolish_round-append c cs s ∙ ap longer e)
    ∙ same rest s' short
    ∙ sym (goes c cs rest s s' e)
longer_round c cs s (stop r) e short same =
    stops c (cs ++ (space ∷ [])) s r (repolish_round-append c cs s ∙ ap longer e)
    ∙ sym (stops c cs s r e)

-- By induction on a bound of the length.
loop_bounded :
    (n : ℕ) (cs : List ℕ) (s : Stack) → length cs ≤ n → loop (cs ++ (space ∷ [])) s ≡ loop cs s
loop_bounded n [] s h = loop-space [] s
loop_bounded zero (c ∷ cs) s h = absurd (omega arith)
loop_bounded (suc n) (c ∷ cs) s h =
    longer_round c cs s (repolish_round c cs s) refl (repolish_round-Short c cs s)
      λ rest s' k. loop_bounded n rest s' (omega arith)

pub loop-append : (cs : List ℕ) (s : Stack) → loop (cs ++ (space ∷ [])) s ≡ loop cs s
loop-append cs s = loop_bounded (length cs) cs s (omega arith)

-- The text has been read and one item is left.
pub loop_end : (s : Stack) (v : ℤ) → Holds s (v ∷ []) → loop [] s ≡ some (pos 0, some v)
unfolding repolish_end scan_all
loop_end s v h =
    let p = pop-Popped h in
    let last =
      λ (x : ℤ) (s' : Stack). if is_empty s' then (pos 0, some x) else (negsuc 5, some x) in
    ap (λ r. some (popped r (negsuc 4, none) last)) p.result
    ∙ ap (λ b. some (if b then (pos 0, some v) else (negsuc 5, some v))) (is_empty-nil p.rest)

pub repolish-loop :
    (garbage : List ℤ) (text : List ℕ) → repolish garbage text ≡ loop text (stack_create garbage)
unfolding repolish
repolish-loop garbage text = refl
