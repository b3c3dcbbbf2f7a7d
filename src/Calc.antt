-- ===== src/Calc.antt =====
-- The calculator of stack/04repolish/main.c, over the stack of six ints of Stack. A string is the list of its
-- characters before the NUL, so `len` is its length; what a function writes to `postfix` is returned. Sums,
-- products and quotients wrap around to an `int` (in C an overflow is undefined). Every `stack_create` is
-- taken to succeed.
pub mod Expr
pub mod Rounds
pub mod Exact
pub mod Eval
pub mod Operators
pub mod Reading
pub mod Pending
pub mod Convert
mod Tests
use mycode_c.Base.{
  ℕ, zero, suc, ◌+◌, ◌-◌, Bool, true, false, ◌&&◌, ◌||◌, Option, none, some, List, [], ◌∷◌, ◌++◌,
  ◌==◌, leb, length, take, if◌then◌else◌,
}
use mycode_c.Base.Int.{ℤ, pos, negsuc, pos_part, eqb_ℤ, ltb_ℤ, int_of, ◌+ℤ◌, ◌-ℤ◌, ◌*ℤ◌, ◌/ℤ◌}
use mycode_c.Stack.{Stack, stack_create, is_empty, stack_push, stack_pop}
use mycode_c.Scan.{Round, next, stop, scan_all}

abbrev pub space : ℕ
space = 32

abbrev pub is_digit : ℕ → Bool
is_digit c = leb 48 c && leb c 57

-- `strchr("+-*/", c)`, for a character other than NUL
abbrev pub is_op : ℕ → Bool
is_op c = (c == 43) || (c == 45) || (c == 42) || (c == 47)

-- A popped item that the code goes on with, or the status -1.
abbrev pub popped : {B : Type 0} → ℤ × Option ℤ × Stack → B → (ℤ → Stack → B) → B
popped (st, none, s) failed go = failed
popped (st, some x, s) failed go = go x s

-- What `repolish` returns, with what it wrote to `*result`.
abbrev pub Answer : Type 0
Answer = ℤ × Option ℤ

-- The `switch` on the operator.
pub operate : ℕ → List ℕ → ℤ → ℤ → Stack → Round Stack Answer
operate c cs num1 num2 s =
    if c == 43
    then next cs (stack_push s (int_of (num1 +ℤ num2))).1
    else (if c == 45
        then next cs (stack_push s (int_of (num1 -ℤ num2))).1
        else (if c == 42
            then next cs (stack_push s (int_of (num1 *ℤ num2))).1
            else (if eqb_ℤ num2 (pos 0)
                then stop (negsuc 3, none)
                else next cs (stack_push s (int_of (num1 /ℤ num2))).1)))

-- The loop over the digits of a number: the number, and the rest of the string.
pub read_num : ℤ → List ℕ → ℤ × List ℕ
read_num num [] = (num, [])
read_num num (c ∷ cs) =
    let more = read_num (int_of (num *ℤ pos 10 +ℤ pos (c - 48))) cs in
    if is_digit c then more else (num, c ∷ cs)

pub pop_two : ℕ → List ℕ → Stack → Round Stack Answer
unfolding operate
pop_two c cs s =
    popped (stack_pop s) (stop (negsuc 1, none))
      λ num2 s2. popped (stack_pop s2) (stop (negsuc 2, none)) λ num1 s1. operate c cs num1 num2 s1

-- A round of the loop of `repolish`.
pub repolish_round : ℕ → List ℕ → Stack → Round Stack Answer
unfolding read_num pop_two
repolish_round c cs s =
    if c == space
    then next cs s
    else (if is_digit c
        then (let (num, rest) = read_num (pos 0) (c ∷ cs) in next rest (stack_push s num).1)
        else (if is_op c then pop_two c cs s else stop (negsuc 6, none)))

pub repolish_end : Stack → Answer
repolish_end s =
    popped (stack_pop s) (negsuc 4, none)
      λ x s'. if is_empty s' then (pos 0, some x) else (negsuc 5, some x)

pub repolish : (garbage : List ℤ) → List ℕ → Option Answer
repolish garbage postfix = scan_all repolish_round repolish_end postfix (stack_create garbage)

pub get_priority : ℤ → ℤ
get_priority op =
    if eqb_ℤ op (pos 40)
    then pos 0
    else (if eqb_ℤ op (pos 43) || eqb_ℤ op (pos 45)
        then pos 1
        else (if eqb_ℤ op (pos 42) || eqb_ℤ op (pos 47) then pos 2 else negsuc 0))

-- `postfix[j++] = op; postfix[j++] = ' ';`
abbrev pub written : ℤ → List ℕ
written op = pos_part op ∷ space ∷ []

-- The digits at the front of the string, and the rest.
pub copy_num : List ℕ → List ℕ × List ℕ
copy_num [] = ([], [])
copy_num (c ∷ cs) =
    let (ds, rest) = copy_num cs in if is_digit c then (c ∷ ds, rest) else ([], c ∷ cs)

-- The three loops that pop operators. Each takes `stack_top` for its fuel, which falls with each pop.
pub close : ℕ → Stack → List ℕ × Stack
close zero s = ([], s)
close (suc fuel) s =
    if is_empty s
    then ([], s)
    else popped (stack_pop s) ([], s)
        λ op s'.
          let (out, s'') = close fuel s' in
          if eqb_ℤ op (pos 40) then ([], s') else (written op ++ out, s'')

pub reduce : ℤ → ℕ → Stack → List ℕ × Stack
unfolding get_priority
reduce cur_op zero s = ([], s)
reduce cur_op (suc fuel) s =
    if is_empty s
    then ([], s)
    else popped (stack_pop s) ([], s)
        λ top_op s'.
          let (out, s'') = reduce cur_op fuel s' in
          if ltb_ℤ (get_priority top_op) (get_priority cur_op)
          then ([], (stack_push s' top_op).1)
          else (written top_op ++ out, s'')

pub flush : ℕ → Stack → List ℕ
flush zero s = []
flush (suc fuel) s =
    if is_empty s then [] else popped (stack_pop s) [] λ op s'. written op ++ flush fuel s'

-- What `infix_to_postfix` comes to: 0 and the string, -2, or a write to `postfix[-1]`.
pub data Converted : Type 0 where
  converted : List ℕ → Converted
  wrong_char : Converted
  out_of_bounds : Converted

-- The last character is overwritten with NUL.
pub cut_last : List ℕ → Converted
cut_last [] = out_of_bounds
cut_last (c ∷ []) = converted []
cut_last (c ∷ d ∷ cs) = elim (cut_last (d ∷ cs)) [ converted out ↦ converted (c ∷ out) | r ↦ r ]

-- A round of the loop of `infix_to_postfix`; the state is what was written and the operators.
pub infix_round : ℕ → List ℕ → List ℕ × Stack → Round (List ℕ × Stack) Converted
unfolding copy_num close reduce
infix_round c cs (out, s) =
    if c == space
    then next cs (out, s)
    else (if is_digit c
        then (let (ds, rest) = copy_num (c ∷ cs) in next rest (out ++ (ds ++ (space ∷ [])), s))
        else (if c == 40
            then next cs (out, (stack_push s (pos c)).1)
            else (if c == 41
                then (let (more, s') = close s.stack_top s in next cs (out ++ more, s'))
                else (if is_op c
                    then (let (more, s') = reduce (pos c) s.stack_top s in
                        next cs (out ++ more, (stack_push s' (pos c)).1))
                    else stop wrong_char))))

pub infix_end : List ℕ × Stack → Converted
unfolding flush cut_last
infix_end (out, s) = cut_last (out ++ flush s.stack_top s)

pub infix_to_postfix : (garbage : List ℤ) → List ℕ → Option Converted
infix_to_postfix garbage text = scan_all infix_round infix_end text ([], stack_create garbage)

-- What `main` does with the text it took from the line. Both strings have 32 bytes there: a longer
-- postfix form is written past the end of its array. `failed` leaves open whether that happened before.
pub data Report : Type 0 where
  failed : Report
  answered : Answer → Report
  undefined : Report

abbrev pub buffer : ℕ
buffer = 32

pub answer : (garbage : List ℤ) → List ℕ → Report
unfolding repolish
answer garbage postfix = elim (repolish garbage postfix) [ none ↦ undefined | some r ↦ answered r ]

pub report : (garbage garbage' : List ℤ) → List ℕ → Report
unfolding infix_to_postfix answer
report garbage garbage' text = elim (infix_to_postfix garbage text) [
  | none ↦ undefined
  | some wrong_char ↦ failed
  | some out_of_bounds ↦ undefined
  | some (converted postfix) ↦
      if leb (length postfix + 1) buffer then answer garbage' postfix else undefined
]

-- `main` on a line, without its end; `fgets` takes at most 31 characters.
pub calculate : (garbage garbage' : List ℤ) → List ℕ → Report
unfolding report
calculate garbage garbage' line = report garbage garbage' (take 31 line)
