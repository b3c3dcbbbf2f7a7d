-- ===== src/Stack.antt =====
-- The stack of six ints of stack/02arr/stack.c and stack/04repolish/stack.c. `stack_top` never falls
-- below 0 there, since `stack_pop` tests for it, so it is a natural number here.
pub mod Items
pub mod Holds
mod Tests
use mycode_c.Base.{
  ℕ, zero, suc, ◌+◌, ◌-◌, Bool, Option, none, some, List, [], ◌∷◌, get_elem?, set, ◌==◌,
  if◌then◌else◌,
}
use mycode_c.Base.Int.{ℤ, pos, negsuc}

abbrev pub stacksize : ℕ
stacksize = 6

-- `STACK`
pub record Stack : Type 0 where
  pub stack_arr : List ℤ
  pub stack_top : ℕ

-- Where `malloc` succeeds; it leaves in the array what was there.
pub stack_create : (garbage : List ℤ) → Stack
stack_create garbage = record { stack_arr = garbage; stack_top = 0 }

pub is_full : Stack → Bool
is_full s = s.stack_top == stacksize

pub is_empty : Stack → Bool
is_empty s = s.stack_top == 0

-- A `set` out of range changes nothing.
pub stack_push : Stack → ℤ → ℤ × Stack
unfolding is_full
stack_push s data' = if is_full s then (negsuc 0, s) else (
  pos 0,
  record { stack_arr = set s.stack_arr s.stack_top data'; stack_top = s.stack_top + 1 },
)

-- The option is what is stored in `*save`, `none` where nothing is or where the read is out of range.
pub stack_pop : Stack → ℤ × Option ℤ × Stack
unfolding is_empty
stack_pop s =
    if is_empty s
    then (negsuc 0, none, s)
    else (pos 0, get_elem? s.stack_arr (s.stack_top - 1), record s { stack_top = s.stack_top - 1 })

-- What the loop of `stack_display` prints from index `i - 1` down.
pub display_from : ℕ → List ℤ → List (Option ℤ)
display_from zero arr = []
display_from (suc i) arr = get_elem? arr i ∷ display_from i arr

pub stack_display : Stack → List (Option ℤ)
unfolding display_from
stack_display s = if is_empty s then [] else display_from s.stack_top s.stack_arr

pub data Op : Type 0 where
  push : ℤ → Op
  pop : Op

-- A client's calls, with the status and the item of each.
pub run : Stack → List Op → List (ℤ × Option ℤ)
unfolding stack_push stack_pop
run s [] = []
run s (push x ∷ ops) = let (st, s') = stack_push s x in (st, none) ∷ run s' ops
run s (pop ∷ ops) = let (st, out, s') = stack_pop s in (st, out) ∷ run s' ops
