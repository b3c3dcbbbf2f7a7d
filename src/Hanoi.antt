-- ===== src/Hanoi.antt =====
-- The towers of stack/06hanoi/hanoi.c: three stacks of at most five discs, by number. What is drawn after a move is the
-- state of the towers. `play` does not end for no disc, which is `none`.
pub mod Towers
pub mod Play
mod Tests
use mycode_c.Base.{
  ℕ, zero, suc, ◌+◌, ◌-◌, Option, none, some, List, [], ◌∷◌, ◌++◌, ◌==◌, if◌then◌else◌, get_or, set,
  replicate,
}
use mycode_c.Llist.{update}

-- `struct hanoi`
pub record Tower : Type 0 where
  pub hanoi_arr : List ℕ
  pub hanoi_top : ℕ

abbrev pub Pegs : Type 0
Pegs = ℕ → Tower

-- The array `hanoi` at the start.
abbrev pub hanoi : Pegs
hanoi zero = record { hanoi_arr = 5 ∷ 4 ∷ 3 ∷ 2 ∷ 1 ∷ []; hanoi_top = 5 }
hanoi (suc i) = record { hanoi_arr = replicate 5 0; hanoi_top = 0 }

pub swap : (src dest : ℕ) → Pegs → Pegs
swap src dest h =
    let from = h src in
    let h1 = update h src (record from { hanoi_top = from.hanoi_top - 1 }) in
    let disc = get_or (h1 src).hanoi_arr (h1 src).hanoi_top 0 in
    let to = h1 dest in
    let h2 = update h1 dest (record to { hanoi_arr = set to.hanoi_arr to.hanoi_top disc }) in
    let to' = h2 dest in update h2 dest (record to' { hanoi_top = to'.hanoi_top + 1 })

-- One run and then another.
abbrev pub and_then :
    Option (List Pegs × Pegs) → (Pegs → Option (List Pegs × Pegs)) → Option (List Pegs × Pegs)
and_then none f = none
and_then (some (hs, h)) f = elim (f h) [ none ↦ none | some (hs', h') ↦ some (hs ++ hs', h') ]

pub move : (src dest : ℕ) → Pegs → Option (List Pegs × Pegs)
unfolding swap
move src dest h = some (swap src dest h ∷ [], swap src dest h)

-- The states that are drawn, and the last one.
pub play : (num : ℕ) → (src dest tmp : ℕ) → Pegs → Option (List Pegs × Pegs)
unfolding move
play zero src dest tmp h = none
play (suc zero) src dest tmp h = move src dest h
play (suc (suc n)) src dest tmp h =
    and_then (and_then (play (suc n) src tmp dest h) (move src dest)) (play (suc n) tmp dest src)
