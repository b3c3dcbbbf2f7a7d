-- ===== src/Gomoku/Tests.antt =====
-- Rounds of gomoku/gomoku.c, and the theorems at concrete boards.
use mycode_c.Base.{
  Bool, Option, ◌≡◌, ◌↔◌, refl, true, none, some, [], ◌∷◌, ltb, if◌then◌else◌, arith,
}
use mycode_c.Base.Int.{pos}
use mycode_c.Gomoku.{
  Outcome, outside, Board, Game, pair, other, put, init, iflegal, ifwin, player_one, turn,
}
use mycode_c.Gomoku.Win.{FiveInLine, Filled, ifwin_iff}
use mycode_c.Gomoku.Turn.{Fair, turn-Fair}

-- the board after `init`
abbrev empty : Board
empty k = if ltb k 225 then b'+' else 0

-- four stones of the first player in the first row
abbrev four : Board
four = put (put (put (put empty 0 0 b'0') 0 1 b'0') 0 2 b'0') 0 3 b'0'

abbrev game : Game
game = record { qp = four; flag = 1; count1 = 4; count2 = 4 }

init_clears : (init (λ k. 0) 0 ≡ b'+') × (init (λ k. 0) 224 ≡ b'+') × (init (λ k. 7) 225 ≡ 7)
unfolding init
init_clears = (refl, refl, refl)

abbrev after_fifth : Game
after_fifth = record { qp = put four 0 4 b'0'; flag = 2; count1 = 5; count2 = 4 }

fifth_wins : (turn game (pos 1) (pos 5)) ≡ some (after_fifth, some player_one)
unfolding turn
fifth_wins = refl

-- Column 16 of row 1 is not on the board.
iflegal_outside : iflegal empty (other ∷ pair (pos 1) (pos 16) ∷ []) ≡ outside
unfolding iflegal
iflegal_outside = refl

turn-Fair_example :
    (r : Game × Option Outcome) × (turn game (pos 1) (pos 5) ≡ some r) × Fair game 0 4 r.0.qp r.1
turn-Fair_example = turn-Fair game 0 4 (ground arith) (ground arith)

free_cell : ¬ Filled four
free_cell f = f 5 5 (omega arith) (omega arith) (omega arith) (omega arith) refl

ifwin_iff_example :
    (r : Bool × Option Bool) × (ifwin four (pos 1) (pos 2) ≡ some r)
    × ((r.0 ≡ true) ↔ FiveInLine four b'0' 0 1)
    × (r.1 ≡ none)
ifwin_iff_example = ifwin_iff four 0 1 (ground arith) (ground arith) (ground arith) free_cell
