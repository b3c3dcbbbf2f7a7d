-- ===== src/Gomoku/Turn.antt =====
-- A round of the game of gomoku/main.c: who is announced as the winner.
use mathlib.Core.Bool.{false≢true}
use mycode_c.Base.{
  ℕ, suc, ◌<◌, ◌≡◌, ◌≢◌, ◌↔◌, refl, Bool, true, false, Bool-cases, inl, inr, arith, ◌==◌, none,
  some, Option, if◌then◌else◌, sym, subst, ◌∙◌, ap, ap₂,
}
use mycode_c.Base.Int.{pos}
use mycode_c.Gomoku.{
  Board, Game, cell, writein_at, ifwin_at, board_full, announce, Outcome, draw, player_one,
  player_two, turn, ended, ifwin, writein,
}
use mycode_c.Gomoku.Win.{
  FiveInLine, Filled, ifwin_at_iff, ifwin-Filled, board_full_iff, on_board_lem,
}

-- The stone of the player whose turn it is.
abbrev pub stone : Game → ℕ
stone g = if g.flag == 1 then b'0' else b'X'

abbrev pub winner : Game → Outcome
winner g = if g.flag == 1 then player_one else player_two

-- What an outcome of a round says of the board after it.
abbrev pub Fair : Game → ℕ → ℕ → Board → Option Outcome → Type 0
Fair g row col qp none = ¬ FiveInLine qp (stone g) row col × (¬ Filled qp)
Fair g row col qp (some draw) = Filled qp
Fair g row col qp (some player_one) =
    (winner g ≡ player_one) × FiveInLine qp (stone g) row col × (¬ Filled qp)
Fair g row col qp (some player_two) =
    (winner g ≡ player_two) × FiveInLine qp (stone g) row col × (¬ Filled qp)

written : (g : Game) (row col : ℕ) → cell (writein_at g row col).qp row col ≡ stone g
unfolding writein_at
written g row col = ground arith

-- The player who has moved wins, and no other.
announce-winner : (g : Game) (row col : ℕ) → announce none (writein_at g row col).flag ≡ winner g
unfolding announce writein_at
announce-winner g row col = ground arith

stone-ne-free : (g : Game) → stone g ≢ b'+'
stone-ne-free g h = ground arith

module _ (g : Game) (row col : ℕ) where
  after : Board
  after = (writein_at g row col).qp

  placed : cell after row col ≢ b'+'
  unfolding after
  placed h = stone-ne-free g (sym (written g row col) ∙ h)

  -- The five are those of the player who has moved.
  verdict :
      ¬ Filled after → ((ifwin_at after row col).0 ≡ true) ↔ FiveInLine after (stone g) row col
  unfolding after
  verdict free =
      subst (λ c. ((ifwin_at after row col).0 ≡ true) ↔ FiveInLine after c row col)
        (written g row col) (ifwin_at_iff after row col placed free).0

-- The outcome that goes with the result of `ifwin`.
outcome : Bool × Option Bool → ℕ → Option Outcome
outcome r flag = if r.0 then some (announce r.1 flag) else none

Fair-winner :
    (g : Game) (row col : ℕ) (qp : Board)
    → FiveInLine qp (stone g) row col
    → ¬ Filled qp
    → Fair g row col qp (some (winner g))
Fair-winner g row col qp five free = elim (Bool-cases (g.flag == 1)) [
  | inl e ↦ rw e (rw e refl, five, free)
  | inr e ↦ rw e (rw e refl, five, free)
]

-- A round at a row and a column.
turn_at : Game → (row col : ℕ) → Game × Option Outcome
unfolding writein_at ifwin_at
turn_at g row col = ended (writein_at g row col) (ifwin_at (writein_at g row col).qp row col)

turn_at-Fair :
    (g : Game) (row col : ℕ) → Fair g row col (turn_at g row col).0.qp (turn_at g row col).1
unfolding turn_at after outcome announce
turn_at-Fair g row col = elim (Bool-cases (board_full (after g row col) 15 0)) [
  | inl e ↦
      let full : Filled (after g row col) = (board_full_iff (after g row col)).0 e in
      subst (Fair g row col (after g row col)) (sym (drawn full)) full
  | inr e ↦
      let free : ¬ Filled (after g row col) =
        λ f. absurd (false≢true (sym e ∙ (board_full_iff (after g row col)).1 f)) in
      elim (Bool-cases (ifwin_at (after g row col) row col).0) [
        | inl won ↦
            subst (Fair g row col (after g row col)) (sym (finished free won))
              (Fair-winner g row col (after g row col) ((verdict g row col free).0 won) free)
        | inr on ↦
            subst (Fair g row col (after g row col)) (sym (goes_on on))
              ((λ five. absurd (false≢true (sym on ∙ (verdict g row col free).1 five))), free)
      ]
]
  where
    drawn : Filled (after g row col) → (turn_at g row col).1 ≡ some draw
    drawn full =
        ap (λ r. outcome r (writein_at g row col).flag)
          (ifwin-Filled (after g row col) row col (placed g row col) full)

    finished :
        ¬ Filled (after g row col)
        → (ifwin_at (after g row col) row col).0 ≡ true
        → (turn_at g row col).1 ≡ some (winner g)
    finished free won =
        ap₂ (λ b o. outcome (b, o) (writein_at g row col).flag) won
          (ifwin_at_iff (after g row col) row col (placed g row col) free).1
        ∙ ap some (announce-winner g row col)

    goes_on : (ifwin_at (after g row col) row col).0 ≡ false → (turn_at g row col).1 ≡ none
    goes_on on =
        ap (λ b. outcome (b, (ifwin_at (after g row col) row col).1) (writein_at g row col).flag) on

turn-turn_at :
    (g : Game) (row col : ℕ)
    → row < 15
    → col < 15
    → turn g (pos (suc row)) (pos (suc col)) ≡ some (turn_at g row col)
unfolding turn turn_at writein ifwin
turn-turn_at g row col r c =
    ap
      (λ o. elim o as (λ w. Option (Game × Option Outcome)) [
        | none ↦ none
        | some g' ↦ elim (ifwin g'.qp (pos (suc row)) (pos (suc col))) [
          | none ↦ none
          | some w ↦ some (ended g' w)
        ]
      ])
      (on_board_lem (writein_at g) row col r c)
    ∙ ap
        (λ o. elim o as (λ w. Option (Game × Option Outcome)) [
          | none ↦ none
          | some w ↦ some (ended (writein_at g row col) w)
        ])
        (on_board_lem (ifwin_at (writein_at g row col).qp) row col r c)

-- A round in one of the 15 rows and columns announces a draw exactly when the board is full, also when the
-- last stone makes five in a row; otherwise it announces a winner exactly if the stone just set makes five in
-- a row, and the winner is the player who set it; in the remaining case the game goes on.
pub turn-Fair :
    (g : Game) (row col : ℕ)
    → row < 15
    → col < 15
    → (r : Game × Option Outcome) × (turn g (pos (suc row)) (pos (suc col)) ≡ some r)
      × Fair g row col r.0.qp r.1
turn-Fair g row col r c = (turn_at g row col, turn-turn_at g row col r c, turn_at-Fair g row col)
