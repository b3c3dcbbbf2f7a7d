-- ===== src/Gomoku/Win.antt =====
-- The verdict of `ifwin` in gomoku/gomoku.c against the rule of the game.
use native.Mathlib.Decide.{dec_le, ℕ_discrete}
use mathlib.Core.Bool.{false≢true}
use mycode_c.Base.{
  ℕ, zero, suc, ◌+◌, ◌-◌, ◌≤◌, ◌<◌, ◌≡◌, ◌≢◌, ◌↔◌, ◌⊎◌, refl, sym, ap₂, ◌∙◌, Bool, true, false,
  ◌||◌, Bool-cases, inl, inr, arith, ◌==◌, leb, ==_iff, ==_ne, Option, none, some, min, ap,
  if◌then◌else◌,
}
use mycode_c.Base.Int.{pos}
use mycode_c.Gomoku.{
  Board, cell, row_full, board_full, row_count, col_count, main_count, anti_count, five, on_board,
  index_of, ifwin_at, ifwin,
}
use mycode_c.Gomoku.Line.{
  Run, Own, west-Run, east-Run, north-Run, south-Run, north_west-Run, south_east-Run,
  north_east-Run, south_west-Run,
}

-- Five stones in a row: the one just set, `a` places one way and `b` the other.
pub record Five (One Other : ℕ → Type 0) : Type 0 where
  pub a : ℕ
  pub b : ℕ
  pub both : a + b ≡ 4
  pub one : (k : ℕ) → 1 ≤ k → k ≤ a → One k
  pub other : (k : ℕ) → 1 ≤ k → k ≤ b → Other k

count_iff :
    (One Other : ℕ → Type 0) (mid out : ℕ)
    → Run One 1 mid
    → Run Other mid out
    → (leb 5 out ≡ true) ↔ Five One Other
count_iff One Other mid out r s = (there, back)
  where
    there : leb 5 out ≡ true → Five One Other
    there e =
        let enough : 5 ≤ out = ground arith in
        record {
          a = min r.steps 4;
          b = 4 - min r.steps 4;
          both = omega arith;
          one = λ k l u. r.passed k l (omega arith);
          other = λ k l u. s.passed k l (omega (arith, r.total, s.total));
        }

    reaches : (At : ℕ → Type 0) (n i : ℕ) → ¬ At (suc n) → ((k : ℕ) → 1 ≤ k → k ≤ i → At k) → i ≤ n
    reaches At n i stops all = elim (dec_le i n) [
      | yes p ↦ p
      | no p ↦ absurd (stops (all (suc n) (omega arith) (omega arith)))
    ]

    back : Five One Other → leb 5 out ≡ true
    back f =
        let p : f.a ≤ r.steps = reaches One r.steps f.a r.stops f.one in
        let q : f.b ≤ s.steps = reaches Other s.steps f.b s.stops f.other in
        let enough : 5 ≤ out = omega (arith, r.total, s.total, f.both) in ground arith

-- The lines through the cell (row, col) in which five stones of the player may stand.
module _ (qp : Board) (player row col : ℕ) where
  abbrev pub RowFive : Type 0
  RowFive =
      Five (λ k. (k ≤ col) × Own qp player row (col - k))
        (λ k. (k ≤ 14 - col) × Own qp player row (col + k))

  abbrev pub ColFive : Type 0
  ColFive =
      Five (λ k. (k ≤ row) × Own qp player (row - k) col)
        (λ k. (k ≤ 14 - row) × Own qp player (row + k) col)

  abbrev pub MainFive : Type 0
  MainFive =
      Five (λ k. (k ≤ row) × (k ≤ col) × Own qp player (row - k) (col - k))
        (λ k. (k ≤ 14 - row) × (k ≤ 14 - col) × Own qp player (row + k) (col + k))

  abbrev pub AntiFive : Type 0
  AntiFive =
      Five (λ k. (k ≤ row) × (k ≤ 14 - col) × Own qp player (row - k) (col + k))
        (λ k. (k ≤ 14 - row) × (k ≤ col) × Own qp player (row + k) (col - k))

  abbrev pub FiveInLine : Type 0
  FiveInLine = RowFive ⊎ (ColFive ⊎ (MainFive ⊎ AntiFive))

  row_iff : (leb 5 (row_count qp player row col) ≡ true) ↔ RowFive
  unfolding row_count
  row_iff =
      count_iff _ _ _ _ (west-Run qp player row col 1) (east-Run qp player (14 - col) row col _)

  col_iff : (leb 5 (col_count qp player row col) ≡ true) ↔ ColFive
  unfolding col_count
  col_iff =
      count_iff _ _ _ _ (north-Run qp player row col 1) (south-Run qp player (14 - row) row col _)

  main_iff : (leb 5 (main_count qp player row col) ≡ true) ↔ MainFive
  unfolding main_count
  main_iff =
      count_iff _ _ _ _ (north_west-Run qp player row col 1)
        (south_east-Run qp player (14 - row) (14 - col) row col _)

  anti_iff : (leb 5 (anti_count qp player row col) ≡ true) ↔ AntiFive
  unfolding anti_count
  anti_iff =
      count_iff _ _ _ _ (north_east-Run qp player row (14 - col) col 1)
        (south_west-Run qp player (14 - row) row col _)

or_iff : {b c : Bool} {B C : Type 0} → (b ≡ true) ↔ B → (c ≡ true) ↔ C → ((b || c) ≡ true) ↔ (B ⊎ C)
or_iff {b = true} f g = (λ e. inl (f.0 refl), λ e. refl)
or_iff {b = false} f g =
    (λ e. inr (g.0 e), elim [ inl x ↦ absurd (false≢true (f.1 x)) | inr y ↦ g.1 y ])

five_iff :
    (qp : Board) (player row col : ℕ)
    → (five qp player row col ≡ true) ↔ FiveInLine qp player row col
unfolding five
five_iff qp player row col = or_iff (row_iff qp player row col) (
    or_iff (col_iff qp player row col)
      (or_iff (main_iff qp player row col) (anti_iff qp player row col)))

-- No cell of these rows and columns is free.
abbrev pub Taken : Board → ℕ → ℕ → ℕ → ℕ → Type 0
Taken qp i n j m = (r c : ℕ) → i ≤ r → r < i + n → j ≤ c → c < j + m → cell qp r c ≢ b'+'

-- Every cell of the board holds a stone.
abbrev pub Filled : Board → Type 0
Filled qp = Taken qp 0 15 0 15

row_full-Taken : (qp : Board) (n i j : ℕ) → (row_full qp n i j ≡ true) ↔ Taken qp i 1 j n
unfolding row_full
row_full-Taken qp zero i j = (λ e r c a b d f. absurd (omega arith), λ t. refl)
row_full-Taken qp (suc n) i j = elim (Bool-cases (cell qp i j == b'+')) [
  | inl e ↦ rw e (
    λ q. absurd (false≢true q),
    λ t. absurd (t i j (omega arith) (omega arith) (omega arith) (omega arith) ((==_iff _ _).0 e)),
  )
  | inr e ↦ rw e (
    λ q r c a b d f. elim (ℕ_discrete c j) [
      | yes same ↦ λ h. free i j e (sym (ap₂ (cell qp) (omega arith) same) ∙ h)
      | no apart ↦ (row_full-Taken qp n i (j + 1)).0 q r c a b (omega arith) (omega arith)
    ],
    λ t. (row_full-Taken qp n i (j + 1)).1 (λ r c a b d f. t r c a b (omega arith) (omega arith)),
  )
]
  where
    free : (r c : ℕ) → (cell qp r c == b'+') ≡ false → cell qp r c ≢ b'+'
    free r c e h = ground arith

board_full-Taken : (qp : Board) (n i : ℕ) → (board_full qp n i ≡ true) ↔ Taken qp i n 0 15
unfolding board_full
board_full-Taken qp zero i = (λ e r c a b d f. absurd (omega arith), λ t. refl)
board_full-Taken qp (suc n) i = elim (Bool-cases (row_full qp 15 i 0)) [
  | inl e ↦ rw e (
    λ q r c a b d f. elim (ℕ_discrete r i) [
      | yes same ↦ (row_full-Taken qp 15 i 0).0 e r c a (omega arith) d f
      | no apart ↦ (board_full-Taken qp n (i + 1)).0 q r c (omega arith) (omega arith) d f
    ],
    λ t. (board_full-Taken qp n (i + 1)).1 (λ r c a b d f. t r c (omega arith) (omega arith) d f),
  )
  | inr e ↦ rw e (
    λ q. absurd (false≢true q),
    λ t. absurd (
        false≢true (
          sym e
          ∙ (row_full-Taken qp 15 i 0).1 (λ r c a b d f. t r c (omega arith) (omega arith) d f))),
  )
]

pub board_full_iff : (qp : Board) → (board_full qp 15 0 ≡ true) ↔ Filled qp
board_full_iff qp = board_full-Taken qp 15 0

-- A coordinate on the board gives its row or column.
index_of_lem : (i : ℕ) → i < 15 → index_of (pos (suc i)) ≡ some i
unfolding index_of
index_of_lem i bound =
    let inside : leb i 14 ≡ true = ground arith in ap (λ b. if b then some i else none) inside

pub on_board_lem :
    {A : Type 0} (f : ℕ → ℕ → A) (row col : ℕ)
    → row < 15
    → col < 15
    → on_board (pos (suc row)) (pos (suc col)) f ≡ some (f row col)
unfolding on_board
on_board_lem f row col r c =
    rw (index_of_lem row r, on_board) (rw (index_of_lem col c, on_board) refl)

pub ifwin_at_iff :
    (qp : Board) (row col : ℕ)
    → cell qp row col ≢ b'+'
    → ¬ Filled qp
    → (((ifwin_at qp row col).0 ≡ true) ↔ FiveInLine qp (cell qp row col) row col)
      × ((ifwin_at qp row col).1 ≡ none)
unfolding ifwin_at
ifwin_at_iff qp row col stone free = elim (Bool-cases (board_full qp 15 0)) [
  | inl e ↦ absurd (free ((board_full_iff qp).0 e))
  | inr e ↦
      let set : (cell qp row col == b'+') ≡ false = ==_ne _ _ stone in
      rw (set, e) (five_iff qp (cell qp row col) row col, refl)
]

-- After a stone in one of the 15 rows and columns, as long as a cell of the board is free, `ifwin` returns true
-- exactly if there are five stones of that player in a line of four directions through it, on the board; and it
-- reports no draw.
pub ifwin_iff :
    (qp : Board) (row col : ℕ)
    → row < 15
    → col < 15
    → cell qp row col ≢ b'+'
    → ¬ Filled qp
    → (r : Bool × Option Bool) × (ifwin qp (pos (suc row)) (pos (suc col)) ≡ some r)
      × ((r.0 ≡ true) ↔ FiveInLine qp (cell qp row col) row col)
      × (r.1 ≡ none)
unfolding ifwin
ifwin_iff qp row col r c stone free =
    let verdict = ifwin_at_iff qp row col stone free in
    (ifwin_at qp row col, on_board_lem (ifwin_at qp) row col r c, verdict.0, verdict.1)

-- A stone that fills the board ends the game as a draw, whether it makes five in a row or not.
pub ifwin-Filled :
    (qp : Board) (row col : ℕ)
    → cell qp row col ≢ b'+'
    → Filled qp
    → ifwin_at qp row col ≡ (true, some true)
unfolding ifwin_at
ifwin-Filled qp row col stone full =
    let set : (cell qp row col == b'+') ≡ false = ==_ne _ _ stone in
    rw (set, (board_full_iff qp).1 full)
