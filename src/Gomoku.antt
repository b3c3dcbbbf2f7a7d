-- ===== src/Gomoku.antt =====
-- The game of gomoku/gomoku.c and gomoku/main.c. The board `char qp[15][15]` is its memory from its start on,
-- row after row. A coordinate is an `int`; where the code would index past its row or outside the array, the
-- result is `none`, or `outside`. Each `for` loop of `ifwin` recurs on the rounds that its bounds leave.
pub mod Line
pub mod Win
pub mod Turn
mod Tests
use mycode_c.Base.{
  ℕ, zero, suc, ◌+◌, ◌-◌, ◌*◌, Bool, true, false, ◌&&◌, ◌||◌, Option, none, some, List, [], ◌∷◌,
  ◌==◌, leb, if◌then◌else◌,
}
use mycode_c.Base.Int.{ℤ, pos, negsuc}

abbrev pub Board : Type 0
Board = ℕ → ℕ

abbrev pub cell : Board → ℕ → ℕ → ℕ
cell qp i j = qp (i * 15 + j)

abbrev pub put : Board → ℕ → ℕ → ℕ → Board
put qp i j c k = if k == i * 15 + j then c else qp k

-- One row of the two inner loops of `init`, from column `j` on with `n` columns left.
pub init_row : ℕ → ℕ → ℕ → Board → Board
init_row zero i j qp = qp
init_row (suc n) i j qp = init_row n i (j + 1) (put qp i j b'+')

pub init_rows : ℕ → ℕ → Board → Board
unfolding init_row
init_rows zero i qp = qp
init_rows (suc n) i qp = init_rows n (i + 1) (init_row 15 i 0 qp)

-- The outer loop of `init` runs sixteen times over the whole board.
pub init_times : ℕ → Board → Board
unfolding init_rows
init_times zero qp = qp
init_times (suc n) qp = init_times n (init_rows 15 0 qp)

pub init : Board → Board
unfolding init_times
init qp = init_times 16 qp

-- What `main` passes by reference to `writein`.
pub record Game : Type 0 where
  pub qp : Board
  pub flag : ℕ
  pub count1 : ℕ
  pub count2 : ℕ

-- The row and the column of two coordinates, if both lie on the board.
pub index_of : ℤ → Option ℕ
index_of (pos zero) = none
index_of (pos (suc i)) = if leb i 14 then some i else none
index_of (negsuc n) = none

pub on_board : {A : Type 0} → (x y : ℤ) → (ℕ → ℕ → A) → Option A
unfolding index_of
on_board x y f = elim (index_of x) [
  | none ↦ none
  | some row ↦ elim (index_of y) [ none ↦ none | some col ↦ some (f row col) ]
]

pub writein_at : Game → (row col : ℕ) → Game
writein_at g row col =
    if g.flag == 1
    then record g { qp = put g.qp row col b'0'; flag = 2; count1 = g.count1 + 1 }
    else record g { qp = put g.qp row col b'X'; flag = 1; count2 = g.count2 + 1 }

pub writein : Game → (x y : ℤ) → Option Game
unfolding on_board writein_at
writein g x y = on_board x y (writein_at g)

-- What the user enters at a prompt: two numbers, or something else.
pub data Entry : Type 0 where
  pair : ℤ → ℤ → Entry
  other : Entry

-- What `iflegal` comes to: it waits for more entries, it reads outside the board, or it leaves two coordinates and the
-- entries that it has not read.
pub data Reading : Type 0 where
  waits outside : Reading
  legal : (x y : ℤ) → List Entry → Reading

pub iflegal : Board → List Entry → Reading
unfolding on_board
iflegal qp [] = waits
iflegal qp (other ∷ rest) = iflegal qp rest
iflegal qp (pair x y ∷ rest) =
    let again = iflegal qp rest in
    elim (on_board x y (λ row col. cell qp row col == b'+')) [
      | none ↦ outside
      | some free ↦ if free then legal x y rest else again
    ]

module _ (qp : Board) where
  -- no '+' in the `n` cells of row `i` from column `j` on
  pub row_full : ℕ → ℕ → ℕ → Bool
  row_full zero i j = true
  row_full (suc n) i j =
      let rest = row_full n i (j + 1) in if cell qp i j == b'+' then false else rest

  pub board_full : ℕ → ℕ → Bool
  unfolding row_full
  board_full zero i = true
  board_full (suc n) i = let rest = board_full n (i + 1) in if row_full 15 i 0 then rest else false

module _ (qp : Board) (player : ℕ) where
  -- `for(int i=col-1;i>=0&&qp[row][i]==current_player;i--) count++;` for i + 1 = `j`
  pub west : ℕ → ℕ → ℕ → ℕ
  west row zero count = count
  west row (suc j) count =
      let rest = west row j (count + 1) in if cell qp row j == player then rest else count

  -- `n` is 15 - i for the C loop's i = `j`
  pub east : ℕ → ℕ → ℕ → ℕ → ℕ
  east zero row j count = count
  east (suc n) row j count =
      let rest = east n row (j + 1) (count + 1) in if cell qp row j == player then rest else count

  pub north : ℕ → ℕ → ℕ → ℕ
  north zero col count = count
  north (suc i) col count =
      let rest = north i col (count + 1) in if cell qp i col == player then rest else count

  pub south : ℕ → ℕ → ℕ → ℕ → ℕ
  south zero i col count = count
  south (suc n) i col count =
      let rest = south n (i + 1) col (count + 1) in if cell qp i col == player then rest else count

  pub north_west : ℕ → ℕ → ℕ → ℕ
  north_west zero j count = count
  north_west (suc i) zero count = count
  north_west (suc i) (suc j) count =
      let rest = north_west i j (count + 1) in if cell qp i j == player then rest else count

  -- `m` is 15 - i and `n` is 15 - j
  pub south_east : ℕ → ℕ → ℕ → ℕ → ℕ → ℕ
  south_east zero n i j count = count
  south_east (suc m) zero i j count = count
  south_east (suc m) (suc n) i j count =
      let rest = south_east m n (i + 1) (j + 1) (count + 1) in
      if cell qp i j == player then rest else count

  pub north_east : ℕ → ℕ → ℕ → ℕ → ℕ
  north_east zero n j count = count
  north_east (suc i) zero j count = count
  north_east (suc i) (suc n) j count =
      let rest = north_east i n (j + 1) (count + 1) in if cell qp i j == player then rest else count

  pub south_west : ℕ → ℕ → ℕ → ℕ → ℕ
  south_west zero i j count = count
  south_west (suc m) i zero count = count
  south_west (suc m) i (suc j) count =
      let rest = south_west m (i + 1) j (count + 1) in if cell qp i j == player then rest else count

  -- the four values of `count` that are compared with 5
  pub row_count : ℕ → ℕ → ℕ
  unfolding west east
  row_count row col = east (14 - col) row (col + 1) (west row col 1)

  pub col_count : ℕ → ℕ → ℕ
  unfolding north south
  col_count row col = south (14 - row) (row + 1) col (north row col 1)

  pub main_count : ℕ → ℕ → ℕ
  unfolding north_west south_east
  main_count row col = south_east (14 - row) (14 - col) (row + 1) (col + 1) (north_west row col 1)

  pub anti_count : ℕ → ℕ → ℕ
  unfolding north_east south_west
  anti_count row col = south_west (14 - row) (row + 1) col (north_east row (14 - col) (col + 1) 1)

-- The value of the last four tests.
pub five : Board → ℕ → ℕ → ℕ → Bool
unfolding row_count col_count main_count anti_count
five qp player row col =
    leb 5 (row_count qp player row col)
    || (leb 5 (col_count qp player row col)
        || (leb 5 (main_count qp player row col) || leb 5 (anti_count qp player row col)))

-- The result, and what is written to `ifdraw`, if anything is.
pub ifwin_at : Board → (row col : ℕ) → Bool × Option Bool
unfolding five board_full
ifwin_at qp row col =
    let player = cell qp row col in
    if player == b'+'
    then (false, none)
    else (if board_full qp 15 0 then (true, some true) else (five qp player row col, none))

pub ifwin : Board → (x y : ℤ) → Option (Bool × Option Bool)
unfolding on_board ifwin_at
ifwin qp x y = on_board x y (ifwin_at qp)

pub data Outcome : Type 0 where
  draw player_one player_two : Outcome

-- What `main` prints after `ifwin` has returned true.
pub announce : Option Bool → ℕ → Outcome
announce (some true) flag = draw
announce (some false) flag = if flag == 1 then player_two else player_one
announce none flag = if flag == 1 then player_two else player_one

abbrev pub ended : Game → Bool × Option Bool → Game × Option Outcome
ended g (won, ifdraw) = (g, if won then some (announce ifdraw g.flag) else none)

-- One round of the loop of `main`; without an outcome the game goes on.
pub turn : Game → (x y : ℤ) → Option (Game × Option Outcome)
unfolding writein ifwin announce
turn g x y = elim (writein g x y) [
  | none ↦ none
  | some g' ↦ elim (ifwin g'.qp x y) [ none ↦ none | some r ↦ some (ended g' r) ]
]
