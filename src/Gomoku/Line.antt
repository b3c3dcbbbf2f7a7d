-- ===== src/Gomoku/Line.antt =====
-- The eight loops of `ifwin` in gomoku/gomoku.c: each counts the cells of the player that follow one
-- another from the stone just set, in one direction.
use mycode_c.Base.{
  ℕ, zero, suc, ◌+◌, ◌-◌, ◌≤◌, ◌≡◌, ap₂, ◌∙◌, true, false, Bool-cases, ==_iff, inl, inr, arith,
  ◌==◌,
}
use mycode_c.Gomoku.{
  Board, cell, west, east, north, south, north_west, south_east, north_east, south_west,
}

-- A loop that started with `count` has passed the places `At 1`, `At 2`, … up to the first that fails.
pub record Run (At : ℕ → Type 0) (count out : ℕ) : Type 0 where
  pub steps : ℕ
  pub total : out ≡ count + steps
  pub passed : (k : ℕ) → 1 ≤ k → k ≤ steps → At k
  pub stops : ¬ At (suc steps)

Run-none : (At : ℕ → Type 0) (count : ℕ) → ¬ At 1 → Run At count count
Run-none At count h = record {
  steps = 0;
  total = omega arith;
  passed = λ k l u. absurd (omega arith);
  stops = h;
}

Run-more :
    (At Next : ℕ → Type 0) (count out : ℕ)
    → At 1
    → ((k : ℕ) → 1 ≤ k → Next k → At (suc k))
    → ((k : ℕ) → At (suc (suc k)) → Next (suc k))
    → Run Next (count + 1) out
    → Run At count out
Run-more At Next count out first to from r = record {
  steps = suc r.steps;
  total = omega (arith, r.total);
  passed = passed;
  stops = λ a. r.stops (from r.steps a);
}
  where
    passed : (k : ℕ) → 1 ≤ k → k ≤ suc r.steps → At k
    passed zero l u = absurd (omega arith)
    passed (suc zero) l u = first
    passed (suc (suc k)) l u =
        to (suc k) (omega arith) (r.passed (suc k) (omega arith) (omega arith))

module _ (qp : Board) (player : ℕ) where
  -- The cell (i, j) is the player's.
  abbrev pub Own : ℕ → ℕ → Type 0
  Own i j = cell qp i j ≡ player

  -- the same cell, by equal coordinates
  same_cell : (i j i' j' : ℕ) → Own i' j' → i ≡ i' → j ≡ j' → Own i j
  same_cell i j i' j' h e f = ap₂ (cell qp) e f ∙ h

  own : (i j : ℕ) → (cell qp i j == player) ≡ true → Own i j
  own i j e = (==_iff (cell qp i j) player).0 e

  not-Own : (i j : ℕ) → (cell qp i j == player) ≡ false → ¬ Own i j
  not-Own i j e h = ground arith

  pub west-Run :
      (row j count : ℕ) → Run (λ k. (k ≤ j) × Own row (j - k)) count (west qp player row j count)
  unfolding west
  west-Run row zero count = Run-none _ count (λ a. absurd (omega (arith, a.0)))
  west-Run row (suc j) count = elim (Bool-cases (cell qp row j == player)) [
    | inl e ↦ rw e (
        Run-more (λ k. (k ≤ suc j) × Own (row) (suc j - (k))) (λ k. (k ≤ j) × Own (row) (j - (k)))
          count _
          (
            omega arith,
            same_cell (row) (suc j - (1)) row j (own row j e) (omega arith) (omega arith),
          )
          (λ k l a. (
            omega (arith, a.0),
            same_cell (row) (suc j - (suc k)) (row) (j - (k)) a.1 (omega arith) (omega arith),
          ))
          (λ k a. (
            omega (arith, a.0),
            same_cell (row) (j - (suc k)) (row) (suc j - (suc (suc k))) a.1 (omega arith)
                (omega arith),
          ))
          (west-Run row j (count + 1)))
    | inr e ↦ rw e (
        Run-none _ count (λ a.
          not-Own row j e (same_cell row j (row) (suc j - (1)) a.1 (omega arith) (omega arith))))
  ]

  pub east-Run :
      (n row b count : ℕ)
      → Run (λ k. (k ≤ n) × Own row (b + k)) count (east qp player n row (b + 1) count)
  unfolding east
  east-Run zero row b count = Run-none _ count (λ a. absurd (omega (arith, a.0)))
  east-Run (suc n) row b count = elim (Bool-cases (cell qp row (b + 1) == player)) [
    | inl e ↦ rw e (
        Run-more (λ k. (k ≤ suc n) × Own (row) (b + (k))) (λ k. (k ≤ n) × Own (row) (b + 1 + (k)))
          count _
          (
            omega arith,
            same_cell (row) (b + (1)) row (b + 1) (own row (b + 1) e) (omega arith) (omega arith),
          )
          (λ k l a. (
            omega (arith, a.0),
            same_cell (row) (b + (suc k)) (row) (b + 1 + (k)) a.1 (omega arith) (omega arith),
          ))
          (λ k a. (
            omega (arith, a.0),
            same_cell (row) (b + 1 + (suc k)) (row) (b + (suc (suc k))) a.1 (omega arith)
                (omega arith),
          ))
          (east-Run n row (b + 1) (count + 1)))
    | inr e ↦ rw e (
        Run-none _ count (λ a.
          not-Own row (b + 1) e
            (same_cell row (b + 1) (row) (b + (1)) a.1 (omega arith) (omega arith))))
  ]

  pub north-Run :
      (i col count : ℕ) → Run (λ k. (k ≤ i) × Own (i - k) col) count (north qp player i col count)
  unfolding north
  north-Run zero col count = Run-none _ count (λ a. absurd (omega (arith, a.0)))
  north-Run (suc i) col count = elim (Bool-cases (cell qp i col == player)) [
    | inl e ↦ rw e (
        Run-more (λ k. (k ≤ suc i) × Own (suc i - (k)) (col)) (λ k. (k ≤ i) × Own (i - (k)) (col))
          count _
          (
            omega arith,
            same_cell (suc i - (1)) (col) i col (own i col e) (omega arith) (omega arith),
          )
          (λ k l a. (
            omega (arith, a.0),
            same_cell (suc i - (suc k)) (col) (i - (k)) (col) a.1 (omega arith) (omega arith),
          ))
          (λ k a. (
            omega (arith, a.0),
            same_cell (i - (suc k)) (col) (suc i - (suc (suc k))) (col) a.1 (omega arith)
                (omega arith),
          ))
          (north-Run i col (count + 1)))
    | inr e ↦ rw e (
        Run-none _ count (λ a.
          not-Own i col e (same_cell i col (suc i - (1)) (col) a.1 (omega arith) (omega arith))))
  ]

  pub south-Run :
      (n b col count : ℕ)
      → Run (λ k. (k ≤ n) × Own (b + k) col) count (south qp player n (b + 1) col count)
  unfolding south
  south-Run zero b col count = Run-none _ count (λ a. absurd (omega (arith, a.0)))
  south-Run (suc n) b col count = elim (Bool-cases (cell qp (b + 1) col == player)) [
    | inl e ↦ rw e (
        Run-more (λ k. (k ≤ suc n) × Own (b + (k)) (col)) (λ k. (k ≤ n) × Own (b + 1 + (k)) (col))
          count _
          (
            omega arith,
            same_cell (b + (1)) (col) (b + 1) col (own (b + 1) col e) (omega arith) (omega arith),
          )
          (λ k l a. (
            omega (arith, a.0),
            same_cell (b + (suc k)) (col) (b + 1 + (k)) (col) a.1 (omega arith) (omega arith),
          ))
          (λ k a. (
            omega (arith, a.0),
            same_cell (b + 1 + (suc k)) (col) (b + (suc (suc k))) (col) a.1 (omega arith)
                (omega arith),
          ))
          (south-Run n (b + 1) col (count + 1)))
    | inr e ↦ rw e (
        Run-none _ count (λ a.
          not-Own (b + 1) col e
            (same_cell (b + 1) col (b + (1)) (col) a.1 (omega arith) (omega arith))))
  ]

  pub north_west-Run :
      (i j count : ℕ)
      → Run (λ k. (k ≤ i) × (k ≤ j) × Own (i - k) (j - k)) count (north_west qp player i j count)
  unfolding north_west
  north_west-Run zero j count = Run-none _ count (λ a. absurd (omega (arith, a.0)))
  north_west-Run (suc i) zero count = Run-none _ count (λ a. absurd (omega (arith, a.1)))
  north_west-Run (suc i) (suc j) count = elim (Bool-cases (cell qp i j == player)) [
    | inl e ↦ rw e (
        Run-more (λ k. (k ≤ suc i) × (k ≤ suc j) × Own (suc i - (k)) (suc j - (k)))
          (λ k. (k ≤ i) × (k ≤ j) × Own (i - (k)) (j - (k))) count _
          (
            omega arith,
            omega arith,
            same_cell (suc i - (1)) (suc j - (1)) i j (own i j e) (omega arith) (omega arith),
          )
          (λ k l a. (
            omega (arith, a.0),
            omega (arith, a.1),
            same_cell (suc i - (suc k)) (suc j - (suc k)) (i - (k)) (j - (k)) a.2 (omega arith)
                (omega arith),
          ))
          (λ k a. (
            omega (arith, a.0),
            omega (arith, a.1),
            same_cell (i - (suc k)) (j - (suc k)) (suc i - (suc (suc k))) (suc j - (suc (suc k)))
                a.2 (omega arith) (omega arith),
          ))
          (north_west-Run i j (count + 1)))
    | inr e ↦ rw e (
        Run-none _ count (λ a.
          not-Own i j e
            (same_cell i j (suc i - (1)) (suc j - (1)) a.2 (omega arith) (omega arith))))
  ]

  pub south_east-Run :
      (m n b c count : ℕ)
      → Run
          (λ k. (k ≤ m) × (k ≤ n) × Own (b + k) (c + k))
          count
          (south_east qp player m n (b + 1) (c + 1) count)
  unfolding south_east
  south_east-Run zero n b c count = Run-none _ count (λ a. absurd (omega (arith, a.0)))
  south_east-Run (suc m) zero b c count = Run-none _ count (λ a. absurd (omega (arith, a.1)))
  south_east-Run (suc m) (suc n) b c count = elim (Bool-cases (cell qp (b + 1) (c + 1) == player)) [
    | inl e ↦ rw e (
        Run-more (λ k. (k ≤ suc m) × (k ≤ suc n) × Own (b + (k)) (c + (k)))
          (λ k. (k ≤ m) × (k ≤ n) × Own (b + 1 + (k)) (c + 1 + (k))) count _
          (
            omega arith,
            omega arith,
            same_cell (b + (1)) (c + (1)) (b + 1) (c + 1) (own (b + 1) (c + 1) e) (omega arith)
                (omega arith),
          )
          (λ k l a. (
            omega (arith, a.0),
            omega (arith, a.1),
            same_cell (b + (suc k)) (c + (suc k)) (b + 1 + (k)) (c + 1 + (k)) a.2 (omega arith)
                (omega arith),
          ))
          (λ k a. (
            omega (arith, a.0),
            omega (arith, a.1),
            same_cell (b + 1 + (suc k)) (c + 1 + (suc k)) (b + (suc (suc k))) (c + (suc (suc k)))
                a.2 (omega arith) (omega arith),
          ))
          (south_east-Run m n (b + 1) (c + 1) (count + 1)))
    | inr e ↦ rw e (
        Run-none _ count (λ a.
          not-Own (b + 1) (c + 1) e
            (same_cell (b + 1) (c + 1) (b + (1)) (c + (1)) a.2 (omega arith) (omega arith))))
  ]

  pub north_east-Run :
      (i n c count : ℕ)
      → Run
          (λ k. (k ≤ i) × (k ≤ n) × Own (i - k) (c + k))
          count
          (north_east qp player i n (c + 1) count)
  unfolding north_east
  north_east-Run zero n c count = Run-none _ count (λ a. absurd (omega (arith, a.0)))
  north_east-Run (suc i) zero c count = Run-none _ count (λ a. absurd (omega (arith, a.1)))
  north_east-Run (suc i) (suc n) c count = elim (Bool-cases (cell qp i (c + 1) == player)) [
    | inl e ↦ rw e (
        Run-more (λ k. (k ≤ suc i) × (k ≤ suc n) × Own (suc i - (k)) (c + (k)))
          (λ k. (k ≤ i) × (k ≤ n) × Own (i - (k)) (c + 1 + (k))) count _
          (
            omega arith,
            omega arith,
            same_cell (suc i - (1)) (c + (1)) i (c + 1) (own i (c + 1) e) (omega arith)
                (omega arith),
          )
          (λ k l a. (
            omega (arith, a.0),
            omega (arith, a.1),
            same_cell (suc i - (suc k)) (c + (suc k)) (i - (k)) (c + 1 + (k)) a.2 (omega arith)
                (omega arith),
          ))
          (λ k a. (
            omega (arith, a.0),
            omega (arith, a.1),
            same_cell (i - (suc k)) (c + 1 + (suc k)) (suc i - (suc (suc k))) (c + (suc (suc k)))
                a.2 (omega arith) (omega arith),
          ))
          (north_east-Run i n (c + 1) (count + 1)))
    | inr e ↦ rw e (
        Run-none _ count (λ a.
          not-Own i (c + 1) e
            (same_cell i (c + 1) (suc i - (1)) (c + (1)) a.2 (omega arith) (omega arith))))
  ]

  pub south_west-Run :
      (m b j count : ℕ)
      → Run
          (λ k. (k ≤ m) × (k ≤ j) × Own (b + k) (j - k))
          count
          (south_west qp player m (b + 1) j count)
  unfolding south_west
  south_west-Run zero b j count = Run-none _ count (λ a. absurd (omega (arith, a.0)))
  south_west-Run (suc m) b zero count = Run-none _ count (λ a. absurd (omega (arith, a.1)))
  south_west-Run (suc m) b (suc j) count = elim (Bool-cases (cell qp (b + 1) j == player)) [
    | inl e ↦ rw e (
        Run-more (λ k. (k ≤ suc m) × (k ≤ suc j) × Own (b + (k)) (suc j - (k)))
          (λ k. (k ≤ m) × (k ≤ j) × Own (b + 1 + (k)) (j - (k))) count _
          (
            omega arith,
            omega arith,
            same_cell (b + (1)) (suc j - (1)) (b + 1) j (own (b + 1) j e) (omega arith)
                (omega arith),
          )
          (λ k l a. (
            omega (arith, a.0),
            omega (arith, a.1),
            same_cell (b + (suc k)) (suc j - (suc k)) (b + 1 + (k)) (j - (k)) a.2 (omega arith)
                (omega arith),
          ))
          (λ k a. (
            omega (arith, a.0),
            omega (arith, a.1),
            same_cell (b + 1 + (suc k)) (j - (suc k)) (b + (suc (suc k))) (suc j - (suc (suc k)))
                a.2 (omega arith) (omega arith),
          ))
          (south_west-Run m (b + 1) j (count + 1)))
    | inr e ↦ rw e (
        Run-none _ count (λ a.
          not-Own (b + 1) j e
            (same_cell (b + 1) j (b + (1)) (suc j - (1)) a.2 (omega arith) (omega arith))))
  ]
