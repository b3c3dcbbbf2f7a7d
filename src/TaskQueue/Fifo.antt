-- ===== src/TaskQueue/Fifo.antt =====
-- A first-in first-out queue of at most `bound` items, oldest first.
use mycode_c.Base.{ℕ, Option, none, some, List, [], ◌∷◌, ◌++◌, ◌==◌, if◌then◌else◌, length}
use mycode_c.TaskQueue.Api.{Status, ok, err, Op, put, get, Reply}

module _ {ℓ} {A : Type ℓ} where
  unfoldable pub dequeue : List A → Status × Option A × List A
  dequeue [] = (err, none, [])
  dequeue (x ∷ xs) = (ok, some x, xs)

module _ {ℓ} {A : Type ℓ} (bound : ℕ) where
  unfoldable pub enqueue : List A → A → Status × List A
  enqueue xs x = if length xs == bound then (err, xs) else (ok, xs ++ (x ∷ []))

  unfoldable pub serve : List A → List (Op A) → List (Reply A)
  serve xs [] = []
  serve xs (put x ∷ ops) = let (st, xs') = enqueue xs x in (st, none) ∷ serve xs' ops
  serve xs (get ∷ ops) = let (st, out, xs') = dequeue xs in (st, out) ∷ serve xs' ops
