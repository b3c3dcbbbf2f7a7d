-- ===== src/Base/Table.antt =====
-- Facts about every number of a small range, by evaluation.
use mycode_c.Base.{ℕ, zero, suc, ◌<◌, ◌≡◌, Bool, true, false, arith, ◌==◌, ==_iff, if◌then◌else◌}

-- The test holds from 0 up to the bound.
unfoldable pub passes : (ℕ → Bool) → ℕ → Bool
passes test zero = true
passes test (suc bound) = if test bound then passes test bound else false

pub passes_at :
    (test : ℕ → Bool) (bound i : ℕ) → i < bound → passes test bound ≡ true → test i ≡ true
unfolding passes
passes_at test zero i lt ok = absurd (omega arith)
passes_at test (suc bound) i lt ok = ground (arith, passes_at test bound i)

-- Two functions that agree on a checked range.
pub table : (n : ℕ) (f g : ℕ → ℕ) (x : ℕ) → passes (λ k. f k == g k) n ≡ true → x < n → f x ≡ g x
table n f g x h lt = (==_iff (f x) (g x)).0 (passes_at (λ k. f k == g k) n x lt h)
