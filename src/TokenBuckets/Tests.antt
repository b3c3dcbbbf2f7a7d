-- ===== src/TokenBuckets/Tests.antt =====
-- Runs of the token buckets of apue/pthread/11tbf_thread/tbf.c.
use mycode_c.Base.{
  ◌≡◌, refl, true, none, some, [], ◌∷◌, replicate, length-replicate, arith, Option, List,
}
use mycode_c.Base.Int.{ℤ, pos, ◌≤ℤ◌}
use mycode_c.TokenBuckets.{
  Bucket, tbfmax, Library, start, thr_fun, tbf_init, tbf_fetch_token, fetch_op, return_op, tick_op,
  Op,
}
use mycode_c.TokenBuckets.Slots.{IsFull, Opened, tbf_init-Opened}
use mycode_c.TokenBuckets.Purse.{IsValid, Moved}
use mycode_c.TokenBuckets.Rate.{steps, paid_all, earned_all, steps-Moved, fetch-thr_fun}

-- The library after one `tbf_init` with rate 3 and capacity 10.
abbrev some_bucket : Bucket
some_bucket = record { token = pos 0; cps = pos 3; burst = pos 10 }

abbrev opened_lib : Library
opened_lib = record { tbf_libs = some some_bucket ∷ replicate 1023 none; initd = true }

abbrev no_bucket : Option Bucket
no_bucket = none

start-IsFull : IsFull start
start-IsFull = length-replicate tbfmax no_bucket

opened_lib-IsFull : IsFull opened_lib
opened_lib-IsFull = omega (arith, length-replicate 1023 no_bucket)

some_bucket-IsValid : IsValid some_bucket
some_bucket-IsValid = record {
  low = omega arith;
  high = omega arith;
  rate = omega arith;
  size = omega arith;
  roomy = omega arith;
}

tbf_init-Opened_example : Opened true (pos 3) (pos 10) start (tbf_init true (pos 3) (pos 10) start)
tbf_init-Opened_example = tbf_init-Opened true (pos 3) (pos 10) start start-IsFull

abbrev some_ops : List Op
some_ops = tick_op ∷ fetch_op (pos 0) (pos 2) ∷ return_op (pos 0) (pos 1) ∷ []

steps-Moved_example :
    Moved 0 some_bucket
      (paid_all 0 opened_lib some_ops)
      (earned_all 0 (pos 3) some_ops)
      (steps opened_lib some_ops)
steps-Moved_example =
    steps-Moved 0 (omega arith) some_bucket opened_lib some_ops opened_lib-IsFull refl
      some_bucket-IsValid (tt, (tt, ((λ e. omega arith), tt)))

fetch-thr_fun_example :
    (k : ℤ) × ((tbf_fetch_token (pos 0) (pos 5) (thr_fun opened_lib)).0 ≡ some k)
    × (pos 1 ≤ℤ k)
    × (k ≤ℤ pos 5)
fetch-thr_fun_example =
    fetch-thr_fun 0 (omega arith) some_bucket opened_lib (pos 5) refl some_bucket-IsValid
      (omega arith)
