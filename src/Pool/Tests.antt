-- ===== src/Pool/Tests.antt =====
-- A run of the pool of pthread_pool/pool.c.
use mycode_c.Base.{ℕ, ◌≡◌, refl, Bool, true, false, Option, some, List, [], ◌∷◌, arith}
use mycode_c.Pool.{
  Phase, gone, idle, waiting, taken, running, Thread, pool_init, Event, work, admin, add, destroy,
  steps,
}
use mycode_c.Pool.Sound.{IsSound}
use mycode_c.Pool.Run.{steps-IsSound}

abbrev is_gone : Phase → Bool
is_gone gone = true
is_gone _ = false

abbrev ended_thread : Thread ℕ → Bool
ended_thread w = is_gone w.phase

ended_thread_gone : (w : Thread ℕ) → ended_thread w ≡ true → w.phase ≡ gone
ended_thread_gone w e = by_phase w.phase e
  where
    by_phase : (ph : Phase) → is_gone ph ≡ true → ph ≡ gone
    by_phase gone e = refl
    by_phase idle e = absurd (ground arith)
    by_phase waiting e = absurd (ground arith)
    by_phase taken e = absurd (ground arith)
    by_phase running e = absurd (ground arith)

abbrev some_events : List (Event ℕ)
some_events =
    work 0
    ∷ add 7
    ∷ work 0
    ∷ work 0
    ∷ add 8
    ∷ work 1
    ∷ work 1
    ∷ admin
    ∷ work 0
    ∷ destroy
    ∷ work 2
    ∷ []

steps-IsSound_example : IsSound (steps 0 ended_thread (pool_init 0 4) some_events)
steps-IsSound_example = steps-IsSound ℕ 0 ended_thread ended_thread_gone 4 some_events (omega arith)

abbrev prompt_events : List (Event ℕ)
prompt_events = work 0 ∷ add 7 ∷ add 8 ∷ work 0 ∷ work 0 ∷ []

abbrev phase_of : Option (Option (Thread ℕ)) → Phase
phase_of (some (some w)) = w.phase
phase_of _ = gone
