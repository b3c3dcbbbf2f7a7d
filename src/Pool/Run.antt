-- ===== src/Pool/Run.antt =====
-- pthread_pool/pool.c: runs of the pool from `pool_init` on.
use mycode_c.Base.{
  ℕ, zero, suc, ◌≤◌, ◌≡◌, refl, ap, arith, Bool, true, Option, none, List, [], ◌∷◌, get_elem?,
  replicate, length-replicate,
}
use mycode_c.Base.Int.{pos}
use mycode_c.Pool.{
  Phase, gone, Thread, Pool, create, pool_init, Event, work, admin, add, destroy, step, steps,
}
use mycode_c.Pool.Count.{is_running, is_alive, count}
use mycode_c.Pool.Sound.{IsSound, worker_job-IsSound}
use mycode_c.Pool.Admin.{admin_job-IsSound, pool_add_task-IsSound, pool_destroy-IsSound}

module _ {ℓ} (A : Type ℓ) where
  abbrev unused : ℕ → List (Option (Thread A))
  unused n = replicate n none

  abbrev no_thread : Option (Thread A)
  no_thread = none

  count-unused : (test : Phase → Bool) (n : ℕ) → count test (unused n) ≡ 0
  unfolding count
  count-unused test zero = refl
  count-unused test (suc n) = omega (arith, count-unused test n)

  pool_init-IsSound : (blank : A) (capacity : ℕ) → 3 ≤ capacity → IsSound (pool_init blank capacity)
  unfolding pool_init create count
  pool_init-IsSound blank zero h = absurd (omega arith)
  pool_init-IsSound blank (suc zero) h = absurd (omega arith)
  pool_init-IsSound blank (suc (suc zero)) h = absurd (omega arith)
  pool_init-IsSound blank (suc (suc (suc n))) h = record {
    busy = ap pos (omega (arith, count-unused is_running n));
    live = λ s. ap pos (omega (arith, count-unused is_alive n));
    slots = ap pos (omega (arith, length-replicate n (no_thread)));
    bound = omega arith;
  }

  module _ (blank : A) (esrch : Thread A → Bool)
      (ended : (w : Thread A) → esrch w ≡ true → w.phase ≡ gone) where
    step-IsSound : (p : Pool A) (ev : Event A) → IsSound p → IsSound (step blank esrch p ev)
    unfolding step
    step-IsSound p (work i) h = worker_job-IsSound blank p i (get_elem? p.workers i) refl h
    step-IsSound p admin h = admin_job-IsSound esrch ended p h
    step-IsSound p (add t) h = pool_add_task-IsSound p t h
    step-IsSound p destroy h = pool_destroy-IsSound p h

    steps_keep : (p : Pool A) (evs : List (Event A)) → IsSound p → IsSound (steps blank esrch p evs)
    unfolding steps
    steps_keep p [] h = h
    steps_keep p (ev ∷ evs) h = steps_keep (step blank esrch p ev) evs (step-IsSound p ev h)

    -- In whatever order the workers, the admin thread and the clients make their steps, from a pool of
    -- at least three slots on: `busy_threads` is the number of workers at work, `live_threads` is at most
    -- `max_threads` and, until the pool is shut down, the number of workers that have not ended. Here
    -- pthread_kill answers ESRCH only of a worker that has ended.
    pub steps-IsSound :
        (capacity : ℕ) (evs : List (Event A))
        → 3 ≤ capacity
        → IsSound (steps blank esrch (pool_init blank capacity) evs)
    steps-IsSound capacity evs h =
        steps_keep (pool_init blank capacity) evs (pool_init-IsSound blank capacity h)
