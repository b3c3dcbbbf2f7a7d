-- ===== src/Pool.antt =====
-- The thread pool of pthread_pool/pool.c over the queue of TaskQueue. A step is what one thread does
-- between two locks; the order of the steps is free. A round of the admin thread is one step: what
-- other threads do to `busy_threads` meanwhile, under its own lock, counts as before or after it. A
-- waiting worker may be woken at any time, as pthread_cond_wait allows. A task is one value, the job
-- with its argument. `esrch` says whether pthread_kill answers ESRCH of a thread. The counters stay
-- small, so an `int` is an integer here.
pub mod Count
pub mod Sound
pub mod Admin
pub mod Run
pub mod Handed
pub mod Tasks
mod Tests
use mycode_c.Base.{
  ℕ, zero, suc, ◌+◌, Bool, true, false, ◌&&◌, Option, none, some, List, [], ◌∷◌, get_elem?, set,
  replicate, if◌then◌else◌,
}
use mycode_c.Base.Int.{ℤ, pos, negsuc, ltb_ℤ, leb_ℤ, eqb_ℤ, ◌+ℤ◌, ◌-ℤ◌}
use mycode_c.TaskQueue.{Queue, fresh, queue_is_empty, queue_is_full, queue_en, queue_de}

-- Where a worker is in the loop of `worker_job`: before it locks the pool, in pthread_cond_wait,
-- between taking a task and counting itself busy, at work, or ended.
pub data Phase : Type 0 where
  idle : Phase
  waiting : Phase
  taken : Phase
  running : Phase
  gone : Phase

-- A worker thread; `mytask` is its local variable, `none` before the first assignment.
pub record Thread {ℓ} (A : Type ℓ) : Type ℓ where
  pub phase : Phase
  pub mytask : Option A

-- `pool_t`; a worker of `none` is a slot that holds -1.
pub record Pool {ℓ} (A : Type ℓ) : Type ℓ where
  pub workers : List (Option (Thread A))
  pub task_queue : Queue A
  pub max_threads : ℤ
  pub busy_threads : ℤ
  pub live_threads : ℤ
  pub exit_threads : ℤ
  pub shutdown : Bool

abbrev pub maxjob : ℕ
maxjob = 10

abbrev pub min_free_nr : ℤ
min_free_nr = pos 3

abbrev pub max_free_nr : ℤ
max_free_nr = pos 5

abbrev pub step_nr : ℕ
step_nr = 2

module _ {ℓ} {A : Type ℓ} where
  abbrev pub new_thread : Thread A
  new_thread = record { phase = idle; mytask = none }

  abbrev pub set_thread : Pool A → ℕ → Thread A → Pool A
  set_thread p i w = record p { workers = set p.workers i (some w) }

  -- The first `k` rounds of the loop that creates the first workers.
  pub create : (k : ℕ) → List (Option (Thread A)) → List (Option (Thread A))
  create zero slots = slots
  create (suc k) slots = set (create k slots) k (some new_thread)

  -- Where every allocation and every thread creation succeeds.
  pub pool_init : (blank : A) (capacity : ℕ) → Pool A
  unfolding create
  pool_init blank capacity = record {
    workers = create 3 (replicate capacity none);
    task_queue = fresh blank maxjob;
    max_threads = pos capacity;
    busy_threads = pos 0;
    live_threads = min_free_nr;
    exit_threads = pos 0;
    shutdown = false;
  }

  -- What `queue_de` leaves in `mytask`, which it does not write where the queue is empty.
  pub received : Option A → Option A → Option A
  received old none = old
  received old (some t) = some t

  -- The critical section of `worker_job` after the queue was found not to be empty or the wait ended.
  pub worker_take : (blank : A) → Pool A → ℕ → Thread A → Pool A
  unfolding received
  worker_take blank p i w =
      if p.shutdown
      then set_thread p i (record w { phase = gone })
      else (if ltb_ℤ (pos 0) p.exit_threads
          then record (set_thread p i (record w { phase = gone })) {
            exit_threads = p.exit_threads -ℤ pos 1;
            live_threads = p.live_threads -ℤ pos 1;
          }
          else (let (st, out, q) = queue_de blank p.task_queue in
              record (set_thread p i (record { phase = taken; mytask = received w.mytask out })) {
                task_queue = q;
              }))

  pub worker_at : (blank : A) → Pool A → ℕ → Thread A → Phase → Pool A
  unfolding worker_take
  worker_at blank p i w idle =
      if queue_is_empty p.task_queue
      then set_thread p i (record w { phase = waiting })
      else worker_take blank p i w
  worker_at blank p i w waiting = worker_take blank p i w
  worker_at blank p i w taken = record (set_thread p i (record w { phase = running })) {
    busy_threads = p.busy_threads +ℤ pos 1;
  }
  worker_at blank p i w running = record (set_thread p i (record w { phase = idle })) {
    busy_threads = p.busy_threads -ℤ pos 1;
  }
  worker_at blank p i w gone = p

  -- One step of the worker in slot `i`.
  pub worker_job : (blank : A) → Pool A → ℕ → Option (Option (Thread A)) → Pool A
  unfolding worker_at
  worker_job blank p i none = p
  worker_job blank p i (some none) = p
  worker_job blank p i (some (some w)) = worker_at blank p i w w.phase

  -- The two loops of `__get_free_pos`, from slot `i` on.
  pub unused_from : ℕ → List (Option (Thread A)) → Option ℕ
  unused_from i [] = none
  unused_from i (none ∷ slots) = some i
  unused_from i (some w ∷ slots) = unused_from (i + 1) slots

  pub ended_from : (esrch : Thread A → Bool) → ℕ → List (Option (Thread A)) → Option ℕ
  ended_from esrch i [] = none
  ended_from esrch i (none ∷ slots) = ended_from esrch (i + 1) slots
  ended_from esrch i (some w ∷ slots) = if esrch w then some i else ended_from esrch (i + 1) slots

  pub get_free_pos : (esrch : Thread A → Bool) → List (Option (Thread A)) → Option ℕ
  unfolding unused_from ended_from
  get_free_pos esrch slots = elim (unused_from 0 slots) [
    | some i ↦ some i
    | none ↦ ended_from esrch 0 slots
  ]

  -- The loop of `admin_job` that adds `k` workers.
  pub grow : (esrch : Thread A → Bool) → (k : ℕ) → Pool A → Pool A
  unfolding get_free_pos
  grow esrch zero p = p
  grow esrch (suc k) p = elim (get_free_pos esrch p.workers) [
    | none ↦ p
    | some i ↦
        grow esrch k (record (set_thread p i new_thread) { live_threads = p.live_threads +ℤ pos 1 })
  ]

  pub shrink : Pool A → Pool A
  shrink p =
      if leb_ℤ (max_free_nr +ℤ pos step_nr) (p.live_threads -ℤ p.busy_threads)
      then record p { exit_threads = pos step_nr }
      else p

  -- One round of `admin_job`.
  pub admin_job : (esrch : Thread A → Bool) → Pool A → Pool A
  unfolding shrink grow
  admin_job esrch p =
      if p.shutdown
      then p
      else (if eqb_ℤ p.busy_threads p.live_threads && ltb_ℤ p.live_threads p.max_threads
          then grow esrch step_nr (shrink p)
          else shrink p)

  -- A client that finds the queue full waits: its step changes nothing.
  pub pool_add_task : Pool A → A → Pool A
  pool_add_task p t =
      if queue_is_full p.task_queue
      then p
      else record p { task_queue = (queue_en p.task_queue t).1 }

  -- The first part of `pool_destroy`, before it frees the pool.
  pub pool_destroy : Pool A → Pool A
  pool_destroy p = record p { shutdown = true }

pub data Event {ℓ} (A : Type ℓ) : Type ℓ where
  work : (i : ℕ) → Event A
  admin : Event A
  add : A → Event A
  destroy : Event A

-- One thread's step, and a run of steps.
module _ {ℓ} {A : Type ℓ} (blank : A) (esrch : Thread A → Bool) where
  pub step : Pool A → Event A → Pool A
  unfolding worker_job admin_job pool_add_task pool_destroy
  step p (work i) = worker_job blank p i (get_elem? p.workers i)
  step p admin = admin_job esrch p
  step p (add t) = pool_add_task p t
  step p destroy = pool_destroy p

  pub steps : Pool A → List (Event A) → Pool A
  unfolding step
  steps p [] = p
  steps p (ev ∷ evs) = steps (step p ev) evs
