-- ===== src/Workers/System.antt =====
-- 高编项目/thread_pool.c: the pool with its threads as a step relation.
use mycode_c.Base.{ℕ, ◌+◌, ◌-◌, Bool, true, false, List, [], ◌∷◌, ◌++◌, ◌≡◌, ◌<◌, if◌then◌else◌}
use mycode_c.Base.Int.{ℤ, pos, eqb_ℤ}
use mycode_c.Workers.{Task, ThreadPool, Turn, waits, ends, runs, worker_turn, add_task, shut_down}

-- The pool, how many of its threads have not ended, how many of those wait for `notify`, whether
-- `threadpool_destroy` has come to join them and whether it has freed the pool; and what the clients and the
-- workers have seen: the tasks for which `threadpool_add` returned 0, and the tasks that a worker left with,
-- in order.
pub record System : Type 0 where
  pub pool : ThreadPool
  pub alive : ℕ
  pub asleep : ℕ
  pub joining : Bool
  pub freed : Bool
  pub accepted : List Task
  pub started : List Task

unfoldable pub initial : ThreadPool → System
initial p = record {
  pool = p;
  alive = p.thread_count;
  asleep = 0;
  joining = false;
  freed = false;
  accepted = [];
  started = [];
}

-- A call of `threadpool_add` that gets the lock, and whose signal is sent: it wakes one worker, if one waits.
abbrev pub after_add : Task → ℤ × ThreadPool → System → System
after_add t (err, p) s = record s {
  pool = p;
  accepted = s.accepted ++ (if eqb_ℤ err (pos 0) then t ∷ [] else []);
  asleep = if eqb_ℤ err (pos 0) then s.asleep - 1 else s.asleep;
}

unfoldable pub adding : Task → System → System
adding t s = after_add t (add_task true true s.pool t) s

-- A turn of a worker with the lock.
abbrev pub after_turn : Turn × ThreadPool → System → System
after_turn (waits, p) s = record s { pool = p; asleep = s.asleep + 1 }
after_turn (ends, p) s = record s { pool = p; alive = s.alive - 1 }
after_turn (runs t, p) s = record s { pool = p; started = s.started ++ t ∷ [] }

unfoldable pub turning : System → System
turning s = after_turn (worker_turn s.pool) s

-- A call of `threadpool_destroy` that gets the lock, up to the joins; the broadcast wakes all that wait.
abbrev pub after_shut : Bool × Bool × ThreadPool → System → System
after_shut (woken, goes_on, p) s = record s {
  pool = p;
  asleep = if woken then 0 else s.asleep;
  joining = if goes_on then true else s.joining;
}

unfoldable pub shutting : System → System
shutting s = after_shut (shut_down true true true s.pool) s

-- The clients call nothing on a pool that is freed; a worker takes a turn when one does not wait for
-- `notify`; where `spurious` holds, one that waits may also wake without a signal; the pool is freed
-- when all threads are joined, that is, have ended.
pub data Step (spurious : Bool) (s s' : System) : Type 0 where
  adds : (t : Task) → s.freed ≡ false → s' ≡ adding t s → Step spurious s s'
  turns : s.asleep < s.alive → s' ≡ turning s → Step spurious s s'
  wakes :
      spurious ≡ true → 0 < s.asleep → s' ≡ record s { asleep = s.asleep - 1 } → Step spurious s s'
  shuts : s.freed ≡ false → s' ≡ shutting s → Step spurious s s'
  frees : s.joining ≡ true → s.alive ≡ 0 → s' ≡ record s { freed = true } → Step spurious s s'

pub data Reach (spurious : Bool) (s : System) : System → Type 0 where
  here : Reach spurious s s
  next : {t u : System} → Reach spurious s t → Step spurious t u → Reach spurious s u
