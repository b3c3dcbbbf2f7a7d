-- ===== src/Alarms.antt =====
-- The scheduler of 高编项目/alarm_scheduler.c: a table of periodic tasks that a signal counts down each
-- second. A job is the function with its argument; what the handler hands to `threadpool_add` is
-- returned as a list, in that order. The intervals fit an `int`, and no sum of the file overflows.
pub mod Period
mod Tests
use mycode_c.Base.{
  ℕ, zero, suc, ◌+◌, Bool, true, false, ◌&&◌, not, Option, none, some, List, [], ◌∷◌, get_elem?,
  set, replicate, if◌then◌else◌,
}
use mycode_c.Base.Int.{ℤ, pos, negsuc, leb_ℤ, ◌-ℤ◌}

-- `alarm_task_t`
pub record AlarmTask (J : Type 0) : Type 0 where
  pub in_use : Bool
  pub interval : ℤ
  pub ticks_left : ℤ
  pub job : Option J

abbrev pub max_alarm_tasks : ℕ
max_alarm_tasks = 16

module _ {J : Type 0} where
  abbrev pub free_task : AlarmTask J
  free_task = record { in_use = false; interval = pos 0; ticks_left = pos 0; job = none }

  -- The table after `alarm_scheduler_init` or `alarm_scheduler_destroy`.
  abbrev pub cleared : List (AlarmTask J)
  cleared = replicate max_alarm_tasks free_task

  pub due : AlarmTask J → Bool
  due t = t.in_use && leb_ℤ (t.ticks_left -ℤ pos 1) (pos 0)

  -- The body of the loop of `handle_sigalrm`.
  pub tick : AlarmTask J → AlarmTask J
  unfolding due
  tick t =
      if due t
      then record t { ticks_left = t.interval }
      else (if t.in_use then record t { ticks_left = t.ticks_left -ℤ pos 1 } else t)

  -- `pool` is that `g_threadpool` is not NULL.
  pub handle_sigalrm : (pool : Bool) → List (AlarmTask J) → List (Option J) × List (AlarmTask J)
  unfolding tick
  handle_sigalrm pool [] = ([], [])
  handle_sigalrm pool (t ∷ tasks) =
      let (jobs, rest) = handle_sigalrm pool tasks in
      (if due t then (if pool then t.job ∷ jobs else jobs) else jobs, tick t ∷ rest)

  -- The loop of `alarm_scheduler_add_task` from slot `i` on.
  pub add_from : ℕ → List (AlarmTask J) → ℤ → J → ℤ × List (AlarmTask J)
  add_from i [] n j = (negsuc 0, [])
  add_from i (t ∷ tasks) n j =
      let (id, rest) = add_from (i + 1) tasks n j in
      if t.in_use
      then (id, t ∷ rest)
      else (pos i, record { in_use = true; interval = n; ticks_left = n; job = some j } ∷ tasks)

  -- `none` is a function that is NULL.
  pub alarm_scheduler_add_task : List (AlarmTask J) → ℤ → Option J → ℤ × List (AlarmTask J)
  unfolding add_from
  alarm_scheduler_add_task tasks n none = (negsuc 0, tasks)
  alarm_scheduler_add_task tasks n (some j) =
      if leb_ℤ n (pos 0) then (negsuc 0, tasks) else add_from 0 tasks n j
