-- ===== src/Workers/Tests.antt =====
-- Runs of the gateway's thread pool with two threads and two places, and the applications of the theorems to them.
use mycode_c.Base.{Bool, false, true, [], ◌∷◌, ◌++◌, ◌≡◌, refl, ◌≤◌, length, arith}
use mycode_c.Base.Int.{pos}
use mycode_c.Workers.{
  Task, ThreadPool, blank_pool, add_task, put_task, worker_turn, shut_down, threadpool_create,
  start_threads,
}
use mycode_c.Workers.Ring.{queued}
use mycode_c.Workers.System.{
  System, initial, adding, turning, shutting, Reach, here, next, adds, turns,
}
use mycode_c.Workers.Runs.{run-Served}
use mycode_c.Workers.Ends.{shutting-Frozen, shutting-Freed}

abbrev two_threads : ThreadPool
two_threads = record (blank_pool 2) { thread_count = 2 }

abbrev first : Task
first = record { function = 9; argument = 1 }

abbrev second : Task
second = record { function = 9; argument = 2 }

abbrev both_added : System
both_added = adding second (adding first (initial two_threads))

-- Both workers wait for a task.
abbrev both_waiting : System
both_waiting = turning (turning (initial two_threads))

one_taken : (turning both_added).started ≡ first ∷ []
unfolding turning adding initial add_task put_task worker_turn
one_taken = refl

run-Served_example :
    ((turning both_added).accepted
      ≡ (turning both_added).started ++ queued (turning both_added).pool)
    × (length (queued (turning both_added).pool) ≤ 2)
    × ((turning both_added).freed ≡ true → (turning both_added).alive ≡ 0)
unfolding initial adding add_task put_task threadpool_create start_threads
run-Served_example =
    run-Served true true true true true (λ i. true) (pos 2) (pos 2) two_threads (turning both_added)
      refl
      (next (next (next here (adds first refl refl)) (adds second refl refl))
        (turns (ground arith) refl))

shutting-Frozen_example :
    (queued (turning (shutting both_added)).pool ≡ queued both_added.pool)
    × ((turning (shutting both_added)).accepted ≡ both_added.accepted)
    × ((turning (shutting both_added)).started ≡ both_added.started)
unfolding initial adding add_task put_task shutting shut_down
shutting-Frozen_example =
    shutting-Frozen both_added (turning (shutting both_added)) refl
      (next here (turns (ground arith) refl))

shutting-Freed_example :
    Reach false (shutting both_waiting) (record (shutting both_waiting) { alive = 0; freed = true })
    × ((unlocked : Bool) → (shut_down true false unlocked both_waiting.pool).1 ≡ false)
unfolding initial turning worker_turn
shutting-Freed_example = shutting-Freed both_waiting refl
