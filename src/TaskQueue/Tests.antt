-- ===== src/TaskQueue/Tests.antt =====
-- Runs of the queue of pthread_pool/queue.c, and the theorems at concrete queues.
use mycode_c.Base.{ℕ, ◌≡◌, refl, true, false, none, some, List, [], ◌∷◌}
use mycode_c.TaskQueue.Api.{ok, err, Op, put, get}
use mycode_c.TaskQueue.Fifo.{serve}
use mycode_c.TaskQueue.{no_queue, no_storage, queue_init, queue_en, queue_de, run, fresh}
use mycode_c.TaskQueue.Refine.{run-init}

abbrev script : List (Op ℕ)
script = put 1 ∷ put 2 ∷ put 3 ∷ get ∷ put 4 ∷ get ∷ get ∷ get ∷ []

init_failures :
    (queue_init {A = ℕ} 0 false true 2 ≡ no_queue)
    × (queue_init {A = ℕ} 0 true false 2 ≡ no_storage)
unfolding queue_init
init_failures = (refl, refl)

run-script :
    run 0 (fresh 0 2) script
    ≡ (ok, none)
      ∷ (ok, none)
      ∷ (err, none)
      ∷ (ok, some 1)
      ∷ (ok, none)
      ∷ (ok, some 2)
      ∷ (ok, some 4)
      ∷ (err, none)
      ∷ []
unfolding run queue_en queue_de
run-script = refl

run-init_example : run 0 (fresh 0 2) script ≡ serve 2 [] script
unfolding queue_init
run-init_example = run-init 0 2 (fresh 0 2) script refl
