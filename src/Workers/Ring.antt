-- ===== src/Workers/Ring.antt =====
-- 高编项目/thread_pool.c: the ring of tasks.
use native.Mathlib.Nat.{mod-add-mod, mod-lt, mod-eq_of_lt}
use mycode_c.Base.{
  ℕ, suc, ◌+◌, ◌-◌, ◌%◌, ◌<◌, ◌≤◌, List, [], ◌∷◌, ◌++◌, ◌≡◌, sym, ap, ◌∙◌, length, length-set,
  length-replicate, arith, get_or, set,
}
use mycode_c.Window.{window, window-set, window_of_pos}
use mycode_c.Workers.{Task, no_task, ThreadPool, blank_pool}

pub record IsWhole (p : ThreadPool) : Type 0 where
  pub storage : length p.queue ≡ p.queue_size
  pub head_in : p.head < p.queue_size
  pub bound : p.count ≤ p.queue_size
  pub tail_at : p.tail ≡ (p.head + p.count) % p.queue_size

-- The tasks in the ring, oldest first.
abbrev pub queued : ThreadPool → List Task
queued p = window no_task p.queue p.queue_size p.head p.count

-- The pool after a task was put into the ring or taken out of it.
abbrev pub with_task : ThreadPool → Task → ThreadPool
with_task p t = record p {
  queue = set p.queue p.tail t;
  tail = (p.tail + 1) % p.queue_size;
  count = p.count + 1;
}

abbrev pub without_task : ThreadPool → ThreadPool
without_task p = record p { head = (p.head + 1) % p.queue_size; count = p.count - 1 }

module _ (p : ThreadPool) (w : IsWhole p) where
  pub queued-with_task :
      (t : Task) → p.count < p.queue_size → queued (with_task p t) ≡ queued p ++ t ∷ []
  queued-with_task t room =
      let e : p.count + 1 ≡ suc p.count = omega arith in
      ap (λ n. window no_task (set p.queue p.tail t) p.queue_size p.head n) e
      ∙ window-set no_task p.queue p.queue_size t p.count p.head p.tail (omega (arith, w.storage))
          w.head_in room w.tail_at

  pub with_task-IsWhole : (t : Task) → p.count < p.queue_size → IsWhole (with_task p t)
  with_task-IsWhole t room =
      let e : p.head + p.count + 1 ≡ p.head + (p.count + 1) = omega arith in
      record {
        storage = length-set p.queue p.tail t ∙ w.storage;
        head_in = w.head_in;
        bound = omega (arith, room);
        tail_at =
            ap (λ k. (k + 1) % p.queue_size) w.tail_at
            ∙ mod-add-mod (p.head + p.count) p.queue_size 1
            ∙ ap (λ k. k % p.queue_size) e;
      }

  pub queued-without_task :
      0 < p.count → queued p ≡ get_or p.queue p.head no_task ∷ queued (without_task p)
  queued-without_task some' = window_of_pos no_task p.queue p.queue_size p.head p.count some'

  pub without_task-IsWhole : 0 < p.count → IsWhole (without_task p)
  without_task-IsWhole some' =
      let e : p.head + p.count ≡ p.head + 1 + (p.count - 1) = omega (arith, some') in
      record {
        storage = w.storage;
        head_in = mod-lt _ (omega (arith, w.head_in));
        bound = omega (arith, w.bound);
        tail_at =
            w.tail_at
            ∙ ap (λ k. k % p.queue_size) e
            ∙ sym (mod-add-mod (p.head + 1) p.queue_size (p.count - 1));
      }

pub blank_pool-IsWhole : (size : ℕ) → 0 < size → IsWhole (blank_pool size)
blank_pool-IsWhole size some' = record {
  storage = length-replicate size no_task;
  head_in = some';
  bound = omega arith;
  tail_at = sym (mod-eq_of_lt {n = 0 + 0} {m = size} some');
}
