-- ===== src/Workers.antt =====
-- The thread pool of the gateway, 高编项目/thread_pool.c: a ring of tasks with `head`, `tail` and `count`. A task is a
-- function, 0 for NULL, and its argument. The calls of pthread and of `malloc` succeed or fail by arguments; a
-- function that runs with the lock held is one step. The lock, the condition and the thread ids are left out.
pub mod Ring
pub mod System
pub mod Queue
pub mod Runs
pub mod Ends
mod Tests
use mycode_c.Base.{
  ℕ, zero, suc, ◌+◌, ◌-◌, ◌%◌, Bool, true, false, not, ◌&&◌, ◌||◌, Option, none, some, List, [],
  ◌∷◌, ◌==◌, if◌then◌else◌, get_or, set, replicate,
}
use mycode_c.Base.Int.{ℤ, pos, negsuc, leb_ℤ, pos_part}

-- `threadpool_task_t`
pub record Task : Type 0 where
  pub function : ℕ
  pub argument : ℕ

abbrev pub no_task : Task
no_task = record { function = 0; argument = 0 }

-- `threadpool_t`
pub record ThreadPool : Type 0 where
  pub queue : List Task
  pub thread_count : ℕ
  pub queue_size : ℕ
  pub head : ℕ
  pub tail : ℕ
  pub count : ℕ
  pub shutdown : Bool

-- What a worker does that has the lock: it waits for `notify`, ends, or leaves with a task.
pub data Turn : Type 0 where
  waits : Turn
  ends : Turn
  runs : Task → Turn

-- The body of `threadpool_worker` from the lock to the unlock.
unfoldable pub worker_turn : ThreadPool → Turn × ThreadPool
worker_turn p =
    if (p.count == 0) && not p.shutdown
    then (waits, p)
    else (if p.shutdown then (ends, p) else (
      runs (get_or p.queue p.head no_task),
      record p { head = (p.head + 1) % p.queue_size; count = p.count - 1 },
    ))

-- `threadpool_add` with the lock held.
unfoldable pub put_task : (signalled : Bool) → ThreadPool → Task → ℤ × ThreadPool
put_task signalled p t =
    if p.count == p.queue_size
    then (negsuc 0, p)
    else (if p.shutdown then (negsuc 0, p) else (
      if signalled then pos 0 else negsuc 0,
      record p {
        queue = set p.queue p.tail t;
        tail = (p.tail + 1) % p.queue_size;
        count = p.count + 1;
      },
    ))

-- `threadpool_add` of a pool that is there, and of any.
unfoldable pub add_task : (locked signalled : Bool) → ThreadPool → Task → ℤ × ThreadPool
unfolding put_task
add_task locked signalled p t =
    if t.function == 0
    then (negsuc 0, p)
    else (if locked then put_task signalled p t else (negsuc 0, p))

pub threadpool_add : (locked signalled : Bool) → Option ThreadPool → Task → ℤ × Option ThreadPool
unfolding add_task
threadpool_add locked signalled none t = (negsuc 0, none)
threadpool_add locked signalled (some p) t =
    let (err, p') = add_task locked signalled p t in (err, some p')

-- `threadpool_destroy` until the threads are joined: whether it has woken the workers that wait, and whether
-- it goes on to the joins.
unfoldable pub shut_down :
    (locked broadcast unlocked : Bool) → ThreadPool → Bool × Bool × ThreadPool
shut_down locked broadcast unlocked p =
    if locked
    then (if p.shutdown
        then (false, false, p)
        else (broadcast, broadcast && unlocked, record p { shutdown = true }))
    else (false, false, p)

-- What `threadpool_create` ends with: nothing, a pool that it has handed to `threadpool_destroy`, or a pool.
pub data Creation : Type 0 where
  nothing : Creation
  abandoned : ThreadPool → Creation
  made : ThreadPool → Creation

-- The loop that starts the threads, `left` of them from the number `i` on; `started` says which calls of
-- `pthread_create` succeed.
unfoldable pub start_threads : (started : ℕ → Bool) → (left i : ℕ) → ThreadPool → Creation
start_threads started zero i p = made p
start_threads started (suc left) i p =
    let rest =
      start_threads started left (i + 1) (record p { thread_count = p.thread_count + 1 }) in
    if started i then rest else abandoned p

-- The pool before its threads are started.
abbrev pub blank_pool : (queue_size : ℕ) → ThreadPool
blank_pool queue_size = record {
  queue = replicate queue_size no_task;
  thread_count = 0;
  queue_size = queue_size;
  head = 0;
  tail = 0;
  count = 0;
  shutdown = false;
}

unfoldable pub threadpool_create :
    (got_pool mutex_made cond_made got_threads got_queue : Bool)
    → (started : ℕ → Bool) → (thread_count queue_size : ℤ) → Creation
unfolding start_threads
threadpool_create got_pool mutex_made cond_made got_threads got_queue started thread_count size =
    if leb_ℤ thread_count (pos 0) || leb_ℤ size (pos 0)
    then nothing
    else (if got_pool
        then (if mutex_made && cond_made && got_threads && got_queue
            then start_threads started (pos_part thread_count) 0 (blank_pool (pos_part size))
            else abandoned (blank_pool (pos_part size)))
        else nothing)
