-- ===== src/Workers/Runs.antt =====
-- 高编项目/thread_pool.c: runs of the pool from `threadpool_create` on.
use mycode_c.Base.{
  ℕ, zero, suc, ◌+◌, ◌<◌, ◌≤◌, Bool, true, false, ◌++◌, ◌≡◌, refl, subst, length, arith, ◌&&◌, ◌||◌,
  if◌then◌else◌, Bool-cases, inl, inr,
}
use mycode_c.Base.Int.{ℤ, pos, leb_ℤ, pos_part}
use mycode_c.Window.{length-window}
use mycode_c.Workers.{
  no_task, ThreadPool, Creation, nothing, abandoned, made, start_threads, threadpool_create,
  blank_pool,
}
use mycode_c.Workers.Ring.{queued, blank_pool-IsWhole}
use mycode_c.Workers.System.{System, initial, Reach, here, next}
use mycode_c.Workers.Queue.{IsServed, Step-IsServed, both_ways}

-- `P` of the pool, if one is made.
abbrev OnMade : (ThreadPool → Type 0) → Creation → Type 0
OnMade P nothing = Unit
OnMade P (abandoned p) = Unit
OnMade P (made p) = P p

OnMade-if :
    (P : ThreadPool → Type 0) (b : Bool) (c d : Creation)
    → OnMade P c
    → OnMade P d
    → OnMade P (if b then c else d)
OnMade-if P true c d x y = x
OnMade-if P false c d x y = y

start_threads-OnMade :
    (P : ThreadPool → Type 0) (started : ℕ → Bool) (left i : ℕ) (p : ThreadPool)
    → ((n : ℕ) → P (record p { thread_count = n }))
    → OnMade P (start_threads started left i p)
unfolding start_threads
start_threads-OnMade P started zero i p f = f p.thread_count
start_threads-OnMade P started (suc left) i p f =
    let p' : ThreadPool = record p { thread_count = p.thread_count + 1 } in
    OnMade-if P (started i) (start_threads started left (i + 1) p') (abandoned p)
      (start_threads-OnMade P started left (i + 1) p' f) tt

initial-IsServed :
    (size n : ℕ)
    → 0 < size
    → IsServed size (initial (record (blank_pool size) { thread_count = n }))
unfolding initial
initial-IsServed size n some' =
    let w = blank_pool-IsWhole size some' in
    record {
      sized = refl;
      whole = record {
        storage = w.storage;
        head_in = w.head_in;
        bound = w.bound;
        tail_at = w.tail_at;
      };
      order = refl;
      manned = omega arith;
      full_crew = λ e. refl;
      closing = λ e. absurd (both_ways e refl);
      left = λ e. absurd (both_ways e refl);
    }

create-OnMade :
    (got mutex cond threads queue : Bool) (started : ℕ → Bool) (count size : ℤ)
    → OnMade
        (λ p. IsServed (pos_part size) (initial p))
        (threadpool_create got mutex cond threads queue started count size)
unfolding threadpool_create
create-OnMade got mutex cond threads queue started count size =
    let P : ThreadPool → Type 0 = λ p. IsServed (pos_part size) (initial p) in
    elim (Bool-cases (leb_ℤ count (pos 0) || leb_ℤ size (pos 0))) [
      | inl bad ↦ rw bad tt
      | inr good ↦ rw good (
          OnMade-if P got _ nothing
            (OnMade-if P (mutex && cond && threads && queue) _
              (abandoned (blank_pool (pos_part size)))
              (start_threads-OnMade P started (pos_part count) 0 (blank_pool (pos_part size))
                (λ n. initial-IsServed (pos_part size) n (ground (arith, good))))
              tt)
            tt)
    ]

Reach-IsServed :
    (size : ℕ) {spurious : Bool} {s u : System}
    → Reach spurious s u
    → IsServed size s
    → IsServed size u
Reach-IsServed size here h = h
Reach-IsServed size (next r st) h = Step-IsServed size st (Reach-IsServed size r h)

-- In whatever order the clients and the workers take their turns, and though workers wake without a signal,
-- from a pool that `threadpool_create` made on: the tasks for which `threadpool_add` returned 0 are those
-- that a worker left with and then those in the ring, in the same order; these are at most as many as the
-- size asked for; and when the pool is freed, no thread is left.
pub run-Served :
    (got mutex cond threads queue : Bool) (started : ℕ → Bool) (count size : ℤ) (p : ThreadPool)
    (s : System)
    → threadpool_create got mutex cond threads queue started count size ≡ made p
    → Reach true (initial p) s
    → (s.accepted ≡ s.started ++ queued s.pool)
      × (length (queued s.pool) ≤ pos_part size)
      × (s.freed ≡ true → s.alive ≡ 0)
run-Served got mutex cond threads queue started count size p s e r =
    let P : ThreadPool → Type 0 = λ q. IsServed (pos_part size) (initial q) in
    let h =
      Reach-IsServed (pos_part size) r
        (subst (OnMade P) e (create-OnMade got mutex cond threads queue started count size)) in
    (
      h.order,
      omega (
        arith,
        h.sized,
        h.whole.bound,
        length-window no_task s.pool.queue s.pool.queue_size s.pool.head s.pool.count,
      ),
      λ f. (h.left f).1,
    )
