-- ===== src/Pool/Sound.antt =====
-- pthread_pool/pool.c: the counters of the pool against its workers.
use mycode_c.Base.{
  ℕ, ◌+◌, ◌≤◌, ◌≡◌, refl, ap, sym, ◌∙◌, arith, Bool, true, false, Option, none, some, get_elem?,
  set, length, length-set, if◌then◌else◌, if_elim,
}
use mycode_c.Base.Int.{ℤ, pos, ltb_ℤ, ◌+ℤ◌, ◌-ℤ◌, ◌≤ℤ◌}
use mycode_c.TaskQueue.{Queue, queue_is_empty, queue_de}
use mycode_c.Pool.{
  Phase, idle, waiting, taken, running, gone, Thread, Pool, set_thread, received, worker_take,
  worker_at, worker_job,
}
use mycode_c.Pool.Count.{is_running, is_alive, holds, count, count-set}

pub pos_inc : (z : ℤ) (n m : ℕ) → z ≡ pos n → m ≡ n + 1 → z +ℤ pos 1 ≡ pos m
unfolding ◌+ℤ◌
pos_inc z n m e h = ground arith

pos_dec : (z : ℤ) (n m : ℕ) → z ≡ pos n → n ≡ m + 1 → z -ℤ pos 1 ≡ pos m
unfolding ◌-ℤ◌
pos_dec z n m e h = ground arith

dec_le : (z m : ℤ) → z ≤ℤ m → z -ℤ pos 1 ≤ℤ m
unfolding ◌-ℤ◌
dec_le z m h = ground arith

pub bound_of : (z m : ℤ) (n k : ℕ) → z ≡ pos n → m ≡ pos k → n ≤ k → z ≤ℤ m
bound_of z m n k e f h = ground arith

-- The counters say how many workers are at work and, until the pool is shut down, how many are alive.
pub record IsSound {ℓ} {A : Type ℓ} (p : Pool A) : Type ℓ where
  pub busy : p.busy_threads ≡ pos (count is_running p.workers)
  pub live : p.shutdown ≡ false → p.live_threads ≡ pos (count is_alive p.workers)
  pub slots : p.max_threads ≡ pos (length p.workers)
  pub bound : p.live_threads ≤ℤ p.max_threads

module _ {ℓ} {A : Type ℓ} where
  -- How the counts change where the worker of slot `i` changes its phase.
  module _ (p : Pool A) (h : IsSound p) (i : ℕ) (w : Thread A)
      (e : get_elem? p.workers i ≡ some (some w)) where
    moved :
        (test : Phase → Bool) (b b' : Bool) (w' : Thread A)
        → test w.phase ≡ b
        → test w'.phase ≡ b'
        → count test (set p.workers i (some w')) + (if b then 1 else 0)
          ≡ count test p.workers + (if b' then 1 else 0)
    moved test b b' w' t t' =
        let old : holds test (some w) ≡ (if b then 1 else 0) = ap (λ c. if c then 1 else 0) t in
        let new : holds test (some w') ≡ (if b' then 1 else 0) = ap (λ c. if c then 1 else 0) t' in
        omega (arith, count-set test p.workers i (some w) (some w') e)

    same_slots : (o : Option (Thread A)) → p.max_threads ≡ pos (length (set p.workers i o))
    same_slots o = h.slots ∙ ap pos (sym (length-set p.workers i o))

    -- A move that neither starts nor ends a job nor a worker.
    quiet :
        (w' : Thread A) (q : Queue A)
        → (b c : Bool) → is_running w.phase ≡ b
        → is_running w'.phase ≡ b
        → is_alive w.phase ≡ c
        → is_alive w'.phase ≡ c
        → IsSound (record (set_thread p i w') { task_queue = q })
    quiet w' q b c r r' a a' = record {
      busy = h.busy ∙ ap pos (omega (arith, moved is_running b b w' r r'));
      live = λ s. h.live s ∙ ap pos (omega (arith, moved is_alive c c w' a a'));
      slots = same_slots (some w');
      bound = h.bound;
    }

    -- A worker that ends for a shutdown is not subtracted, so `live_threads` is not exact from there on.
    shut :
        p.shutdown ≡ true
        → is_running w.phase ≡ false
        → IsSound (set_thread p i (record w { phase = gone }))
    shut s r = record {
      busy =
          h.busy
          ∙ ap pos (omega (arith, moved is_running false false (record w { phase = gone }) r refl));
      live = λ n. absurd (ground arith);
      slots = same_slots _;
      bound = h.bound;
    }

    leave :
        (exit : ℤ)
        → p.shutdown ≡ false
        → is_running w.phase ≡ false
        → is_alive w.phase ≡ true
        → IsSound (record (set_thread p i (record w { phase = gone })) {
          exit_threads = exit;
          live_threads = p.live_threads -ℤ pos 1;
        })
    leave exit s r a =
        let now : p.live_threads -ℤ pos 1
            ≡ pos (count is_alive (set p.workers i (some (record w { phase = gone })))) =
          pos_dec p.live_threads _ _ (h.live s)
            (omega (arith, moved is_alive true false (record w { phase = gone }) a refl)) in
        record {
          busy =
              h.busy
              ∙ ap pos
                  (omega (arith, moved is_running false false (record w { phase = gone }) r refl));
          live = λ n. now;
          slots = same_slots _;
          bound = dec_le p.live_threads p.max_threads h.bound;
        }

    worker_take-IsSound :
        (blank : A)
        → is_running w.phase ≡ false
        → is_alive w.phase ≡ true
        → IsSound (worker_take blank p i w)
    unfolding worker_take
    worker_take-IsSound blank r a =
        if_elim IsSound p.shutdown _ _ (λ s. shut s r)
          (λ s.
            if_elim IsSound (ltb_ℤ (pos 0) p.exit_threads) _ _ (λ x. leave _ s r a)
              (λ x.
                quiet
                  (record {
                    phase = taken;
                    mytask = received w.mytask (queue_de blank p.task_queue).1;
                  })
                  (queue_de blank p.task_queue).2 false true r refl a refl))

    start_work :
        w.phase ≡ taken
        → IsSound (record (set_thread p i (record w { phase = running })) {
          busy_threads = p.busy_threads +ℤ pos 1;
        })
    start_work ph = record {
      busy = pos_inc p.busy_threads _ _ h.busy (
          omega (
            arith,
            moved is_running false true (record w { phase = running }) (ap is_running ph) refl,
          ));
      live = λ s.
          h.live s
          ∙ ap pos (
              omega (
                arith,
                moved is_alive true true (record w { phase = running }) (ap is_alive ph) refl,
              ));
      slots = same_slots _;
      bound = h.bound;
    }

    end_work :
        w.phase ≡ running
        → IsSound (record (set_thread p i (record w { phase = idle })) {
          busy_threads = p.busy_threads -ℤ pos 1;
        })
    end_work ph = record {
      busy = pos_dec p.busy_threads _ _ h.busy (
          omega (
            arith,
            moved is_running true false (record w { phase = idle }) (ap is_running ph) refl,
          ));
      live = λ s.
          h.live s
          ∙ ap pos (
              omega (
                arith,
                moved is_alive true true (record w { phase = idle }) (ap is_alive ph) refl,
              ));
      slots = same_slots _;
      bound = h.bound;
    }

    worker_at-IsSound : (blank : A) (ph : Phase) → w.phase ≡ ph → IsSound (worker_at blank p i w ph)
    unfolding worker_at
    worker_at-IsSound blank idle e' =
        if_elim IsSound (queue_is_empty p.task_queue) _ _
          (λ x.
            quiet (record w { phase = waiting }) p.task_queue false true (ap is_running e') refl
              (ap is_alive e') refl)
          (λ x. worker_take-IsSound blank (ap is_running e') (ap is_alive e'))
    worker_at-IsSound blank waiting e' =
        worker_take-IsSound blank (ap is_running e') (ap is_alive e')
    worker_at-IsSound blank taken e' = start_work e'
    worker_at-IsSound blank running e' = end_work e'
    worker_at-IsSound blank gone e' = h

  pub worker_job-IsSound :
      (blank : A) (p : Pool A) (i : ℕ) (o : Option (Option (Thread A)))
      → get_elem? p.workers i ≡ o
      → IsSound p
      → IsSound (worker_job blank p i o)
  unfolding worker_job
  worker_job-IsSound blank p i none e h = h
  worker_job-IsSound blank p i (some none) e h = h
  worker_job-IsSound blank p i (some (some w)) e h = worker_at-IsSound p h i w e blank w.phase refl
