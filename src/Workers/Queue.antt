-- ===== src/Workers/Queue.antt =====
-- 高编项目/thread_pool.c: what the steps of the pool keep.
use mathlib.Core.List.{append_assoc}
use mycode_c.Base.{
  ◌+◌, ◌-◌, ℕ, ◌<◌, ◌≤◌, Bool, true, false, [], ◌∷◌, ◌++◌, ◌≡◌, refl, sym, ap, ◌∙◌, subst, arith,
  ◌==◌, if◌then◌else◌, get_or, Bool-cases, inl, inr, append-nil, ◌⊎◌,
}
use mycode_c.Base.Int.{pos, negsuc}
use mycode_c.Workers.{
  Task, no_task, ThreadPool, waits, ends, runs, worker_turn, add_task, put_task, shut_down,
}
use mycode_c.Workers.Ring.{
  IsWhole, queued, with_task, without_task, queued-with_task, with_task-IsWhole,
  queued-without_task, without_task-IsWhole,
}
use mycode_c.Workers.System.{
  System, adding, after_add, turning, after_turn, shutting, after_shut, Step, adds, turns, wakes,
  shuts, frees,
}

-- Every task that was accepted was begun, or is in the ring, in the order in which they were accepted; the threads are
-- all there until the pool is shut down; a pool that is freed has no thread left, and only one that is shut down
-- is joined. `size` is the capacity of the ring.
pub record IsServed (size : ℕ) (s : System) : Type 0 where
  pub sized : s.pool.queue_size ≡ size
  pub whole : IsWhole s.pool
  pub order : s.accepted ≡ s.started ++ queued s.pool
  pub manned : s.alive ≤ s.pool.thread_count
  pub full_crew : s.pool.shutdown ≡ false → s.alive ≡ s.pool.thread_count
  pub closing : s.joining ≡ true → s.pool.shutdown ≡ true
  pub left : s.freed ≡ true → (s.joining ≡ true) × (s.alive ≡ 0)

pub both_ways : {b : Bool} → b ≡ true → b ≡ false → ⊥
both_ways t f = ground (arith, t, f)

put-cases :
    (p : ThreadPool) (t : Task)
    → p.count ≤ p.queue_size
    → (put_task true p t ≡ (negsuc 0, p))
      ⊎ ((p.count < p.queue_size)
          × (p.shutdown ≡ false)
          × (put_task true p t ≡ (pos 0, with_task p t)))
unfolding put_task
put-cases p t b = elim (Bool-cases (p.count == p.queue_size)) [
  | inl full ↦ inl (rw full refl)
  | inr room ↦ elim (Bool-cases p.shutdown) [
    | inl down ↦ inl (rw room (rw down refl))
    | inr up ↦ inr (ground (arith, room), up, rw room (rw up refl))
  ]
]

pub add-cases :
    (p : ThreadPool) (t : Task)
    → p.count ≤ p.queue_size
    → (add_task true true p t ≡ (negsuc 0, p))
      ⊎ ((p.count < p.queue_size)
          × (p.shutdown ≡ false)
          × (add_task true true p t ≡ (pos 0, with_task p t)))
unfolding add_task
add-cases p t b = elim (Bool-cases (t.function == 0)) [
  | inl null ↦ inl (rw null refl)
  | inr there ↦
      subst
        (λ r.
          (r ≡ (negsuc 0, p))
          ⊎ ((p.count < p.queue_size) × (p.shutdown ≡ false) × (r ≡ (pos 0, with_task p t))))
        (sym (ap (λ z. if z then (negsuc 0, p) else put_task true p t) there)) (put-cases p t b)
]

module _ (size : ℕ) where
  pub adding-IsServed : (t : Task) (s : System) → IsServed size s → IsServed size (adding t s)
  unfolding adding
  adding-IsServed t s h = elim (add-cases s.pool t h.whole.bound) [
    | inl same ↦
        subst (λ r. IsServed size (after_add t r s)) (sym same)
          (record {
            sized = h.sized;
            whole = h.whole;
            order = append-nil s.accepted ∙ h.order;
            manned = h.manned;
            full_crew = h.full_crew;
            closing = h.closing;
            left = h.left;
          })
    | inr (room, up, put) ↦
        subst (λ r. IsServed size (after_add t r s)) (sym put)
          (record {
            sized = h.sized;
            whole = with_task-IsWhole s.pool h.whole t room;
            order =
                ap (λ xs. xs ++ t ∷ []) h.order
                ∙ append_assoc s.started (queued s.pool) (t ∷ [])
                ∙ ap (λ xs. s.started ++ xs) (sym (queued-with_task s.pool h.whole t room));
            manned = h.manned;
            full_crew = h.full_crew;
            closing = h.closing;
            left = h.left;
          })
  ]

-- The three turns of a worker.
pub turn-cases :
    (p : ThreadPool)
    → ((p.count ≡ 0) × (p.shutdown ≡ false) × (worker_turn p ≡ (waits, p)))
      ⊎ (((p.shutdown ≡ true) × (worker_turn p ≡ (ends, p)))
          ⊎ ((0 < p.count)
              × (p.shutdown ≡ false)
              × (worker_turn p ≡ (runs (get_or p.queue p.head no_task), without_task p))))
unfolding worker_turn
turn-cases p = elim (Bool-cases p.shutdown) [
  | inl down ↦ inr (
      inl (
        down,
        elim (Bool-cases (p.count == 0)) [
          | inl empty ↦ rw empty (rw down refl)
          | inr some' ↦ rw some' (rw down refl)
        ],
      ))
  | inr up ↦ elim (Bool-cases (p.count == 0)) [
    | inl empty ↦ inl (ground (arith, empty), up, rw empty (rw up refl))
    | inr some' ↦ inr (inr (ground (arith, some'), up, rw some' (rw up refl)))
  ]
]

module _ (size : ℕ) where
  -- How many workers wait does not matter.
  pub rested : (s : System) (n : ℕ) → IsServed size s → IsServed size (record s { asleep = n })
  rested s n h = record {
    sized = h.sized;
    whole = h.whole;
    order = h.order;
    manned = h.manned;
    full_crew = h.full_crew;
    closing = h.closing;
    left = h.left;
  }

  pub turning-IsServed :
      (s : System) → s.asleep < s.alive → IsServed size s → IsServed size (turning s)
  unfolding turning
  turning-IsServed s n h = elim (turn-cases s.pool) [
    | inl (z, up, e) ↦
        subst (λ r. IsServed size (after_turn r s)) (sym e) (rested s (s.asleep + 1) h)
    | inr (inl (down, e)) ↦
        subst (λ r. IsServed size (after_turn r s)) (sym e)
          (record {
            sized = h.sized;
            whole = h.whole;
            order = h.order;
            manned = omega (arith, h.manned);
            full_crew = λ up. absurd (both_ways down up);
            closing = h.closing;
            left = λ f. let l = h.left f in (l.0, omega (arith, l.1));
          })
    | inr (inr (some', up, e)) ↦
        subst (λ r. IsServed size (after_turn r s)) (sym e)
          (record {
            sized = h.sized;
            whole = without_task-IsWhole s.pool h.whole some';
            order =
                h.order
                ∙ ap (λ xs. s.started ++ xs) (queued-without_task s.pool h.whole some')
                ∙ sym (
                    append_assoc s.started (get_or s.pool.queue s.pool.head no_task ∷ [])
                      (queued (without_task s.pool)));
            manned = h.manned;
            full_crew = h.full_crew;
            closing = h.closing;
            left = h.left;
          })
  ]

pub shut-cases :
    (p : ThreadPool)
    → ((p.shutdown ≡ true) × (shut_down true true true p ≡ (false, false, p)))
      ⊎ ((p.shutdown ≡ false)
          × (shut_down true true true p ≡ (true, true, record p { shutdown = true })))
unfolding shut_down
shut-cases p = elim (Bool-cases p.shutdown) [
  | inl down ↦ inl (down, rw down refl)
  | inr up ↦ inr (up, rw up refl)
]

module _ (size : ℕ) where
  pub shutting-IsServed :
      (s : System) → IsServed size s → s.freed ≡ false → IsServed size (shutting s)
  unfolding shutting
  shutting-IsServed s h there = elim (shut-cases s.pool) [
    | inl (down, e) ↦ subst (λ r. IsServed size (after_shut r s)) (sym e) h
    | inr (up, e) ↦
        subst (λ r. IsServed size (after_shut r s)) (sym e)
          (record {
            sized = h.sized;
            whole = record {
              storage = h.whole.storage;
              head_in = h.whole.head_in;
              bound = h.whole.bound;
              tail_at = h.whole.tail_at;
            };
            order = h.order;
            manned = h.manned;
            full_crew = λ e'. absurd (both_ways refl e');
            closing = λ e'. refl;
            left = λ f. absurd (both_ways f there);
          })
  ]

module _ (size : ℕ) where
  pub Step-IsServed :
      {spurious : Bool} {s s' : System} → Step spurious s s' → IsServed size s → IsServed size s'
  Step-IsServed {s = s} (adds t there e) h =
      subst (IsServed size) (sym e) (adding-IsServed size t s h)
  Step-IsServed {s = s} (turns n e) h = subst (IsServed size) (sym e) (turning-IsServed size s n h)
  Step-IsServed {s = s} (wakes y n e) h =
      subst (IsServed size) (sym e) (rested size s (s.asleep - 1) h)
  Step-IsServed {s = s} (shuts there e) h =
      subst (IsServed size) (sym e) (shutting-IsServed size s h there)
  Step-IsServed {s = s} (frees j z e) h = subst (IsServed size) (sym e) (record {
    sized = h.sized;
    whole = h.whole;
    order = h.order;
    manned = h.manned;
    full_crew = h.full_crew;
    closing = h.closing;
    left = λ f. (j, z);
  })
