-- ===== src/Workers/Ends.antt =====
-- 高编项目/thread_pool.c: what follows a call of `threadpool_destroy`.
use mycode_c.Base.{
  ℕ, zero, suc, ◌-◌, ◌≤◌, Bool, true, false, ◌≡◌, refl, sym, ap, ◌∙◌, subst, append-nil, arith,
  ◌==◌, Bool-cases, inl, inr,
}
use mycode_c.Base.Int.{negsuc}
use mycode_c.Workers.{Task, ThreadPool, add_task, put_task, shut_down}
use mycode_c.Workers.Ring.{queued}
use mycode_c.Workers.System.{
  System, adding, after_add, turning, after_turn, shutting, after_shut, Step, adds, turns, wakes,
  shuts, frees, Reach, here, next,
}
use mycode_c.Workers.Queue.{turn-cases, shut-cases, both_ways}

-- What `threadpool_destroy` leaves when it goes on to the joins.
shutting_up :
    (s : System)
    → s.pool.shutdown ≡ false
    → shutting s ≡ record s { pool = record s.pool { shutdown = true }; asleep = 0; joining = true }
unfolding shutting
shutting_up s up = elim (shut-cases s.pool) [
  | inl (down, e) ↦ absurd (both_ways down up)
  | inr (u, e) ↦ ap (λ r. after_shut r s) e
]

turning_down : (s : System) → s.pool.shutdown ≡ true → turning s ≡ record s { alive = s.alive - 1 }
unfolding turning
turning_down s down = elim (turn-cases s.pool) [
  | inl (z, up, e) ↦ absurd (both_ways down up)
  | inr (inl (d, e)) ↦ ap (λ r. after_turn r s) e
  | inr (inr (n, up, e)) ↦ absurd (both_ways down up)
]

refused : (p : ThreadPool) (t : Task) → p.shutdown ≡ true → add_task true true p t ≡ (negsuc 0, p)
unfolding add_task put_task
refused p t down = elim (Bool-cases (t.function == 0)) [
  | inl null ↦ rw null refl
  | inr there ↦ rw there (elim (Bool-cases (p.count == p.queue_size)) [
    | inl full ↦ rw full refl
    | inr room ↦ rw room (rw down refl)
  ])
]

shutting_down : (s : System) → s.pool.shutdown ≡ true → shutting s ≡ s
unfolding shutting
shutting_down s down = elim (shut-cases s.pool) [
  | inl (d, e) ↦ ap (λ r. after_shut r s) e
  | inr (up, e) ↦ absurd (both_ways down up)
]

adding_down : (t : Task) (s : System) → s.pool.shutdown ≡ true → adding t s ≡ s
unfolding adding
adding_down t s down =
    ap (λ r. after_add t r s) (refused s.pool t down)
    ∙ ap (λ xs. record s { accepted = xs }) (append-nil s.accepted)

Frozen : System → System → Type 0
Frozen s u = (u.pool ≡ s.pool) × (u.accepted ≡ s.accepted) × (u.started ≡ s.started)

Step-Frozen :
    {spurious : Bool} {s u : System} → Step spurious s u → s.pool.shutdown ≡ true → Frozen s u
unfolding Frozen
Step-Frozen {s = s} (adds t there e) d =
    subst (Frozen s) (sym (e ∙ adding_down t s d)) (refl, refl, refl)
Step-Frozen {s = s} (turns n e) d = subst (Frozen s) (sym (e ∙ turning_down s d)) (refl, refl, refl)
Step-Frozen {s = s} (wakes y n e) d = subst (Frozen s) (sym e) (refl, refl, refl)
Step-Frozen {s = s} (shuts there e) d =
    subst (Frozen s) (sym (e ∙ shutting_down s d)) (refl, refl, refl)
Step-Frozen {s = s} (frees j z e) d = subst (Frozen s) (sym e) (refl, refl, refl)

Reach-Frozen :
    {spurious : Bool} {s u : System} → Reach spurious s u → s.pool.shutdown ≡ true → Frozen s u
unfolding Frozen
Reach-Frozen here d = (refl, refl, refl)
Reach-Frozen (next r st) d =
    let f = Reach-Frozen r d in
    let g = Step-Frozen st (ap (λ p. p.shutdown) f.0 ∙ d) in (g.0 ∙ f.0, g.1 ∙ f.1, g.2 ∙ f.2)

-- Once `threadpool_destroy` has shut the pool down, whatever the clients and the workers do: no task is accepted, no
-- worker leaves with one, and the tasks that were in the ring stay there.
pub shutting-Frozen :
    (s u : System)
    → s.pool.shutdown ≡ false
    → Reach true (shutting s) u
    → (queued u.pool ≡ queued s.pool) × (u.accepted ≡ s.accepted) × (u.started ≡ s.started)
unfolding Frozen
shutting-Frozen s u up r =
    let f = Reach-Frozen (subst (λ x. Reach true x u) (shutting_up s up) r) refl in
    (ap queued f.0, f.1, f.2)

ending :
    (s : System) (k : ℕ)
    → s.pool.shutdown ≡ true
    → s.asleep ≡ 0
    → k ≤ s.alive
    → Reach false s (record s { alive = s.alive - k })
ending s zero d a h =
    let e : s.alive ≡ s.alive - 0 = omega arith in
    subst (λ n. Reach false s (record s { alive = n })) e here
ending s (suc k) d a h =
    let e : s.alive - k - 1 ≡ s.alive - suc k = omega arith in
    next (ending s k d a (omega (arith, h))) (
      turns (omega (arith, h, a)) (
        sym
          (turning_down (record s { alive = s.alive - k }) d ∙ ap (λ n. record s { alive = n }) e)))

-- When `threadpool_destroy` has shut the pool down, its joins can end, also when all workers waited and none
-- wakes without a signal: by turns of the threads that are left the run comes to where the pool is freed.
-- When the broadcast fails, it does not come to the joins.
pub shutting-Freed :
    (s : System)
    → s.pool.shutdown ≡ false
    → Reach false (shutting s) (record (shutting s) { alive = 0; freed = true })
      × ((unlocked : Bool) → (shut_down true false unlocked s.pool).1 ≡ false)
unfolding shut_down
shutting-Freed s up =
    let u : System = record s {
      pool = record s.pool { shutdown = true };
      asleep = 0;
      joining = true;
    } in
    let z : u.alive - u.alive ≡ 0 = omega arith in
    let gone : Reach false u (record u { alive = 0 }) =
      subst (λ n. Reach false u (record u { alive = n })) z
        (ending u u.alive refl refl (omega arith)) in
    (
      subst (λ x. Reach false x (record x { alive = 0; freed = true })) (sym (shutting_up s up))
          (next gone (frees refl refl refl)),
      λ unlocked. rw up refl,
    )
