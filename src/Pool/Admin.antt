-- ===== src/Pool/Admin.antt =====
-- pthread_pool/pool.c: the admin thread and the clients keep the counters.
use mycode_c.Base.{
  ℕ, zero, suc, ◌≡◌, refl, ap, sym, ◌∙◌, arith, Bool, true, false, ◌&&◌, some, set, length-set,
  if_elim, inl, inr, Option-cases,
}
use mycode_c.Base.Int.{pos, ltb_ℤ, eqb_ℤ, ◌+ℤ◌}
use mycode_c.TaskQueue.{queue_is_full}
use mycode_c.Pool.{
  gone, Thread, Pool, new_thread, set_thread, get_free_pos, grow, shrink, admin_job, pool_add_task,
  pool_destroy, step_nr,
}
use mycode_c.Pool.Count.{
  is_running, is_alive, count, count-le, count-set, IsFree, get_free_pos-IsFree,
}
use mycode_c.Pool.Sound.{IsSound, pos_inc, bound_of}

module _ {ℓ} {A : Type ℓ} where
  shrink-IsSound : (p : Pool A) → IsSound p → IsSound (shrink p)
  unfolding shrink
  shrink-IsSound p h =
      if_elim IsSound _ _ _
        (λ x. record { busy = h.busy; live = h.live; slots = h.slots; bound = h.bound }) (λ x. h)

  shutdown-shrink : (p : Pool A) → (shrink p).shutdown ≡ p.shutdown
  unfolding shrink
  shutdown-shrink p =
      if_elim (λ (q : Pool A). q.shutdown ≡ p.shutdown) _ _ _ (λ x. refl) (λ x. refl)

  pub pool_add_task-IsSound : (p : Pool A) (t : A) → IsSound p → IsSound (pool_add_task p t)
  unfolding pool_add_task
  pool_add_task-IsSound p t h =
      if_elim IsSound (queue_is_full p.task_queue) _ _ (λ x. h)
        (λ x. record { busy = h.busy; live = h.live; slots = h.slots; bound = h.bound })

  pub pool_destroy-IsSound : (p : Pool A) → IsSound p → IsSound (pool_destroy p)
  unfolding pool_destroy
  pool_destroy-IsSound p h = record {
    busy = h.busy;
    live = λ s. absurd (ground arith);
    slots = h.slots;
    bound = h.bound;
  }

  module _ (esrch : Thread A → Bool)
      (ended : (w : Thread A) → esrch w ≡ true → w.phase ≡ gone) where
    -- A new worker takes a slot that no live one holds.
    one_more :
        (p : Pool A) (i : ℕ)
        → p.shutdown ≡ false
        → IsFree p.workers i
        → IsSound p
        → IsSound (record (set_thread p i new_thread) { live_threads = p.live_threads +ℤ pos 1 })
    one_more p i s f h =
        let slots' = set p.workers i (some new_thread) in
        let now =
          pos_inc p.live_threads (count is_alive p.workers) (count is_alive slots') (h.live s) (
            omega (
              arith,
              count-set is_alive p.workers i f.old (some new_thread) f.there,
              f.no_alive,
            )) in
        let sized = h.slots ∙ ap pos (sym (length-set p.workers i (some new_thread))) in
        record {
          busy =
              h.busy
              ∙ ap pos (
                  omega (
                    arith,
                    count-set is_running p.workers i f.old (some new_thread) f.there,
                    f.no_running,
                  ));
          live = λ n. now;
          slots = sized;
          bound = bound_of _ _ _ _ now sized (count-le is_alive slots');
        }

    grow-IsSound : (k : ℕ) (p : Pool A) → p.shutdown ≡ false → IsSound p → IsSound (grow esrch k p)
    unfolding grow
    grow-IsSound zero p s h = h
    grow-IsSound (suc k) p s h = elim (Option-cases (get_free_pos esrch p.workers)) [
      | inl e ↦ rw (e, grow) h
      | inr (i, e) ↦
          rw (e, grow)
            (grow-IsSound k _ s (one_more p i s (get_free_pos-IsFree esrch ended p.workers i e) h))
    ]

    pub admin_job-IsSound : (p : Pool A) → IsSound p → IsSound (admin_job esrch p)
    unfolding admin_job
    admin_job-IsSound p h =
        if_elim IsSound p.shutdown _ _ (λ s. h)
          (λ s.
            if_elim IsSound
              (eqb_ℤ p.busy_threads p.live_threads && ltb_ℤ p.live_threads p.max_threads) _ _
              (λ x. grow-IsSound step_nr (shrink p) (shutdown-shrink p ∙ s) (shrink-IsSound p h))
              (λ x. shrink-IsSound p h))
