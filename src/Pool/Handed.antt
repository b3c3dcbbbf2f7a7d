-- ===== src/Pool/Handed.antt =====
-- pthread_pool/pool.c: what the workers are handed.
use mycode_c.Base.{
  ℕ, zero, suc, ◌≡◌, refl, ap, sym, subst, ◌∙◌, arith, Bool, false, Option, none, some, List, [],
  ◌∷◌, ◌++◌, append-nil, get_elem?, set, if◌then◌else◌, if_elim,
}
use mycode_c.Base.Int.{pos, ltb_ℤ}
use mycode_c.TaskQueue.{queue_is_empty, queue_is_full, queue_de}
use mycode_c.TaskQueue.Inv.{IsValid, queue_de-IsValid}
use mycode_c.TaskQueue.Refine.{contents, queue_de_head}
use mycode_c.Pool.{
  Phase, idle, waiting, taken, running, gone, Thread, Pool, set_thread, received, worker_take,
  worker_at, worker_job, Event, work, add, step,
}

get_elem?-set-some {ℓ} :
    {B : Type ℓ} (xs : List B) (i : ℕ) (a b : B)
    → get_elem? xs i ≡ some a
    → get_elem? (set xs i b) i ≡ some b
get_elem?-set-some [] i a b e = absurd (ground arith)
get_elem?-set-some (x ∷ xs) zero a b e = refl
get_elem?-set-some (x ∷ xs) (suc i) a b e = get_elem?-set-some xs i a b e

module _ {A : Type 0} where
  abbrev listed : Option A → List A
  listed none = []
  listed (some t) = t ∷ []

  abbrev picked : Phase → Option A → List A
  picked taken t = listed t
  picked _ t = []

  -- The task that a worker in such a phase has with its step taken for execution.
  abbrev pick : Phase → Thread A → List A
  pick idle w' = picked w'.phase w'.mytask
  pick waiting w' = picked w'.phase w'.mytask
  pick _ w' = []

  abbrev took : Option (Option (Thread A)) → Option (Option (Thread A)) → List A
  took (some (some w)) (some (some w')) = pick w.phase w'
  took _ _ = []

module _ {A : Type 0} (blank : A) (esrch : Thread A → Bool) where
  -- What the workers were handed, and what the queue accepted from the clients, in a step and in a run.
  abbrev pub handed : Pool A → Event A → List A
  handed p (work i) =
      took (get_elem? p.workers i) (get_elem? (step blank esrch p (work i)).workers i)
  handed p ev = []

  abbrev pub accepted : Pool A → Event A → List A
  accepted p (add t) = if queue_is_full p.task_queue then [] else t ∷ []
  accepted p ev = []

  unfoldable pub handed_all : Pool A → List (Event A) → List A
  handed_all p [] = []
  handed_all p (ev ∷ evs) = handed p ev ++ handed_all (step blank esrch p ev) evs

  unfoldable pub accepted_all : Pool A → List (Event A) → List A
  accepted_all p [] = []
  accepted_all p (ev ∷ evs) = accepted p ev ++ accepted_all (step blank esrch p ev) evs

  -- A waiting worker that is not to end is woken only while the queue holds a task.
  abbrev pub Prompt : Pool A → Event A → Type 0
  Prompt p (work i) =
      (w : Thread A)
      → get_elem? p.workers i ≡ some (some w)
      → w.phase ≡ waiting
      → p.shutdown ≡ false
      → ltb_ℤ (pos 0) p.exit_threads ≡ false
      → queue_is_empty p.task_queue ≡ false
  Prompt p ev = Unit

  unfoldable pub AllPrompt : Pool A → List (Event A) → Type 0
  AllPrompt p [] = Unit
  AllPrompt p (ev ∷ evs) = Prompt p ev × AllPrompt (step blank esrch p ev) evs

  pub record Passed (p : Pool A) (out into : List A) (p' : Pool A) : Type 0 where
    pub order : out ++ contents blank p'.task_queue ≡ contents blank p.task_queue ++ into
    pub valid : IsValid p'.task_queue

  pub still :
      (p p' : Pool A) → IsValid p.task_queue → p'.task_queue ≡ p.task_queue → Passed p [] [] p'
  still p p' v e = record {
    order = ap (contents blank) e ∙ sym (append-nil (contents blank p.task_queue));
    valid = subst IsValid (sym e) v;
  }

  module _ (p : Pool A) (v : IsValid p.task_queue) (i : ℕ) (w : Thread A)
      (e : get_elem? p.workers i ≡ some (some w)) where
    -- Where the worker of slot `i` is `w'` after a step, what it took is its pick.
    abbrev Done : Phase → Pool A → Type 0
    Done ph p' =
        (w' : Thread A) × (get_elem? p'.workers i ≡ some (some w')) × Passed p (pick ph w') [] p'

    now : (w' : Thread A) → get_elem? (set p.workers i (some w')) i ≡ some (some w')
    now w' = get_elem?-set-some p.workers i (some w) (some w') e

    take_task :
        queue_is_empty p.task_queue ≡ false
        → Passed p
            (listed (received w.mytask (queue_de blank p.task_queue).1))
            []
            (record (set_thread p i (record {
              phase = taken;
              mytask = received w.mytask (queue_de blank p.task_queue).1;
            })) { task_queue = (queue_de blank p.task_queue).2 })
    unfolding received
    take_task h =
        let (x, out, head) = queue_de_head blank p.task_queue v h in
        record {
          order =
              ap
                (λ o.
                  listed (received w.mytask o) ++ contents blank (queue_de blank p.task_queue).2)
                out
              ∙ sym head
              ∙ sym (append-nil (contents blank p.task_queue));
          valid = queue_de-IsValid blank p.task_queue v;
        }

    worker_take-Done :
        (p.shutdown ≡ false
          → ltb_ℤ (pos 0) p.exit_threads ≡ false
          → queue_is_empty p.task_queue ≡ false)
        → Done idle (worker_take blank p i w)
    unfolding worker_take
    worker_take-Done h =
        if_elim (Done idle) p.shutdown _ _
          (λ s. (record w { phase = gone }, now _, still p _ v refl))
          (λ s.
            if_elim (Done idle) (ltb_ℤ (pos 0) p.exit_threads) _ _
              (λ x. (record w { phase = gone }, now _, still p _ v refl))
              (λ x. (
                record {
                  phase = taken;
                  mytask = received w.mytask (queue_de blank p.task_queue).1;
                },
                now _,
                take_task (h s x),
              )))

    worker_at-Done :
        (ph : Phase) → w.phase ≡ ph → Prompt p (work i) → Done ph (worker_at blank p i w ph)
    unfolding worker_at
    worker_at-Done idle e' k =
        if_elim (Done idle) (queue_is_empty p.task_queue) _ _
          (λ x. (record w { phase = waiting }, now _, still p _ v refl))
          (λ x. worker_take-Done (λ s y. x))
    worker_at-Done waiting e' k = worker_take-Done (k w e e')
    worker_at-Done taken e' k = (record w { phase = running }, now _, still p _ v refl)
    worker_at-Done running e' k = (record w { phase = idle }, now _, still p _ v refl)
    worker_at-Done gone e' k = (w, e, still p p v refl)

  pub worker_job-Passed :
      (p : Pool A) (v : IsValid p.task_queue) (i : ℕ) (o : Option (Option (Thread A)))
      → get_elem? p.workers i ≡ o
      → Prompt p (work i)
      → Passed p (took o (get_elem? (worker_job blank p i o).workers i)) [] (worker_job blank p i o)
  unfolding worker_job
  worker_job-Passed p v i none e k = still p p v refl
  worker_job-Passed p v i (some none) e k = still p p v refl
  worker_job-Passed p v i (some (some w)) e k =
      let p' = worker_at blank p i w w.phase in
      let (w', there, done) = worker_at-Done p v i w e w.phase refl k in
      subst (λ o. Passed p (took (some (some w)) o) [] p') (sym there) done
