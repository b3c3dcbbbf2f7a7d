-- ===== src/TaskQueue/Refine.antt =====
-- The ring of pthread_pool/queue.c against the bounded first-in first-out queue of its items.
use native.Mathlib.Nat.{mod-lt}
use mycode_c.Base.{
  ℕ, ◌+◌, ◌-◌, ◌%◌, ◌≡◌, refl, sym, ◌≢◌, ap, ap₂, subst, ◌∙◌, true, false, some, Option, ◌==◌,
  Bool-cases, inl, inr, ◌++◌, List, [], ◌∷◌, arith, length, length-replicate, replicate,
  get_elem?-eq-get_or,
}
use mycode_c.Window.{
  gap_lt, gap_zero, gap_full, gap-advance, gap-catch_up, next-gap, window, length-window,
  window_of_pos, window-set, window-set_before,
}
use mycode_c.TaskQueue.Api.{Status, ok, err, Op, put, get}
use mycode_c.TaskQueue.Fifo.{enqueue, dequeue, serve}
use mycode_c.TaskQueue.{
  Queue, ready, queue_init, queue_is_empty, queue_is_full, queue_en, queue_de, run, fresh,
}
use mycode_c.TaskQueue.Inv.{
  IsValid, size, capacity-queue_en, capacity-queue_de, queue_en-IsValid, queue_de-IsValid,
}

ready-injective {ℓ} : {A : Type ℓ} {p q : Queue A} → ready p ≡ ready q → p ≡ q
ready-injective e = cc

module _ {A : Type 0} (blank : A) where
  -- what the ring holds, oldest first
  abbrev pub contents : Queue A → List A
  contents q = window blank q.s q.capacity ((q.front + 1) % q.capacity) (size q)

  pub length-contents : (q : Queue A) → length (contents q) ≡ size q
  length-contents q = length-window blank q.s q.capacity ((q.front + 1) % q.capacity) (size q)

  pub queue_en_refines :
      (q : Queue A) (x : A)
      → IsValid q
      → let (st, q') = queue_en q x in (st, contents q') ≡ enqueue (q.capacity - 1) (contents q) x
  unfolding queue_en enqueue
  queue_en_refines q x v = ground (
    arith,
    length-contents q,
    gap_full v.front_in v.rear_in,
    gap-advance v.front_in v.rear_in,
    gap_lt v.front_in v.rear_in,
    next-gap v.front_in v.rear_in,
    window-set blank q.s q.capacity x (size q) ((q.front + 1) % q.capacity)
        ((q.rear + 1) % q.capacity),
    mod-lt (q.front + 1) {m = q.capacity},
  )

  pub queue_de_refines :
      (q : Queue A)
      → IsValid q
      → let (st, out, q') = queue_de blank q in (st, out, contents q') ≡ dequeue (contents q)
  unfolding queue_de dequeue
  queue_de_refines q v =
      let f : ℕ = (q.front + 1) % q.capacity in
      ground (
        arith,
        gap_zero v.front_in v.rear_in,
        gap-catch_up v.front_in v.rear_in,
        gap_lt v.front_in v.rear_in,
        window_of_pos blank q.s q.capacity f (size q),
        window-set_before blank q.s q.capacity blank (size q - 1) f,
        get_elem?-eq-get_or q.s f blank,
        mod-lt (q.front + 1) {m = q.capacity},
      )

  pub run_refines :
      (q : Queue A) (ops : List (Op A))
      → IsValid q
      → run blank q ops ≡ serve (q.capacity - 1) (contents q) ops
  unfolding run serve
  run_refines q [] v = refl
  run_refines q (put x ∷ ops) v = rw (
    run_refines (queue_en q x).1 ops (queue_en-IsValid q x v),
    ← queue_en_refines q x v,
    capacity-queue_en,
  )
  run_refines q (get ∷ ops) v = rw (
    run_refines (queue_de blank q).2 ops (queue_de-IsValid blank q v),
    ← queue_de_refines q v,
    capacity-queue_de,
  )

  -- The queue that `queue_init` makes is valid and empty, and holds `capacity` items at most.
  init-fresh :
      (capacity : ℕ) (q : Queue A)
      → queue_init blank true true capacity ≡ ready q
      → IsValid q × (contents q ≡ []) × (q.capacity ≡ capacity + 1)
  unfolding queue_init
  init-fresh capacity q e =
      let same : fresh blank capacity ≡ q = ready-injective e in
      subst (λ r. IsValid r × (contents r ≡ []) × (r.capacity ≡ capacity + 1)) same
        (
          record {
            storage = length-replicate (capacity + 1) blank;
            front_in = omega arith;
            rear_in = omega arith;
          },
          nothing,
          refl,
        )
    where
      nothing : contents (fresh blank capacity) ≡ []
      nothing =
          ap
            (window blank (replicate (capacity + 1) blank) (capacity + 1)
              ((0 + 1) % (capacity + 1)))
            ((gap_zero {cap = capacity + 1} {i = 0} {j = 0} (omega arith) (omega arith)).1 refl)

  pub fresh_empty :
      (capacity : ℕ) → IsValid (fresh blank capacity) × (contents (fresh blank capacity) ≡ [])
  unfolding queue_init
  fresh_empty capacity =
      let (v, is_empty, _) = init-fresh capacity (fresh blank capacity) refl in (v, is_empty)

  queue_de-ok : (q : Queue A) → queue_is_empty q ≡ false → (queue_de blank q).0 ≡ ok
  unfolding queue_de queue_is_empty
  queue_de-ok q h = rw (h, queue_de) refl

  queue_en-ok : (q : Queue A) (x : A) → queue_is_full q ≡ false → (queue_en q x).0 ≡ ok
  unfolding queue_en
  queue_en-ok q x h = rw (h, queue_en) refl

  ok-ne-err : ok ≢ err
  ok-ne-err e = ground arith

  -- What a successful `dequeue` says of the list.
  dequeue-cons :
      (xs ys : List A) (st : Status) (o : Option A)
      → (st, o, ys) ≡ dequeue xs
      → st ≡ ok
      → (x : A) × (o ≡ some x) × (xs ≡ x ∷ ys)
  unfolding dequeue
  dequeue-cons [] ys st o e h =
      absurd (ok-ne-err (sym h ∙ ap (λ (r : Status × Option A × List A). r.0) e))
  dequeue-cons (x ∷ xs) ys st o e h = (
    x,
    ap (λ (r : Status × Option A × List A). r.1) e,
    ap (λ (r : Status × Option A × List A). x ∷ r.2) (sym e),
  )

  enqueue-append :
      (bound : ℕ) (xs ys : List A) (x : A) (st : Status)
      → (st, ys) ≡ enqueue bound xs x
      → st ≡ ok
      → ys ≡ xs ++ (x ∷ [])
  unfolding enqueue
  enqueue-append bound xs ys x st e h = elim (Bool-cases (length xs == bound)) [
    | inl full ↦
        let bad : (st, ys) ≡ (err, xs) = e ∙ rw (full, enqueue) refl in
        absurd (ok-ne-err (sym h ∙ ap (λ (r : Status × List A). r.0) bad))
    | inr room ↦
        let good : (st, ys) ≡ (ok, xs ++ (x ∷ [])) = e ∙ rw (room, enqueue) refl in
        ap (λ (r : Status × List A). r.1) good
  ]

  -- Where the queue is not empty, `queue_de` takes the oldest item.
  pub queue_de_head :
      (q : Queue A)
      → IsValid q
      → queue_is_empty q ≡ false
      → (x : A) × ((queue_de blank q).1 ≡ some x) × (contents q ≡ x ∷ contents (queue_de blank q).2)
  queue_de_head q v h =
      dequeue-cons (contents q) (contents (queue_de blank q).2) (queue_de blank q).0
        (queue_de blank q).1 (queue_de_refines q v) (queue_de-ok q h)

  pub queue_en_last :
      (q : Queue A) (x : A)
      → IsValid q
      → queue_is_full q ≡ false
      → contents (queue_en q x).1 ≡ contents q ++ (x ∷ [])
  queue_en_last q x v h =
      enqueue-append (q.capacity - 1) (contents q) (contents (queue_en q x).1) x (queue_en q x).0
        (queue_en_refines q x v) (queue_en-ok q x h)

  -- From a successful `queue_init` on, every sequence of `queue_en` and `queue_de` calls returns the
  -- statuses and items of a first-in first-out queue that starts empty and holds at most the
  -- `capacity` items asked for: no item is lost, doubled or reordered, and exactly the calls on a
  -- full queue and on an empty one fail.
  pub run-init :
      (capacity : ℕ) (q : Queue A) (ops : List (Op A))
      → queue_init blank true true capacity ≡ ready q
      → run blank q ops ≡ serve capacity [] ops
  run-init capacity q ops e =
      let (v, is_empty, cap) = init-fresh capacity q e in
      run_refines q ops v
      ∙ ap₂ (λ n xs. serve n xs ops) (ap (λ n. n - 1) cap ∙ omega arith) is_empty
