-- ===== src/TaskQueue.antt =====
-- The task queue of pthread_pool/queue.c: a ring of `capacity + 1` items of any type. An item is
-- `size` bytes there, moved by one `memcpy`, so it is one value here; `blank` is the item of zero
-- bytes. Whether `malloc` and `calloc` succeed is an argument. `capacity + 1` is at most INT_MAX,
-- so no sum of the file overflows an `int`.
pub mod Api
pub mod Fifo
pub mod Inv
pub mod Refine
mod Tests
use mycode_c.Base.{
  ℕ, ◌+◌, ◌%◌, Bool, Option, none, some, List, [], ◌∷◌, ◌==◌, if◌then◌else◌, get_elem?, set,
  replicate,
}
use Api.{Status, ok, err, Op, put, get, Reply}

-- `queue_t`; `s` is the storage that the pointer of that name leads to.
pub record Queue {ℓ} (A : Type ℓ) : Type ℓ where
  pub s : List A
  pub front : ℕ
  pub rear : ℕ
  pub capacity : ℕ

-- What `queue_init` leaves in `*q`, and its status.
pub data Init {ℓ} (A : Type ℓ) : Type ℓ where
  ready : Queue A → Init A
  no_queue : Init A
  no_storage : Init A

module _ {ℓ} {A : Type ℓ} (blank : A) where
  abbrev pub fresh : ℕ → Queue A
  fresh capacity = record {
    s = replicate (capacity + 1) blank;
    front = 0;
    rear = 0;
    capacity = capacity + 1;
  }

  -- `got_queue` and `got_storage` say whether `malloc` and `calloc` succeed.
  pub queue_init : (got_queue got_storage : Bool) (capacity : ℕ) → Init A
  queue_init got_queue got_storage capacity =
      if got_queue then (if got_storage then ready (fresh capacity) else no_storage) else no_queue

  -- The option is what is copied to `data`, `none` where nothing is or where the read is out of range.
  unfoldable pub queue_de : Queue A → Status × Option A × Queue A
  queue_de q =
      if q.front == q.rear
      then (err, none, q)
      else (let f = (q.front + 1) % q.capacity in
          (ok, get_elem? q.s f, record q { front = f; s = set q.s f blank }))

module _ {ℓ} {A : Type ℓ} where
  unfoldable pub queue_is_empty : Queue A → Bool
  queue_is_empty q = q.front == q.rear

  unfoldable pub queue_is_full : Queue A → Bool
  queue_is_full q = (q.rear + 1) % q.capacity == q.front

  -- A `set` out of range changes nothing.
  unfoldable pub queue_en : Queue A → A → Status × Queue A
  unfolding queue_is_full
  queue_en q x =
      if queue_is_full q
      then (err, q)
      else (let r = (q.rear + 1) % q.capacity in (ok, record q { rear = r; s = set q.s r x }))

-- A client's calls in order, with what each returns.
module _ {ℓ} {A : Type ℓ} (blank : A) where
  pub run : Queue A → List (Op A) → List (Reply A)
  run q [] = []
  run q (put x ∷ ops) = let (st, q') = queue_en q x in (st, none) ∷ run q' ops
  run q (get ∷ ops) = let (st, out, q') = queue_de blank q in (st, out) ∷ run q' ops
