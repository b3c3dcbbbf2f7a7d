-- ===== src/TaskQueue/Inv.antt =====
-- The representation invariant of `queue_t`.
use mycode_c.Base.{ℕ, ◌+◌, ◌%◌, ◌<◌, ◌≡◌, arith, length, length-set}
use mycode_c.Window.{gap, step-mod}
use mycode_c.TaskQueue.{Queue, queue_en, queue_de}

pub record IsValid {ℓ} {A : Type ℓ} (q : Queue A) : Type ℓ where
  pub storage : length q.s ≡ q.capacity
  pub front_in : q.front < q.capacity
  pub rear_in : q.rear < q.capacity

-- the number of items
abbrev pub size {ℓ} : {A : Type ℓ} → Queue A → ℕ
size q = gap q.capacity q.front q.rear

module _ {ℓ} {A : Type ℓ} where
  pub queue_en-IsValid : (q : Queue A) (x : A) → IsValid q → IsValid (queue_en q x).1
  unfolding queue_en
  queue_en-IsValid q x v =
      ground (arith, length-set q.s ((q.rear + 1) % q.capacity) x, step-mod q.capacity q.rear)

  pub queue_de-IsValid : (blank : A) (q : Queue A) → IsValid q → IsValid (queue_de blank q).2
  unfolding queue_de
  queue_de-IsValid blank q v =
      ground (arith, length-set q.s ((q.front + 1) % q.capacity) blank, step-mod q.capacity q.front)

  pub capacity-queue_en : (q : Queue A) (x : A) → (queue_en q x).1.capacity ≡ q.capacity
  unfolding queue_en
  capacity-queue_en q x = ground arith

  pub capacity-queue_de : (blank : A) (q : Queue A) → (queue_de blank q).2.capacity ≡ q.capacity
  unfolding queue_de
  capacity-queue_de blank q = ground arith
