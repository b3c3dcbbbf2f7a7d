-- ===== src/Pool/Count.antt =====
-- pthread_pool/pool.c: counting the workers by their phase.
use mycode_c.Base.{
  ℕ, zero, suc, ◌+◌, ◌≤◌, ◌≡◌, refl, ap, subst, arith, Bool, true, false, Option, none, some, List,
  [], ◌∷◌, get_elem?, set, length, if◌then◌else◌, Bool-cases, inl, inr, Option-cases,
}
use mycode_c.Pool.{Phase, running, gone, Thread, unused_from, ended_from, get_free_pos}

abbrev pub is_running : Phase → Bool
is_running running = true
is_running _ = false

abbrev pub is_alive : Phase → Bool
is_alive gone = false
is_alive _ = true

module _ {ℓ} {A : Type ℓ} (test : Phase → Bool) where
  abbrev pub holds : Option (Thread A) → ℕ
  holds none = 0
  holds (some w) = if test w.phase then 1 else 0

  -- How many slots hold a worker in such a phase.
  unfoldable pub count : List (Option (Thread A)) → ℕ
  count [] = 0
  count (o ∷ slots) = holds o + count slots

  held : Option (Option (Thread A)) → ℕ
  held none = 0
  held (some o) = holds o

  holds-le : (o : Option (Thread A)) → holds o ≤ 1
  holds-le none = omega arith
  holds-le (some w) = ground arith

  pub count-le : (slots : List (Option (Thread A))) → count slots ≤ length slots
  unfolding count
  count-le [] = omega arith
  count-le (o ∷ slots) = omega (arith, holds-le o, count-le slots)

  pub count-set :
      (slots : List (Option (Thread A))) (i : ℕ) (old new : Option (Thread A))
      → get_elem? slots i ≡ some old
      → count (set slots i new) + holds old ≡ count slots + holds new
  unfolding count held
  count-set [] i old new e = absurd (ground arith)
  count-set (o ∷ slots) zero old new e = let same : holds o ≡ holds old = ap held e in omega arith
  count-set (o ∷ slots) (suc i) old new e = omega (arith, count-set slots i old new e)

module _ {ℓ} {A : Type ℓ} where
  -- A slot that a new worker may take holds no worker that is alive.
  pub record IsFree (slots : List (Option (Thread A))) (i : ℕ) : Type ℓ where
    pub old : Option (Thread A)
    pub there : get_elem? slots i ≡ some old
    pub no_running : holds is_running old ≡ 0
    pub no_alive : holds is_alive old ≡ 0

  -- What a search from slot `start` on found.
  abbrev Found : (start : ℕ) → List (Option (Thread A)) → Option ℕ → Type ℓ
  Found start slots none = Unit
  Found start slots (some i) = (k : ℕ) × (i ≡ start + k) × IsFree slots k

  later :
      (start : ℕ) (o : Option (Thread A)) (slots : List (Option (Thread A))) (r : Option ℕ)
      → Found (start + 1) slots r
      → Found start (o ∷ slots) r
  later start o slots none f = tt
  later start o slots (some i) (k, e, f) = (
    suc k,
    omega (arith, e),
    record { old = f.old; there = f.there; no_running = f.no_running; no_alive = f.no_alive },
  )

  unused-Found :
      (start : ℕ) (slots : List (Option (Thread A))) → Found start slots (unused_from start slots)
  unfolding unused_from
  unused-Found start [] = tt
  unused-Found start (none ∷ slots) =
      (0, omega arith, record { old = none; there = refl; no_running = refl; no_alive = refl })
  unused-Found start (some w ∷ slots) =
      later start (some w) slots _ (unused-Found (start + 1) slots)

  module _ (esrch : Thread A → Bool)
      (ended : (w : Thread A) → esrch w ≡ true → w.phase ≡ gone) where
    ended-Found :
        (start : ℕ) (slots : List (Option (Thread A)))
        → Found start slots (ended_from esrch start slots)
    unfolding ended_from
    ended-Found start [] = tt
    ended-Found start (none ∷ slots) = later start none slots _ (ended-Found (start + 1) slots)
    ended-Found start (some w ∷ slots) = elim (Bool-cases (esrch w)) [
      | inl yes' ↦
          rw (yes', ended_from)
            (
              0,
              omega arith,
              record {
                old = some w;
                there = refl;
                no_running = rw (ended w yes') refl;
                no_alive = rw (ended w yes') refl;
              },
            )
      | inr no' ↦
          rw (no', ended_from) (later start (some w) slots _ (ended-Found (start + 1) slots))
    ]

    get_free_pos-Found :
        (slots : List (Option (Thread A))) → Found 0 slots (get_free_pos esrch slots)
    unfolding get_free_pos
    get_free_pos-Found slots = elim (Option-cases (unused_from 0 slots)) [
      | inl e ↦ rw (e, get_free_pos) (ended-Found 0 slots)
      | inr (i, e) ↦ rw (e, get_free_pos) (subst (Found 0 slots) e (unused-Found 0 slots))
    ]

    pub get_free_pos-IsFree :
        (slots : List (Option (Thread A))) (i : ℕ)
        → get_free_pos esrch slots ≡ some i
        → IsFree slots i
    get_free_pos-IsFree slots i e =
        let (k, same, free) = subst (Found 0 slots) e (get_free_pos-Found slots) in
        subst (IsFree slots) (omega (arith, same)) free
