-- ===== src/Window.antt =====
-- Arrays used in a ring, the scheme of pthread_pool/queue.c, queue/02arr/queue.c and the task ring
-- of 高编项目/thread_pool.c: the items that stand at consecutive indices, taken modulo the capacity.
use native.Mathlib.Nat.{add-zero, mod-add-mod, mod-eq_of_lt, mod-eq-sub-mod, mod-lt}
use mycode_c.Base.{
  ltb, ltb→lt, Bool-cases, inl, inr, ℕ, zero, suc, ◌+◌, ◌-◌, ◌%◌, ◌≤◌, ◌<◌, ◌≡◌, ◌≢◌, ◌↔◌, refl,
  sym, ap, ap₂, ◌∙◌, List, [], ◌∷◌, ◌++◌, arith, length, get_or, set, get_or-set_self,
  get_or-set_ne, leb, ◌==◌, if◌then◌else◌,
}

-- An index that is moved on by less than one round wraps once at most.
wrap : ℕ → ℕ → ℕ
wrap cap n = if ltb n cap then n else n - cap

mod-wrap : (cap n : ℕ) → n < cap + cap → n % cap ≡ wrap cap n
unfolding wrap
mod-wrap cap n h = elim (Bool-cases (ltb n cap)) [
  | inl low ↦ rw low (mod-eq_of_lt (ltb→lt n cap low))
  | inr high ↦ rw high (
      mod-eq-sub-mod {n = n} {m = cap} (ground arith)
      ∙ mod-eq_of_lt {n = n - cap} {m = cap} (ground arith))
]

pub step-mod : (cap i : ℕ) → i < cap → (i + 1) % cap ≡ (if i + 1 == cap then 0 else i + 1)
unfolding wrap
step-mod cap i h = ground (arith, mod-wrap cap (i + 1))

-- How far the index `j` lies ahead of `i` on a ring of `cap` places.
pub gap : ℕ → ℕ → ℕ → ℕ
gap cap i j = if leb i j then j - i else j + cap - i

module _ {cap i j : ℕ} (hi : i < cap) (hj : j < cap) where
  pub gap_lt : gap cap i j < cap
  unfolding gap
  gap_lt = ground arith

  pub gap_zero : (gap cap i j ≡ 0) ↔ (i ≡ j)
  unfolding gap
  gap_zero = (λ h. ground arith, λ h. ground arith)

  pub gap_full : (gap cap i j ≡ cap - 1) ↔ ((j + 1) % cap ≡ i)
  unfolding gap
  gap_full = (λ h. ground (arith, step-mod cap j hj), λ h. ground (arith, step-mod cap j hj))

  pub gap-advance : (j + 1) % cap ≢ i → gap cap i ((j + 1) % cap) ≡ gap cap i j + 1
  unfolding gap
  gap-advance h = ground (arith, step-mod cap j hj)

  pub gap-catch_up : i ≢ j → gap cap ((i + 1) % cap) j ≡ gap cap i j - 1
  unfolding gap
  gap-catch_up h = ground (arith, step-mod cap i hi)

  pub add-gap : (i + gap cap i j) % cap ≡ j
  unfolding gap wrap
  add-gap = ground (arith, mod-wrap cap (i + gap cap i j))

  pub next-gap : ((i + 1) % cap + gap cap i j) % cap ≡ (j + 1) % cap
  next-gap = rw mod-add-mod (ap (λ k. k % cap) shuffle ∙ later)
    where
      shuffle : i + 1 + gap cap i j ≡ i + gap cap i j + 1
      shuffle = omega arith

      later : (i + gap cap i j + 1) % cap ≡ (j + 1) % cap
      later = rw (← mod-add-mod) (ap (λ k. (k + 1) % cap) add-gap)

module _ {ℓ} {A : Type ℓ} (blank : A) (buf : List A) (cap : ℕ) where
  -- the `n` items from index `h` on
  abbrev pub window : ℕ → ℕ → List A
  window h zero = []
  window h (suc n) = get_or buf h blank ∷ window ((h + 1) % cap) n

  pub length-window : (h n : ℕ) → length (window h n) ≡ n
  length-window h zero = refl
  length-window h (suc n) = ap suc (length-window ((h + 1) % cap) n)

  -- `window` matches on `suc` where the programs test a count.
  pub window_of_pos :
      (h n : ℕ) → 0 < n → window h n ≡ get_or buf h blank ∷ window ((h + 1) % cap) (n - 1)
  window_of_pos h n pos = let e : n ≡ suc (n - 1) = omega arith in ap (window h) e

start : (cap h : ℕ) → h < cap → (h + 0) % cap ≡ h
start cap h hh = rw add-zero (mod-eq_of_lt hh)

-- Fewer than `cap` steps do not come back to the start.
around : (cap h k : ℕ) → h < cap → suc k < cap → (h + suc k) % cap ≢ h
unfolding wrap
around cap h k hh hk = ground (arith, mod-wrap cap (h + suc k))

module _ {ℓ} {A : Type ℓ} (blank : A) (buf : List A) (cap : ℕ) where
  -- A write just past a window extends it.
  pub window-set :
      (x : A) (n h i : ℕ)
      → cap ≤ length buf
      → h < cap
      → n < cap
      → i ≡ (h + n) % cap
      → window blank (set buf i x) cap h (suc n) ≡ window blank buf cap h n ++ (x ∷ [])
  window-set x zero h i room hh hn e =
      let i' : i ≡ h = e ∙ start cap h hh in
      ap (λ y. y ∷ []) (rw i' (get_or-set_self buf h x blank (omega arith)))
  window-set x (suc n) h i room hh hn e =
      let apart : i ≢ h = λ q. around cap h n hh hn (rw (← e) q) in
      ap₂ ◌∷◌ (get_or-set_ne buf i h x blank apart)
        (window-set x n ((h + 1) % cap) i room (mod-lt _ (omega arith)) (omega arith) (e ∙ regroup))
    where
      regroup : (h + suc n) % cap ≡ ((h + 1) % cap + n) % cap
      regroup = rw mod-add-mod (ap (λ k. k % cap) (omega arith))

  -- A write outside a window leaves it.
  pub window-set_outside :
      (x : A) (n h i : ℕ)
      → h < cap
      → n < cap
      → i < cap
      → ((k : ℕ) → k < n → i ≢ (h + k) % cap)
      → window blank (set buf i x) cap h n ≡ window blank buf cap h n
  window-set_outside x zero h i hh hn hi out = refl
  window-set_outside x (suc n) h i hh hn hi out =
      ap₂ ◌∷◌ (get_or-set_ne buf i h x blank apart)
        (window-set_outside x n ((h + 1) % cap) i (mod-lt _ (omega arith)) (omega arith) hi later)
    where
      apart : i ≢ h
      apart q = out 0 (omega arith) (q ∙ sym (start cap h hh))

      later : (k : ℕ) → k < n → i ≢ ((h + 1) % cap + k) % cap
      later k hk q =
          out (suc k) (omega arith) (q ∙ rw mod-add-mod (ap (λ j. j % cap) (omega arith)))

  -- A write just before a window leaves it.
  pub window-set_before :
      (x : A) (n h : ℕ)
      → h < cap
      → n < cap
      → window blank (set buf h x) cap ((h + 1) % cap) n ≡ window blank buf cap ((h + 1) % cap) n
  window-set_before x n h hh hn =
      window-set_outside x n ((h + 1) % cap) h (mod-lt _ (omega arith)) hn hh
        λ k hk q. around cap h k hh (omega arith) (sym (q ∙ regroup k))
    where
      regroup : (k : ℕ) → ((h + 1) % cap + k) % cap ≡ (h + suc k) % cap
      regroup k = rw mod-add-mod (ap (λ j. j % cap) (omega arith))
