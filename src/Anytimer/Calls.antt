-- ===== src/Anytimer/Calls.antt =====
-- The calls of one slot, over the handler's runs.
use mycode_c.Base.{
  ℕ, zero, suc, ◌+◌, true, false, some, List, [], ◌∷◌, ◌++◌, ◌≡◌, ◌<◌, sym, refl, ap, ap₂, ◌∙◌, inl,
  inr, if◌then◌else◌, ◌==◌, get_elem?, Bool-cases, Option-cases, if_elim, append-nil, ==_iff, ==_ne,
  arith,
}
use mathlib.Core.Option.{some-injective}
use mycode_c.Base.Int.{pos, ◌-ℤ◌, leb_ℤ, int_laws}
use mycode_c.Anytimer.{Timer, called}
use mycode_c.Anytimer.Pass.{down, after, calls_of, calls_from}

minus_one : (n : ℕ) → pos (suc n) -ℤ pos 1 ≡ pos n
minus_one n = grind int_laws

pub leb_pos : (n : ℕ) → leb_ℤ (pos (suc n)) (pos 0) ≡ false
leb_pos n = ground arith

same_test : (k n : ℕ) → (k == n) ≡ (suc k == suc n)
same_test k n = ground arith

module _ {C : Type 0} where
  -- The calls of one slot.
  abbrev pub at_slot : ℕ → List (ℕ × C × ℕ) → List (ℕ × C × ℕ)
  at_slot i [] = []
  at_slot i (e ∷ es) = if e.0 == i then e ∷ at_slot i es else at_slot i es

  abbrev pub armed : ℕ → C → ℕ → Timer C
  armed n c arg = record { remain = pos (suc n); callback = some c; arg = arg; is_used = true }

  abbrev pub times_after : ℕ → Timer C → Timer C
  times_after zero t = t
  times_after (suc k) t = times_after k (after t)

  at_slot-append :
      (i : ℕ) (xs ys : List (ℕ × C × ℕ)) → at_slot i (xs ++ ys) ≡ at_slot i xs ++ at_slot i ys
  at_slot-append i [] ys = refl
  at_slot-append i (x ∷ xs) ys = elim (Bool-cases (x.0 == i)) [
    | inl e ↦ rw (e) (ap (λ t. x ∷ t) (at_slot-append i xs ys))
    | inr e ↦ rw (e) (at_slot-append i xs ys)
  ]

  called_elsewhere : (i j : ℕ) (t : Timer C) → (j == i) ≡ false → at_slot i (called j t) ≡ []
  unfolding called
  called_elsewhere i j t e = elim (Option-cases t.callback) [
    | inl none_there ↦ rw (none_there) refl
    | inr (c, there) ↦ rw (there, e) refl
  ]

  called_here : (i : ℕ) (t : Timer C) → at_slot i (called i t) ≡ called i t
  unfolding called
  called_here i t = elim (Option-cases t.callback) [
    | inl none_there ↦ rw (none_there) refl
    | inr (c, there) ↦ rw (there, (==_iff i i).1 refl) refl
  ]

  -- A timer that is not in use calls nothing any more.
  calls_of-unused :
      (i : ℕ) (t : Timer C) (k : ℕ) → t.is_used ≡ false → calls_of i (times_after k t) ≡ []
  unfolding calls_of after
  calls_of-unused i t zero e = rw (e) refl
  calls_of-unused i t (suc k) e = calls_of-unused i (after t) k (rw (e) refl)

  after-armed : (c : C) (arg n : ℕ) → after (armed (suc n) c arg) ≡ armed n c arg
  unfolding after
  after-armed c arg n = rw (minus_one (suc n), leb_pos n) refl

  after-last : (c : C) (arg : ℕ) → (after (armed 0 c arg)).is_used ≡ false
  unfolding after
  after-last c arg = rw (minus_one 0) refl

  pub calls_of-armed :
      (i : ℕ) (c : C) (arg n k : ℕ)
      → calls_of i (times_after k (armed n c arg)) ≡ (if k == n then (i, c, arg) ∷ [] else [])
  unfolding calls_of called
  calls_of-armed i c arg zero zero = rw (minus_one 0) refl
  calls_of-armed i c arg (suc n) zero =
      rw (minus_one (suc n), leb_pos n, ==_ne 0 (suc n) (ground arith)) refl
  calls_of-armed i c arg zero (suc k) =
      calls_of-unused i (after (armed 0 c arg)) k (after-last c arg)
      ∙ ap (λ b. if b then (i, c, arg) ∷ [] else []) (sym (==_ne (suc k) 0 (ground arith)))
  calls_of-armed i c arg (suc n) (suc k) =
      ap (λ t. calls_of i (times_after k t)) (after-armed c arg n)
      ∙ calls_of-armed i c arg n k
      ∙ ap (λ b. if b then (i, c, arg) ∷ [] else []) (same_test k n)

  -- The calls of a slot are those of the timer in it.
  calls_of-here : (i : ℕ) (t : Timer C) → at_slot i (calls_of i t) ≡ calls_of i t
  unfolding calls_of
  calls_of-here i t =
      if_elim (λ z. at_slot i z ≡ z) t.is_used _ _
        (λ u.
          if_elim (λ z. at_slot i z ≡ z) (leb_ℤ (t.remain -ℤ pos 1) (pos 0)) _ _
            (λ r. called_here i (down t)) (λ r. refl))
        (λ u. refl)

  calls_of-elsewhere : (i j : ℕ) (t : Timer C) → (j == i) ≡ false → at_slot i (calls_of j t) ≡ []
  unfolding calls_of
  calls_of-elsewhere i j t e =
      if_elim (λ z. at_slot i z ≡ []) t.is_used _ _
        (λ u.
          if_elim (λ z. at_slot i z ≡ []) (leb_ℤ (t.remain -ℤ pos 1) (pos 0)) _ _
            (λ r. called_elsewhere i j (down t) e) (λ r. refl))
        (λ u. refl)

  calls_from-later : (i j : ℕ) (ts : List (Timer C)) → i < j → at_slot i (calls_from j ts) ≡ []
  unfolding calls_from
  calls_from-later i j [] l = refl
  calls_from-later i j (t ∷ ts) l =
      at_slot-append i (calls_of j t) (calls_from (suc j) ts)
      ∙ ap₂ (λ xs ys. xs ++ ys) (calls_of-elsewhere i j t (ground (arith, l)))
          (calls_from-later i (suc j) ts (ground (arith, l)))

  pub calls_from-slot :
      (i j d : ℕ) (ts : List (Timer C)) (t : Timer C)
      → i ≡ j + d
      → get_elem? ts d ≡ some t
      → at_slot i (calls_from j ts) ≡ calls_of i t
  unfolding calls_from
  calls_from-slot i j d [] t s e = absurd (ground arith)
  calls_from-slot i j zero (t' ∷ ts) t s e =
      at_slot-append i (calls_of j t') (calls_from (suc j) ts)
      ∙ ap₂ (λ xs ys. xs ++ ys)
          (ap (λ k. at_slot i (calls_of k t')) (sym s')
            ∙ calls_of-here i t'
            ∙ ap (calls_of i) (some-injective t' t e))
          (calls_from-later i (suc j) ts (ground (arith, s)))
      ∙ append-nil (calls_of i t)
    where
      s' : i ≡ j
      s' = ground (arith, s)
  calls_from-slot i j (suc d) (t' ∷ ts) t s e =
      at_slot-append i (calls_of j t') (calls_from (suc j) ts)
      ∙ ap₂ (λ xs ys. xs ++ ys) (calls_of-elsewhere i j t' (ground (arith, s)))
          (calls_from-slot i (suc j) d ts t (ground (arith, s)) e)
