-- ===== src/Anytimer/Ring.antt =====
-- A timer from the call that sets it to the second in which it rings.
use mycode_c.Base.{
  ℕ, zero, suc, ◌+◌, some, List, [], ◌∷◌, map, ◌≡◌, ◌<◌, sym, refl, ap, ◌∙◌, subst, if◌then◌else◌,
  ◌==◌, length, length-set, get_elem?, set, get_elem?-set_self, if_elim, arith,
}
use mathlib.Core.Option.{some-injective}
use mycode_c.Base.Int.{ℤ, pos, negsuc, pos_part}
use mycode_c.Anytimer.{
  Timer, Library, anytimermax, blank, alarm_handler, pos_from, get_anytimer_pos, lib_init, ready,
  armed_at, anytimer_init,
}
use mycode_c.Anytimer.Pass.{quiet, after, calls_of, alarm_handler-after}
use mycode_c.Anytimer.Calls.{at_slot, armed, times_after, leb_pos, calls_of-armed, calls_from-slot}

module _ {C : Type 0} where
  -- The library after `k` runs of the handler.
  pub seconds_later : ℕ → Library C → Library C
  seconds_later zero l = l
  seconds_later (suc k) l = seconds_later k (alarm_handler quiet l).1

  get_elem?-after :
      (i : ℕ) (ts : List (Timer C)) (t : Timer C)
      → get_elem? ts i ≡ some t
      → get_elem? (map after ts) i ≡ some (after t)
  get_elem?-after i [] t e = absurd (ground arith)
  get_elem?-after zero (t' ∷ ts) t e = ap (λ z. some (after z)) (some-injective t' t e)
  get_elem?-after (suc i) (t' ∷ ts) t e = get_elem?-after i ts t e

  length-after : (ts : List (Timer C)) → length (map after ts) ≡ length ts
  length-after [] = refl
  length-after (t ∷ ts) = ap suc (length-after ts)

  -- A timer in the table, `k` seconds later.
  handler_calls :
      (k : ℕ) (l : Library C) (i : ℕ) (t : Timer C)
      → length l.timer_libs ≡ anytimermax
      → get_elem? l.timer_libs i ≡ some t
      → at_slot i (alarm_handler quiet (seconds_later k l)).0 ≡ calls_of i (times_after k t)
  unfolding seconds_later
  handler_calls zero l i t n e =
      ap (λ r. at_slot i r.0) (alarm_handler-after l n)
      ∙ calls_from-slot i 0 i l.timer_libs t (ground arith) e
  handler_calls (suc k) l i t n e =
      ap (λ r. at_slot i (alarm_handler quiet (seconds_later k r.1)).0) (alarm_handler-after l n)
      ∙ handler_calls k (record l { timer_libs = map after l.timer_libs }) i (after t)
          (length-after l.timer_libs ∙ n) (get_elem?-after i l.timer_libs t e)

  found_below : (j i : ℕ) (ts : List (Timer C)) → pos_from j ts ≡ pos i → i < j + length ts
  unfolding pos_from
  found_below j i [] e = absurd (ground arith)
  found_below j i (t ∷ ts) e =
      if_elim (λ z. z ≡ pos i → i < j + suc (length ts)) t.is_used _ _
        (λ u e'. ground (arith, found_below (suc j) i ts e'))
        (λ u e'. ground (arith, ap pos_part e')) e

  length-blank : (ts : List (Timer C)) → length (map (λ t. blank {C = C}) ts) ≡ length ts
  length-blank [] = refl
  length-blank (t ∷ ts) = ap suc (length-blank ts)

  length-ready : (l : Library C) → length (ready l).timer_libs ≡ length l.timer_libs
  unfolding ready lib_init
  length-ready l =
      if_elim (λ z. length z.timer_libs ≡ length l.timer_libs) l.lib_inited l (lib_init l)
        (λ u. refl) (λ u. length-blank l.timer_libs)

  armed_rings :
      (p : ℤ) (n i : ℕ) (c : C) (arg : ℕ) (l : Library C) (k : ℕ)
      → length l.timer_libs ≡ anytimermax
      → pos_from 0 l.timer_libs ≡ p
      → (armed_at p (pos (suc n)) c arg l).0 ≡ pos i
      → at_slot i (alarm_handler quiet (seconds_later k (armed_at p (pos (suc n)) c arg l).1)).0
        ≡ (if k == n then (i, c, arg) ∷ [] else [])
  unfolding armed_at
  armed_rings (negsuc q) n i c arg l k len e r = absurd (ground arith)
  armed_rings (pos q) n i c arg l k len e r =
      let l' = record l { timer_libs = set l.timer_libs i (armed n c arg) } in
      subst
        (λ j.
          at_slot i
            (alarm_handler quiet
              (seconds_later k (record l { timer_libs = set l.timer_libs j (armed n c arg) }))).0
          ≡ (if k == n then (i, c, arg) ∷ [] else []))
        (sym (ap pos_part r))
        (handler_calls k l' i (armed n c arg) (length-set l.timer_libs i (armed n c arg) ∙ len) (
            get_elem?-set_self l.timer_libs i (armed n c arg)
              (omega (arith, found_below 0 i l.timer_libs (e ∙ r))))
          ∙ calls_of-armed i c arg n k)

  -- In a table of full length, a timer that `anytimer_init` sets for `n` + 1 seconds, and whose slot it returns,
  -- is called with its argument in the run of the handler that comes `n` runs later, and in no other, when the
  -- callbacks leave the table alone and no timer is set or destroyed meanwhile.
  pub anytimer_init-rings :
      (l : Library C) (n i : ℕ) (c : C) (arg k : ℕ)
      → length l.timer_libs ≡ anytimermax
      → (anytimer_init (pos (suc n)) (some c) arg l).0 ≡ pos i
      → at_slot i
          (alarm_handler quiet (seconds_later k (anytimer_init (pos (suc n)) (some c) arg l).1)).0
        ≡ (if k == n then (i, c, arg) ∷ [] else [])
  unfolding anytimer_init get_anytimer_pos
  anytimer_init-rings l n i c arg k len r =
      let p = pos_from 0 (ready l).timer_libs in
      let run : anytimer_init (pos (suc n)) (some c) arg l
          ≡ armed_at p (pos (suc n)) c arg (ready l) =
        ap (λ b. if b then (negsuc 0, l) else armed_at p (pos (suc n)) c arg (ready l))
          (leb_pos n) in
      subst
        (λ z.
          at_slot i (alarm_handler quiet (seconds_later k z.1)).0
          ≡ (if k == n then (i, c, arg) ∷ [] else []))
        (sym run)
        (armed_rings p n i c arg (ready l) k (length-ready l ∙ len) refl
          (ap (λ z. z.0) (sym run) ∙ r))
