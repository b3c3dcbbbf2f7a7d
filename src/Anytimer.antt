-- ===== src/Anytimer.antt =====
-- The any-timer of apue/16anytimer/anytimer.c: a table of timers that the SIGALRM handler counts down once a second.
-- What a callback does to the table is an argument, `effect`. The handler gives the calls that it makes, each with
-- its slot. `alarm(2)` and `signal(2)` are left out: a run of the handler is a call of `alarm_handler`.
pub mod Pass
pub mod Calls
pub mod Ring
mod Tests
use mycode_c.Base.{
  ℕ, zero, suc, Bool, true, false, Option, none, some, List, [], ◌∷◌, ◌++◌, map, if◌then◌else◌,
  get_elem?, set, leb,
}
use mycode_c.Base.Int.{ℤ, pos, negsuc, ◌-ℤ◌, leb_ℤ}

-- `none` for the callback is NULL, and 0 is for the argument.
pub record Timer (C : Type 0) : Type 0 where
  pub remain : ℤ
  pub callback : Option C
  pub arg : ℕ
  pub is_used : Bool

pub record Library (C : Type 0) : Type 0 where
  pub timer_libs : List (Timer C)
  pub lib_inited : Bool

abbrev pub anytimermax : ℕ
anytimermax = 1024

module _ {C : Type 0} where
  abbrev pub blank : Timer C
  blank = record { remain = pos 0; callback = none; arg = 0; is_used = false }

  -- The loop, from the slot `i` on.
  pub pos_from : ℕ → List (Timer C) → ℤ
  pos_from i [] = negsuc 0
  pos_from i (t ∷ ts) = let rest = pos_from (suc i) ts in if t.is_used then rest else pos i

  pub get_anytimer_pos : List (Timer C) → ℤ
  unfolding pos_from
  get_anytimer_pos ts = pos_from 0 ts

  -- The call, if there is one.
  pub called : ℕ → Timer C → List (ℕ × C × ℕ)
  called i t = elim t.callback [ none ↦ [] | some c ↦ (i, c, t.arg) ∷ [] ]

  pub affected :
      (effect : C → ℕ → List (Timer C) → List (Timer C)) → Timer C → List (Timer C) → List (Timer C)
  affected effect t ts = elim t.callback [ none ↦ ts | some c ↦ effect c t.arg ts ]

  pub retire_at : ℕ → Option (Timer C) → List (Timer C) → List (Timer C)
  retire_at i none ts = ts
  retire_at i (some t) ts = set ts i (record t { is_used = false })

  -- `timer_libs[i].is_used = 0`
  pub retire : ℕ → List (Timer C) → List (Timer C)
  unfolding retire_at
  retire i ts = retire_at i (get_elem? ts i) ts

  -- The body of the handler's loop.
  pub count_down :
      (effect : C → ℕ → List (Timer C) → List (Timer C))
      → ℕ
      → Timer C
      → List (Timer C)
      → List (ℕ × C × ℕ) × List (Timer C)
  unfolding called affected retire
  count_down effect i t ts =
      let down = record t { remain = t.remain -ℤ pos 1 } in
      let ts' = set ts i down in
      if leb_ℤ down.remain (pos 0)
      then (called i down, retire i (affected effect down ts'))
      else ([], ts')

  pub visit_at :
      (effect : C → ℕ → List (Timer C) → List (Timer C))
      → ℕ
      → Option (Timer C)
      → List (Timer C)
      → List (ℕ × C × ℕ) × List (Timer C)
  unfolding count_down
  visit_at effect i none ts = ([], ts)
  visit_at effect i (some t) ts = if t.is_used then count_down effect i t ts else ([], ts)

  pub visit :
      (effect : C → ℕ → List (Timer C) → List (Timer C))
      → ℕ
      → List (Timer C)
      → List (ℕ × C × ℕ) × List (Timer C)
  unfolding visit_at
  visit effect i ts = visit_at effect i (get_elem? ts i) ts

  -- `n` rounds of the loop, from the slot `i` on.
  pub rounds :
      (effect : C → ℕ → List (Timer C) → List (Timer C))
      → (n i : ℕ) → List (Timer C)
      → List (ℕ × C × ℕ) × List (Timer C)
  unfolding visit
  rounds effect zero i ts = ([], ts)
  rounds effect (suc n) i ts =
      let (calls, ts1) = visit effect i ts in
      let (more, ts2) = rounds effect n (suc i) ts1 in (calls ++ more, ts2)

  pub alarm_handler :
      (effect : C → ℕ → List (Timer C) → List (Timer C)) → Library C → List (ℕ × C × ℕ) × Library C
  unfolding rounds
  alarm_handler effect l =
      let (calls, ts) = rounds effect anytimermax 0 l.timer_libs in
      (calls, record l { timer_libs = ts })

  pub lib_init : Library C → Library C
  lib_init l = record { timer_libs = map (λ t. blank) l.timer_libs; lib_inited = true }

  -- The four assignments at the slot that was found.
  pub armed_at : ℤ → (seconds : ℤ) → C → ℕ → Library C → ℤ × Library C
  armed_at (negsuc n) seconds c arg l = (negsuc 1, l)
  armed_at (pos i) seconds c arg l = (
    pos i,
    record l {
      timer_libs =
          set l.timer_libs i
            (record { remain = seconds; callback = some c; arg = arg; is_used = true });
    },
  )

  pub ready : Library C → Library C
  unfolding lib_init
  ready l = if l.lib_inited then l else lib_init l

  pub anytimer_init : (seconds : ℤ) → Option C → ℕ → Library C → ℤ × Library C
  unfolding get_anytimer_pos armed_at ready
  anytimer_init seconds none arg l = (negsuc 0, l)
  anytimer_init seconds (some c) arg l =
      if leb_ℤ seconds (pos 0)
      then (negsuc 0, l)
      else armed_at (get_anytimer_pos (ready l).timer_libs) seconds c arg (ready l)

  pub destroy_at : ℕ → Option (Timer C) → Library C → ℤ × Library C
  destroy_at i none l = (negsuc 0, l)
  destroy_at i (some t) l =
      if t.is_used
      then (pos 0, record l { timer_libs = set l.timer_libs i blank })
      else (negsuc 1, l)

  pub anytimer_destroy : ℤ → Library C → ℤ × Library C
  unfolding destroy_at
  anytimer_destroy (negsuc n) l = (negsuc 0, l)
  anytimer_destroy (pos i) l =
      if leb anytimermax i then (negsuc 0, l) else destroy_at i (get_elem? l.timer_libs i) l
