-- ===== src/Anytimer/Tests.antt =====
-- Runs of the timers, and the applications of the theorems.
use mycode_c.Base.{
  ap, suc, ℕ, true, some, [], ◌∷◌, map, replicate, length, length-replicate, ◌≡◌, refl,
}
use mycode_c.Base.Int.{pos}
use mycode_c.Anytimer.{
  Timer, Library, anytimermax, blank, pos_from, get_anytimer_pos, ready, armed_at, anytimer_init,
  alarm_handler,
}
use mycode_c.Anytimer.Pass.{quiet, after, calls_from, alarm_handler-after}
use mycode_c.Anytimer.Calls.{at_slot}
use mycode_c.Anytimer.Ring.{seconds_later, anytimer_init-rings}

-- The library in use, with one timer that has a second left.
abbrev one_left : Timer ℕ
one_left = record { remain = pos 1; callback = some 5; arg = 6; is_used = true }

abbrev library : Library ℕ
library = record { timer_libs = one_left ∷ replicate 1023 blank; lib_inited = true }

full_table : length library.timer_libs ≡ anytimermax
full_table = ap suc (length-replicate 1023 (blank {C = ℕ}))

alarm_handler-after_example : alarm_handler quiet library ≡ (
  calls_from 0 library.timer_libs,
  record library { timer_libs = map after library.timer_libs },
)
alarm_handler-after_example = alarm_handler-after library full_table

second_slot : (anytimer_init (pos 3) (some 8) 9 library).0 ≡ pos 1
unfolding anytimer_init get_anytimer_pos pos_from armed_at ready
second_slot = refl

anytimer_init-rings_example :
    at_slot 1 (alarm_handler quiet (seconds_later 2 (anytimer_init (pos 3) (some 8) 9 library).1)).0
    ≡ (1, 8, 9) ∷ []
anytimer_init-rings_example = anytimer_init-rings library 2 1 8 9 2 full_table second_slot
