-- ===== src/Alarms/Tests.antt =====
-- A run of the scheduler of 高编项目/alarm_scheduler.c.
use mycode_c.Base.{ℕ, ◌≡◌, refl, true, false, Bool, Option, none, ◌==◌, some, [], ◌∷◌, arith}
use mycode_c.Base.Int.{pos, ◌-ℤ◌}
use mycode_c.Alarms.{
  AlarmTask, free_task, due, tick, handle_sigalrm, add_from, alarm_scheduler_add_task,
}
use mycode_c.Alarms.Period.{
  Counted, ticks, signals, signals_handed, passing, Only, signals_handed-Counted,
}

abbrev every_three : AlarmTask ℕ
every_three = record { in_use = true; interval = pos 3; ticks_left = pos 3; job = some 7 }

added : alarm_scheduler_add_task (free_task ∷ []) (pos 3) (some 7) ≡ (pos 0, every_three ∷ [])
unfolding alarm_scheduler_add_task add_from
added = refl

-- Three of the ten signals hand the job 7 out.
abbrev is_seven : Option ℕ → Bool
is_seven none = false
is_seven (some j) = j == 7

three_in_ten : signals_handed is_seven true 10 (every_three ∷ free_task ∷ []) ≡ 3
unfolding signals_handed passing handle_sigalrm tick due ◌-ℤ◌
three_in_ten = refl

signals_handed-Counted_example :
    Counted 3 3 10
      (signals_handed is_seven true 10 (every_three ∷ free_task ∷ []))
      (ticks 10 every_three)
    × Only is_seven 0 (ticks 10 every_three) (signals true 10 (every_three ∷ free_task ∷ []))
    × (signals_handed is_seven false 10 (every_three ∷ free_task ∷ []) ≡ 0)
unfolding Only
signals_handed-Counted_example =
    signals_handed-Counted is_seven 3 10 3 0 (every_three ∷ free_task ∷ []) every_three refl
      (refl, (refl, tt))
      (record { on = refl; period = refl; left = refl; low = omega arith; high = omega arith })
