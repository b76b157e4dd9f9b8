-- ===== src/Tests/ScheduleTests.antt =====
-- core/services/schedule_service.py at concrete schedules.
use py_runner.Prelude.{pos, ◌+◌, ◌*◌, ◌%◌, ◌≡◌, refl, ◌&&◌, [], ◌∷◌, member, ◌==◌, arith}
use py_runner.Schedules.Clock.{weekly_cron}
use py_runner.Schedules.Clock.Weekly.{fires, weekday, weekly_cron-fires}

-- 00:30 in Tokyo is 15:30 UTC of the day before

-- a Monday schedule there, at the instant of its second Monday
weekly_cron-fires_example :
    fires (weekly_cron (pos 540) (0 ∷ 2 ∷ []) 0 30) 9570
    ≡ (10110 % 1440 == 0 * 60 + 30 && member (weekday 10110) (0 ∷ 2 ∷ []))
weekly_cron-fires_example =
    weekly_cron-fires (pos 540) (0 ∷ 2 ∷ []) 0 30 9570 10110 (omega arith) (omega arith)
      (omega arith) (omega arith) refl (omega arith)
