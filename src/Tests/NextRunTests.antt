-- ===== src/Tests/NextRunTests.antt =====
-- Monthly days, next runs and yearly dates of core/services/schedule_service.py at concrete values.
use py_runner.Prelude.{ℕ, ◌≤◌, ◌≡◌, refl, true, Option, none, some, [], ◌∷◌, member, arith, String}
use py_runner.Schedules.Clock.{shift_month_days}
use py_runner.Schedules.Clock.Monthly.{fires_on, utc_day, utc_length, shift_month_days-fires}
use py_runner.Schedules.Model.{Time, ScriptSchedule, daily, weekly}
use py_runner.Schedules.NextRun.{
  Local, ordinal, instant, convert, calculate_next_run, next_yearly_occurrence,
}
use py_runner.Schedules.NextRun.Least.{First}
use py_runner.Schedules.NextRun.Weekday.{runs_weekly, calculate_next_run-weekly}
use py_runner.Schedules.NextRun.Yearly.{FirstOn, next_yearly_occurrence-found}

-- days 1 and 15, a zone whose UTC day is the one before, on 1 March 2023
shift_month_days-fires_example :
    fires_on (shift_month_days (1 ∷ 15 ∷ []) 0) (utc_day 0 1 31 28) (utc_length 0 1 31 28 30)
    ≡ member 1 (1 ∷ 15 ∷ [])
shift_month_days-fires_example =
    shift_month_days-fires 0 1 31 28 30 (1 ∷ 15 ∷ [])
      (record {
        day_of_month = (omega arith, omega arith);
        this_month = (omega arith, omega arith);
        last_month = (omega arith, omega arith);
        next_month = (omega arith, omega arith);
      })
      (omega arith) (omega arith)

abbrev morning : Time
morning = record { hour = 9; minute = 30 }

abbrev evening : Time
evening = record { hour = 18; minute = 0 }

abbrev schedule : ScriptSchedule
schedule = record {
  key = 1;
  script = 7;
  is_active = true;
  run_mode = daily;
  interval_minutes = 60;
  daily_times = morning ∷ evening ∷ [];
  weekly_days = 0 ∷ 4 ∷ [];
  weekly_times = morning ∷ [];
  monthly_days = [];
  monthly_times = [];
  cron_expression = none;
  yearly_month = some 2;
  yearly_day = some 29;
  yearly_time = some morning;
  q_schedule_ids = [];
  next_run = none;
  last_scheduled_run = none;
}

-- noon of 1 March 2024
abbrev noon : Local
noon = record { year = 2024; month = 3; day = 1; second = 43200 }

abbrev no_croniter : String → Local → Option ℕ
no_croniter expression now = none

abbrev same_zone : ℕ → ℕ
same_zone x = x

abbrev weekly_schedule : ScriptSchedule
weekly_schedule = record schedule { run_mode = weekly }

calculate_next_run-weekly_example :
    (o : Option ℕ) × (calculate_next_run no_croniter same_zone 0 noon weekly_schedule
      ≡ convert same_zone o)
    × First (runs_weekly (0 ∷ 4 ∷ []) (morning ∷ [])) (instant noon) o
calculate_next_run-weekly_example =
    calculate_next_run-weekly no_croniter same_zone 0 noon weekly_schedule refl refl (omega arith)
      (omega arith)

-- 29 February, the day after it has passed
next_yearly_occurrence-found_example :
    (r j : ℕ) × (next_yearly_occurrence schedule noon ≡ some r)
    × (j ≤ 8)
    × FirstOn (instant noon) 2024 2 29 morning j r
unfolding instant ordinal
next_yearly_occurrence-found_example =
    next_yearly_occurrence-found schedule noon 2 29 morning
      (record {
        month_set = refl;
        day_set = refl;
        time_set = refl;
        month = (omega arith, omega arith);
        day = (omega arith, omega arith);
      })
      (omega arith) (omega arith)
