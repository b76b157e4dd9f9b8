-- ===== src/Schedules/Clock.antt =====
-- `_local_time_to_utc`, and the cron fields that the weekly and monthly modes derive from it.
pub mod Weekly
pub mod Monthly
use py_runner.Prelude.{
  ℕ, suc, ℤ, ◌+◌, ◌-◌, ◌*◌, ◌/◌, ◌%◌, Bool, false, Option, none, List, [], ◌∷◌, map, any, sorted,
  member, pos_part, neg_part, ltb, leb, if◌then◌else◌,
}

-- UTC cron fields of a wall-clock time. `day_shift` is the source's -1, 0 or +1, plus one.
pub record UtcTime : Type 0 where
  pub hour : ℕ
  pub minute : ℕ
  pub day_shift : ℕ

-- The wall-clock minute in UTC, counted from the start of the day before. `offset` is the zone's
-- offset at that time, in minutes; Python keeps it within a day.
abbrev pub utc_minutes : ℤ → ℕ → ℕ → ℕ
utc_minutes offset hour minute = hour * 60 + minute + 1440 + neg_part offset - pos_part offset

-- `_local_time_to_utc`
unfoldable pub local_time_to_utc : ℤ → ℕ → ℕ → UtcTime
local_time_to_utc offset hour minute =
    let t = utc_minutes offset hour minute in
    record { hour = t % 1440 / 60; minute = t % 60; day_shift = t / 1440 }

-- `((d + day_shift) % 7 + 1) % 7`, from 0 = Monday to cron's 0 = Sunday
unfoldable pub cron_weekday : ℕ → ℕ → ℕ
cron_weekday day_shift d = ((d + day_shift + 6) % 7 + 1) % 7

-- The days of a month in a cron field: numbers, and whether croniter's 'l' (last day) follows.
pub record MonthDays : Type 0 where
  pub numbers : List ℕ
  pub last : Bool

-- `s < 1` and `str(s)` of `_shift_month_days`, with the shift plus one
abbrev pub is_last : ℕ → ℕ → Bool
is_last day_shift d = leb (d + day_shift) 1

abbrev pub number : ℕ → ℕ → ℕ
number day_shift d = if ltb 32 (d + day_shift) then 1 else d + day_shift - 1

abbrev pub numbers_of : ℕ → List ℕ → List ℕ
numbers_of day_shift [] = []
numbers_of day_shift (d ∷ days) =
    let rest = numbers_of day_shift days in
    if is_last day_shift d then rest else number day_shift d ∷ rest

-- the members of a set, once each
unfoldable pub distinct : List ℕ → List ℕ
distinct [] = []
distinct (x ∷ xs) = let rest = distinct xs in if member x rest then rest else x ∷ rest

-- `_shift_month_days`
unfoldable pub shift_month_days : List ℕ → ℕ → MonthDays
shift_month_days days day_shift = record {
  numbers = sorted (distinct (numbers_of day_shift days));
  last = any (is_last day_shift) days;
}

-- A five-field cron expression as the modes write it; an empty list and `none` are `*`.
pub record CronFields : Type 0 where
  pub minute : ℕ
  pub hour : ℕ
  pub month_days : MonthDays
  pub month : Option ℕ
  pub weekdays : List ℕ

abbrev pub any_day : MonthDays
any_day = record { numbers = []; last = false }

-- the expression that `_create_daily_schedules` makes for one time
unfoldable pub daily_cron : ℤ → ℕ → ℕ → CronFields
unfolding local_time_to_utc
daily_cron offset hour minute =
    let utc = local_time_to_utc offset hour minute in
    record {
      minute = utc.minute;
      hour = utc.hour;
      month_days = any_day;
      month = none;
      weekdays = [];
    }

-- the expression that `_create_weekly_schedules` makes for one time
unfoldable pub weekly_cron : ℤ → List ℕ → ℕ → ℕ → CronFields
unfolding local_time_to_utc cron_weekday
weekly_cron offset days hour minute =
    let utc = local_time_to_utc offset hour minute in
    record {
      minute = utc.minute;
      hour = utc.hour;
      month_days = any_day;
      month = none;
      weekdays = sorted (map (cron_weekday utc.day_shift) days);
    }

-- the expression that `_create_monthly_schedules` makes for one time
unfoldable pub monthly_cron : ℤ → List ℕ → ℕ → ℕ → CronFields
unfolding local_time_to_utc shift_month_days
monthly_cron offset days hour minute =
    let utc = local_time_to_utc offset hour minute in
    record {
      minute = utc.minute;
      hour = utc.hour;
      month_days = shift_month_days days utc.day_shift;
      month = none;
      weekdays = [];
    }
