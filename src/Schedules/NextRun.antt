-- ===== src/Schedules/NextRun.antt =====
-- `calculate_next_run` and `_next_yearly_occurrence` of core/services/schedule_service.py. Local
-- times are naive seconds since day 0 of the proleptic calendar, as datetime compares them in one
-- zone; `to_utc` is zoneinfo's conversion of such a time, and croniter's step is a parameter.
pub mod Least
pub mod Weekday
pub mod Yearly
use py_runner.Prelude.{
  ℕ, zero, suc, ◌+◌, ◌-◌, ◌*◌, ◌/◌, ◌%◌, Bool, true, false, not, ◌&&◌, ◌||◌, Option, none, some,
  List, [], ◌∷◌, ◌++◌, map, ltb, leb, ◌==◌, if◌then◌else◌, String,
}
use py_runner.Schedules.Model.{
  Time, ScriptSchedule, manual, interval, daily, weekly, monthly, cron, yearly,
}

-- the calendar of datetime
abbrev pub is_leap : ℕ → Bool
is_leap y = y % 4 == 0 && (not (y % 100 == 0) || y % 400 == 0)

abbrev pub days_in_month : ℕ → ℕ → ℕ
days_in_month y m =
    if m == 2
    then if is_leap y then 29 else 28
    else if m == 4 || m == 6 || m == 9 || m == 11
    then 30
    else 31

-- days of the months before `m` in a common year, from March on counted with February's 28
abbrev pub days_before_month : ℕ → ℕ → ℕ
days_before_month y m =
    let common = (367 * m - 362) / 12 in
    if leb m 2 then common else if is_leap y then common - 1 else common - 2

unfoldable pub ordinal : ℕ → ℕ → ℕ → ℕ
ordinal y m d =
    365 * (y - 1) + (y - 1) / 4 - (y - 1) / 100 + (y - 1) / 400 + days_before_month y m + d

abbrev pub day_seconds : ℕ
day_seconds = 86400

-- a datetime in the schedule's zone
pub record Local : Type 0 where
  pub year : ℕ
  pub month : ℕ
  pub day : ℕ
  pub second : ℕ

abbrev pub seconds : Time → ℕ
seconds t = t.hour * 3600 + t.minute * 60

unfoldable pub instant : Local → ℕ
instant now = ordinal now.year now.month now.day * day_seconds + now.second

-- `datetime.weekday`, 0 = Monday
abbrev pub weekday : ℕ → ℕ
weekday s = (s / day_seconds + 6) % 7

-- `min(candidates) if candidates else None`
unfoldable pub earliest : List ℕ → Option ℕ
earliest [] = none
earliest (x ∷ xs) = elim (earliest xs) [ none ↦ some x | some y ↦ some (if leb x y then x else y) ]

-- `now.replace(hour, minute)`, on the day of `now`
abbrev pub today_at : ℕ → Time → ℕ
today_at now t = now / day_seconds * day_seconds + seconds t

unfoldable pub daily_candidate : ℕ → Time → ℕ
daily_candidate now t =
    let candidate = today_at now t in
    if leb candidate now then candidate + day_seconds else candidate

unfoldable pub weekly_candidate : ℕ → ℕ → Time → ℕ
weekly_candidate now day t =
    let ahead = if ltb day (weekday now) then day + 7 - weekday now else day - weekday now in
    let candidate = today_at now t + ahead * day_seconds in
    if leb candidate now then candidate + 7 * day_seconds else candidate

abbrev pub for_days : (ℕ → Time → ℕ) → List ℕ → List Time → List ℕ
for_days f [] times = []
for_days f (d ∷ days) times = map (f d) times ++ for_days f days times

-- a date and time, if the month has that day
unfoldable pub on_date : ℕ → ℕ → ℕ → Time → Option ℕ
unfolding ordinal
on_date y m d t =
    if leb 1 d && leb d (days_in_month y m)
    then some (ordinal y m d * day_seconds + seconds t)
    else none

-- `replace(month=now.month + 1)`, or January of the next year
abbrev pub next_month : Local → ℕ → Time → Option ℕ
next_month now d t =
    if now.month == 12 then on_date (now.year + 1) 1 d t else on_date now.year (now.month + 1) d t

-- One pass of the monthly loop; `none` is its `continue`. A failing replace inside the `try` is
-- caught by the same handler, which makes the same replace again.
unfoldable pub monthly_candidate : Local → ℕ → Time → Option ℕ
unfolding instant
monthly_candidate now d t = elim (on_date now.year now.month d t) [
  | some candidate ↦ if leb candidate (instant now) then next_month now d t else some candidate
  | none ↦ next_month now d t
]

abbrev pub add : Option ℕ → List ℕ → List ℕ
add none xs = xs
add (some x) xs = x ∷ xs

abbrev pub monthly_day : Local → ℕ → List Time → List ℕ → List ℕ
monthly_day now d [] rest = rest
monthly_day now d (t ∷ times) rest = add (monthly_candidate now d t) (monthly_day now d times rest)

abbrev pub monthly_candidates : Local → List ℕ → List Time → List ℕ
monthly_candidates now [] times = []
monthly_candidates now (d ∷ days) times =
    monthly_day now d times (monthly_candidates now days times)

-- the loop over `range(9)`, `left` passes before its end
unfoldable pub yearly_from : ℕ → ℕ → ℕ → ℕ → ℕ → Time → Option ℕ
yearly_from zero now year m d t = none
yearly_from (suc left) now year m d t =
    let rest = yearly_from left now (year + 1) m d t in
    elim (on_date year m d t) [
      | none ↦ rest
      | some candidate ↦ if ltb now candidate then some candidate else rest
    ]

abbrev pub is_set : Option ℕ → Bool
is_set none = false
is_set (some n) = not (n == 0)

abbrev pub yearly_of : Option ℕ → Option ℕ → Option Time → Local → Option ℕ
yearly_of (some m) (some d) (some t) now =
    if is_set (some m) && is_set (some d) then yearly_from 9 (instant now) now.year m d t else none
yearly_of _ _ _ now = none

-- `_next_yearly_occurrence`
unfoldable pub next_yearly_occurrence : ScriptSchedule → Local → Option ℕ
next_yearly_occurrence schedule now =
    yearly_of schedule.yearly_month schedule.yearly_day schedule.yearly_time now

abbrev pub convert : (ℕ → ℕ) → Option ℕ → Option ℕ
convert to_utc none = none
convert to_utc (some x) = some (to_utc x)

-- `utc_now` is `timezone.now()`, and `now` the same instant on the local clock
unfoldable pub calculate_next_run :
    (String → Local → Option ℕ) → (ℕ → ℕ) → ℕ → Local → ScriptSchedule → Option ℕ
unfolding daily_candidate weekly_candidate
calculate_next_run croniter to_utc utc_now now schedule =
    if not schedule.is_active then none else elim schedule.run_mode [
      | manual ↦ none
      | interval ↦ some (utc_now + schedule.interval_minutes * 60)
      | daily ↦ convert to_utc (earliest (map (daily_candidate (instant now)) schedule.daily_times))
      | weekly ↦ convert to_utc (
          earliest
            (for_days (weekly_candidate (instant now)) schedule.weekly_days schedule.weekly_times))
      | monthly ↦
          convert to_utc
            (earliest (monthly_candidates now schedule.monthly_days schedule.monthly_times))
      | cron ↦ elim schedule.cron_expression [
        | none ↦ none
        | some expression ↦ croniter expression now
      ]
      | yearly ↦ convert to_utc (next_yearly_occurrence schedule now)
    ]
