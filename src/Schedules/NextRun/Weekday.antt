-- ===== src/Schedules/NextRun/Weekday.antt =====
-- The next run of the weekly mode is the least future occurrence on its weekdays.
use py_runner.Prelude.{
  ℕ, ◌%◌, ◌≤◌, ◌<◌, ◌≡◌, refl, Bool, true, ◌&&◌, Bool-cases, inl, inr, Option, List, [], ◌∷◌, map,
  All, member, leb, ◌==◌, ==→eq, String, arith,
}
use py_runner.Schedules.Model.{Time, ScriptSchedule, weekly}
use py_runner.Schedules.NextRun.{
  Local, seconds, instant, weekday, earliest, weekly_candidate, for_days, convert,
  calculate_next_run,
}
use py_runner.Schedules.NextRun.Least.{
  Clocked, runs_daily, First, Sound, Complete, Sound-weaken, Sound-append, any-append,
  earliest-First,
}

abbrev pub runs_weekly : List ℕ → List Time → ℕ → Bool
runs_weekly days times x = member (weekday x) days && runs_daily times x

weekly_candidate-future :
    (now day : ℕ) (t : Time)
    → Clocked t
    → day < 7
    → (now < weekly_candidate now day t)
      × (weekly_candidate now day t % 86400 ≡ seconds t)
      × (weekday (weekly_candidate now day t) ≡ day)
unfolding weekly_candidate
weekly_candidate-future now day t c d = ground arith

weekly_candidate-least :
    (now day : ℕ) (t : Time) (x : ℕ)
    → Clocked t
    → day < 7
    → now < x
    → x % 86400 ≡ seconds t
    → weekday x ≡ day
    → weekly_candidate now day t ≤ x
unfolding weekly_candidate
weekly_candidate-least now day t x c d later e w = ground arith

abbrev on_day : ℕ → List Time → ℕ → Bool
on_day day times x = weekday x == day && runs_daily times x

day-Sound :
    (now day : ℕ) (times : List Time)
    → day < 7
    → All Clocked times
    → Sound (on_day day times) now (map (weekly_candidate now day) times)
day-Sound now day [] d a = a
day-Sound now day (t ∷ ts) d a =
    let (later, at_time, at_day) = weekly_candidate-future now day t a.0 d in
    (
      (later, ground arith),
      Sound-weaken (on_day day ts) (on_day day (t ∷ ts)) now (map (weekly_candidate now day) ts)
          (λ c h. ground arith) (day-Sound now day ts d a.1),
    )

day-Complete :
    (now day : ℕ) (times : List Time)
    → day < 7
    → All Clocked times
    → Complete (on_day day times) now (map (weekly_candidate now day) times)
day-Complete now day [] d a x later h = ground arith
day-Complete now day (t ∷ ts) d a x later h = elim (Bool-cases (x % 86400 == seconds t)) [
  | inl here ↦
      let le = weekly_candidate-least now day t x a.0 d later (==→eq _ _ here) (ground arith) in
      ground arith
  | inr there ↦ let rest = day-Complete now day ts d a.1 x later (ground arith) in ground arith
]

weekly-Sound :
    (now : ℕ) (days : List ℕ) (times : List Time)
    → All (λ d. d < 7) days
    → All Clocked times
    → Sound (runs_weekly days times) now (for_days (weekly_candidate now) days times)
weekly-Sound now [] times d a = ground arith
weekly-Sound now (day ∷ days) times d a =
    Sound-append (runs_weekly (day ∷ days) times) now (map (weekly_candidate now day) times)
      (for_days (weekly_candidate now) days times)
      (Sound-weaken (on_day day times) (runs_weekly (day ∷ days) times) now
        (map (weekly_candidate now day) times) (λ c h. ground arith)
        (day-Sound now day times d.0 a))
      (Sound-weaken (runs_weekly days times) (runs_weekly (day ∷ days) times) now
        (for_days (weekly_candidate now) days times) (λ c h. ground arith)
        (weekly-Sound now days times d.1 a))

weekly-Complete :
    (now : ℕ) (days : List ℕ) (times : List Time)
    → All (λ d. d < 7) days
    → All Clocked times
    → Complete (runs_weekly days times) now (for_days (weekly_candidate now) days times)
weekly-Complete now [] times d a x later h = h
weekly-Complete now (day ∷ days) times d a x later h =
    rw
      (any-append (λ c. leb c x) (map (weekly_candidate now day) times)
        (for_days (weekly_candidate now) days times))
      (elim (Bool-cases (weekday x == day)) [
        | inl here ↦
            let first = day-Complete now day times d.0 a x later (ground arith) in ground arith
        | inr there ↦
            let rest = weekly-Complete now days times d.1 a x later (ground arith) in ground arith
      ])

-- The next run of an active weekly schedule is the first local time after now that has one of its
-- times of day and one of its weekdays, converted to UTC, or none if there is no such time.
pub calculate_next_run-weekly :
    (croniter : String → Local → Option ℕ) (to_utc : ℕ → ℕ) (utc_now : ℕ) (now : Local)
    (schedule : ScriptSchedule)
    → schedule.is_active ≡ true
    → schedule.run_mode ≡ weekly
    → All (λ d. d < 7) schedule.weekly_days
    → All Clocked schedule.weekly_times
    → (o : Option ℕ) × (calculate_next_run croniter to_utc utc_now now schedule ≡ convert to_utc o)
      × First (runs_weekly schedule.weekly_days schedule.weekly_times) (instant now) o
unfolding calculate_next_run
calculate_next_run-weekly croniter to_utc utc_now now schedule active mode valid clocked =
    let days = schedule.weekly_days in
    let times = schedule.weekly_times in
    let candidates = for_days (weekly_candidate (instant now)) days times in
    (
      earliest candidates,
      rw (active, mode) refl,
      earliest-First (runs_weekly days times) (instant now) candidates
          (weekly-Sound (instant now) days times valid clocked)
          (weekly-Complete (instant now) days times valid clocked),
    )
