-- ===== src/Schedules/NextRun/Least.antt =====
-- The next run of the daily mode is the least future occurrence.
use py_runner.Prelude.{
  ℕ, ◌%◌, ◌≤◌, ◌<◌, ◌≡◌, refl, Bool, true, ◌||◌, Bool-cases, inl, inr, Option, none, some, List, [],
  ◌∷◌, ◌++◌, map, any, All, leb, ◌==◌, ==→eq, String, arith,
}
use py_runner.Schedules.Model.{Time, ScriptSchedule, daily}
use py_runner.Schedules.NextRun.{
  Local, seconds, instant, earliest, daily_candidate, convert, calculate_next_run,
}

abbrev pub Clocked : Time → Type 0
Clocked t = (t.hour < 24) × (t.minute < 60)

-- the local times at which a mode runs
abbrev pub runs_daily : List Time → ℕ → Bool
runs_daily times x = any (λ t. x % 86400 == seconds t) times

-- `r` is the first time after `now` at which `runs` holds
abbrev pub Next : (ℕ → Bool) → ℕ → ℕ → Type 0
Next runs now r = (now < r) × (runs r ≡ true) × ((x : ℕ) → now < x → runs x ≡ true → r ≤ x)

daily_candidate-future :
    (now : ℕ) (t : Time)
    → Clocked t
    → (now < daily_candidate now t) × (daily_candidate now t % 86400 ≡ seconds t)
unfolding daily_candidate
daily_candidate-future now t c = ground arith

daily_candidate-least :
    (now : ℕ) (t : Time) (x : ℕ)
    → Clocked t
    → now < x
    → x % 86400 ≡ seconds t
    → daily_candidate now t ≤ x
unfolding daily_candidate
daily_candidate-least now t x c later e = ground arith

-- `o` is the first such time, or there is none
abbrev pub First : (ℕ → Bool) → ℕ → Option ℕ → Type 0
First runs now none = (x : ℕ) → now < x → runs x ≡ true → ⊥
First runs now (some r) = Next runs now r

-- Candidates that lie in the future at times of `runs`, one of them no later than any such time.
abbrev pub Sound : (ℕ → Bool) → ℕ → List ℕ → Type 0
Sound runs now xs = All (λ c. (now < c) × (runs c ≡ true)) xs

abbrev pub Complete : (ℕ → Bool) → ℕ → List ℕ → Type 0
Complete runs now xs = (x : ℕ) → now < x → runs x ≡ true → any (λ c. leb c x) xs ≡ true

pub Sound-weaken :
    (f g : ℕ → Bool) (now : ℕ) (xs : List ℕ)
    → ((c : ℕ) → f c ≡ true → g c ≡ true)
    → Sound f now xs
    → Sound g now xs
Sound-weaken f g now [] w s = s
Sound-weaken f g now (x ∷ xs) w s = ((s.0.0, w x s.0.1), Sound-weaken f g now xs w s.1)

pub Sound-append :
    (f : ℕ → Bool) (now : ℕ) (xs ys : List ℕ)
    → Sound f now xs
    → Sound f now ys
    → Sound f now (xs ++ ys)
Sound-append f now [] ys a b = b
Sound-append f now (x ∷ xs) ys a b = (a.0, Sound-append f now xs ys a.1 b)

pub any-append : (p : ℕ → Bool) (xs ys : List ℕ) → any p (xs ++ ys) ≡ (any p xs || any p ys)
any-append p [] ys = refl
any-append p (x ∷ xs) ys = ground (arith, any-append p xs ys)

earliest-below :
    (x r : ℕ) (xs : List ℕ) → All (λ y. r ≤ y) xs → any (λ c. leb c x) xs ≡ true → r ≤ x
earliest-below x r [] a h = absurd (ground (arith))
earliest-below x r (y ∷ ys) a h = elim (Bool-cases (leb y x)) [
  | inl small ↦ ground arith
  | inr large ↦ earliest-below x r ys a.1 (ground arith)
]

lower : (x y : ℕ) (xs : List ℕ) → x ≤ y → All (λ z. y ≤ z) xs → All (λ z. x ≤ z) xs
lower x y [] le a = a
lower x y (z ∷ zs) le a = (omega (arith, a.0), lower x y zs le a.1)

-- `min` of a list that is not empty
earliest-cons :
    (P : ℕ → Type 0) (x : ℕ) (xs : List ℕ)
    → All P (x ∷ xs)
    → (r : ℕ) × (earliest (x ∷ xs) ≡ some r) × P r × All (λ y. r ≤ y) (x ∷ xs)
unfolding earliest
earliest-cons P x [] a = (x, refl, a.0, (omega arith, a.1))
earliest-cons P x (y ∷ ys) a =
    let (r, e, p, below) = earliest-cons P y ys a.1 in
    elim (Bool-cases (leb x r)) [
      | inl first ↦
          let le : x ≤ r = ground arith in
          (x, rw (e, first) refl, a.0, (omega arith, lower x r (y ∷ ys) le below))
      | inr later ↦ (r, rw (e, later) refl, p, (ground arith, below))
    ]

pub earliest-First :
    (runs : ℕ → Bool) (now : ℕ) (xs : List ℕ)
    → Sound runs now xs
    → Complete runs now xs
    → First runs now (earliest xs)
unfolding earliest
earliest-First runs now [] s c = λ x later h. absurd (ground (arith, c x later h))
earliest-First runs now (x ∷ xs) s c =
    let (r, e, p, below) = earliest-cons (λ c. (now < c) × (runs c ≡ true)) x xs s in
    rw e (p.0, p.1, λ y later h. earliest-below y r (x ∷ xs) below (c y later h))

daily-Sound :
    (now : ℕ) (times : List Time)
    → All Clocked times
    → Sound (runs_daily times) now (map (daily_candidate now) times)
daily-Sound now [] a = a
daily-Sound now (t ∷ ts) a =
    let (later, at_time) = daily_candidate-future now t a.0 in
    (
      (later, ground arith),
      Sound-weaken (runs_daily ts) (runs_daily (t ∷ ts)) now (map (daily_candidate now) ts)
          (λ c h. ground arith) (daily-Sound now ts a.1),
    )

daily-Complete :
    (now : ℕ) (times : List Time)
    → All Clocked times
    → Complete (runs_daily times) now (map (daily_candidate now) times)
daily-Complete now [] a x later h = h
daily-Complete now (t ∷ ts) a x later h = elim (Bool-cases (x % 86400 == seconds t)) [
  | inl here ↦ let le = daily_candidate-least now t x a.0 later (==→eq _ _ here) in ground arith
  | inr there ↦ let rest = daily-Complete now ts a.1 x later (ground arith) in ground arith
]

-- The next run of an active daily schedule is the first local time after now, of the right time of
-- day, converted to UTC, or none if there is no such time.
pub calculate_next_run-daily :
    (croniter : String → Local → Option ℕ) (to_utc : ℕ → ℕ) (utc_now : ℕ) (now : Local)
    (schedule : ScriptSchedule)
    → schedule.is_active ≡ true
    → schedule.run_mode ≡ daily
    → All Clocked schedule.daily_times
    → (o : Option ℕ) × (calculate_next_run croniter to_utc utc_now now schedule ≡ convert to_utc o)
      × First (runs_daily schedule.daily_times) (instant now) o
unfolding calculate_next_run
calculate_next_run-daily croniter to_utc utc_now now schedule active mode clocked =
    let times = schedule.daily_times in
    (
      earliest (map (daily_candidate (instant now)) times),
      rw (active, mode) refl,
      earliest-First (runs_daily times) (instant now) (map (daily_candidate (instant now)) times)
          (daily-Sound (instant now) times clocked) (daily-Complete (instant now) times clocked),
    )
