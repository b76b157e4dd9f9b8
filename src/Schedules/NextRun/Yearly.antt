-- ===== src/Schedules/NextRun/Yearly.antt =====
-- The nine years that `_next_yearly_occurrence` looks at always hold an occurrence.
use py_runner.Prelude.{
  ℕ, zero, suc, ◌+◌, ◌-◌, ◌*◌, ◌%◌, ◌≤◌, ◌<◌, ◌≡◌, ◌∙◌, refl, subst, true, Bool-cases, ◌⊎◌, inl,
  inr, Option, none, some, ltb, if◌then◌else◌, arith,
}
use py_runner.Schedules.Model.{Time, ScriptSchedule}
use py_runner.Schedules.NextRun.{
  Local, seconds, instant, is_leap, days_in_month, ordinal, on_date, yearly_from, yearly_of,
  next_yearly_occurrence,
}

-- `r` is the date's first time after `now`, in the year `year + j`: the years before have no such
-- date, or one that is past.
abbrev pub FirstOn : ℕ → ℕ → ℕ → ℕ → Time → ℕ → ℕ → Type 0
FirstOn now year m d t j r =
    (now < r)
    × (on_date (year + j) m d t ≡ some r)
    × ((i x : ℕ) → i < j → on_date (year + i) m d t ≡ some x → x ≤ now)

passes :
    (now : ℕ) (o : Option ℕ)
    → ((x : ℕ) × (o ≡ some x) × (now < x)) ⊎ ((x : ℕ) → o ≡ some x → x ≤ now)
passes now none = inr (λ x e. absurd (ground (arith, e)))
passes now (some y) = elim (Bool-cases (ltb now y)) [
  | inl future ↦ inl (y, refl, ground arith)
  | inr past ↦ inr (λ x e. ground arith)
]

takes :
    (now x : ℕ) (o rest : Option ℕ)
    → o ≡ some x
    → now < x
    → (elim o [ none ↦ rest | some candidate ↦ if ltb now candidate then some candidate else rest ])
      ≡ some x
takes now x o rest e future = rw e (ground arith)

skips :
    (now : ℕ) (o rest : Option ℕ)
    → ((x : ℕ) → o ≡ some x → x ≤ now)
    → (elim o [ none ↦ rest | some candidate ↦ if ltb now candidate then some candidate else rest ])
      ≡ rest
skips now none rest past = refl
skips now (some x) rest past = ground (arith, past x refl)

zero_or_suc : (k : ℕ) → (k ≡ 0) ⊎ ((k1 : ℕ) × (k ≡ 1 + k1))
zero_or_suc zero = inl refl
zero_or_suc (suc k) = inr (k, omega arith)

earlier_years :
    (now year m d : ℕ) (t : Time) (j : ℕ)
    → ((x : ℕ) → on_date year m d t ≡ some x → x ≤ now)
    → ((i x : ℕ) → i < j → on_date (year + 1 + i) m d t ≡ some x → x ≤ now)
    → (i x : ℕ) → i < suc j
    → on_date (year + i) m d t ≡ some x
    → x ≤ now
earlier_years now year m d t j here next zero x lt e =
    here x (subst (λ z. on_date z m d t ≡ some x) (omega arith) e)
earlier_years now year m d t j here next (suc i) x lt e =
    next i x (omega arith) (subst (λ z. on_date z m d t ≡ some x) (omega arith) e)

yearly_from-finds :
    (left now year m d : ℕ) (t : Time) (k c : ℕ)
    → k < left
    → on_date (year + k) m d t ≡ some c
    → now < c
    → (r j : ℕ) × (yearly_from left now year m d t ≡ some r) × (j ≤ k) × FirstOn now year m d t j r
unfolding yearly_from
yearly_from-finds zero now year m d t k c small e later = absurd (omega arith)
yearly_from-finds (suc left) now year m d t k c small e later =
    elim (passes now (on_date year m d t)) [
      | inl (x, here, future) ↦ (
        x,
        0,
        takes now x (on_date year m d t) (yearly_from left now (year + 1) m d t) here future,
        omega arith,
        (
          future,
          subst (λ z. on_date z m d t ≡ some x) (omega arith) here,
          λ i y lt. absurd (omega arith),
        ),
      )
      | inr past ↦ elim (zero_or_suc k) [
        | inl k_zero ↦
            let now_here = subst (λ z. on_date z m d t ≡ some c) (omega arith) e in
            absurd (omega (arith, past c now_here, later))
        | inr (k1, k_suc) ↦
            let (r, j, found, below, (future, exists, none_before)) =
              yearly_from-finds left now (year + 1) m d t k1 c (omega arith)
                (subst (λ z. on_date z m d t ≡ some c) (omega arith) e) later in
            (
              r,
              suc j,
              skips now (on_date year m d t) (yearly_from left now (year + 1) m d t) past ∙ found,
              omega arith,
              (
                future,
                subst (λ z. on_date z m d t ≡ some r) (omega arith) exists,
                earlier_years now year m d t j past none_before,
              ),
            )
      ]
    ]

-- a leap year at most eight years ahead
abbrev leap_ahead : ℕ → ℕ
leap_ahead y = let k = 4 - y % 4 in if is_leap (y + k) then k else k + 4

leap_ahead-leap :
    (y : ℕ) → (is_leap (y + leap_ahead y) ≡ true) × (1 ≤ leap_ahead y) × (leap_ahead y ≤ 8)
leap_ahead-leap y = ground arith

ordinal-later :
    (y k m d : ℕ)
    → 1 ≤ y
    → 1 ≤ k
    → 1 ≤ m
    → m ≤ 12
    → 1 ≤ d
    → ordinal (y + 1) 1 1 ≤ ordinal (y + k) m d
unfolding ordinal
ordinal-later y k m d a b c e f = ground arith

on_date-common :
    (y m d : ℕ) (t : Time)
    → 1 ≤ d
    → d ≤ days_in_month 1 m
    → on_date y m d t ≡ some (ordinal y m d * 86400 + seconds t)
unfolding on_date
on_date-common y m d t a b = ground arith

on_date-leap :
    (y m d : ℕ) (t : Time)
    → is_leap y ≡ true
    → 1 ≤ d
    → d ≤ days_in_month 4 m
    → on_date y m d t ≡ some (ordinal y m d * 86400 + seconds t)
unfolding on_date
on_date-leap y m d t l a b = ground arith

yearly_of-set :
    (now : Local) (m d : ℕ) (t : Time) (r : ℕ)
    → 1 ≤ m
    → 1 ≤ d
    → yearly_from 9 (instant now) now.year m d t ≡ some r
    → yearly_of (some m) (some d) (some t) now ≡ some r
yearly_of-set now m d t r a b e = ground (arith, e)

-- a yearly date that the form accepts: one of a leap year
pub record YearlyDate (schedule : ScriptSchedule) (m d : ℕ) (t : Time) : Type 0 where
  pub month_set : schedule.yearly_month ≡ some m
  pub day_set : schedule.yearly_day ≡ some d
  pub time_set : schedule.yearly_time ≡ some t
  pub month : (1 ≤ m) × (m ≤ 12)
  pub day : (1 ≤ d) × (d ≤ days_in_month 4 m)

-- Every yearly schedule on a date that exists in leap years, 29 February included, has a next run:
-- the first time after now, of the nine years from this one on, at which its date exists.
pub next_yearly_occurrence-found :
    (schedule : ScriptSchedule) (now : Local) (m d : ℕ) (t : Time)
    → YearlyDate schedule m d t
    → 1 ≤ now.year
    → instant now < ordinal (now.year + 1) 1 1 * 86400
    → (r j : ℕ) × (next_yearly_occurrence schedule now ≡ some r)
      × (j ≤ 8)
      × FirstOn (instant now) now.year m d t j r
unfolding next_yearly_occurrence
next_yearly_occurrence-found schedule now m d t date y this_year =
    let k = leap_ahead now.year in
    let (leap, ahead, near) = leap_ahead-leap now.year in
    let later = ordinal-later now.year k m d y ahead date.month.0 date.month.1 date.day.0 in
    let (r, j, found, below, (future, exists, none_before)) =
      yearly_from-finds 9 (instant now) now.year m d t k
        (ordinal (now.year + k) m d * 86400 + seconds t) (omega arith)
        (on_date-leap (now.year + k) m d t leap date.day.0 date.day.1) (omega arith) in
    (
      r,
      j,
      rw (date.month_set, date.day_set, date.time_set)
          (yearly_of-set now m d t r date.month.0 date.day.0 found),
      omega arith,
      (future, exists, none_before),
    )
