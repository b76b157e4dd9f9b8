-- ===== src/Schedules/Clock/Monthly.antt =====
-- A monthly schedule's day-of-month field, across the UTC date line.
use py_runner.Prelude.{
  ℕ, zero, suc, ◌+◌, ◌-◌, ◌≤◌, ◌≡◌, ◌∙◌, refl, sym, Bool, true, ◌&&◌, ◌||◌, Bool-cases, inl, inr,
  List, [], ◌∷◌, any, All, member, member-sorted, ◌==◌, ==→eq, if◌then◌else◌, arith,
}
use py_runner.Schedules.Clock.{MonthDays, is_last, number, numbers_of, distinct, shift_month_days}

-- when cron runs the field: on a day of a month of that length
abbrev pub fires_on : MonthDays → ℕ → ℕ → Bool
fires_on c day len = member day c.numbers || (c.last && day == len)

-- The UTC day of the local day `d` of a month of `n` days, and the length of the month it is in.
abbrev pub utc_day : ℕ → ℕ → ℕ → ℕ → ℕ
utc_day zero d n prev = if d == 1 then prev else d - 1
utc_day (suc zero) d n prev = d
utc_day (suc (suc s)) d n prev = if d == n then 1 else d + 1

abbrev pub utc_length : ℕ → ℕ → ℕ → ℕ → ℕ → ℕ
utc_length zero d n prev next = if d == 1 then prev else n
utc_length (suc zero) d n prev next = n
utc_length (suc (suc s)) d n prev next = if d == n then next else n

already : (z x : ℕ) (xs : List ℕ) → member x xs ≡ true → member z xs ≡ (z == x || member z xs)
already z x xs old = elim (Bool-cases (z == x)) [
  | inl same ↦ rw (same, ==→eq z x same, old)
  | inr other ↦ rw other
]

member-distinct : (z : ℕ) (xs : List ℕ) → member z (distinct xs) ≡ member z xs
unfolding distinct
member-distinct z [] = refl
member-distinct z (x ∷ xs) = elim (Bool-cases (member x (distinct xs))) [
  | inl old ↦ rw old (member-distinct z xs ∙ already z x xs (sym (member-distinct x xs) ∙ old))
  | inr new ↦ rw new (ground (arith, member-distinct z xs))
]

-- what one configured day contributes
abbrev contribution : ℕ → ℕ → ℕ → ℕ → Bool
contribution s day len d0 = if is_last s d0 then day == len else day == number s d0

contributions :
    (s day len : ℕ) (days : List ℕ)
    → (member day (numbers_of s days) || (any (is_last s) days && day == len))
      ≡ any (contribution s day len) days
contributions s day len [] = refl
contributions s day len (d ∷ days) = ground (arith, contributions s day len days)

pub record Calendar (d n prev next : ℕ) : Type 0 where
  pub day_of_month : (1 ≤ d) × (d ≤ n)
  pub this_month : (28 ≤ n) × (n ≤ 31)
  pub last_month : (28 ≤ prev) × (prev ≤ 31)
  pub next_month : (28 ≤ next) × (next ≤ 31)

contribution_exact :
    (s d0 d n prev next : ℕ)
    → Calendar d n prev next
    → s ≤ 2
    → (1 ≤ d0) × (d0 ≤ 27)
    → contribution s (utc_day s d n prev) (utc_length s d n prev next) d0 ≡ (d == d0)
contribution_exact zero d0 d n prev next c k b = ground arith
contribution_exact (suc zero) d0 d n prev next c k b = ground arith
contribution_exact (suc (suc zero)) d0 d n prev next c k b = ground arith
contribution_exact (suc (suc (suc s))) d0 d n prev next c k b = absurd (omega arith)

contributions_exact :
    (s d n prev next : ℕ) (days : List ℕ)
    → Calendar d n prev next
    → s ≤ 2
    → All (λ d0. (1 ≤ d0) × (d0 ≤ 27)) days
    → any (contribution s (utc_day s d n prev) (utc_length s d n prev next)) days ≡ member d days
contributions_exact s d n prev next [] c k a = refl
contributions_exact s d n prev next (d0 ∷ days) c k a =
    rw (contribution_exact s d0 d n prev next c k a.0)
      (rw (contributions_exact s d n prev next days c k a.1))

-- The shifted field of a monthly schedule on days 1 to 27 runs on the UTC day of a local day
-- exactly when that local day is one of the schedule's days: in months of 28 to 31 days, and with
-- the UTC day the local one, the one before or the one after.
pub shift_month_days-fires :
    (s d n prev next : ℕ) (days : List ℕ)
    → Calendar d n prev next
    → s ≤ 2
    → All (λ d0. (1 ≤ d0) × (d0 ≤ 27)) days
    → fires_on (shift_month_days days s) (utc_day s d n prev) (utc_length s d n prev next)
      ≡ member d days
unfolding shift_month_days
shift_month_days-fires s d n prev next days c k a =
    rw (member-sorted, member-distinct)
      (contributions s (utc_day s d n prev) (utc_length s d n prev next) days
        ∙ contributions_exact s d n prev next days c k a)
