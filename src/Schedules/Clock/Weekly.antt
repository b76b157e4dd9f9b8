-- ===== src/Schedules/Clock/Weekly.antt =====
-- A weekly schedule fires at its local times on its local weekdays, whatever the offset.
use py_runner.Prelude.{
  ℕ, ℤ, ◌+◌, ◌-◌, ◌*◌, ◌/◌, ◌%◌, ◌≤◌, ◌<◌, ◌≡◌, refl, Bool, false, ◌&&◌, List, [], ◌∷◌, map, All,
  member, member-sorted, pos_part, neg_part, ◌==◌, ==→eq, ==_refl, ==_cong, Bool-cases, inl, inr,
  arith,
}
use py_runner.Schedules.Clock.{
  CronFields, utc_minutes, local_time_to_utc, cron_weekday, weekly_cron,
}

-- Python's bound on an offset
abbrev pub WithinDay : ℤ → Type 0
WithinDay offset = (pos_part offset < 1440) × (neg_part offset < 1440)

-- The UTC fields are in range, and they name the same instant as the local time: the UTC minute of
-- the shifted day plus the offset is the local minute.
pub local_time_to_utc_lem :
    (offset : ℤ) (hour minute : ℕ)
    → WithinDay offset
    → hour < 24
    → minute < 60
    → let u = local_time_to_utc offset hour minute in
      (u.hour < 24)
      × (u.minute < 60)
      × (u.day_shift ≤ 2)
      × (u.day_shift * 1440 + u.hour * 60 + u.minute + pos_part offset
          ≡ hour * 60 + minute + 1440 + neg_part offset)
unfolding local_time_to_utc
local_time_to_utc_lem offset hour minute w h m = omega arith

-- Cron's weekday of a UTC minute counted from the start of a Monday, and the local one.
abbrev pub utc_cron_weekday : ℕ → ℕ
utc_cron_weekday u = (u / 1440 % 7 + 1) % 7

abbrev pub weekday : ℕ → ℕ
weekday l = l / 1440 % 7

-- when cron runs an expression with free day-of-month and month fields
abbrev pub fires : CronFields → ℕ → Bool
fires c u = u % 60 == c.minute && u / 60 % 24 == c.hour && member (utc_cron_weekday u) c.weekdays

-- the UTC day is the local day moved by the shift
shifted_day :
    (p n t l u : ℕ)
    → p < 1440
    → n < 1440
    → t < 1440
    → l + n ≡ u + p
    → l % 1440 ≡ t
    → 1440 ≤ l
    → u / 1440 + 1 ≡ l / 1440 + (t + 1440 + n - p) / 1440
shifted_day p n t l u a b c e f g = omega arith

weekday_of_shifted :
    (x y s d : ℕ)
    → s ≤ 2
    → d < 7
    → y + 1 ≡ x + s
    → (y % 7 + 1) % 7 ≡ ((d + s + 6) % 7 + 1) % 7
    → x % 7 ≡ d
weekday_of_shifted x y s d a b e h = omega arith

shifted_of_weekday :
    (x y s d : ℕ)
    → s ≤ 2
    → d < 7
    → y + 1 ≡ x + s
    → x % 7 ≡ d
    → (y % 7 + 1) % 7 ≡ ((d + s + 6) % 7 + 1) % 7
shifted_of_weekday x y s d a b e h = omega arith

same_weekday :
    (offset : ℤ) (hour minute u l d : ℕ)
    → WithinDay offset
    → hour < 24
    → minute < 60
    → l + neg_part offset ≡ u + pos_part offset
    → l % 1440 ≡ hour * 60 + minute
    → 1440 ≤ l
    → d < 7
    → (utc_cron_weekday u == cron_weekday (local_time_to_utc offset hour minute).day_shift d)
      ≡ (weekday l == d)
unfolding local_time_to_utc cron_weekday
same_weekday offset hour minute u l d w h m e t far dd =
    let shift =
      shifted_day (pos_part offset) (neg_part offset) (hour * 60 + minute) l u w.0 w.1 (omega arith)
        e t far in
    let s = utc_minutes offset hour minute / 1440 in
    let small : s ≤ 2 = omega arith in
    ==_cong _ _ _ _ (weekday_of_shifted (l / 1440) (u / 1440) s d small dd shift)
      (shifted_of_weekday (l / 1440) (u / 1440) s d small dd shift)

same_weekdays :
    (offset : ℤ) (hour minute u l : ℕ) (days : List ℕ)
    → WithinDay offset
    → hour < 24
    → minute < 60
    → l + neg_part offset ≡ u + pos_part offset
    → l % 1440 ≡ hour * 60 + minute
    → 1440 ≤ l
    → All (λ d. d < 7) days
    → member
        (utc_cron_weekday u)
        (map (cron_weekday (local_time_to_utc offset hour minute).day_shift) days)
      ≡ member (weekday l) days
same_weekdays offset hour minute u l [] w h m e t far a = refl
same_weekdays offset hour minute u l (d ∷ days) w h m e t far a = rw (
  same_weekday offset hour minute u l d w h m e t far a.0,
  same_weekdays offset hour minute u l days w h m e t far a.1,
)

-- the minute and hour fields fit exactly at the local time
time_fields :
    (p n h m l u : ℕ)
    → p < 1440
    → n < 1440
    → h < 24
    → m < 60
    → l + n ≡ u + p
    → l % 1440 ≡ h * 60 + m
    → (u % 60 ≡ (h * 60 + m + 1440 + n - p) % 60)
      × (u / 60 % 24 ≡ (h * 60 + m + 1440 + n - p) % 1440 / 60)
time_fields p n h m l u a b c d e t = omega arith

time_of_fields :
    (p n h m l u : ℕ)
    → p < 1440
    → n < 1440
    → h < 24
    → m < 60
    → l + n ≡ u + p
    → u % 60 ≡ (h * 60 + m + 1440 + n - p) % 60
    → u / 60 % 24 ≡ (h * 60 + m + 1440 + n - p) % 1440 / 60
    → l % 1440 ≡ h * 60 + m
time_of_fields p n h m l u a b c d e f g = omega arith

not_at_time :
    (offset : ℤ) (hour minute u l : ℕ) (b : Bool)
    → WithinDay offset
    → hour < 24
    → minute < 60
    → l + neg_part offset ≡ u + pos_part offset
    → (l % 1440 == hour * 60 + minute) ≡ false
    → (u % 60 == utc_minutes offset hour minute % 60
        && u / 60 % 24 == utc_minutes offset hour minute % 1440 / 60
        && b)
      ≡ false
not_at_time offset hour minute u l b w h m e n =
    elim (Bool-cases (u % 60 == utc_minutes offset hour minute % 60)) [
      | inr f ↦ rw f
      | inl f ↦ elim (Bool-cases (u / 60 % 24 == utc_minutes offset hour minute % 1440 / 60)) [
        | inr g ↦ rw (f, g)
        | inl g ↦
            let at_time =
              time_of_fields (pos_part offset) (neg_part offset) hour minute l u w.0 w.1 h m e
                (==→eq _ _ f) (==→eq _ _ g) in
            absurd (ground (arith))
      ]
    ]

-- The cron expression of a weekly time fires at a UTC minute exactly when the local minute has that
-- wall-clock time and its local weekday is one of the schedule's days. `u` and `l` are one instant,
-- in minutes since the start of some Monday in UTC and on the local clock, a day or more after it.
pub weekly_cron-fires :
    (offset : ℤ) (days : List ℕ) (hour minute u l : ℕ)
    → WithinDay offset
    → hour < 24
    → minute < 60
    → All (λ d. d < 7) days
    → l + neg_part offset ≡ u + pos_part offset
    → 1440 ≤ l
    → fires (weekly_cron offset days hour minute) u
      ≡ (l % 1440 == hour * 60 + minute && member (weekday l) days)
unfolding weekly_cron
weekly_cron-fires offset days hour minute u l w h m a e far =
    elim (Bool-cases (l % 1440 == hour * 60 + minute)) [
      | inl t ↦
          let at_time = ==→eq _ _ t in
          let (mm, hh) =
            time_fields (pos_part offset) (neg_part offset) hour minute l u w.0 w.1 h m e at_time in
          rw (t, member-sorted, same_weekdays offset hour minute u l days w h m e at_time far a)
            (rw (mm, hh) (rw (==_refl, ==_refl)))
      | inr n ↦ rw n (not_at_time offset hour minute u l _ w h m e n)
    ]
