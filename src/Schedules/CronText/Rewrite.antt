-- ===== src/Schedules/CronText/Rewrite.antt =====
-- The rest of `cron_to_utc_expressions`: the order of the groups, their fields, and what is refused.
use py_runner.Prelude.{
  ℕ, ℤ, ◌+◌, ◌%◌, ◌≡◌, refl, sym, ◌∙◌, Bool, true, false, not, ◌&&◌, ◌||◌, ◌⊎◌, Option, none, some,
  List, [], ◌∷◌, map, any, sorted, length, neg_part, pos_part, ltb, ◌==◌, if◌then◌else◌, String,
  arith,
}
use py_runner.Schedules.Clock.{MonthDays, distinct, shift_month_days}
use py_runner.Schedules.CronText.{
  Expanded, star, numbers, special, Expression, Group, pairs_of, groups_of,
}

-- `sorted(groups.items())`: by the shift, then by the hours as tuples compare
abbrev pub hours_le : List ℕ → List ℕ → Bool
hours_le [] ys = true
hours_le (x ∷ xs) [] = false
hours_le (x ∷ xs) (y ∷ ys) = ltb x y || (x == y && hours_le xs ys)

abbrev pub group_le : Group → Group → Bool
group_le a b = ltb a.shift b.shift || (a.shift == b.shift && hours_le a.hours b.hours)

abbrev pub insert_group : Group → List Group → List Group
insert_group g [] = g ∷ []
insert_group g (x ∷ xs) =
    let rest = insert_group g xs in if group_le g x then g ∷ x ∷ xs else x ∷ rest

unfoldable pub sort_groups : List Group → List Group
sort_groups [] = []
sort_groups (g ∷ rest) = insert_group g (sort_groups rest)

-- a field of a resulting expression
pub data Field : Type 0 where
  every : Field
  raw : String → Field
  listed : List ℕ → Field
  days : MonthDays → Field

pub record UtcExpression : Type 0 where
  pub minute : Field
  pub hour : Field
  pub dom : Field
  pub month : Field
  pub dow : Field

-- the ValueErrors, and the two ways to return
pub data Error : Type 0 where
  fractional_offset nth_crosses last_crosses modifier_crosses : Error

pub data Result : Type 0 where
  unchanged : Result
  converted : List UtcExpression → Result
  refused : Error → Result

pub data DayField : Type 0 where
  day_ok : Field → DayField
  day_refused : Error → DayField

-- the day-of-month and day-of-week fields of a group that crosses midnight
unfoldable pub shifted_dom : Expression → ℕ → DayField
unfolding shift_month_days
shifted_dom e shift = elim e.doms [
  | star ↦ day_ok every
  | special ↦ day_refused last_crosses
  | numbers ds ↦ day_ok (days (shift_month_days ds shift))
]

unfoldable pub shifted_dow : Expression → ℕ → DayField
unfolding distinct
shifted_dow e shift = elim e.dows [
  | star ↦ day_ok every
  | special ↦ day_refused modifier_crosses
  | numbers ds ↦ day_ok (listed (sorted (distinct (map (λ d. (d + shift + 6) % 7) ds))))
]

abbrev hour_field : Group → Field
hour_field g = if length g.hours == 24 then every else listed g.hours

abbrev minute_field : Bool → Group → Field
minute_field star_min g = if star_min then every else listed (sorted g.minutes)

abbrev with_days : Expression → Bool → Group → Field → Field → UtcExpression
with_days e star_min g dom dow = record {
  minute = minute_field star_min g;
  hour = hour_field g;
  dom = dom;
  month = raw e.raw_month;
  dow = dow;
}

abbrev add_expression : UtcExpression → Result → Result
add_expression x (converted rest) = converted (x ∷ rest)
add_expression x r = r

-- one pass of the last loop, with what the passes after it give
abbrev add_shifted : Expression → Bool → Group → DayField → DayField → Result → Result
add_shifted e star_min g (day_refused error) dow rest = refused error
add_shifted e star_min g (day_ok dom) (day_refused error) rest = refused error
add_shifted e star_min g (day_ok dom) (day_ok dow) rest =
    add_expression (with_days e star_min g dom dow) rest

unfoldable pub expressions_of : Expression → Bool → List Group → Result
unfolding shifted_dom shifted_dow
expressions_of e star_min [] = converted []
expressions_of e star_min (g ∷ groups) =
    let rest = expressions_of e star_min groups in
    if g.shift == 1
    then add_expression (with_days e star_min g (raw e.raw_dom) (raw e.raw_dow)) rest
    else add_shifted e star_min g (shifted_dom e g.shift) (shifted_dow e g.shift) rest

abbrev pub all_hours : List ℕ
all_hours =
    0 ∷ 1 ∷ 2 ∷ 3 ∷ 4 ∷ 5 ∷ 6 ∷ 7 ∷ 8 ∷ 9 ∷ 10 ∷ 11 ∷ 12 ∷ 13 ∷ 14 ∷ 15 ∷ 16 ∷ 17 ∷ 18 ∷ 19 ∷ 20
    ∷ 21 ∷ 22 ∷ 23 ∷ []

abbrev pub or_else : List ℕ → Option (List ℕ) → List ℕ
or_else d none = d
or_else d (some xs) = xs

abbrev pub is_star : Option (List ℕ) → Bool
is_star none = true
is_star (some xs) = false

abbrev pub whole_hours : ℤ → Bool
whole_hours offset = (pos_part offset + neg_part offset) % 60 == 0

abbrev pub crosses : List Group → Bool
crosses groups = any (λ g. not (g.shift == 1)) groups

-- `cron_to_utc_expressions`, with today's offset in minutes
unfoldable pub cron_to_utc_expressions : ℤ → Expression → Result
unfolding groups_of sort_groups expressions_of
cron_to_utc_expressions offset e =
    let wild = e.dom_is_star && e.dow_is_star in
    let groups =
      groups_of (pairs_of offset wild (or_else all_hours e.hours) (or_else (0 ∷ []) e.minutes)) in
    if pos_part offset + neg_part offset == 0
    then unchanged
    else if is_star e.hours && is_star e.minutes
    then unchanged
    else if is_star e.hours && wild && whole_hours offset
    then unchanged
    else if is_star e.minutes && not (whole_hours offset)
    then refused fractional_offset
    else if crosses groups && e.has_nth
    then refused nth_crosses
    else expressions_of e (is_star e.minutes) (sort_groups groups)

abbrev pub is_refused : Result → Bool
is_refused r = elim r [ refused _ ↦ true | _ ↦ false ]

abbrev pub is_special : Expanded → Bool
is_special x = elim x [ special ↦ true | _ ↦ false ]

insert_group-crosses :
    (g : Group) (groups : List Group) → crosses (insert_group g groups) ≡ crosses (g ∷ groups)
insert_group-crosses g [] = refl
insert_group-crosses g (x ∷ xs) = ground (arith, insert_group-crosses g xs)

sort_groups-crosses : (groups : List Group) → crosses (sort_groups groups) ≡ crosses groups
unfolding sort_groups
sort_groups-crosses [] = refl
sort_groups-crosses (g ∷ rest) =
    ground (arith, insert_group-crosses g (sort_groups rest), sort_groups-crosses rest)

expressions_of-refused :
    (e : Expression) (star_min : Bool) (groups : List Group)
    → is_refused (expressions_of e star_min groups) ≡ true
    → (crosses groups ≡ true) × ((is_special e.doms || is_special e.dows) ≡ true)
unfolding expressions_of shifted_dom shifted_dow
expressions_of-refused e star_min [] h = absurd (ground (arith, h))
expressions_of-refused e star_min (g ∷ rest) h = (
  ground (arith, expressions_of-refused e star_min rest),
  ground (arith, expressions_of-refused e star_min rest),
)

abbrev pub wild_days : Expression → Bool
wild_days e = e.dom_is_star && e.dow_is_star

abbrev pub groups_for : ℤ → Expression → List Group
groups_for offset e =
    groups_of
      (pairs_of offset (wild_days e) (or_else all_hours e.hours) (or_else (0 ∷ []) e.minutes))

by_expressions :
    (offset : ℤ) (e : Expression)
    → is_refused (expressions_of e (is_star e.minutes) (sort_groups (groups_for offset e))) ≡ true
    → (crosses (groups_for offset e) ≡ true) × ((is_special e.doms || is_special e.dows) ≡ true)
by_expressions offset e h =
    let (over, odd) =
      expressions_of-refused e (is_star e.minutes) (sort_groups (groups_for offset e)) h in
    (sym (sort_groups-crosses (groups_for offset e)) ∙ over, odd)

-- the tests of the function, on their values
refused_by :
    (zone_is_utc every_hour every_minute wild whole over nth odd : Bool) (r : Result)
    → (is_refused r ≡ true → (over ≡ true) × (odd ≡ true))
    → is_refused (
        if zone_is_utc
        then unchanged
        else if every_hour && every_minute
        then unchanged
        else if every_hour && wild && whole
        then unchanged
        else if every_minute && not whole
        then refused fractional_offset
        else if over && nth
        then refused nth_crosses
        else r)
      ≡ true
    → ((every_minute ≡ true) × (whole ≡ false)) ⊎ ((over ≡ true) × ((nth || odd) ≡ true))
refused_by zone_is_utc every_hour every_minute wild whole over nth odd r by h = ground arith

-- An expression is refused only in the cases that the function documents: a `*` minute under an
-- offset that is not of whole hours, or a time that crosses UTC midnight together with a modifier
-- of the weekdays, the last day of the month, or a special weekday.
pub cron_to_utc_expressions-refused :
    (offset : ℤ) (e : Expression)
    → is_refused (cron_to_utc_expressions offset e) ≡ true
    → ((is_star e.minutes ≡ true) × (whole_hours offset ≡ false))
      ⊎ ((crosses (groups_for offset e) ≡ true)
          × ((e.has_nth || (is_special e.doms || is_special e.dows)) ≡ true))
unfolding cron_to_utc_expressions
cron_to_utc_expressions-refused offset e h =
    refused_by (pos_part offset + neg_part offset == 0) (is_star e.hours) (is_star e.minutes)
      (wild_days e) (whole_hours offset) (crosses (groups_for offset e)) e.has_nth
      (is_special e.doms || is_special e.dows)
      (expressions_of e (is_star e.minutes) (sort_groups (groups_for offset e)))
      (λ r. by_expressions offset e r) h
