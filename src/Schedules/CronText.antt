-- ===== src/Schedules/CronText.antt =====
-- `cron_to_utc_expressions` of core/services/schedule_service.py. The text of the expression comes
-- as its fields, with the lists that croniter expands them to; `none` is `*`.
pub mod Groups
pub mod Rewrite
use py_runner.Prelude.{
  ℕ, zero, suc, ℤ, pos, ◌+◌, ◌-◌, ◌*◌, ◌/◌, ◌%◌, Bool, true, false, not, ◌&&◌, ◌||◌, Option, none,
  some, List, [], ◌∷◌, ◌++◌, map, any, member, sorted, length, neg_part, pos_part, ltb, leb, ◌==◌,
  if◌then◌else◌, String,
}
use py_runner.Schedules.Clock.{MonthDays, local_time_to_utc, distinct, shift_month_days}

-- a field that croniter expands: `*`, numbers, or something else, such as 'l' among the days
pub data Expanded : Type 0 where
  star : Expanded
  numbers : List ℕ → Expanded
  special : Expanded

-- the five raw fields that are used as they are, and the expansion
pub record Expression : Type 0 where
  pub raw_dom : String
  pub raw_month : String
  pub raw_dow : String
  pub dom_is_star : Bool
  pub dow_is_star : Bool
  pub minutes : Option (List ℕ)
  pub hours : Option (List ℕ)
  pub doms : Expanded
  pub dows : Expanded
  pub has_nth : Bool

-- one key of `by_key` with its set of hours, and one of `groups` with its set of minutes
pub record Entry : Type 0 where
  pub shift : ℕ
  pub minute : ℕ
  pub hours : List ℕ

pub record Group : Type 0 where
  pub shift : ℕ
  pub hours : List ℕ
  pub minutes : List ℕ

abbrev pub add_to_set : ℕ → List ℕ → List ℕ
add_to_set x xs = if member x xs then xs else xs ++ (x ∷ [])

-- `by_key.setdefault((day_shift, utc_minute), set()).add(utc_hour)`
unfoldable pub add_hour : ℕ → ℕ → ℕ → List Entry → List Entry
add_hour s m h [] = (record { shift = s; minute = m; hours = h ∷ [] }) ∷ []
add_hour s m h (e ∷ rest) =
    let others = add_hour s m h rest in
    if e.shift == s && e.minute == m
    then (record e { hours = add_to_set h e.hours }) ∷ rest
    else e ∷ others

abbrev pub same_list : List ℕ → List ℕ → Bool
same_list [] [] = true
same_list (x ∷ xs) (y ∷ ys) = x == y && same_list xs ys
same_list _ _ = false

-- `groups.setdefault((day_shift, tuple(sorted(utc_hours))), set()).add(utc_minute)`
unfoldable pub add_minute : ℕ → List ℕ → ℕ → List Group → List Group
add_minute s hours m [] = (record { shift = s; hours = hours; minutes = m ∷ [] }) ∷ []
add_minute s hours m (g ∷ rest) =
    let others = add_minute s hours m rest in
    if g.shift == s && same_list g.hours hours
    then (record g { minutes = add_to_set m g.minutes }) ∷ rest
    else g ∷ others

-- a UTC time with its shift, plus one; 1 throughout where there is nothing to shift
pub record Pair : Type 0 where
  pub shift : ℕ
  pub hour : ℕ
  pub minute : ℕ

abbrev pub pair_of : ℤ → Bool → ℕ → ℕ → Pair
unfolding local_time_to_utc
pair_of offset wild h m =
    let utc = local_time_to_utc offset h m in
    record { shift = if wild then 1 else utc.day_shift; hour = utc.hour; minute = utc.minute }

-- the two loops over hours and minutes
abbrev pub pairs_of_hour : ℤ → Bool → ℕ → List ℕ → List Pair
pairs_of_hour offset wild h minutes = map (λ m. pair_of offset wild h m) minutes

abbrev pub pairs_of : ℤ → Bool → List ℕ → List ℕ → List Pair
pairs_of offset wild [] minutes = []
pairs_of offset wild (h ∷ hours) minutes =
    pairs_of_hour offset wild h minutes ++ pairs_of offset wild hours minutes

abbrev pub by_key : List Pair → List Entry → List Entry
by_key [] entries = entries
by_key (p ∷ rest) entries = by_key rest (add_hour p.shift p.minute p.hour entries)

abbrev pub regroup : List Entry → List Group → List Group
regroup [] groups = groups
regroup (e ∷ rest) groups = regroup rest (add_minute e.shift (sorted e.hours) e.minute groups)

-- the groups of the pairs
unfoldable pub groups_of : List Pair → List Group
groups_of pairs = regroup (by_key pairs []) []
