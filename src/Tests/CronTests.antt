-- ===== src/Tests/CronTests.antt =====
-- Raw cron expressions of core/services/schedule_service.py, rewritten to UTC.
use py_runner.Prelude.{pos, ◌≡◌, ◌⊎◌, refl, ap, true, false, ◌||◌, some, [], ◌∷◌}
use py_runner.Schedules.Clock.{local_time_to_utc}
use py_runner.Schedules.CronText.{
  Expression, star, special, add_hour, add_minute, groups_of, pairs_of,
}
use py_runner.Schedules.CronText.Groups.{in_groups, in_pairs, groups_of-exact}
use py_runner.Schedules.CronText.Rewrite.{
  refused, last_crosses, is_star, whole_hours, crosses, groups_for, is_refused, is_special,
  sort_groups, shifted_dom, expressions_of, cron_to_utc_expressions,
  cron_to_utc_expressions-refused,
}

-- 00:30, 09:30 and 10:30 in Tokyo: the first is on the UTC day before
groups_of-exact_example :
    in_groups 0 15 30 (groups_of (pairs_of (pos 540) false (0 ∷ 9 ∷ 10 ∷ []) (30 ∷ [])))
    ≡ in_pairs 0 15 30 (pairs_of (pos 540) false (0 ∷ 9 ∷ 10 ∷ []) (30 ∷ []))
groups_of-exact_example =
    groups_of-exact 0 15 30 (pairs_of (pos 540) false (0 ∷ 9 ∷ 10 ∷ []) (30 ∷ []))

-- "30 0 L * *" there
abbrev last_day : Expression
last_day = record {
  raw_dom = "L";
  raw_month = "*";
  raw_dow = "*";
  dom_is_star = false;
  dow_is_star = true;
  minutes = some (30 ∷ []);
  hours = some (0 ∷ []);
  doms = special;
  dows = star;
  has_nth = false;
}

last_day_refused : cron_to_utc_expressions (pos 540) last_day ≡ refused last_crosses
unfolding cron_to_utc_expressions groups_of add_hour add_minute sort_groups expressions_of
    shifted_dom local_time_to_utc
last_day_refused = refl

cron_to_utc_expressions-refused_example :
    ((is_star last_day.minutes ≡ true) × (whole_hours (pos 540) ≡ false))
    ⊎ ((crosses (groups_for (pos 540) last_day) ≡ true)
        × ((false || (is_special last_day.doms || is_special last_day.dows)) ≡ true))
cron_to_utc_expressions-refused_example =
    cron_to_utc_expressions-refused (pos 540) last_day (ap is_refused last_day_refused)
