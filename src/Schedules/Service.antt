-- ===== src/Schedules/Service.antt =====
-- `sync_schedule`, its create functions, `pause_all_schedules` and `resume_all_schedules` of
-- core/services/schedule_service.py, over django-q's table. A create function gives the rows it
-- makes, which depend on the schedule and the clock only; `create_all` is its loop.
pub mod Infrastructure
pub mod Sync
pub mod Pause
use py_runner.Prelude.{
  pos_part, neg_part, ◌==◌, ℕ, ℤ, suc, ◌+◌, ◌-◌, ◌*◌, ◌/◌, ◌%◌, Bool, true, false, not, ◌&&◌, ◌||◌,
  Option, none, some, List, [], ◌∷◌, ◌++◌, map, length, keep, member, if◌then◌else◌, String,
}
use py_runner.Schedules.Clock.{CronFields, MonthDays, daily_cron, weekly_cron, monthly_cron}
use py_runner.Schedules.CronText.{Expression}
use py_runner.Schedules.CronText.Rewrite.{unchanged, converted, refused, cron_to_utc_expressions}
use py_runner.Schedules.Model.{
  Time, RunMode, manual, interval, daily, weekly, monthly, cron, yearly, ScriptSchedule, Name,
  infra, script_name, foreign, Suffix, no_suffix, at_time, weekly_at, monthly_at, cron_index,
  yearly_at, Func, execute_scheduled_run, execute_yearly_scheduled_run, Trigger, every_minutes,
  at_fields, at_text, at_expression, QSchedule,
}
use py_runner.Schedules.NextRun.{Local, calculate_next_run, next_yearly_occurrence}

-- What the functions read: `timezone.now()`, the local time and the zone's offset of today in
-- minutes, zoneinfo's conversion, datetime's fields of a UTC instant, croniter's step, and its
-- expansion of an expression, `none` where it raises.
pub record Clock : Type 0 where
  pub utc_now : ℕ
  pub now : Local
  pub offset : ℤ
  pub to_utc : ℕ → ℕ
  pub utc_fields : ℕ → Local
  pub croniter : String → Local → Option ℕ
  pub expand : String → Option Expression

-- the columns that `QSchedule.objects.create` is given
pub record NewRow : Type 0 where
  pub name : Name
  pub func : Func
  pub trigger : Trigger
  pub next_run : ℕ

pub record Table : Type 0 where
  pub rows : List QSchedule
  pub next_id : ℕ

unfoldable pub create : NewRow → Table → Table
create new table = record {
  rows =
      table.rows
      ++ (record {
        id = table.next_id;
        name = new.name;
        func = new.func;
        trigger = new.trigger;
        next_run = new.next_run;
      }
          ∷ []);
  next_id = suc table.next_id;
}

-- the loop of a create function, and the ids it returns
unfoldable pub create_all : List NewRow → Table → Table × List ℕ
unfolding create
create_all [] table = (table, [])
create_all (new ∷ rest) table =
    let after = create_all rest (create new table) in (after.0, table.next_id ∷ after.1)

-- a row that runs the script at cron fields
abbrev cron_row : Clock → ScriptSchedule → Suffix → CronFields → NewRow
cron_row clock schedule suffix fields = record {
  name = script_name schedule.script suffix;
  func = execute_scheduled_run schedule.script;
  trigger = at_fields fields;
  next_run = clock.utc_now;
}

-- `_create_interval_schedule`
unfoldable pub create_interval_schedule : Clock → ScriptSchedule → List NewRow
create_interval_schedule clock schedule =
    record {
      name = script_name schedule.script no_suffix;
      func = execute_scheduled_run schedule.script;
      trigger = every_minutes schedule.interval_minutes;
      next_run = clock.utc_now;
    }
    ∷ []

-- `_create_daily_schedules`
unfoldable pub create_daily_schedules : Clock → ScriptSchedule → List NewRow
create_daily_schedules clock schedule =
    map (λ t. cron_row clock schedule (at_time t) (daily_cron clock.offset t.hour t.minute))
      schedule.daily_times

abbrev pub is_empty {ℓ} : {A : Type ℓ} → List A → Bool
is_empty [] = true
is_empty (x ∷ xs) = false

-- `_create_weekly_schedules`
unfoldable pub create_weekly_schedules : Clock → ScriptSchedule → List NewRow
create_weekly_schedules clock schedule =
    if is_empty schedule.weekly_days || is_empty schedule.weekly_times
    then []
    else map
        (λ t.
          cron_row clock schedule (weekly_at t)
            (weekly_cron clock.offset schedule.weekly_days t.hour t.minute))
        schedule.weekly_times

-- `_create_monthly_schedules`
unfoldable pub create_monthly_schedules : Clock → ScriptSchedule → List NewRow
create_monthly_schedules clock schedule =
    if is_empty schedule.monthly_days || is_empty schedule.monthly_times
    then []
    else map
        (λ t.
          cron_row clock schedule (monthly_at t)
            (monthly_cron clock.offset schedule.monthly_days t.hour t.minute))
        schedule.monthly_times

-- the triggers that `cron_to_utc_expressions` gives for a text, none if it raises
abbrev pub utc_triggers : Clock → String → List Trigger
utc_triggers clock text =
    if pos_part clock.offset + neg_part clock.offset == 0
    then at_text text ∷ []
    else elim (clock.expand text) [
      | none ↦ []
      | some e ↦ elim (cron_to_utc_expressions clock.offset e) [
        | unchanged ↦ at_text text ∷ []
        | converted expressions ↦ map at_expression expressions
        | refused _ ↦ []
      ]
    ]

abbrev cron_rows : Clock → ScriptSchedule → ℕ → List Trigger → List NewRow
cron_rows clock schedule index [] = []
cron_rows clock schedule index (t ∷ rest) =
    (record {
      name = script_name schedule.script (cron_index index);
      func = execute_scheduled_run schedule.script;
      trigger = t;
      next_run = clock.utc_now;
    })
    ∷ cron_rows clock schedule (suc index) rest

-- `_create_cron_schedule`; `cron_expression` is `none` when blank
unfoldable pub create_cron_schedule : Clock → ScriptSchedule → List NewRow
create_cron_schedule clock schedule = elim schedule.cron_expression [
  | none ↦ []
  | some text ↦ cron_rows clock schedule 0 (utc_triggers clock text)
]

abbrev yearly_row : Clock → ScriptSchedule → ℕ → NewRow
yearly_row clock schedule utc =
    let u = clock.utc_fields utc in
    record {
      name =
          script_name schedule.script
            (yearly_at schedule.yearly_month schedule.yearly_day schedule.yearly_time);
      func = execute_yearly_scheduled_run schedule.key;
      trigger = at_fields (record {
        minute = u.second / 60 % 60;
        hour = u.second / 3600;
        month_days = record { numbers = u.day ∷ []; last = false };
        month = some u.month;
        weekdays = [];
      });
      next_run = utc;
    }

-- `_create_yearly_schedule`
unfoldable pub create_yearly_schedule : Clock → ScriptSchedule → List NewRow
create_yearly_schedule clock schedule = elim (next_yearly_occurrence schedule clock.now) [
  | none ↦ []
  | some local ↦ yearly_row clock schedule (clock.to_utc local) ∷ []
]

-- the if-elif chain of `sync_schedule`
unfoldable pub create_for_mode : Clock → ScriptSchedule → List NewRow
create_for_mode clock schedule = elim schedule.run_mode [
  | manual ↦ []
  | interval ↦ create_interval_schedule clock schedule
  | daily ↦ create_daily_schedules clock schedule
  | weekly ↦ create_weekly_schedules clock schedule
  | monthly ↦ create_monthly_schedules clock schedule
  | cron ↦ create_cron_schedule clock schedule
  | yearly ↦ create_yearly_schedule clock schedule
]

abbrev pub is_manual : ScriptSchedule → Bool
is_manual schedule = elim schedule.run_mode [ manual ↦ true | _ ↦ false ]

unfoldable pub delete_q_schedules : ScriptSchedule → Table → Table
delete_q_schedules schedule table = record table {
  rows = keep (λ r. not (member r.id schedule.q_schedule_ids)) table.rows;
}

abbrev pub without_rows : ScriptSchedule → ScriptSchedule
without_rows schedule = record schedule { q_schedule_ids = []; next_run = none }

-- `sync_schedule`, with `settings.schedules_paused`
unfoldable pub sync_schedule : Clock → Bool → ScriptSchedule → Table → Table × ScriptSchedule
sync_schedule clock paused schedule table =
    let cleared = delete_q_schedules schedule table in
    if not schedule.is_active || is_manual schedule
    then (cleared, without_rows schedule)
    else if paused
    then (cleared, without_rows schedule)
    else let (after, ids) = create_all (create_for_mode clock schedule) cleared in
      (
        after,
        record schedule {
          q_schedule_ids = ids;
          next_run =
              calculate_next_run clock.croniter clock.to_utc clock.utc_now clock.now schedule;
        },
      )
