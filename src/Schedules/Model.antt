-- ===== src/Schedules/Model.antt =====
-- ScriptSchedule of core/models/schedule.py, and django-q's Schedule as the services use it.
use py_runner.Prelude.{ℕ, Bool, Option, List, String}
use py_runner.Schedules.Clock.{CronFields}
use py_runner.Schedules.CronText.Rewrite.{UtcExpression}

-- a "HH:MM" string
pub record Time : Type 0 where
  pub hour : ℕ
  pub minute : ℕ

pub data RunMode : Type 0 where
  manual : RunMode
  interval : RunMode
  daily : RunMode
  weekly : RunMode
  monthly : RunMode
  cron : RunMode
  yearly : RunMode

-- `yearly_month`, `yearly_day` and `yearly_time` may be missing, and a cron expression may be blank
pub record ScriptSchedule : Type 0 where
  pub key : ℕ
  pub script : ℕ
  pub is_active : Bool
  pub run_mode : RunMode
  pub interval_minutes : ℕ
  pub daily_times : List Time
  pub weekly_days : List ℕ
  pub weekly_times : List Time
  pub monthly_days : List ℕ
  pub monthly_times : List Time
  pub cron_expression : Option String
  pub yearly_month : Option ℕ
  pub yearly_day : Option ℕ
  pub yearly_time : Option Time
  pub q_schedule_ids : List ℕ
  pub next_run : Option ℕ
  pub last_scheduled_run : Option ℕ

-- INFRA_SCHEDULE_NAMES
pub data Infra : Type 0 where
  worker_heartbeat : Infra
  update_check : Infra
  scheduled_backup : Infra
  auto_cleanup : Infra
  schedule_resync : Infra

abbrev pub infra_index : Infra → ℕ
infra_index worker_heartbeat = 0
infra_index update_check = 1
infra_index scheduled_backup = 2
infra_index auto_cleanup = 3
infra_index schedule_resync = 4

-- what follows "pyrunner-<script id>" in the name of a script's row
pub data Suffix : Type 0 where
  no_suffix : Suffix
  at_time : Time → Suffix
  weekly_at : Time → Suffix
  monthly_at : Time → Suffix
  cron_index : ℕ → Suffix
  yearly_at : Option ℕ → Option ℕ → Option Time → Suffix

-- The names of django-q rows: PyRun's own, those of scripts, and all others. A script's id is a UUID,
-- so no name is of the first two kinds.
pub data Name : Type 0 where
  infra : Infra → Name
  script_name : ℕ → Suffix → Name
  foreign : String → Name

-- the function that a row calls, with its argument
pub data Func : Type 0 where
  execute_scheduled_run : ℕ → Func
  execute_yearly_scheduled_run : ℕ → Func
  worker_heartbeat_task : Func
  check_for_updates_task : Func
  resync_schedules_task : Func
  scheduled_backup_task : Func
  cleanup_old_runs_task : Func
  other : String → Func

pub data Trigger : Type 0 where
  every_minutes : ℕ → Trigger
  every_day : Trigger
  at_fields : CronFields → Trigger
  at_text : String → Trigger
  at_expression : UtcExpression → Trigger

-- a row of django-q's table; all of them repeat for ever
pub record QSchedule : Type 0 where
  pub id : ℕ
  pub name : Name
  pub func : Func
  pub trigger : Trigger
  pub next_run : ℕ
