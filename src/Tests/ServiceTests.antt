-- ===== src/Tests/ServiceTests.antt =====
-- Synchronisation, pause and resume of schedules, and the backup's schedule, at concrete tables.
use py_runner.Schedules.Service.Pause.Undone.{IsSpared, In, pause_all_schedules-undoes}
use py_runner.Prelude.{pos, ◌≡◌, refl, true, false, none, some, [], ◌∷◌, ◌++◌, arith}
use py_runner.Schedules.Model.{
  Time, ScriptSchedule, daily, interval, QSchedule, infra, script_name, foreign, no_suffix,
  worker_heartbeat, update_check, schedule_resync, scheduled_backup, auto_cleanup,
  worker_heartbeat_task, execute_scheduled_run, other, every_minutes,
}
use py_runner.Schedules.NextRun.{Local}
use py_runner.Schedules.Service.{
  Clock, NewRow, Table, create, create_all, create_for_mode, create_interval_schedule,
  delete_q_schedules, sync_schedule,
}
use py_runner.Schedules.Service.Sync.{numbered, wanted, others, sync_schedule-replaces}
use py_runner.Schedules.Service.Infrastructure.{BackupSettings, BackupSchedule}
use py_runner.Schedules.Service.Infrastructure.Ensure.{backup_due}
use py_runner.Schedules.Service.Pause.{System, pause_all_schedules, resume_all_schedules}
use py_runner.Schedules.Service.Pause.Infra.{has, resume_all_schedules-infrastructure}

abbrev nine : Time
nine = record { hour = 9; minute = 0 }

abbrev monday : Local
monday = record { year = 2024; month = 1; day = 1; second = 0 }

abbrev clock : Clock
clock = record {
  utc_now = 100;
  now = monday;
  offset = pos 0;
  to_utc = λ x. x;
  utc_fields = λ x. monday;
  croniter = λ e n. none;
  expand = λ e. none;
}

abbrev schedule : ScriptSchedule
schedule = record {
  key = 1;
  script = 7;
  is_active = true;
  run_mode = interval;
  interval_minutes = 60;
  daily_times = nine ∷ [];
  weekly_days = [];
  weekly_times = [];
  monthly_days = [];
  monthly_times = [];
  cron_expression = none;
  yearly_month = none;
  yearly_day = none;
  yearly_time = none;
  q_schedule_ids = 2 ∷ [];
  next_run = none;
  last_scheduled_run = none;
}

-- the heartbeat, a row of the script, and one of another program
abbrev heartbeat_row : QSchedule
heartbeat_row = record {
  id = 1;
  name = infra worker_heartbeat;
  func = worker_heartbeat_task;
  trigger = every_minutes 1;
  next_run = 60;
}

abbrev script_row : QSchedule
script_row = record {
  id = 2;
  name = script_name 7 no_suffix;
  func = execute_scheduled_run 7;
  trigger = every_minutes 60;
  next_run = 60;
}

abbrev foreign_row : QSchedule
foreign_row = record {
  id = 3;
  name = foreign "mail";
  func = other "mail.send";
  trigger = every_minutes 5;
  next_run = 60;
}

abbrev table : Table
table = record { rows = heartbeat_row ∷ script_row ∷ foreign_row ∷ []; next_id = 4 }

abbrev daily_schedule : ScriptSchedule
daily_schedule = record schedule { run_mode = daily; q_schedule_ids = 4 ∷ [] }

sync_schedule-replaces_example :
    let first = (sync_schedule clock false schedule table).0 in
    (sync_schedule clock false daily_schedule first).0.rows
    ≡ others schedule table.rows ++ numbered first.next_id (wanted clock false daily_schedule)
unfolding sync_schedule create_all create create_for_mode create_interval_schedule
    delete_q_schedules
sync_schedule-replaces_example =
    sync_schedule-replaces clock clock false false schedule daily_schedule table (omega arith) refl

abbrev heartbeat : NewRow
heartbeat = record {
  name = infra worker_heartbeat;
  func = worker_heartbeat_task;
  trigger = every_minutes 1;
  next_run = 100;
}

abbrev backup : BackupSettings
backup = record {
  s3_backup_enabled = true;
  s3_backup_schedule = BackupSchedule.weekly;
  s3_ready = true;
  s3_backup_time = nine;
  s3_backup_day = 6;
  offset = pos 540;
  now = 1000000;
  to_utc = λ x. x;
}

abbrev system : System
system = record {
  table = table;
  schedules = schedule ∷ [];
  schedules_paused = false;
  schedules_paused_at = none;
  schedules_paused_by = none;
}

false_not_true : false ≡ true → ⊥
false_not_true h = cc

pause_all_schedules-undoes_example :
    let synced = (sync_schedule clock false daily_schedule table).0 in
    let left = (pause_all_schedules (some 1) 100 system).0.table.rows in
    ((pause_all_schedules (some 1) 100 (record system { table = synced })).0.table.rows ≡ left)
    × ((r : QSchedule) → IsSpared r.name → In r table.rows → In r left)
pause_all_schedules-undoes_example =
    pause_all_schedules-undoes clock false daily_schedule (some 1) 100 system
      ((λ h. absurd (false_not_true h)), ((λ h. refl), ((λ h. absurd (false_not_true h)), tt)))

-- a pause of a table with a row left over from a script that is gone
abbrev left_over : QSchedule
left_over = record foreign_row { id = 9; name = foreign "pyrunner-old" }

orphan_counted :
    (pause_all_schedules none 100
      (record system { table = record table { rows = left_over ∷ [] } })).1
    ≡ 1
unfolding pause_all_schedules
orphan_counted = refl

abbrev cleared : ScriptSchedule
cleared = record schedule { q_schedule_ids = [] }

resume_all_schedules-infrastructure_example :
    let after = (resume_all_schedules (λ s. clock) backup true 100 system).0.table in
    (has worker_heartbeat after ≡ true)
    × (has update_check after ≡ true)
    × (has schedule_resync after ≡ true)
    × (backup_due backup ≡ true → has scheduled_backup after ≡ true)
    × (true ≡ true → has auto_cleanup after ≡ true)
resume_all_schedules-infrastructure_example =
    resume_all_schedules-infrastructure (λ s. clock) backup true 100 system
