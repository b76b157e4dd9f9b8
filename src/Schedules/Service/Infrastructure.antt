-- ===== src/Schedules/Service/Infrastructure.antt =====
-- PyRun's own rows in django-q's table: the `ensure_..._schedule` functions of
-- core/services/schedule_service.py, `BackupScheduleService.sync_schedule` of
-- core/services/backup_schedule_service.py and `enable_auto_cleanup` of
-- core/services/retention_service.py.
pub mod Ensure
use py_runner.Prelude.{
  ℕ, ℤ, ◌+◌, ◌-◌, ◌*◌, ◌/◌, ◌%◌, Bool, true, false, not, ◌&&◌, ◌||◌, Option, none, some, List, [],
  ◌∷◌, map, any, keep, ltb, leb, ◌==◌, if◌then◌else◌,
}
use py_runner.Schedules.Clock.{CronFields, weekly_cron}
use py_runner.Schedules.Model.{
  Time, Infra, worker_heartbeat, update_check, scheduled_backup, auto_cleanup, schedule_resync,
  infra_index, Name, infra, script_name, foreign, Func, worker_heartbeat_task,
  check_for_updates_task, resync_schedules_task, scheduled_backup_task, cleanup_old_runs_task,
  Trigger, every_minutes, every_day, at_fields, QSchedule,
}
use py_runner.Schedules.NextRun.{
  Local, instant, seconds, weekday, today_at, day_seconds, daily_candidate,
}
use py_runner.Schedules.Service.{NewRow, Table, create}

-- `name=...` of an infrastructure row
abbrev pub is_infra : Infra → QSchedule → Bool
is_infra k row = elim row.name [
  | infra i ↦ infra_index i == infra_index k
  | script_name _ _ ↦ false
  | foreign _ ↦ false
]

-- `ensure_..._schedule`: create the row unless one of that name exists
unfoldable pub ensure : Infra → NewRow → Table → Table × Bool
ensure k new table =
    if any (is_infra k) table.rows then (table, false) else (create new table, true)

unfoldable pub ensure_heartbeat_schedule : ℕ → Table → Table × Bool
unfolding ensure
ensure_heartbeat_schedule utc_now = ensure worker_heartbeat (record {
  name = infra worker_heartbeat;
  func = worker_heartbeat_task;
  trigger = every_minutes 1;
  next_run = utc_now;
})

unfoldable pub ensure_update_check_schedule : ℕ → Table → Table × Bool
unfolding ensure
ensure_update_check_schedule utc_now = ensure update_check (record {
  name = infra update_check;
  func = check_for_updates_task;
  trigger = every_day;
  next_run = utc_now;
})

unfoldable pub ensure_resync_schedule : ℕ → Table → Table × Bool
unfolding ensure
ensure_resync_schedule utc_now = ensure schedule_resync (record {
  name = infra schedule_resync;
  func = resync_schedules_task;
  trigger = every_day;
  next_run = utc_now;
})

pub data BackupSchedule : Type 0 where
  disabled : BackupSchedule
  daily : BackupSchedule
  weekly : BackupSchedule

-- the settings of backups; `s3_ready` is the test on the connection, `offset` and `now` the
-- instance zone's, and `to_utc` its conversion
pub record BackupSettings : Type 0 where
  pub s3_backup_enabled : Bool
  pub s3_backup_schedule : BackupSchedule
  pub s3_ready : Bool
  pub s3_backup_time : Time
  pub s3_backup_day : ℕ
  pub offset : ℤ
  pub now : ℕ
  pub to_utc : ℕ → ℕ

-- `_calculate_next_run`, before its conversion to UTC
unfoldable pub backup_next_run : BackupSettings → ℕ
backup_next_run s =
    let next_run = today_at s.now s.s3_backup_time in
    elim s.s3_backup_schedule [
      | disabled ↦ next_run
      | daily ↦ if leb next_run s.now then next_run + day_seconds else next_run
      | weekly ↦
          let target = s.s3_backup_day in
          let current = weekday s.now in
          if ltb target current || (target == current && leb next_run s.now)
          then next_run + (target + 7 - current) * day_seconds
          else next_run + (target - current) * day_seconds
    ]

-- the row that the backup mode makes
unfoldable pub backup_row : BackupSettings → Trigger → NewRow
unfolding backup_next_run
backup_row s trigger = record {
  name = infra scheduled_backup;
  func = scheduled_backup_task;
  trigger = trigger;
  next_run = s.to_utc (backup_next_run s);
}

-- `BackupScheduleService.sync_schedule`
unfoldable pub sync_backup_schedule : BackupSettings → Table → Table × Bool
sync_backup_schedule s table =
    let cleared = record table {
      rows = keep (λ r. not (is_infra scheduled_backup r)) table.rows;
    } in
    if not s.s3_backup_enabled then (cleared, false) else elim s.s3_backup_schedule [
      | disabled ↦ (cleared, false)
      | daily ↦
          if not s.s3_ready
          then (cleared, false)
          else (create (backup_row s every_day) cleared, true)
      | weekly ↦
          if not s.s3_ready
          then (cleared, false)
          else let fields =
              weekly_cron s.offset (s.s3_backup_day ∷ []) s.s3_backup_time.hour
                s.s3_backup_time.minute in
            (create (backup_row s (at_fields fields)) cleared, true)
    ]

-- `enable_auto_cleanup`: `update_or_create` of the row that runs every day at 02:00 UTC. Django
-- refuses that call if two rows bear the name; only this function makes one, and only if it is missing.
abbrev two_o_clock : Time
two_o_clock = record { hour = 2; minute = 0 }

abbrev pub update_cleanup : ℕ → QSchedule → QSchedule
update_cleanup next_run r =
    if is_infra auto_cleanup r
    then record r { func = cleanup_old_runs_task; trigger = every_day; next_run = next_run }
    else r

unfoldable pub enable_auto_cleanup : ℕ → Table → Table
enable_auto_cleanup utc_now table =
    let next_run = today_at utc_now two_o_clock in
    let next_run = if leb next_run utc_now then next_run + day_seconds else next_run in
    if any (is_infra auto_cleanup) table.rows
    then record table { rows = map (update_cleanup next_run) table.rows }
    else create
        (record {
          name = infra auto_cleanup;
          func = cleanup_old_runs_task;
          trigger = every_day;
          next_run = next_run;
        })
        table
