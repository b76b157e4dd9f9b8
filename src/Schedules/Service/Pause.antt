-- ===== src/Schedules/Service/Pause.antt =====
-- `pause_all_schedules` and `resume_all_schedules` of core/services/schedule_service.py.
pub mod Effects
pub mod Infra
pub mod Undone
use text.Mathlib.Text.{starts_with}
use py_runner.Prelude.{
  ℕ, suc, ◌+◌, Bool, true, false, not, ◌&&◌, ◌||◌, Option, none, some, List, [], ◌∷◌, map, keep,
  length, if◌then◌else◌,
}
use py_runner.Schedules.Model.{ScriptSchedule, Name, infra, script_name, foreign, QSchedule}
use py_runner.Schedules.Service.{Clock, Table, is_manual, without_rows, sync_schedule}
use py_runner.Schedules.Service.Infrastructure.{
  BackupSettings, ensure_heartbeat_schedule, ensure_update_check_schedule, ensure_resync_schedule,
  sync_backup_schedule, enable_auto_cleanup,
}

-- django-q's table, the schedules, and the fields of GlobalSettings that a pause writes
pub record System : Type 0 where
  pub table : Table
  pub schedules : List ScriptSchedule
  pub schedules_paused : Bool
  pub schedules_paused_at : Option ℕ
  pub schedules_paused_by : Option ℕ

-- `name__startswith="pyrunner-"`, and not one of INFRA_SCHEDULE_NAMES
abbrev pub is_script_name : Name → Bool
is_script_name (infra _) = false
is_script_name (script_name _ _) = true
is_script_name (foreign name) = starts_with name "pyrunner-"

abbrev pub is_script_row : QSchedule → Bool
is_script_row row = is_script_name row.name

-- `pause_all_schedules`, and the number of rows that it deletes
unfoldable pub pause_all_schedules : Option ℕ → ℕ → System → System × ℕ
pause_all_schedules user now s = (
  record {
    table = record s.table { rows = keep (λ r. not (is_script_row r)) s.table.rows };
    schedules = map without_rows s.schedules;
    schedules_paused = true;
    schedules_paused_at = some now;
    schedules_paused_by = user;
  },
  length (keep is_script_row s.table.rows),
)

-- the query of `resume_all_schedules`
abbrev pub is_resumed : ScriptSchedule → Bool
is_resumed schedule = schedule.is_active && not (is_manual schedule)

-- The loop of `resume_all_schedules`: the table, the schedules and the number of rows made. Each
-- schedule has the clock of its zone; `schedules_paused` is false by then.
unfoldable pub sync_all :
    (ScriptSchedule → Clock) → List ScriptSchedule → Table → Table × List ScriptSchedule × ℕ
sync_all clocks [] table = (table, [], 0)
sync_all clocks (schedule ∷ rest) table = elim (is_resumed schedule) [
  | true ↦
      let (after, synced) = sync_schedule (clocks schedule) false schedule table in
      let (last, others, count) = sync_all clocks rest after in
      (last, synced ∷ others, length synced.q_schedule_ids + count)
  | false ↦
      let (last, others, count) = sync_all clocks rest table in (last, schedule ∷ others, count)
]

-- the calls at the end of `resume_all_schedules`
unfoldable pub ensure_infrastructure : BackupSettings → Bool → ℕ → Table → Table
ensure_infrastructure backup auto_cleanup_enabled now table =
    let beating = (ensure_heartbeat_schedule now table).0 in
    let checking = (ensure_update_check_schedule now beating).0 in
    let resyncing = (ensure_resync_schedule now checking).0 in
    let backing_up = (sync_backup_schedule backup resyncing).0 in
    if auto_cleanup_enabled then enable_auto_cleanup now backing_up else backing_up

-- `resume_all_schedules`
unfoldable pub resume_all_schedules :
    (ScriptSchedule → Clock) → BackupSettings → Bool → ℕ → System → System × ℕ
resume_all_schedules clocks backup auto_cleanup_enabled now s =
    let (table, schedules, count) = sync_all clocks s.schedules s.table in
    (
      record {
        table = ensure_infrastructure backup auto_cleanup_enabled now table;
        schedules = schedules;
        schedules_paused = false;
        schedules_paused_at = none;
        schedules_paused_by = none;
      },
      count,
    )
