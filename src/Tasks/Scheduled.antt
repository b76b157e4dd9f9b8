-- ===== src/Tasks/Scheduled.antt =====
-- `queue_script_run`, `execute_scheduled_run` and `execute_yearly_scheduled_run` of core/tasks.py,
-- and `stamp_library_versions` of core/services/library_service.py. The ids are parsed UUIDs.
pub mod Guards
use py_runner.Prelude.{
  ℕ, suc, ◌+◌, Bool, true, false, not, ◌&&◌, ◌||◌, Option, none, some, List, [], ◌∷◌, ◌++◌, map,
  ◌==◌, if◌then◌else◌, String,
}
use py_runner.Runs.Model.{Run, Status, pending, is_pending}
use py_runner.Schedules.Model.{ScriptSchedule, yearly}
use py_runner.Schedules.NextRun.{calculate_next_run, Local}
use py_runner.Schedules.Service.{Clock, is_empty}

pub record Library : Type 0 where
  pub key : String
  pub current_version : ℕ

pub record Script : Type 0 where
  pub key : ℕ
  pub is_enabled : Bool
  pub is_archived : Bool
  pub code : String
  pub workspace : Option ℕ
  pub timeout_seconds : ℕ
  pub libraries : List Library
  pub schedule : Option ScriptSchedule

-- a row of the runs table with what a scheduled run adds to it
pub record RunRow : Type 0 where
  pub run : Run
  pub script : ℕ
  pub is_scheduled : Bool
  pub code_snapshot : String
  pub library_versions : Option (List (String × ℕ))

-- `async_task("core.tasks.execute_run_task", ...)`
pub record Task : Type 0 where
  pub run : ℕ
  pub timeout : ℕ

pub record World : Type 0 where
  pub schedules_paused : Bool
  pub scripts : List Script
  pub runs : List RunRow
  pub next_run_key : ℕ
  pub tasks : List Task

pub data Response : Type 0 where
  paused : Response
  script_not_found : Response
  script_archived : Response
  script_disabled : Response
  schedule_inactive : Response
  no_schedule : Response
  schedule_not_found : Response
  yearly_schedule_inactive : Response
  outside_local_date : Response
  not_pending : Response
  started : ℕ → Response

-- the map of the attached libraries that have a revision
unfoldable pub versions : List Library → List (String × ℕ)
versions [] = []
versions (l ∷ rest) =
    let others = versions rest in
    if l.current_version == 0 then others else (l.key, l.current_version) ∷ others

-- `stamp_library_versions`
unfoldable pub stamp_library_versions : Script → RunRow → RunRow
unfolding versions
stamp_library_versions script row =
    let pinned = versions script.libraries in
    if is_empty pinned then row else record row {
      library_versions = some pinned;
      run = record row.run { has_libraries = true };
    }

-- `queue_script_run`; `none` is its ValueError, and `task_id` what async_task returns
unfoldable pub queue_script_run : Script → String → RunRow → Option (RunRow × Task)
queue_script_run script task_id row =
    if not (is_pending row.run.status)
    then none
    else let stamped = stamp_library_versions script row in
      some (
        record stamped { run = record stamped.run { task_id = task_id } },
        record { run = row.run.key; timeout = script.timeout_seconds + 60 },
      )

abbrev pub can_run : Script → Bool
can_run script = script.is_enabled && not script.is_archived

abbrev pub find_script : ℕ → List Script → Option Script
find_script k [] = none
find_script k (s ∷ rest) = let others = find_script k rest in if s.key == k then some s else others

-- saves the schedule of a script
abbrev pub put_schedule : ℕ → ScriptSchedule → List Script → List Script
put_schedule k schedule scripts =
    map (λ s. if s.key == k then record s { schedule = some schedule } else s) scripts

-- `Run.objects.create` of a scheduled run
unfoldable pub new_run : ℕ → ℕ → Script → RunRow
new_run key now script = record {
  run = record {
    key = key;
    status = pending;
    exit_code = none;
    stdout = "";
    stderr = "";
    started_at = none;
    ended_at = none;
    pid = none;
    task_id = "";
    created_at = now;
    timeout_seconds = script.timeout_seconds;
    has_libraries = false;
    workspace = script.workspace;
  };
  script = script.key;
  is_scheduled = true;
  code_snapshot = script.code;
  library_versions = none;
}

-- the end of `execute_scheduled_run`, from the creation of the run on
unfoldable pub start_run : Clock → String → World → Script → ScriptSchedule → World × Response
start_run clock task_id w script schedule =
    let row = new_run w.next_run_key clock.utc_now script in
    let tracked = record schedule { last_scheduled_run = some clock.utc_now } in
    let next = calculate_next_run clock.croniter clock.to_utc clock.utc_now clock.now tracked in
    elim (queue_script_run script task_id row) [
      | none ↦ (
        record w {
          scripts = put_schedule script.key tracked w.scripts;
          runs = w.runs ++ (row ∷ []);
          next_run_key = suc w.next_run_key;
        },
        not_pending,
      )
      | some (queued, task) ↦ (
        record w {
          scripts = put_schedule script.key (record tracked { next_run = next }) w.scripts;
          runs = w.runs ++ (queued ∷ []);
          next_run_key = suc w.next_run_key;
          tasks = w.tasks ++ (task ∷ []);
        },
        started row.run.key,
      )
    ]

-- The tests of `execute_scheduled_run` in their order, each on the value that it reads: whether the
-- schedule is active, whether the script can run and has a schedule, the pause and the script.
unfoldable pub if_active :
    Clock → String → World → Script → ScriptSchedule → Bool → World × Response
if_active clock task_id w script schedule true = start_run clock task_id w script schedule
if_active clock task_id w script schedule false = (w, schedule_inactive)

unfoldable pub if_can_run :
    Clock → String → World → Script → Bool → Option ScriptSchedule → World × Response
unfolding if_active
if_can_run clock task_id w script false o =
    (w, if script.is_archived then script_archived else script_disabled)
if_can_run clock task_id w script true none = (w, no_schedule)
if_can_run clock task_id w script true (some schedule) =
    if_active clock task_id w script schedule schedule.is_active

unfoldable pub if_unpaused : Clock → String → World → Bool → Option Script → World × Response
unfolding if_can_run
if_unpaused clock task_id w true o = (w, paused)
if_unpaused clock task_id w false none = (w, script_not_found)
if_unpaused clock task_id w false (some script) =
    if_can_run clock task_id w script (can_run script) script.schedule

-- `execute_scheduled_run`
unfoldable pub execute_scheduled_run : Clock → String → ℕ → World → World × Response
unfolding if_unpaused
execute_scheduled_run clock task_id script_id w =
    if_unpaused clock task_id w w.schedules_paused (find_script script_id w.scripts)

abbrev pub find_schedule : ℕ → List Script → Option ScriptSchedule
find_schedule k [] = none
find_schedule k (s ∷ rest) =
    let others = find_schedule k rest in
    elim s.schedule [
      | none ↦ others
      | some schedule ↦ if schedule.key == k then some schedule else others
    ]

abbrev pub is_yearly : ScriptSchedule → Bool
is_yearly schedule = elim schedule.run_mode [ yearly ↦ true | _ ↦ false ]

abbrev pub same_number : Option ℕ → ℕ → Bool
same_number none n = false
same_number (some m) n = m == n

abbrev pub on_local_date : Local → ScriptSchedule → Bool
on_local_date now schedule =
    same_number schedule.yearly_month now.month && same_number schedule.yearly_day now.day

-- the tests of `execute_yearly_scheduled_run`, as above
unfoldable pub if_due : Clock → String → World → ScriptSchedule → Bool → Bool → World × Response
if_due clock task_id w schedule true on_date = (w, yearly_schedule_inactive)
if_due clock task_id w schedule false false = (w, outside_local_date)
if_due clock task_id w schedule false true = execute_scheduled_run clock task_id schedule.script w

unfoldable pub if_found : Clock → String → World → Option ScriptSchedule → World × Response
unfolding if_due
if_found clock task_id w none = (w, schedule_not_found)
if_found clock task_id w (some schedule) =
    if_due clock task_id w schedule (not schedule.is_active || not (is_yearly schedule))
      (on_local_date clock.now schedule)

-- `execute_yearly_scheduled_run`; the clock is the one of the schedule's zone
unfoldable pub execute_yearly_scheduled_run : Clock → String → ℕ → World → World × Response
unfolding if_found
execute_yearly_scheduled_run clock task_id schedule_id w =
    if_found clock task_id w (find_schedule schedule_id w.scripts)
