-- ===== src/Tests/TaskTests.antt =====
-- Package operations and scheduled runs of core/tasks.py at concrete values.
use py_runner.Prelude.{pos, ◌≡◌, ◌⊎◌, refl, true, false, none, some, [], ◌∷◌}
use py_runner.Schedules.Model.{Time, ScriptSchedule, yearly}
use py_runner.Schedules.NextRun.{Local}
use py_runner.Schedules.Service.{Clock}
use py_runner.Tasks.Packages.{
  PackageOperation, Status, running, install, bulk_install, EnvironmentService, returned, raised,
  frozen, World, found, run_operation, execute_package_operation,
}
use py_runner.Tasks.Packages.Lifecycle.{ends_task, Ended, Abandoned, execute_package_operation-ends}
use py_runner.Tasks.Scheduled
use py_runner.Tasks.Scheduled.{
  Script, find_script, find_schedule, execute_scheduled_run, execute_yearly_scheduled_run,
}
use py_runner.Tasks.Scheduled.Guards.{
  Guarded, Due, is_started, execute_scheduled_run-Guarded, execute_yearly_scheduled_run-date,
}

abbrev operation : PackageOperation
operation = record {
  environment = 1;
  operation = install;
  package_spec = "requests";
  status = Status.pending;
  output = "";
  error = "";
  created_at = 100;
  started_at = none;
  completed_at = none;
}

abbrev before : World
before = record { row = operation; requirements = "" }

abbrev pip : EnvironmentService
pip = record {
  install_package = λ spec. returned true "ok" "";
  uninstall_package = λ spec. returned false "" "no such package";
  install_requirements = λ spec. raised "timeout";
  pip_freeze = frozen "requests==2.31.0";
}

execute_package_operation-ends_example :
    let called = execute_package_operation pip 110 120 (found before) in
    let stops = ends_task (run_operation pip operation) pip.pip_freeze in
    (stops ≡ false → Ended pip 110 120 before called) × (stops ≡ true → Abandoned 110 before called)
execute_package_operation-ends_example = execute_package_operation-ends pip 110 120 before refl

abbrev stuck : PackageOperation
stuck = record operation { status = running; operation = bulk_install }

abbrev leap_day : Local
leap_day = record { year = 2024; month = 2; day = 29; second = 3600 }

abbrev clock : Clock
clock = record {
  utc_now = 100;
  now = leap_day;
  offset = pos 0;
  to_utc = λ x. x;
  utc_fields = λ x. leap_day;
  croniter = λ e n. none;
  expand = λ e. none;
}

abbrev midnight : Time
midnight = record { hour = 0; minute = 0 }

abbrev pub schedule : ScriptSchedule
schedule = record {
  key = 1;
  script = 7;
  is_active = true;
  run_mode = yearly;
  interval_minutes = 60;
  daily_times = [];
  weekly_days = [];
  weekly_times = [];
  monthly_days = [];
  monthly_times = [];
  cron_expression = none;
  yearly_month = some 2;
  yearly_day = some 29;
  yearly_time = some midnight;
  q_schedule_ids = [];
  next_run = none;
  last_scheduled_run = none;
}

abbrev pub script : Script
script = record {
  key = 7;
  is_enabled = true;
  is_archived = false;
  code = "print(1)";
  workspace = some 3;
  timeout_seconds = 300;
  libraries = (record { key = "utils"; current_version = 2 }) ∷ [];
  schedule = some schedule;
}

abbrev world : Scheduled.World
world = record {
  schedules_paused = false;
  scripts = script ∷ [];
  runs = [];
  next_run_key = 5;
  tasks = [];
}

execute_scheduled_run-Guarded_example :
    Guarded world (find_script 7 world.scripts) "t1" (execute_scheduled_run clock "t1" 7 world)
execute_scheduled_run-Guarded_example = execute_scheduled_run-Guarded clock "t1" 7 world

execute_yearly_scheduled_run-date_example :
    let result = execute_yearly_scheduled_run clock "t1" 1 world in
    ((result.0 ≡ world) × (is_started result.1 ≡ false))
    ⊎ Due clock "t1" world (find_schedule 1 world.scripts) result
execute_yearly_scheduled_run-date_example = execute_yearly_scheduled_run-date clock "t1" 1 world
