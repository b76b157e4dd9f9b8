-- ===== src/Tests/RunTests.antt =====
-- core/executor.py, core/services/task_service.py and core/models/run.py at concrete runs.
use Prim.Native.String.{String}
use py_runner.Prelude.{
  String, arith, ℕ, pos, ◌+◌, ◌≡◌, refl, ◌⊎◌, inl, ◌<◌, true, false, none, some, [], ◌∷◌, map,
}
use py_runner.Runs.Model.{Run, pending, running, success, failed, cancelled, is_finished}
use py_runner.Runs.Isolation.{script_not_sandboxed}
use py_runner.Runs.Executor.{
  Outcomes, python_found, environment_not_found, done, staged, resolved, exited, interrupted,
  started, system_exit, attempt, execute_run,
}
use py_runner.Runs.Executor.Outcome.{
  is_success, all_well, attempt-success, execute_run-finishes, early_save_overwrites,
}
use py_runner.Runs.Control.{Db, force_stop_run}
use py_runner.Runs.Control.Effects.{Stopped, Pairwise, force_stop_run-stops}
use py_runner.Runs.Reconcile.{reconcile_stale, reconcile_grace_seconds}
use py_runner.Runs.Reconcile.Effects.{
  reconcile_row, GivenUp, reconcile_stale-rows, reconcile_row-cases,
}

abbrev queued : Run
queued = record {
  key = 7;
  status = pending;
  exit_code = none;
  stdout = "";
  stderr = "";
  started_at = none;
  ended_at = none;
  pid = none;
  task_id = "t7";
  created_at = 100;
  timeout_seconds = 60;
  has_libraries = false;
  workspace = some 1;
}

abbrev live : Run
live = record queued { status = running; started_at = some 200; pid = some 4242 }

abbrev finished_run : Run
finished_run = record queued { key = 8; status = success; ended_at = some 150 }

abbrev plain : Outcomes
plain = record {
  deadline_text = "[TIMEOUT]";
  timeout_text = "[TIMEOUT: Script exceeded 60 seconds]";
  blocked_text = "not executed";
  environment = python_found;
  script_file = done;
  staging = staged;
  secrets = resolved;
  build_env = done;
  decision = record { sandbox = false; mandatory = false; reason = script_not_sandboxed };
  fail_closed = false;
  full_tier = false;
  start = started 4242;
  wait = exited (pos 0) "hello" "";
}

abbrev broken : Outcomes
broken = record plain { environment = environment_not_found "no such directory" }

abbrev deadline : Outcomes
deadline = record plain { wait = interrupted system_exit }

-- another process stops the run
abbrev cancel : Run → Run
cancel r = record r {
  status = cancelled;
  ended_at = some 300;
  stderr = "\n[Killed by user]";
  pid = none;
}

abbrev unchanged : Run → Run
unchanged r = r

attempt-success_example :
    let a = attempt plain 200 live in
    (is_success a.run.status ≡ all_well plain live)
    × (all_well plain live ≡ true
        → (a.wait_completed ≡ true)
          × (a.run.exit_code ≡ some (pos 0))
          × (plain.wait ≡ exited (pos 0) a.run.stdout a.run.stderr))
attempt-success_example = attempt-success plain 200 live

execute_run-finishes_example :
    let final = execute_run plain 200 cancel unchanged queued in
    (is_finished final.status ≡ true) × (final.pid ≡ none)
execute_run-finishes_example = execute_run-finishes plain 200 cancel unchanged queued refl

abbrev claimed_run : Run
claimed_run = record queued { status = running; started_at = some 200 }

early_save_overwrites_example : (execute_run broken 200 cancel (λ r. r) queued).status ≡ failed
early_save_overwrites_example =
    early_save_overwrites broken 200 cancel queued "no such directory" refl (inl refl)

abbrev db : Db
db = record { rows = live ∷ finished_run ∷ []; queue = "t7" ∷ []; killed = [] }

force_stop_run-stops_example :
    let (db', changed) = force_stop_run 400 (some live) db in
    Pairwise (Stopped 400 live.key) db.rows db'.rows × (changed ≡ true) × (db'.killed ≡ 4242 ∷ [])
force_stop_run-stops_example =
    force_stop_run-stops 400 live db refl ((λ h. refl), ((λ h. ground (arith, h)), tt))

abbrev marker : ℕ → String
marker t = "[RECONCILED]"

reconcile_stale-rows_example :
    (reconcile_stale marker "[RECONCILED]" 900 (some 880) (live ∷ queued ∷ [])).rows
    ≡ map (reconcile_row marker "[RECONCILED]" 900 (some 880)) (live ∷ queued ∷ [])
reconcile_stale-rows_example =
    reconcile_stale-rows marker "[RECONCILED]" 900 (some 880) (live ∷ queued ∷ [])

reconcile_row-cases_example :
    let after = reconcile_row marker "[RECONCILED]" 900 (some 880) live in
    ((after ≡ live) ⊎ GivenUp marker "[RECONCILED]" 900 (some 880) live after)
    × (is_finished live.status ≡ true → after ≡ live)
    × ((t : ℕ)
        → live.status ≡ running
        → live.started_at ≡ some t
        → 900 < t + live.timeout_seconds + reconcile_grace_seconds
        → after ≡ live)
    × ((t : ℕ)
        → live.status ≡ running
        → live.started_at ≡ some t
        → t + live.timeout_seconds + reconcile_grace_seconds < 900
        → (after.status ≡ failed) × (after.pid ≡ none))
reconcile_row-cases_example = reconcile_row-cases marker "[RECONCILED]" 900 (some 880) live
