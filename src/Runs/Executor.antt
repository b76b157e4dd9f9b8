-- ===== src/Runs/Executor.antt =====
-- `execute_run` of core/executor.py: what a worker does with one run. The calls that leave the
-- program (file system, secrets, the process) are given by their outcomes; the database row is
-- touched by the claim, the saves and the final update, which other processes can come between. One
-- time stands for all readings of the clock, and a save does not fail.
pub mod Outcome
use Prim.Native.String.{String, ◌++◌}
use text.Mathlib.Text.{◌==◌ as str_eq}
use py_runner.Prelude.{
  ℕ, ℤ, pos, negsuc, zero, ◌≡◌, Bool, true, false, not, ◌&&◌, ◌||◌, Option, none, some,
  if◌then◌else◌, arith,
}
use py_runner.Runs.Model.{
  Status, Run, pending, running, success, failed, timeout, cancelled, is_pending, is_cancelled,
  is_some, or_now, minus_one,
}
use py_runner.Runs.Isolation.{IsolationDecision}

-- an exception that a step lets out: subprocess.SubprocessError, SystemExit, or any other
pub data Fault : Type 0 where
  subprocess_error : String → Fault
  system_exit : Fault
  unexpected : String → Fault

abbrev pub is_subprocess_error : Fault → Bool
is_subprocess_error (subprocess_error _) = true
is_subprocess_error _ = false

-- `_validate_environment`
pub data EnvironmentCheck : Type 0 where
  python_found : EnvironmentCheck
  environment_not_found python_not_found : String → EnvironmentCheck

pub data Staging : Type 0 where
  staged : Staging
  materialization_error os_error : String → Staging

pub data Secrets : Type 0 where
  resolved : Secrets
  resolution_error : String → Secrets

pub data WaitResult : Type 0 where
  exited : ℤ → String → String → WaitResult
  timed_out : String → String → WaitResult
  interrupted : Fault → WaitResult

-- `Path.mkdir`, the script file and other steps that return nothing of use here
pub data Step : Type 0 where
  done : Step
  faulted : Fault → Step

pub data Start : Type 0 where
  started : ℕ → Start
  start_faulted : Fault → Start

-- What the steps of one execution come to. Output texts are masked and truncated; the messages that
-- hold a number or a tier are given as they are printed.
pub record Outcomes : Type 0 where
  pub deadline_text : String
  pub timeout_text : String
  pub blocked_text : String
  pub environment : EnvironmentCheck
  pub script_file : Step
  pub staging : Staging
  pub secrets : Secrets
  pub build_env : Step
  pub decision : IsolationDecision
  pub fail_closed : Bool
  pub full_tier : Bool
  pub start : Start
  pub wait : WaitResult

-- The worker's copy of the run when it reaches `finally`, and what it did on the way.
pub record Attempt : Type 0 where
  pub run : Run
  pub saved_early : Bool
  pub started_pid : Option ℕ
  pub wait_completed : Bool
  pub killed : Bool
  pub reraised : Bool

-- `Run.objects.filter(pk, status=PENDING).update(status=RUNNING, started_at=now)`
unfoldable pub claim : ℕ → Run → Option Run
claim now row =
    if is_pending row.status
    then some (record row { status = running; started_at = some now })
    else none

abbrev reached : Run → Attempt
reached run = record {
  run = run;
  saved_early = false;
  started_pid = none;
  wait_completed = false;
  killed = false;
  reraised = false;
}

-- `run.status = FAILED; run.exit_code = -1; run.stderr = message`
abbrev fail : String → Run → Run
fail message run = record run { status = failed; exit_code = minus_one; stderr = message }

-- `run.status = FAILED; run.stderr = str(e); run.ended_at = now; run.save()`
abbrev fail_and_save : String → ℕ → Run → Attempt
fail_and_save message now run =
    record (reached (record run { status = failed; stderr = message; ended_at = some now })) {
      saved_early = true;
    }

-- The handlers of the outer `try`: the process is killed if it was started and not awaited.
handle_outer : String → Fault → Attempt → Attempt
handle_outer deadline_text system_exit a = record a {
  run = record (a.run) { status = timeout; exit_code = minus_one; stderr = deadline_text };
  killed = is_some a.started_pid && not a.wait_completed;
  reraised = true;
}
handle_outer deadline_text (unexpected message) a = record a {
  run = fail ("Unexpected executor error: " ++ message) a.run;
  killed = is_some a.started_pid && not a.wait_completed;
}
handle_outer deadline_text (subprocess_error message) a = record a {
  run = fail ("Unexpected executor error: " ++ message) a.run;
  killed = is_some a.started_pid && not a.wait_completed;
}

-- `except subprocess.SubprocessError` of phase 3; other faults go on to the outer handlers
handle_inner : String → Fault → Attempt → Attempt
unfolding handle_outer
handle_inner deadline_text (subprocess_error message) a = record a {
  run = fail ("Subprocess error: " ++ message) a.run;
}
handle_inner deadline_text f a = handle_outer deadline_text f a

-- the results of `backend.wait`
abbrev timeout_stderr : String → String → String
timeout_stderr timeout_text err =
    if str_eq err ""
    then timeout_text
    else err ++ "\n\n[TIMEOUT: Script exceeded maximum execution time]"

abbrev exit_status : ℤ → Status
exit_status (pos zero) = success
exit_status _ = failed

finish_wait : Outcomes → WaitResult → Attempt → Attempt
unfolding handle_inner
finish_wait o (timed_out out err) a = record a {
  run = record (a.run) {
    status = timeout;
    stdout = out;
    stderr = timeout_stderr o.timeout_text err;
    exit_code = minus_one;
  };
  wait_completed = true;
}
finish_wait o (exited code out err) a = record a {
  run = record (a.run) {
    status = exit_status code;
    stdout = out;
    stderr = err;
    exit_code = some code;
  };
  wait_completed = true;
}
finish_wait o (interrupted f) a = handle_inner o.deadline_text f a

-- the start of the process: the pid is recorded on the row
start_and_wait : Outcomes → Run → Attempt
unfolding finish_wait
start_and_wait o run = elim o.start [
  | start_faulted f ↦ handle_inner o.deadline_text f (reached run)
  | started pid ↦
      finish_wait o o.wait
        (record (reached (record run { pid = some pid })) { started_pid = some pid })
]

-- fail-closed: isolation is mandatory and no full sandbox is to be had
abbrev pub blocked : Outcomes → Bool
blocked o = o.decision.sandbox && o.decision.mandatory && o.fail_closed && not o.full_tier

launch : Outcomes → Run → Attempt
unfolding start_and_wait
launch o run = if blocked o then reached (fail o.blocked_text run) else start_and_wait o run

-- phase 3
run_script : Outcomes → Run → Attempt
unfolding launch
run_script o run = elim o.secrets [
  | resolution_error message ↦ reached (fail message run)
  | resolved ↦ elim o.build_env [
    | faulted f ↦ handle_inner o.deadline_text f (reached run)
    | done ↦ launch o run
  ]
]

-- phase 2b
stage_libraries : Outcomes → Run → Attempt
unfolding run_script
stage_libraries o run =
    if run.has_libraries
    then elim o.staging [
      | staged ↦ run_script o run
      | materialization_error message ↦ reached (fail message run)
      | os_error message ↦ reached (fail ("Failed to stage script libraries: " ++ message) run)
    ]
    else run_script o run

-- The body of the outer `try` with its handlers, on the worker's copy of a claimed run.
unfoldable pub attempt : Outcomes → ℕ → Run → Attempt
unfolding stage_libraries
attempt o now run = elim o.environment [
  | environment_not_found message ↦ fail_and_save message now run
  | python_not_found message ↦ fail_and_save message now run
  | python_found ↦ elim o.script_file [
    | faulted f ↦ handle_outer o.deadline_text f (reached run)
    | done ↦ stage_libraries o run
  ]
]

-- `run.save(update_fields=["pid"])`
unfoldable pub record_pid : Option ℕ → Run → Run
record_pid none row = row
record_pid (some p) row = record row { pid = some p }

-- `run.save()` on the early failures writes the whole row
unfoldable pub save_early : Attempt → Run → Run
save_early a row = if a.saved_early then a.run else row

-- The update of `finally`, which leaves a cancelled row its status and clears the pid.
unfoldable pub finalize : Run → ℕ → Run → Run
finalize local_run now row =
    if is_cancelled row.status then record row { pid = none } else record row {
      status = local_run.status;
      stdout = local_run.stdout;
      stderr = local_run.stderr;
      exit_code = local_run.exit_code;
      ended_at = or_now local_run.ended_at now;
      pid = none;
    }

-- `execute_run` on the row, with what other processes do to it after the claim and before `finally`.
unfoldable pub execute_run : Outcomes → ℕ → (Run → Run) → (Run → Run) → Run → Run
execute_run o now after_claim before_finally row = elim (claim now row) [
  | none ↦ row
  | some claimed ↦
      let a = attempt o now claimed in
      finalize a.run now
        (before_finally (save_early a (record_pid a.started_pid (after_claim claimed))))
]
