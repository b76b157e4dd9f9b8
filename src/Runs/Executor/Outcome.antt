-- ===== src/Runs/Executor/Outcome.antt =====
-- What an execution leaves behind, on every path and whatever other processes do meanwhile.
use py_runner.Prelude.{
  Bool, not, ◌&&◌, ◌||◌, ◌==◌, ℕ, pos, ◌≡◌, ◌≢◌, ◌⊎◌, true, false, none, some, arith,
}
use Prim.Native.String.{String}
use py_runner.Runs.Model.{
  Status, Run, pending, success, failed, cancelled, is_pending, is_cancelled, is_finished, is_some,
}
use py_runner.Runs.Executor.{
  EnvironmentCheck, Step, Staging, Secrets, Start, WaitResult, staged, started, Outcomes, claim,
  attempt, blocked, finalize, record_pid, save_early, execute_run, exited, python_found,
  is_subprocess_error, environment_not_found, python_not_found, done, resolved, interrupted, Fault,
}

-- the worker's copy always reaches `finally` in a state that it reports: never cancelled, never running
pub attempt-IsReported :
    (o : Outcomes) (now : ℕ) (run : Run)
    → let s = (attempt o now run).run.status in (is_finished s ≡ true) × (is_cancelled s ≡ false)
unfolding attempt
attempt-IsReported o now run = ground arith

abbrev pub is_success : Status → Bool
is_success s = elim s [ success ↦ true | _ ↦ false ]

abbrev is_found : EnvironmentCheck → Bool
is_found c = elim c [ python_found ↦ true | _ ↦ false ]

abbrev is_done : Step → Bool
is_done s = elim s [ done ↦ true | _ ↦ false ]

abbrev is_staged : Staging → Bool
is_staged s = elim s [ staged ↦ true | _ ↦ false ]

abbrev is_resolved : Secrets → Bool
is_resolved s = elim s [ resolved ↦ true | _ ↦ false ]

abbrev is_up : Start → Bool
is_up s = elim s [ started _ ↦ true | _ ↦ false ]

abbrev exited_zero : WaitResult → Bool
exited_zero (exited (pos n) out err) = n == 0
exited_zero _ = false

-- every step before the script went well, fail-closed did not block it, and it exited with code 0
abbrev pub all_well : Outcomes → Run → Bool
all_well o run =
    is_found o.environment
    && is_done o.script_file
    && (not run.has_libraries || is_staged o.staging)
    && is_resolved o.secrets
    && is_done o.build_env
    && not (blocked o)
    && is_up o.start
    && exited_zero o.wait

-- The worker reports success exactly when every step before the script went well, fail-closed did
-- not block it, and the script exited with code 0; it then reports that exit code and the output.
pub attempt-success :
    (o : Outcomes) (now : ℕ) (run : Run)
    → let a = attempt o now run in
      (is_success a.run.status ≡ all_well o run)
      × (all_well o run ≡ true
          → (a.wait_completed ≡ true)
            × (a.run.exit_code ≡ some (pos 0))
            × (o.wait ≡ exited (pos 0) a.run.stdout a.run.stderr))
unfolding attempt
attempt-success o now run = (ground arith, λ h. (ground arith, ground arith, ground arith))

-- When the worker gives up on a process that it started and could not wait for, it has killed it,
-- unless the failure was a subprocess error; and it kills nothing that it did not start.
pub attempt-killed :
    (o : Outcomes) (now : ℕ) (run : Run)
    → let a = attempt o now run in
      (a.killed ≡ true → (is_some a.started_pid ≡ true) × (a.wait_completed ≡ false))
      × ((f : Fault)
          → is_some a.started_pid ≡ true
          → o.wait ≡ interrupted f
          → is_subprocess_error f ≡ false
          → a.killed ≡ true)
unfolding attempt
attempt-killed o now run = (ground arith, λ f s w n. ground arith)

-- A delivery of a run that is not pending changes nothing.
pub execute_run-duplicate :
    (o : Outcomes) (now : ℕ) (f g : Run → Run) (row : Run)
    → row.status ≢ pending
    → execute_run o now f g row ≡ row
unfolding execute_run claim
execute_run-duplicate o now f g row h = ground arith

finalize-finished :
    (mine row : Run) (now : ℕ)
    → is_finished mine.status ≡ true
    → (is_finished (finalize mine now row).status ≡ true) × ((finalize mine now row).pid ≡ none)
unfolding finalize
finalize-finished mine row now h = ground arith

-- A claimed run always ends in a finished state with no pid, whatever happened to its row meanwhile.
pub execute_run-finishes :
    (o : Outcomes) (now : ℕ) (f g : Run → Run) (row : Run)
    → row.status ≡ pending
    → let final = execute_run o now f g row in
      (is_finished final.status ≡ true) × (final.pid ≡ none)
unfolding execute_run claim
execute_run-finishes o now f g row h =
    rw (h, is_pending) (finalize-finished _ _ now (attempt-IsReported o now _).0)

-- A cancellation that the row shows when the worker reaches its final update is kept, with the
-- output and the end time that it had.
pub execute_run-keeps_cancelled :
    (o : Outcomes) (now : ℕ) (f g : Run → Run) (row claimed : Run)
    → claim now row ≡ some claimed
    → let a = attempt o now claimed in
      let seen = g (save_early a (record_pid a.started_pid (f claimed))) in
      seen.status ≡ cancelled → execute_run o now f g row ≡ record seen { pid = none }
unfolding execute_run finalize
execute_run-keeps_cancelled o now f g row claimed c h = ground arith

-- The early saves do not ask for the row's state: if the environment or its Python is missing, a
-- cancellation between the claim and that save is overwritten, and the run ends failed.
pub early_save_overwrites :
    (o : Outcomes) (now : ℕ) (f : Run → Run) (row : Run) (m : String)
    → row.status ≡ pending
    → (o.environment ≡ environment_not_found m) ⊎ (o.environment ≡ python_not_found m)
    → (execute_run o now f (λ r. r) row).status ≡ failed
unfolding execute_run claim attempt save_early finalize record_pid
early_save_overwrites o now f row m h e = ground arith
