-- ===== src/Runs/Control.antt =====
-- The stops of core/services/task_service.py: `force_stop_run`, `force_stop_task`,
-- `cancel_queued_task` and their workspace guard, on the rows of runs and django-q's queue.
pub mod Effects
use Prim.Native.String.{String, ◌++◌}
use text.Mathlib.Text.{◌==◌ as str_eq}
use py_runner.Prelude.{
  ℕ, ◌≡◌, Bool, true, false, not, ◌&&◌, ◌||◌, Option, none, some, List, [], ◌∷◌, any, keep,
  if◌then◌else◌, ◌==◌,
}
use py_runner.Runs.Model.{
  Status, Run, pending, running, success, failed, timeout, cancelled, is_pending, is_running,
  is_some,
}

-- The tables that the stops touch, and the pids whose process trees were killed.
pub record Db : Type 0 where
  pub rows : List Run
  pub queue : List String
  pub killed : List ℕ

-- `Run.objects.filter(test).update(...)`
abbrev pub update_where : (Run → Bool) → (Run → Run) → List Run → List Run
update_where test change [] = []
update_where test change (r ∷ rest) =
    (if test r then change r else r) ∷ update_where test change rest

-- `Run.objects.filter(test).first()`
abbrev pub first_where : (Run → Bool) → List Run → Option Run
first_where test [] = none
first_where test (r ∷ rest) = if test r then some r else first_where test rest

-- `OrmQ.objects.filter(key=task_id).delete()`
abbrev pub unqueue : String → Db → Db
unqueue task_id db = record db { queue = keep (λ t. not (str_eq t task_id)) db.queue }

-- `Q(workspace=workspace) | Q(workspace__isnull=True)`
abbrev pub visible_in : ℕ → Run → Bool
visible_in ws r = elim r.workspace [ none ↦ true | some w ↦ w == ws ]

abbrev pub linked : String → Run → Bool
linked task_id r = str_eq r.task_id task_id

-- `_task_in_workspace`
unfoldable pub task_in_workspace : String → Option ℕ → Db → Bool
task_in_workspace task_id none db = true
task_in_workspace task_id (some ws) db =
    if not (any (linked task_id) db.rows)
    then true
    else any (λ r. linked task_id r && visible_in ws r) db.rows

-- `if run.pid: _kill_process_tree(run.pid)`
abbrev pub kill_pid : Option ℕ → List ℕ → List ℕ
kill_pid none killed = killed
kill_pid (some p) killed = if p == 0 then killed else p ∷ killed

-- `run.save(update_fields=["status", "ended_at", "stderr", "pid"])`
abbrev pub save_stopped : Run → Run → Run
save_stopped run row = record row {
  status = run.status;
  ended_at = run.ended_at;
  stderr = run.stderr;
  pid = run.pid;
}

abbrev pub save_status_ended : Run → Run → Run
save_status_ended run row = record row { status = run.status; ended_at = run.ended_at }

abbrev pub same_key : Run → Run → Bool
same_key run row = row.key == run.key

-- what a stop makes of its copy of a running and of a pending run
abbrev pub killed_copy : ℕ → Run → Run
killed_copy now run = record run {
  status = cancelled;
  ended_at = some now;
  stderr = run.stderr ++ "\n[Killed by user]";
  pid = none;
}

abbrev pub cancelled_copy : ℕ → Run → Run
cancelled_copy now run = record run { status = cancelled; ended_at = some now }

-- the branches of `force_stop_run` on the status of the run that was read
unfoldable pub stop_by_status : ℕ → Status → Run → Db → Db × Bool
stop_by_status now running run db = (
  record db {
    killed = kill_pid run.pid db.killed;
    rows = update_where (same_key run) (save_stopped (killed_copy now run)) db.rows;
  },
  true,
)
stop_by_status now pending run db = (
  record db {
    rows = update_where (same_key run) (save_status_ended (cancelled_copy now run)) db.rows;
  },
  true,
)
stop_by_status now _ run db = (db, false)

-- `force_stop_run`; `run` is the caller's copy, which may be older than the row
unfoldable pub force_stop_run : ℕ → Option Run → Db → Db × Bool
force_stop_run now none db = (db, false)
force_stop_run now (some run) db =
    stop_by_status now run.status run (if str_eq run.task_id "" then db else unqueue run.task_id db)

abbrev pub or_else : Option Run → Option Run → Option Run
or_else (some r) other = some r
or_else none other = other

-- `force_stop_task`
unfoldable pub force_stop_task : ℕ → String → Option ℕ → Db → Db × Bool
force_stop_task now task_id ws db =
    if not (task_in_workspace task_id ws db)
    then (db, false)
    else (let run =
          or_else (first_where (λ r. linked task_id r && is_running r.status) db.rows)
            (first_where (λ r. linked task_id r && is_pending r.status) db.rows) in
        elim run [ some r ↦ force_stop_run now (some r) db | none ↦ (unqueue task_id db, false) ])

-- the run of a cancelled queue entry
unfoldable pub cancel_linked : ℕ → Option Run → Db → Db
cancel_linked now none db = db
cancel_linked now (some run) db = record db {
  rows =
      update_where (same_key run)
        (λ row. record row {
          status = cancelled;
          ended_at = some now;
          stderr = run.stderr ++ "\n[Task cancelled by user]";
        })
        db.rows;
}

-- `cancel_queued_task`
unfoldable pub cancel_queued_task : ℕ → String → Option ℕ → Db → Db × Bool
cancel_queued_task now task_id ws db =
    if not (task_in_workspace task_id ws db)
    then (db, false)
    else if not (any (λ t. str_eq t task_id) db.queue)
    then (unqueue task_id db, false)
    else (
      cancel_linked now
          (first_where (λ r. linked task_id r && (is_pending r.status || is_running r.status))
            db.rows)
          (unqueue task_id db),
      true,
    )
