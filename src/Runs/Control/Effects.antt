-- ===== src/Runs/Control/Effects.antt =====
-- What the stops change, and what they leave alone.
use Prim.Native.String.{String}
use text.Mathlib.Text.{◌==◌ as str_eq}
use py_runner.Prelude.{
  All, sym, ap, ◌∙◌, ◌==◌, ℕ, ◌≡◌, refl, inl, inr, Bool, true, false, ◌&&◌, Bool-cases, none, some,
  List, [], ◌∷◌, any, if◌then◌else◌, arith,
}
use py_runner.Runs.Model.{Status, Run, pending, running, cancelled, is_running, is_finished}
use py_runner.Runs.Control.{
  Db, update_where, unqueue, visible_in, linked, task_in_workspace, kill_pid, save_stopped,
  save_status_ended, same_key, killed_copy, cancelled_copy, stop_by_status, force_stop_run,
  force_stop_task, cancel_queued_task,
}

-- A stop that the workspace guard refuses changes nothing, neither the rows nor the queue, and kills
-- nothing; the guard refuses only a task whose linked runs all belong to other workspaces.
pub guard_refuses :
    (now : ℕ) (task_id : String) (ws : ℕ) (db : Db)
    → task_in_workspace task_id (some ws) db ≡ false
    → (force_stop_task now task_id (some ws) db ≡ (db, false))
      × (cancel_queued_task now task_id (some ws) db ≡ (db, false))
      × (any (linked task_id) db.rows ≡ true)
      × (any (λ r. linked task_id r && visible_in ws r) db.rows ≡ false)
unfolding force_stop_task cancel_queued_task
guard_refuses now task_id ws db h =
    (rw h, rw h, unfold task_in_workspace in ground arith, unfold task_in_workspace in ground arith)

-- Of the rows, a stop of a finished run changes none and kills nothing.
pub force_stop_run-finished :
    (now : ℕ) (run : Run) (db : Db)
    → is_finished run.status ≡ true
    → let (db', changed) = force_stop_run now (some run) db in
      (db'.rows ≡ db.rows) × (db'.killed ≡ db.killed) × (changed ≡ false)
unfolding force_stop_run stop_by_status
force_stop_run-finished now run db h = (ground arith, ground arith, ground arith)

true_not_false : true ≡ false → ⊥
true_not_false h = cc

-- What a stop of the run with a key makes of a row.
abbrev pub Stopped : ℕ → ℕ → Run → Run → Type 0
Stopped now key before after =
    ((before.key == key) ≡ true
      → (after.status ≡ cancelled)
        × (after.ended_at ≡ some now)
        × (after.pid ≡ (if is_running before.status then none else before.pid)))
    × ((before.key == key) ≡ false → after ≡ before)

-- The caller's copy of a run is what the table holds.
abbrev pub IsCurrent : Run → List Run → Type 0
IsCurrent run rows = All (λ row. same_key run row ≡ true → row ≡ run) rows

-- rows before and after, one by one
abbrev pub Pairwise : (Run → Run → Type 0) → List Run → List Run → Type 0
Pairwise P [] [] = Unit
Pairwise P (x ∷ xs) (y ∷ ys) = P x y × Pairwise P xs ys
Pairwise P _ _ = ⊥

update_where-Pairwise :
    (P : Run → Run → Type 0) (C : Run → Type 0) (test : Run → Bool) (change : Run → Run)
    → ((r : Run) → C r → P r (if test r then change r else r))
    → (rows : List Run) → All C rows
    → Pairwise P rows (update_where test change rows)
update_where-Pairwise P C test change h [] a = tt
update_where-Pairwise P C test change h (r ∷ rest) a =
    (h r a.0, update_where-Pairwise P C test change h rest a.1)

Current : Run → Run → Type 0
Current run row = same_key run row ≡ true → row ≡ run

running-Stopped :
    (now : ℕ) (run row : Run)
    → run.status ≡ running
    → Current run row
    → Stopped now run.key row
        (if same_key run row then save_stopped (killed_copy now run) row else row)
unfolding Current
running-Stopped now run row e c = elim (Bool-cases (same_key run row)) [
  | inr f ↦ rw f (λ h. absurd (true_not_false (sym h)), λ h. refl)
  | inl t ↦
      let status : row.status ≡ running = ap (λ r. r.status) (c t) ∙ e in
      rw (t, status) (λ h. (refl, refl, refl), λ h. absurd (true_not_false h))
]

pending-Stopped :
    (now : ℕ) (run row : Run)
    → run.status ≡ pending
    → Current run row
    → Stopped now run.key row
        (if same_key run row then save_status_ended (cancelled_copy now run) row else row)
unfolding Current
pending-Stopped now run row e c = elim (Bool-cases (same_key run row)) [
  | inr f ↦ rw f (λ h. absurd (true_not_false (sym h)), λ h. refl)
  | inl t ↦
      let status : row.status ≡ pending = ap (λ r. r.status) (c t) ∙ e in
      rw (t, status) (λ h. (refl, refl, refl), λ h. absurd (true_not_false h))
]

stop_by_status-rows :
    (now : ℕ) (s : Status) (run : Run) (db : Db)
    → run.status ≡ s
    → is_finished s ≡ false
    → IsCurrent run db.rows
    → Pairwise (Stopped now run.key) db.rows (stop_by_status now s run db).0.rows
unfolding stop_by_status Current
stop_by_status-rows now running run db e h a =
    update_where-Pairwise (Stopped now run.key) (Current run) (same_key run)
      (save_stopped (killed_copy now run)) (λ r c. running-Stopped now run r e c) db.rows a
stop_by_status-rows now pending run db e h a =
    update_where-Pairwise (Stopped now run.key) (Current run) (same_key run)
      (save_status_ended (cancelled_copy now run)) (λ r c. pending-Stopped now run r e c) db.rows a
stop_by_status-rows now _ run db e h a = cc

-- A stop of a pending or running run, by a caller whose copy of it is what the table holds, marks its
-- row cancelled and ended now, clears the pid if it was running, and changes no other row; the process
-- of a running run's pid is killed, and no other.
pub force_stop_run-stops :
    (now : ℕ) (run : Run) (db : Db)
    → is_finished run.status ≡ false
    → IsCurrent run db.rows
    → let (db', changed) = force_stop_run now (some run) db in
      Pairwise (Stopped now run.key) db.rows db'.rows
      × (changed ≡ true)
      × (db'.killed ≡ (if is_running run.status then kill_pid run.pid db.killed else db.killed))
unfolding force_stop_run
force_stop_run-stops now run db h current = elim (Bool-cases (str_eq run.task_id "")) [
  | inl e ↦ rw e (
    stop_by_status-rows now run.status run db refl h current,
    unfold stop_by_status in ground arith,
    unfold stop_by_status in ground arith,
  )
  | inr n ↦ rw n (
    stop_by_status-rows now run.status run (unqueue run.task_id db) refl h current,
    unfold stop_by_status in ground arith,
    unfold stop_by_status in ground arith,
  )
]
