-- ===== src/Tasks/Packages/Lifecycle.antt =====
-- How a package operation ends, and that the requirements change only with a success.
use py_runner.Prelude.{
  length, keep, ℕ, ◌≡◌, refl, Bool, true, false, Option, some, String, if◌then◌else◌, arith, List,
  [], ◌∷◌, map, length, keep,
}
use py_runner.Tasks.Packages.{
  running, exits, freeze_exits, exited, save_end, Response, success, failed, PackageOperation,
  is_finished, Outcome, returned, Freeze, frozen, EnvironmentService, World, Lookup, found, done,
  run_operation, start, attempt, execute_package_operation, is_stale, give_up, reconcile_stale,
}

-- the service reported success, and the requirements could be frozen
abbrev pub succeeds : Outcome → Freeze → Bool
succeeds (returned ok stdout stderr) (frozen requirements) = ok
succeeds _ _ = false

-- a SystemExit ends the task in a call that is made
abbrev pub ends_task : Outcome → Freeze → Bool
ends_task exits freeze = true
ends_task (returned ok stdout stderr) freeze_exits = ok
ends_task _ _ = false

abbrev pub frozen_or : String → Freeze → String
frozen_or old (frozen requirements) = requirements
frozen_or old _ = old

-- the row and requirements that a call leaves
abbrev pub world_or : World → Lookup → World
world_or d (found w) = w
world_or d _ = d

-- an operation that ended, with success or not
abbrev pub Ended : EnvironmentService → ℕ → ℕ → World → Lookup × Response → Type 0
Ended service now later w called =
    let after = world_or w called.0 in
    let ok = succeeds (run_operation service w.row) service.pip_freeze in
    (after.row.status ≡ (if ok then success else failed))
    × (after.row.started_at ≡ some now)
    × (after.row.completed_at ≡ some later)
    × (after.requirements
        ≡ (if ok then frozen_or w.requirements service.pip_freeze else w.requirements))
    × (called.1 ≡ done ok after.row.status)

-- an operation whose task was ended: it is left running
abbrev pub Abandoned : ℕ → World → Lookup × Response → Type 0
Abandoned now w called =
    let after = world_or w called.0 in
    (after.row ≡ record w.row { status = running; started_at = some now })
    × (after.requirements ≡ w.requirements)
    × (called.1 ≡ exited)

save_end-attempt :
    (service : EnvironmentService) (now later : ℕ) (w : World)
    → let started = record w { row = start now w.row } in
      let called = save_end later started (attempt service started) in
      let stops = ends_task (run_operation service w.row) service.pip_freeze in
      (stops ≡ false → Ended service now later w called) × (stops ≡ true → Abandoned now w called)
unfolding attempt run_operation start
save_end-attempt service now later w = (ground arith, ground arith)

-- A call on an unfinished operation ends it, unless a SystemExit ends the task in a call of the
-- environment service: both times are set and the response gives its status. It is a success exactly
-- when the service reports success and the freeze that follows does not raise, and then the
-- environment gets the frozen requirements; otherwise it is a failure and the requirements stay as
-- they are. A SystemExit leaves it running, without a time of completion and with the old requirements.
pub execute_package_operation-ends :
    (service : EnvironmentService) (now later : ℕ) (w : World)
    → is_finished w.row ≡ false
    → let called = execute_package_operation service now later (found w) in
      let stops = ends_task (run_operation service w.row) service.pip_freeze in
      (stops ≡ false → Ended service now later w called) × (stops ≡ true → Abandoned now w called)
unfolding execute_package_operation
execute_package_operation-ends service now later w unfinished =
    rw unfinished (save_end-attempt service now later w)

give_up-fresh :
    (message : String) (environment : Option ℕ) (now : ℕ) (o : PackageOperation)
    → is_stale environment now (give_up message now o) ≡ false
unfolding is_stale give_up
give_up-fresh message environment now o = refl

-- The reconciler gives up exactly the pending and running operations older than half an hour, of
-- the environment it was asked for, leaves the other rows, and counts what it changed.
pub reconcile_stale-map :
    (message : String) (environment : Option ℕ) (now : ℕ) (rows : List PackageOperation)
    → reconcile_stale message environment now rows ≡ (
      map (λ o. if is_stale environment now o then give_up message now o else o) rows,
      length (keep (is_stale environment now) rows),
    )
unfolding reconcile_stale
reconcile_stale-map message environment now [] = refl
reconcile_stale-map message environment now (o ∷ rest) =
    ground (arith, reconcile_stale-map message environment now rest)

-- A second pass at the same time finds nothing more, and changes nothing.
pub reconcile_stale-twice :
    (message : String) (environment : Option ℕ) (now : ℕ) (rows : List PackageOperation)
    → let first = (reconcile_stale message environment now rows).0 in
      reconcile_stale message environment now first ≡ (first, 0)
unfolding reconcile_stale
reconcile_stale-twice message environment now [] = refl
reconcile_stale-twice message environment now (o ∷ rest) = ground (
  arith,
  reconcile_stale-twice message environment now rest,
  give_up-fresh message environment now o,
)
