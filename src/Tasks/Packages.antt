-- ===== src/Tasks/Packages.antt =====
-- `execute_package_operation` of core/tasks.py and PackageOperation of core/models/package.py.
-- EnvironmentService enters as what its calls return or raise.
pub mod Lifecycle
use py_runner.Prelude.{
  ◌==◌, ℕ, ◌+◌, ◌<◌, ◌≡◌, refl, Bool, true, false, ◌&&◌, ◌||◌, not, Option, none, some, String, ltb,
  if◌then◌else◌, arith, ◌⊎◌, inl, inr, Bool-cases, List, [], ◌∷◌, map,
}

pub data Status : Type 0 where
  pending : Status
  running : Status
  success : Status
  failed : Status

pub data Operation : Type 0 where
  install : Operation
  uninstall : Operation
  bulk_install : Operation
  unknown : Operation

pub record PackageOperation : Type 0 where
  pub environment : ℕ
  pub operation : Operation
  pub package_spec : String
  pub status : Status
  pub output : String
  pub error : String
  pub created_at : ℕ
  pub started_at : Option ℕ
  pub completed_at : Option ℕ

abbrev pub is_finished : PackageOperation → Bool
is_finished o = elim o.status [ success ↦ true | failed ↦ true | _ ↦ false ]

abbrev pub is_successful : PackageOperation → Bool
is_successful o = elim o.status [ success ↦ true | _ ↦ false ]

-- What a call of EnvironmentService does. It exits where django-q's TimeoutException, a SystemExit
-- and no Exception, ends the task in it.
pub data Outcome : Type 0 where
  returned : Bool → String → String → Outcome
  raised : String → Outcome
  exits : Outcome

pub data Freeze : Type 0 where
  frozen : String → Freeze
  freeze_raised : String → Freeze
  freeze_exits : Freeze

pub record EnvironmentService : Type 0 where
  pub install_package : String → Outcome
  pub uninstall_package : String → Outcome
  pub install_requirements : String → Outcome
  pub pip_freeze : Freeze

-- the row found by the id, with the requirements of its environment
pub record World : Type 0 where
  pub row : PackageOperation
  pub requirements : String

pub data Lookup : Type 0 where
  found : World → Lookup
  not_found : Lookup
  invalid_id : Lookup

pub data Response : Type 0 where
  operation_not_found : Response
  invalid_uuid : Response
  skipped : Bool → Status → Response
  done : Bool → Status → Response
  exited : Response

-- the if-elif chain over the kind of operation
unfoldable pub run_operation : EnvironmentService → PackageOperation → Outcome
run_operation service o = elim o.operation [
  | install ↦ service.install_package o.package_spec
  | uninstall ↦ service.uninstall_package o.package_spec
  | bulk_install ↦ service.install_requirements o.package_spec
  | unknown ↦ returned false "" "Unknown operation type"
]

unfoldable pub start : ℕ → PackageOperation → PackageOperation
start now o = record o { status = running; started_at = some now }

-- the `except` block
abbrev pub fail_with : String → World → World
fail_with message w = record w { row = record w.row { status = failed; error = message } }

-- the body of the `try` block and its handler: none if it is left by a SystemExit
unfoldable pub attempt : EnvironmentService → World → Option World
unfolding run_operation
attempt service w = elim (run_operation service w.row) [
  | exits ↦ none
  | raised message ↦ some (fail_with message w)
  | returned ok stdout stderr ↦
      let after = record w.row {
        output = stdout;
        error = stderr;
        status = if ok then success else failed;
      } in
      if ok
      then elim service.pip_freeze [
        | freeze_exits ↦ none
        | frozen requirements ↦ some (record { row = after; requirements = requirements })
        | freeze_raised message ↦ some (fail_with message (record w { row = after }))
      ]
      else some (record w { row = after })
]

abbrev pub complete : ℕ → World → World
complete now w = record w { row = record w.row { completed_at = some now } }

-- what is saved at the end; a SystemExit leaves what was saved before the `try` block
abbrev pub save_end : ℕ → World → Option World → Lookup × Response
save_end later started none = (found started, exited)
save_end later started (some w) =
    let after = complete later w in (found after, done (is_successful after.row) after.row.status)

-- `execute_package_operation`; `now` and `later` are its two readings of the clock
unfoldable pub execute_package_operation : EnvironmentService → ℕ → ℕ → Lookup → Lookup × Response
unfolding start attempt
execute_package_operation service now later not_found = (not_found, operation_not_found)
execute_package_operation service now later invalid_id = (invalid_id, invalid_uuid)
execute_package_operation service now later (found w) =
    if is_finished w.row
    then (found w, skipped (is_successful w.row) w.row.status)
    else let started = record w { row = start now w.row } in
      save_end later started (attempt service started)

-- the reconciler: `reconcile_stale`, on the rows of the table
abbrev pub stale_after : ℕ
stale_after = 1800

abbrev pub in_environment : Option ℕ → PackageOperation → Bool
in_environment none o = true
in_environment (some e) o = o.environment == e

unfoldable pub is_stale : Option ℕ → ℕ → PackageOperation → Bool
is_stale environment now o =
    not (is_finished o) && ltb (o.created_at + stale_after) now && in_environment environment o

unfoldable pub give_up : String → ℕ → PackageOperation → PackageOperation
give_up message now o = record o { status = failed; error = message; completed_at = some now }

-- the rows after it, and how many it changed
unfoldable pub reconcile_stale :
    String → Option ℕ → ℕ → List PackageOperation → List PackageOperation × ℕ
unfolding is_stale give_up
reconcile_stale message environment now [] = ([], 0)
reconcile_stale message environment now (o ∷ rest) =
    let after = reconcile_stale message environment now rest in
    if is_stale environment now o
    then (give_up message now o ∷ after.0, 1 + after.1)
    else (o ∷ after.0, after.1)
