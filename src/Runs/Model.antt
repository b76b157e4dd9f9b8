-- ===== src/Runs/Model.antt =====
-- core/models/run.py: the row of a run. Times are seconds since an epoch; a null is `none`.
-- The script's timeout and whether libraries are pinned are read through the row.
use Prim.Native.String.{String}
use py_runner.Prelude.{ℕ, ℤ, negsuc, Bool, true, false, Option, none, some}

-- Run.Status
pub data Status : Type 0 where
  pending running success failed timeout cancelled : Status

pub record Run : Type 0 where
  pub key : ℕ
  pub status : Status
  pub exit_code : Option ℤ
  pub stdout : String
  pub stderr : String
  pub started_at : Option ℕ
  pub ended_at : Option ℕ
  pub pid : Option ℕ
  pub task_id : String
  pub created_at : ℕ
  pub timeout_seconds : ℕ
  pub has_libraries : Bool
  pub workspace : Option ℕ

-- `is_finished`
abbrev pub is_finished : Status → Bool
is_finished success = true
is_finished failed = true
is_finished timeout = true
is_finished cancelled = true
is_finished _ = false

abbrev pub is_pending : Status → Bool
is_pending pending = true
is_pending _ = false

abbrev pub is_running : Status → Bool
is_running running = true
is_running _ = false

abbrev pub is_cancelled : Status → Bool
is_cancelled cancelled = true
is_cancelled _ = false

abbrev pub is_some : {A : Type 0} → Option A → Bool
is_some none = false
is_some (some _) = true

-- `x or default` on a nullable time
abbrev pub or_now : Option ℕ → ℕ → Option ℕ
or_now none now = some now
or_now (some t) now = some t

-- exit code -1
abbrev pub minus_one : Option ℤ
minus_one = some (negsuc 0)
