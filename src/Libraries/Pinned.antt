-- ===== src/Libraries/Pinned.antt =====
-- A run imports the libraries as they were when it was queued, unless one of them is deleted.
use py_runner.Prelude.{Bool, ℕ, ◌≡◌, String, true, Option, none, some, List, [], ◌∷◌}
use py_runner.Filters.Grammar.{codes}
use py_runner.Tasks.Scheduled.{Library as Attached}
use py_runner.Libraries.{library_key_re, Revision, Library}
use py_runner.Libraries.Validation.{IsLegal}
use py_runner.Libraries.Materialize.{Package, resolve_revision, files_of}
use py_runner.Libraries.Waiting.{Holds}

abbrev package_files : String → Option Revision → Package
package_files name none = (name, files_of [])
package_files name (some r) = (name, files_of r.modules)

-- the modules that a version of a key names, as a package
abbrev pub pinned_package : List Library → String × ℕ → Package
pinned_package libraries item = package_files item.0 (resolve_revision libraries item.0 item.1)

module _ (pinned : String → Bool) (libraries : List Library) where
  -- an item of the stamped versions that can be written
  IsPinned : String × ℕ → Type 0
  IsPinned item =
      (pinned item.0 ≡ true)
      × (library_key_re (codes item.0) ≡ true)
      × ((r : Revision) × IsLegal r.modules × Holds libraries item.0 item.1 r)

-- an attached library, as the queue stamps it
abbrev pub as_attached : Library → Attached
as_attached library = record { key = library.key; current_version = library.current_version }

-- the stamp of a run, from the versions and the stamp that it had
abbrev stamp_of : List (String × ℕ) → Option (List (String × ℕ)) → Option (List (String × ℕ))
stamp_of [] before = before
stamp_of (item ∷ rest) before = some (item ∷ rest)
