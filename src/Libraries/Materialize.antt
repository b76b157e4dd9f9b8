-- ===== src/Libraries/Materialize.antt =====
-- `materialize_libraries` of core/services/library_service.py. What it writes is one package per
-- library; where it raises, the run fails before its script starts, so that what was written until
-- then is left out.
use Prim.Native.Nat.{Ordering}
use Prim.Native.String.{compare}
use text.Mathlib.Text.{◌==◌ as str_eq}
use py_runner.Prelude.{
  ℕ, ◌⊎◌, inl, inr, String, not, Option, none, some, List, [], ◌∷◌, ◌++◌, any, if◌then◌else◌,
}
use py_runner.Filters.Grammar.{codes}
use py_runner.Libraries.{Modules, Library, Revision, revision, library_key_re, module_name_re}

-- LibraryMaterializationError
pub data MaterializationError : Type 0 where
  illegal_key : String → MaterializationError
  no_longer_exists : String → ℕ → MaterializationError
  illegal_filename : String → String → MaterializationError

-- a package directory: its name and its files
abbrev pub Package : Type 0
Package = String × Modules

-- `Library.objects.filter(key=key, ...).first()`
abbrev pub find_library : String → List Library → Option Library
find_library key [] = none
find_library key (library ∷ rest) =
    let more = find_library key rest in if str_eq library.key key then some library else more

-- `_resolve_revision`
unfoldable pub resolve_revision : List Library → String → ℕ → Option Revision
resolve_revision libraries key version = elim (find_library key libraries) [
  | none ↦ none
  | some library ↦ revision library version
]

-- the first module whose file name is illegal
abbrev pub illegal_module : Modules → Option String
illegal_module [] = none
illegal_module ((filename, code) ∷ rest) =
    let more = illegal_module rest in
    if module_name_re (codes filename) then more else some filename

-- the modules, with an empty `__init__.py` if there is none
abbrev pub files_of : Modules → Modules
files_of modules =
    if any (λ m. str_eq m.0 "__init__.py") modules
    then modules
    else modules ++ ("__init__.py", "") ∷ []

-- `sorted(stamped.items())`: the keys are distinct
abbrev pub insert_item : String × ℕ → List (String × ℕ) → List (String × ℕ)
insert_item item [] = item ∷ []
insert_item item (next ∷ rest) =
    let more = insert_item item rest in
    elim (compare item.0 next.0) [ Ordering.gt ↦ next ∷ more | _ ↦ item ∷ next ∷ rest ]

unfoldable pub sorted_items : List (String × ℕ) → List (String × ℕ)
sorted_items [] = []
sorted_items (item ∷ rest) = insert_item item (sorted_items rest)

-- the end of a turn of the loop, with the first illegal file name
abbrev pub checked_package : String → Modules → Option String → MaterializationError ⊎ Package
checked_package key modules none = inr (key, files_of modules)
checked_package key modules (some filename) = inl (illegal_filename key filename)

-- a turn of the loop after the key
abbrev pub write_package : String → ℕ → Option Revision → MaterializationError ⊎ Package
write_package key version none = inl (no_longer_exists key version)
write_package key version (some r) = checked_package key r.modules (illegal_module r.modules)

-- one turn of the loop
unfoldable pub package_of : List Library → String → ℕ → MaterializationError ⊎ Package
package_of libraries key version =
    if not (library_key_re (codes key))
    then inl (illegal_key key)
    else write_package key version (resolve_revision libraries key version)

unfoldable pub packages_of : List Library → List (String × ℕ) → MaterializationError ⊎ List Package
packages_of libraries [] = inr []
packages_of libraries ((key, version) ∷ rest) =
    let more = packages_of libraries rest in
    elim (package_of libraries key version) [
      | inl e ↦ inl e
      | inr written ↦ elim more [ inl e ↦ inl e | inr packages ↦ inr (written ∷ packages) ]
    ]

-- `materialize_libraries`, on the run's stamped versions
unfoldable pub materialize_libraries :
    List Library → Option (List (String × ℕ)) → MaterializationError ⊎ List Package
materialize_libraries libraries none = inr []
materialize_libraries libraries (some stamped) = packages_of libraries (sorted_items stamped)
