-- ===== src/Libraries.antt =====
-- core/models/library.py and `materialize_libraries` of core/services/library_service.py, in one
-- workspace. The content hash is a function argument; modules are file names with their code.
pub mod Validation
pub mod Revisions
pub mod Materialize
pub mod Waiting
pub mod Pinned
pub mod Deleted
use text.Mathlib.Text.{◌==◌ as str_eq, starts_with}
use py_runner.Prelude.{
  ℕ, zero, suc, ◌+◌, ◌*◌, ◌≡◌, ◌⊎◌, inl, inr, String, Bool, true, false, not, ◌&&◌, ◌||◌, Option,
  none, some, List, [], ◌∷◌, ◌++◌, map, any, length, ltb, leb, ◌==◌, if◌then◌else◌,
}
use py_runner.Filters.Grammar.{codes}

abbrev pub max_modules : ℕ
max_modules = 64

abbrev pub max_revision_bytes : ℕ
max_revision_bytes = 512 * 1024

abbrev is_lower : ℕ → Bool
is_lower c = leb b'a' c && leb c b'z'

abbrev is_upper : ℕ → Bool
is_upper c = leb b'A' c && leb c b'Z'

abbrev is_digit : ℕ → Bool
is_digit c = leb b'0' c && leb c b'9'

abbrev is_empty : List ℕ → Bool
is_empty [] = true
is_empty _ = false

-- In Python `$` also matches before a final newline.
abbrev key_tail : List ℕ → Bool
key_tail [] = true
key_tail (c ∷ rest) =
    let more = key_tail rest in
    c == 10 && is_empty rest || (is_lower c || is_digit c || c == b'_') && more

-- LIBRARY_KEY_RE
unfoldable pub library_key_re : List ℕ → Bool
library_key_re [] = false
library_key_re (c ∷ rest) = is_lower c && key_tail rest

-- `\.py$`
abbrev is_suffix : List ℕ → Bool
is_suffix (a ∷ b ∷ c ∷ rest) =
    a == b'.'
    && b == b'p'
    && c == b'y'
    && elim rest [ [] ↦ true | d ∷ more ↦ d == 10 && is_empty more ]
is_suffix _ = false

abbrev module_tail : List ℕ → Bool
module_tail [] = false
module_tail (c ∷ rest) =
    let more = module_tail rest in
    is_suffix (c ∷ rest) || (is_lower c || is_upper c || is_digit c || c == b'_') && more

-- MODULE_NAME_RE
unfoldable pub module_name_re : List ℕ → Bool
module_name_re [] = false
module_name_re (c ∷ rest) = (is_lower c || is_upper c || c == b'_') && module_tail rest

-- the messages of the ValidationErrors, without their texts
pub data LibraryError : Type 0 where
  bad_key reserved_prefix standard_library : LibraryError
  not_a_mapping no_module too_many_modules bad_filename code_not_string too_large : LibraryError

-- `validate_library_key`, which gives the key back; `in_stdlib` is sys.stdlib_module_names
unfoldable pub validate_library_key : (String → Bool) → String → LibraryError ⊎ String
validate_library_key in_stdlib key =
    if not (library_key_re (codes key))
    then inl bad_key
    else if starts_with key "pyrunner"
    then inl reserved_prefix
    else if in_stdlib key
    then inl standard_library
    else inr key

-- a module map; what a caller gives may be no dict, and may have codes that are no strings
abbrev pub Modules : Type 0
Modules = List (String × String)

abbrev pub ModulesIn : Type 0
ModulesIn = Option (List (String × Option String))

-- `len(code.encode("utf-8"))`
abbrev utf8_bytes : List ℕ → ℕ
utf8_bytes [] = 0
utf8_bytes (c ∷ rest) =
    (if ltb c 128 then 1 else if ltb c 2048 then 2 else if ltb c 65536 then 3 else 4)
    + utf8_bytes rest

abbrev check_module : String → Option String → LibraryError ⊎ String
check_module filename code =
    if not (module_name_re (codes filename))
    then inl bad_filename
    else elim code [ none ↦ inl code_not_string | some text ↦ inr text ]

-- the loop of `validate_modules`, with the total number of bytes
unfoldable pub check_modules : List (String × Option String) → LibraryError ⊎ (Modules × ℕ)
check_modules [] = inr ([], 0)
check_modules ((filename, code) ∷ rest) =
    let more = check_modules rest in
    elim (check_module filename code) [
      | inl e ↦ inl e
      | inr text ↦ elim more [
        | inl e ↦ inl e
        | inr found ↦ inr ((filename, text) ∷ found.0, utf8_bytes (codes text) + found.1)
      ]
    ]

-- `validate_modules`, which gives the modules back
unfoldable pub validate_modules : ModulesIn → LibraryError ⊎ Modules
unfolding check_modules
validate_modules none = inl not_a_mapping
validate_modules (some []) = inl no_module
validate_modules (some (first ∷ rest)) =
    if ltb max_modules (length (first ∷ rest))
    then inl too_many_modules
    else elim (check_modules (first ∷ rest)) [
      | inl e ↦ inl e
      | inr found ↦ if ltb max_revision_bytes found.1 then inl too_large else inr found.0
    ]

-- `LibraryRevision` and `Library`, a library with its revisions, the newest first
pub record Revision : Type 0 where
  pub version : ℕ
  pub modules : Modules
  pub content_hash : String

pub record Library : Type 0 where
  pub key : String
  pub current_version : ℕ
  pub revisions : List Revision

abbrev pub find_version : ℕ → List Revision → Option Revision
find_version version [] = none
find_version version (r ∷ rest) =
    let more = find_version version rest in if r.version == version then some r else more

-- `Library.revision`
abbrev pub revision : Library → ℕ → Option Revision
revision library version = find_version version library.revisions

-- `Library.head`
abbrev pub head : Library → Option Revision
head library =
    if library.current_version == 0 then none else revision library library.current_version

abbrev pub next_revision : (Modules → String) → Library → Modules → Revision
next_revision hash library modules = record {
  version = library.current_version + 1;
  modules = modules;
  content_hash = hash modules;
}

-- a library with a new revision, which is its head
abbrev pub with_revision : Revision → Library → Library
with_revision new library = record {
  key = library.key;
  current_version = new.version;
  revisions = new ∷ library.revisions;
}

-- the end of `save_revision`, with the head
abbrev pub save_over :
    (Modules → String) → Library → Modules → Option Revision → Library × Revision × Bool
save_over hash library modules none =
    let new = next_revision hash library modules in (with_revision new library, new, true)
save_over hash library modules (some old) =
    let new = next_revision hash library modules in
    if str_eq old.content_hash new.content_hash
    then (library, old, false)
    else (with_revision new library, new, true)

-- `save_revision` on checked modules: the library, the revision and whether it is new
unfoldable pub save_checked : (Modules → String) → Library → Modules → Library × Revision × Bool
save_checked hash library modules = save_over hash library modules (head library)

-- `save_revision`
unfoldable pub save_revision :
    (Modules → String) → Library → ModulesIn → LibraryError ⊎ (Library × Revision × Bool)
unfolding save_checked
save_revision hash library given = elim (validate_modules given) [
  | inl e ↦ inl e
  | inr modules ↦ inr (save_checked hash library modules)
]
