-- ===== src/Tests/LibraryTests.antt =====
-- core/models/library.py and core/services/library_service.py at concrete libraries.
use py_runner.Libraries.Deleted.{Fails, materialize_libraries-deleted}
use text.Mathlib.Text.{◌==◌ as str_eq}
use py_runner.Prelude.{
  inl, ℕ, ◌≡◌, refl, inr, String, Bool, true, false, some, List, [], ◌∷◌, map, arith,
}
use py_runner.Tasks.Scheduled.{RunRow, new_run}
use py_runner.Libraries.{
  Modules, ModulesIn, validate_modules, check_modules, module_name_re, library_key_re, Revision,
  Library, head, save_checked, save_revision,
}
use py_runner.Libraries.Revisions.{Keeps, IsLibrary, save_revision-IsLibrary}
use py_runner.Libraries.Waiting.{without, save_in}
use py_runner.Libraries.Materialize.{materialize_libraries}
use py_runner.Tests.TaskTests.{script}

-- a stand-in for sha256: the first code
abbrev first_code : Modules → String
first_code [] = ""
first_code ((filename, code) ∷ rest) = code

abbrev one_module : String → Modules
one_module code = ("helper.py", code) ∷ []

abbrev made : ℕ → String → Revision
made n code = record { version = n; modules = one_module code; content_hash = code }

abbrev utils : Library
utils = record { key = "utils"; current_version = 2; revisions = made 2 "b" ∷ made 1 "a" ∷ [] }

utils-IsLibrary : IsLibrary utils
unfolding IsLibrary module_name_re library_key_re
utils-IsLibrary =
    (((omega arith, (refl, tt)), ((omega arith, (refl, tt)), tt)), inr (made 2 "b", refl), refl)

abbrev edit : ModulesIn
edit = some (("helper.py", some "c") ∷ [])

abbrev edited : Library × Revision × Bool
edited = (
  record {
    key = "utils";
    current_version = 3;
    revisions = made 3 "c" ∷ made 2 "b" ∷ made 1 "a" ∷ [];
  },
  made 3 "c",
  true,
)

saved : save_revision first_code utils edit ≡ inr edited
unfolding save_revision save_checked validate_modules check_modules module_name_re
saved = refl

save_revision-IsLibrary_example :
    IsLibrary edited.0
    × ((ms : Modules) × (validate_modules edit ≡ inr ms)
        × (head edited.0 ≡ some edited.1)
        × (edited.1.content_hash ≡ first_code ms)
        × Keeps first_code utils ms edited
        × (save_revision first_code edited.0 edit ≡ inr (edited.0, edited.1, false)))
save_revision-IsLibrary_example =
    save_revision-IsLibrary first_code utils edit edited utils-IsLibrary saved

-- while a run waits, the library is edited twice
abbrev row : RunRow
row = new_run 5 100 script

abbrev later_edit : ModulesIn
later_edit = some (("helper.py", some "d") ∷ [])

abbrev edited_twice : List Library
edited_twice =
    map (save_in first_code "utils" later_edit)
      (without "other" (map (save_in first_code "utils" edit) (utils ∷ [])))

abbrev is_utils : String → Bool
is_utils key = str_eq key "utils"

materialize_libraries-deleted_example :
    Fails
      (materialize_libraries (without "utils" edited_twice) (some (("utils", 1) ∷ ("zip", 2) ∷ [])))
materialize_libraries-deleted_example =
    materialize_libraries-deleted edited_twice (("utils", 1) ∷ ("zip", 2) ∷ []) "utils" 1 (inl refl)
