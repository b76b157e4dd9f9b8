-- ===== src/Libraries/Waiting.antt =====
-- The libraries of a workspace while a run waits in the queue: what a version of a library that is
-- not deleted names, it names still.
use text.Mathlib.TextEquality.{eq_iff}
use text.Mathlib.Text.{◌==◌ as str_eq}
use py_runner.Prelude.{
  keep, not, Bool, true, false, ℕ, ◌≡◌, refl, sym, ap, ◌∙◌, subst, ◌⊎◌, inl, inr, String,
  Bool-cases, Option, none, some, List, [], ◌∷◌, ◌++◌, map, All, if◌then◌else◌,
}
use py_runner.Libraries.{
  Modules, ModulesIn, validate_modules, Revision, Library, revision, save_checked, save_revision,
}
use py_runner.Libraries.Validation.{
  IsLegal, none_not_some, some-injective, Sum-cases, validate_modules-IsLegal,
}
use py_runner.Libraries.Revisions.{
  IsLibrary, save_checked-cases, save_checked-IsLibrary, revision-save_checked,
}
use py_runner.Libraries.Materialize.{find_library}

key-save_checked :
    (hash : Modules → String) (library : Library) (ms : Modules)
    → (save_checked hash library ms).0.key ≡ library.key
key-save_checked hash library ms = elim (save_checked-cases hash library ms) [
  | inl e ↦ ap (λ t. t.0.key) e
  | inr (old, _, _, e) ↦ ap (λ t. t.0.key) e
]

-- a library after a save, which does nothing where it is refused
unfoldable pub save_in : (Modules → String) → String → ModulesIn → Library → Library
save_in hash key given library =
    if str_eq library.key key
    then elim (save_revision hash library given) [ inl e ↦ library | inr saved ↦ saved.0 ]
    else library

-- the libraries without the one of a key
abbrev pub without : String → List Library → List Library
without key libraries = keep (λ l. not (str_eq l.key key)) libraries

-- What can happen to the libraries of a workspace while a run waits: saves, new libraries, and
-- deletions, but not of a key that is pinned.
pub data Later (hash : Modules → String) (pinned : String → Bool) (libraries : List Library)
    : List Library → Type 0 where
  queued : Later hash pinned libraries libraries
  deletes :
      {now : List Library} (key : String)
      → pinned key ≡ false
      → Later hash pinned libraries now
      → Later hash pinned libraries (without key now)
  saves :
      {now : List Library} (key : String) (given : ModulesIn)
      → Later hash pinned libraries now
      → Later hash pinned libraries (map (save_in hash key given) now)
  adds :
      {now : List Library} (library : Library)
      → IsLibrary library
      → Later hash pinned libraries now
      → Later hash pinned libraries (now ++ library ∷ [])

module _ (hash : Modules → String) (key : String) (given : ModulesIn) where
  save_in-checked :
      (library : Library)
      → (save_in hash key given library ≡ library)
        ⊎ ((ms : Modules) × IsLegal ms
            × (save_in hash key given library ≡ (save_checked hash library ms).0))
  unfolding save_in save_revision
  save_in-checked library = elim (Bool-cases (str_eq library.key key)) [
    | inr f ↦ inl (rw (save_in, f) refl)
    | inl t ↦ elim (Sum-cases (validate_modules given)) [
      | inl (e, q) ↦ inl (rw (save_in, t, q) refl)
      | inr (ms, q) ↦ inr (ms, validate_modules-IsLegal given ms q, rw (save_in, t, q) refl)
    ]
  ]

  save_in-IsLibrary :
      (library : Library) → IsLibrary library → IsLibrary (save_in hash key given library)
  save_in-IsLibrary library h = elim (save_in-checked library) [
    | inl e ↦ subst IsLibrary (sym e) h
    | inr (ms, legal, e) ↦ subst IsLibrary (sym e) (save_checked-IsLibrary hash library ms h legal)
  ]

  key-save_in : (library : Library) → (save_in hash key given library).key ≡ library.key
  key-save_in library = elim (save_in-checked library) [
    | inl e ↦ ap (λ l. l.key) e
    | inr (ms, legal, e) ↦ ap (λ l. l.key) e ∙ key-save_checked hash library ms
  ]

  revision-save_in :
      (library : Library) (version : ℕ) (r : Revision)
      → IsLibrary library
      → revision library version ≡ some r
      → revision (save_in hash key given library) version ≡ some r
  revision-save_in library version r h found = elim (save_in-checked library) [
    | inl e ↦ ap (λ l. revision l version) e ∙ found
    | inr (ms, legal, e) ↦
        ap (λ l. revision l version) e ∙ revision-save_checked hash library ms version r h found
  ]

  abbrev saved_option : Option Library → Option Library
  saved_option none = none
  saved_option (some library) = some (save_in hash key given library)

  find_library-saves :
      (name : String) (libraries : List Library)
      → find_library name (map (save_in hash key given) libraries)
        ≡ saved_option (find_library name libraries)
  find_library-saves name [] = refl
  find_library-saves name (library ∷ rest) =
      let same = ap (λ k. str_eq k name) (key-save_in library) in
      elim (Bool-cases (str_eq library.key name)) [
        | inl t ↦ rw (same ∙ t, t) refl
        | inr f ↦ rw (same ∙ f, f) (find_library-saves name rest)
      ]

  saves-All :
      (libraries : List Library)
      → All IsLibrary libraries
      → All IsLibrary (map (save_in hash key given) libraries)
  saves-All [] h = tt
  saves-All (library ∷ rest) h = (save_in-IsLibrary library h.0, saves-All rest h.1)

-- what is found is in the list
pub found-IsLibrary :
    (name : String) (libraries : List Library) (library : Library)
    → All IsLibrary libraries
    → find_library name libraries ≡ some library
    → IsLibrary library
found-IsLibrary name [] library h e = absurd (none_not_some e)
found-IsLibrary name (l ∷ rest) library h e = elim (Bool-cases (str_eq l.key name)) [
  | inl t ↦ subst IsLibrary (some-injective (rw t at e)) h.0
  | inr f ↦ found-IsLibrary name rest library h.1 (rw f at e)
]

add-All :
    (libraries : List Library) (library : Library)
    → All IsLibrary libraries
    → IsLibrary library
    → All IsLibrary (libraries ++ library ∷ [])
add-All [] library h new = (new, tt)
add-All (l ∷ rest) library h new = (h.0, add-All rest library h.1 new)

find_library-adds :
    (name : String) (libraries : List Library) (new library : Library)
    → find_library name libraries ≡ some library
    → find_library name (libraries ++ new ∷ []) ≡ some library
find_library-adds name [] new library e = absurd (none_not_some e)
find_library-adds name (l ∷ rest) new library e = elim (Bool-cases (str_eq l.key name)) [
  | inl t ↦ rw t (rw t at e)
  | inr f ↦ rw f (find_library-adds name rest new library (rw f at e))
]

-- The libraries hold a revision under a key and a version.
abbrev pub Holds : List Library → String → ℕ → Revision → Type 0
Holds libraries name version r =
    (library : Library) × (find_library name libraries ≡ some library)
    × (revision library version ≡ some r)

without-All :
    (key : String) (libraries : List Library)
    → All IsLibrary libraries
    → All IsLibrary (without key libraries)
without-All key [] h = tt
without-All key (l ∷ rest) h = elim (Bool-cases (str_eq l.key key)) [
  | inl t ↦ rw t (without-All key rest h.1)
  | inr f ↦ rw f (h.0, without-All key rest h.1)
]

true_not_false : true ≡ false → ⊥
true_not_false h = cc

same_or_other : (a b c : String) → str_eq a b ≡ true → str_eq a c ≡ true → b ≡ c
same_or_other a b c e f = sym ((eq_iff a b).0 e) ∙ (eq_iff a c).0 f

find_library-without :
    (key name : String) (libraries : List Library)
    → (name ≡ key → ⊥)
    → find_library name (without key libraries) ≡ find_library name libraries
find_library-without key name [] other = refl
find_library-without key name (l ∷ rest) other = elim (Bool-cases (str_eq l.key key)) [
  | inr f ↦ elim (Bool-cases (str_eq l.key name)) [
    | inl n ↦ rw (f, n) refl
    | inr n ↦ rw (f, n) (find_library-without key name rest other)
  ]
  | inl t ↦ elim (Bool-cases (str_eq l.key name)) [
    | inl n ↦ absurd (other (same_or_other l.key name key n t))
    | inr n ↦ rw (t, n) (find_library-without key name rest other)
  ]
]

pub find_library-gone :
    (key : String) (libraries : List Library) → find_library key (without key libraries) ≡ none
find_library-gone key [] = refl
find_library-gone key (l ∷ rest) = elim (Bool-cases (str_eq l.key key)) [
  | inl t ↦ rw t (find_library-gone key rest)
  | inr f ↦ rw f (rw f (find_library-gone key rest))
]

module _ (hash : Modules → String) (pinned : String → Bool) (libraries : List Library) where
  Later-All :
      {now : List Library}
      → Later hash pinned libraries now
      → All IsLibrary libraries
      → All IsLibrary now
  Later-All queued h = h
  Later-All (deletes key free l) h = without-All key _ (Later-All l h)
  Later-All (saves key given l) h = saves-All hash key given _ (Later-All l h)
  Later-All (adds library new l) h = add-All _ library (Later-All l h) new

  pub Later-Holds :
      {now : List Library} (name : String) (version : ℕ) (r : Revision)
      → Later hash pinned libraries now
      → pinned name ≡ true
      → All IsLibrary libraries
      → Holds libraries name version r
      → Holds now name version r
  Later-Holds name version r queued p h held = held
  Later-Holds name version r (deletes {now} key free l) p h held =
      let (library, found, has) = Later-Holds name version r l p h held in
      let other : name ≡ key → ⊥ = λ e. true_not_false (sym p ∙ ap pinned e ∙ free) in
      (library, find_library-without key name now other ∙ found, has)
  Later-Holds name version r (saves {now} key given l) p h held =
      let (library, found, has) = Later-Holds name version r l p h held in
      let good = found-IsLibrary name now library (Later-All l h) found in
      (
        save_in hash key given library,
        find_library-saves hash key given name now ∙ ap (saved_option hash key given) found,
        revision-save_in hash key given library version r good has,
      )
  Later-Holds name version r (adds {now} new fresh l) p h held =
      let (library, found, has) = Later-Holds name version r l p h held in
      (library, find_library-adds name now new library found, has)
