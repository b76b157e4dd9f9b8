-- ===== src/Libraries/Revisions.antt =====
-- The revisions of a library: what a save keeps, and what it makes the head.
use text.Mathlib.Text.{◌==◌ as str_eq}
use text.Mathlib.TextEquality.{eq_iff}
use py_runner.Prelude.{
  ℕ, ◌+◌, ◌≤◌, ◌≡◌, refl, ap, ◌∙◌, subst, ◌⊎◌, inl, inr, String, Bool, true, false, Bool-cases,
  some, List, [], ◌∷◌, All, ◌==◌, ==→eq, ==_refl, arith,
}
use py_runner.Vectors.Slices.{Option-cases}
use py_runner.Filters.Grammar.{codes}
use py_runner.Libraries.{
  Modules, ModulesIn, validate_modules, library_key_re, Revision, Library, find_version, revision,
  head, next_revision, with_revision, save_over, save_checked, save_revision,
}
use py_runner.Libraries.Validation.{
  IsLegal, none_not_some, some-injective, Sum-cases, inl_not_inr, inr-injective,
  validate_modules-IsLegal,
}

-- The versions are numbers up to the current one, which is a revision if it is not 0, and the file
-- names and the key are legal.
unfoldable pub IsLibrary : Library → Type 0
IsLibrary library =
    All (λ r. (r.version ≤ library.current_version) × IsLegal r.modules) library.revisions
    × ((library.current_version ≡ 0)
        ⊎ ((r : Revision) × (revision library library.current_version ≡ some r)))
    × (library_key_re (codes library.key) ≡ true)

found-version :
    (version n : ℕ) (rs : List Revision) (r : Revision)
    → All (λ x. (x.version ≤ n) × IsLegal x.modules) rs
    → find_version version rs ≡ some r
    → (version ≤ n) × IsLegal r.modules
found-version version n [] r h e = absurd (none_not_some e)
found-version version n (x ∷ rs) r h e = elim (Bool-cases (x.version == version)) [
  | inr f ↦ found-version version n rs r h.1 (rw f at e)
  | inl t ↦
      let same : x ≡ r = some-injective (rw t at e) in
      (omega (arith, h.0.0, ==→eq x.version version t), subst (λ y. IsLegal y.modules) same h.0.1)
]

pub revision-IsLegal :
    (library : Library) (version : ℕ) (r : Revision)
    → IsLibrary library
    → revision library version ≡ some r
    → IsLegal r.modules
unfolding IsLibrary
revision-IsLegal library version r h e =
    (found-version version library.current_version library.revisions r h.0 e).1

module _ (hash : Modules → String) where
  pub save_checked-cases :
      (library : Library) (ms : Modules)
      → (let new = next_revision hash library ms in
          save_checked hash library ms ≡ (with_revision new library, new, true))
        ⊎ ((old : Revision) × (head library ≡ some old)
            × (old.content_hash ≡ hash ms)
            × (save_checked hash library ms ≡ (library, old, false)))
  unfolding save_checked
  save_checked-cases library ms = elim (Option-cases (head library)) [
    | inl e ↦ inl (ap (save_over hash library ms) e)
    | inr (old, e) ↦ elim (Bool-cases (str_eq old.content_hash (hash ms))) [
      | inl t ↦ inr (
        old,
        e,
        (eq_iff old.content_hash (hash ms)).0 t,
        ap (save_over hash library ms) e ∙ rw t refl,
      )
      | inr f ↦ inl (ap (save_over hash library ms) e ∙ rw f refl)
    ]
  ]

  newer :
      (n : ℕ) (rs : List Revision)
      → All (λ r. (r.version ≤ n) × IsLegal r.modules) rs
      → All (λ r. (r.version ≤ n + 1) × IsLegal r.modules) rs
  newer n [] h = tt
  newer n (r ∷ rs) h = ((omega (arith, h.0.0), h.0.1), newer n rs h.1)

  with_revision-IsLibrary :
      (library : Library) (ms : Modules)
      → IsLibrary library
      → IsLegal ms
      → IsLibrary (with_revision (next_revision hash library ms) library)
  unfolding IsLibrary
  with_revision-IsLibrary library ms h legal = (
    ((omega arith, legal), newer library.current_version library.revisions h.0),
    inr (next_revision hash library ms, rw (==_refl (library.current_version + 1)) refl),
    h.2,
  )

  pub save_checked-IsLibrary :
      (library : Library) (ms : Modules)
      → IsLibrary library
      → IsLegal ms
      → IsLibrary (save_checked hash library ms).0
  save_checked-IsLibrary library ms h legal = elim (save_checked-cases library ms) [
    | inl e ↦ rw e (with_revision-IsLibrary library ms h legal)
    | inr (old, _, _, e) ↦ rw e h
  ]

  -- what a version names stays what it names
  pub revision-save_checked :
      (library : Library) (ms : Modules) (version : ℕ) (r : Revision)
      → IsLibrary library
      → revision library version ≡ some r
      → revision (save_checked hash library ms).0 version ≡ some r
  unfolding IsLibrary
  revision-save_checked library ms version r h e = elim (save_checked-cases library ms) [
    | inr (old, _, _, same) ↦ rw same e
    | inl new ↦
        let bound = (found-version version library.current_version library.revisions r h.0 e).0 in
        let other : (library.current_version + 1 == version) ≡ false = ground (arith, bound) in
        rw (new, other) e
  ]

  head-with_revision :
      (library : Library) (ms : Modules)
      → (let new = next_revision hash library ms in head (with_revision new library) ≡ some new)
  head-with_revision library ms =
      let positive : (library.current_version + 1 == 0) ≡ false = ground arith in
      rw (positive, ==_refl (library.current_version + 1)) refl

  save_checked-again :
      (library : Library) (ms : Modules) (old : Revision)
      → head library ≡ some old
      → old.content_hash ≡ hash ms
      → save_checked hash library ms ≡ (library, old, false)
  unfolding save_checked
  save_checked-again library ms old e same =
      ap (save_over hash library ms) e ∙ rw ((eq_iff old.content_hash (hash ms)).1 same) refl

  -- A new revision has the modules and the next version, in front of the others; otherwise the head
  -- has the same hash and nothing changes.
  abbrev pub Keeps : Library → Modules → Library × Revision × Bool → Type 0
  Keeps library ms saved =
      ((saved.1.modules ≡ ms)
        × (saved.1.version ≡ library.current_version + 1)
        × (saved.0.revisions ≡ saved.1 ∷ library.revisions)
        × (saved.2 ≡ true))
      ⊎ ((saved.0 ≡ library) × (head library ≡ some saved.1) × (saved.2 ≡ false))

  -- what a save of checked modules leaves
  IsSaved : Library → Modules → Library × Revision × Bool → Type 0
  IsSaved library ms saved =
      (head saved.0 ≡ some saved.1)
      × (saved.1.content_hash ≡ hash ms)
      × Keeps library ms saved
      × (save_checked hash saved.0 ms ≡ (saved.0, saved.1, false))

  save_checked-IsSaved :
      (library : Library) (ms : Modules) → IsSaved library ms (save_checked hash library ms)
  unfolding IsSaved
  save_checked-IsSaved library ms = elim (save_checked-cases library ms) [
    | inl e ↦
        let new = next_revision hash library ms in
        rw e (
          head-with_revision library ms,
          refl,
          inl (refl, refl, refl, refl),
          save_checked-again (with_revision new library) ms new (head-with_revision library ms)
              refl,
        )
    | inr (old, h, same, e) ↦
        rw e (h, same, inr (refl, h, refl), save_checked-again library ms old h same)
  ]

  -- A save of a library keeps it well-formed. It puts a revision with the given modules and the next
  -- version in front of the others and makes it the head, or changes nothing where the head has the
  -- hash of these modules. A second save of the same modules writes nothing and gives the same revision.
  pub save_revision-IsLibrary :
      (library : Library) (given : ModulesIn) (saved : Library × Revision × Bool)
      → IsLibrary library
      → save_revision hash library given ≡ inr saved
      → IsLibrary saved.0
        × ((ms : Modules) × (validate_modules given ≡ inr ms)
            × (head saved.0 ≡ some saved.1)
            × (saved.1.content_hash ≡ hash ms)
            × Keeps library ms saved
            × (save_revision hash saved.0 given ≡ inr (saved.0, saved.1, false)))
  unfolding save_revision IsSaved
  save_revision-IsLibrary library given saved h e = elim (Sum-cases (validate_modules given)) [
    | inl (x, q) ↦ absurd (inl_not_inr (rw (save_revision, q) at e))
    | inr (ms, q) ↦
        let same : save_checked hash library ms ≡ saved =
          inr-injective (rw (save_revision, q) at e) in
        let (is_head, hashed, kept, again) =
          subst (IsSaved library ms) same (save_checked-IsSaved library ms) in
        (
          subst (λ t. IsLibrary t.0) same
              (save_checked-IsLibrary library ms h (validate_modules-IsLegal given ms q)),
          (ms, q, is_head, hashed, kept, rw (save_revision, q, again) refl),
        )
  ]
