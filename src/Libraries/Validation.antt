-- ===== src/Libraries/Validation.antt =====
-- What `validate_modules` of core/models/library.py lets through.
use py_runner.Prelude.{
  ℕ, ◌≡◌, refl, ap, subst, ◌⊎◌, inl, inr, String, true, Bool-cases, Option, none, some, List, [],
  ◌∷◌, length, All, ltb,
}
use py_runner.Filters.Grammar.{codes}
use py_runner.Libraries.{
  Modules, ModulesIn, check_module, check_modules, validate_modules, max_modules,
  max_revision_bytes, module_name_re,
}

-- every file name is legal
abbrev pub IsLegal : Modules → Type 0
IsLegal modules = All (λ m. module_name_re (codes m.0) ≡ true) modules

pub none_not_some : {A : Type 0} {a : A} → none ≡ some a → ⊥
none_not_some h = cc

pub some-injective : {A : Type 0} {a b : A} → some a ≡ some b → a ≡ b
some-injective h = cc

module _ {A B : Type 0} where
  pub Sum-cases : (m : A ⊎ B) → ((a : A) × (m ≡ inl a)) ⊎ ((b : B) × (m ≡ inr b))
  Sum-cases (inl a) = inl (a, refl)
  Sum-cases (inr b) = inr (b, refl)

  pub inl_not_inr : {a : A} {b : B} → inl a ≡ inr b → ⊥
  inl_not_inr h = cc

  pub inr-injective : {a b : B} → ◌≡◌ {A = A ⊎ B} (inr a) (inr b) → a ≡ b
  inr-injective h = cc

check_module-legal :
    (filename : String) (code : Option String) (text : String)
    → check_module filename code ≡ inr text
    → module_name_re (codes filename) ≡ true
check_module-legal filename code text h = elim (Bool-cases (module_name_re (codes filename))) [
  | inl t ↦ t
  | inr f ↦ absurd (inl_not_inr (rw f at h))
]

check_modules-IsLegal :
    (xs : List (String × Option String)) (ms : Modules) (n : ℕ)
    → check_modules xs ≡ inr (ms, n)
    → IsLegal ms
unfolding check_modules
check_modules-IsLegal [] ms n h = subst IsLegal (ap (λ t. t.0) (inr-injective h)) tt
check_modules-IsLegal ((filename, code) ∷ rest) ms n h =
    elim (Sum-cases (check_module filename code)) [
      | inl (e, q) ↦ absurd (inl_not_inr (rw (check_modules, q) at h))
      | inr (text, q) ↦ elim (Sum-cases (check_modules rest)) [
        | inl (e, r) ↦ absurd (inl_not_inr (rw (check_modules, q, r) at h))
        | inr (found, r) ↦
            let legal : IsLegal ((filename, text) ∷ found.0) = (
              check_module-legal filename code text q,
              check_modules-IsLegal rest found.0 found.1 r,
            ) in
            subst IsLegal (ap (λ t. t.0) (inr-injective (rw (check_modules, q, r) at h))) legal
      ]
    ]

pub validate_modules-IsLegal :
    (given : ModulesIn) (ms : Modules) → validate_modules given ≡ inr ms → IsLegal ms
unfolding validate_modules
validate_modules-IsLegal none ms h = absurd (inl_not_inr h)
validate_modules-IsLegal (some []) ms h = absurd (inl_not_inr h)
validate_modules-IsLegal (some (first ∷ rest)) ms h =
    elim (Bool-cases (ltb max_modules (length (first ∷ rest)))) [
      | inl t ↦ absurd (inl_not_inr (rw t at h))
      | inr f ↦ elim (Sum-cases (check_modules (first ∷ rest))) [
        | inl (e, q) ↦ absurd (inl_not_inr (rw (f, q) at h))
        | inr (found, q) ↦ elim (Bool-cases (ltb max_revision_bytes found.1)) [
          | inl t ↦ absurd (inl_not_inr (rw (f, q, t) at h))
          | inr g ↦
              subst IsLegal (inr-injective (rw (f, q, g) at h))
                (check_modules-IsLegal (first ∷ rest) found.0 found.1 q)
        ]
      ]
    ]
