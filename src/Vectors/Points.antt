-- ===== src/Vectors/Points.antt =====
-- core/vectors/points.py and the errors of core/vectors/errors.py: what every backend asks of a point.
use text.Mathlib.Text.{◌==◌ as str_eq, starts_with}
use py_runner.Prelude.{
  ◌≡◌, refl, ◌⊎◌, inl, inr, ℕ, String, Bool, true, false, not, ◌||◌, Option, none, some, List, [],
  ◌∷◌, all, length, ltb, ◌==◌, if◌then◌else◌,
}
use py_runner.Filters.Grammar.{Error, codes, reserved_prefix}
use py_runner.Filters.Json.{
  Json, Fields, null, bool, num, str, arr, obj, nil, cons, end, field, to_list,
}

-- the messages of StoreError and its classes, and an OverflowError of `float` and an UnsupportedFilter,
-- which the stores let through
pub data StoreError : Type 0 where
  bad_id : StoreError
  payload_not_object reserved_key : StoreError
  text_not_string : StoreError
  vector_not_list vector_not_numbers vector_not_finite : StoreError
  overflow_error : StoreError
  dimension_mismatch : StoreError
  not_object no_vector : StoreError
  ids_or_filter : StoreError
  store_full : StoreError
  unsupported_filter : Error → StoreError

pub data Store {ℓ} (A : Type ℓ) : Type ℓ where
  ok : A → Store A
  err : StoreError → Store A

infixl 5 ◌>>=◌
abbrev pub ◌>>=◌ {ℓ κ} : {A : Type ℓ} {B : Type κ} → Store A → (A → Store B) → Store B
ok a >>= f = f a
err e >>= f = err e

-- a chain that succeeded did so at each step
pub bind-ok {ℓ κ} :
    {A : Type ℓ} {B : Type κ} (m : Store A) (f : A → Store B) {b : B}
    → (m >>= f) ≡ ok b
    → (a : A) × (m ≡ ok a) × (f a ≡ ok b)
bind-ok (ok a) f h = (a, refl, h)
bind-ok (err e) f h = cc

pub ok-injective {ℓ} : {A : Type ℓ} {a b : A} → ok a ≡ ok b → a ≡ b
ok-injective h = cc

pub err_not_ok {ℓ} : {A : Type ℓ} {e : StoreError} {a : A} → err e ≡ ok a → ⊥
err_not_ok h = cc

pub Store-cases {ℓ} :
    {A : Type ℓ} (m : Store A) → ((a : A) × (m ≡ ok a)) ⊎ ((e : StoreError) × (m ≡ err e))
Store-cases (ok a) = inl (a, refl)
Store-cases (err e) = inr (e, refl)

-- what `float(x)` does: a TypeError or ValueError, an OverflowError, or a number
pub data Floated (N : Type 0) : Type 0 where
  not_number too_large : Floated N
  number : N → Floated N

-- What the stores use of Python's numbers: 0.0, truth, `float(x)`, `math.isfinite` and negation.
pub record Numbers (N : Type 0) : Type 0 where
  pub nought : N
  pub is_zero : N → Bool
  pub to_float : Json N → Floated N
  pub is_finite : N → Bool
  pub negate : N → N

abbrev pub max_id_length : ℕ
max_id_length = 256

abbrev pub is_reserved : String → Bool
is_reserved key = starts_with key reserved_prefix

module _ {N : Type 0} where
  -- `check_id`
  unfoldable pub check_id : Json N → Store String
  check_id (str s) =
      if length (codes s) == 0 || ltb max_id_length (length (codes s)) then err bad_id else ok s
  check_id _ = err bad_id

  abbrev pub any_reserved : Fields N → Bool
  any_reserved end = false
  any_reserved (field k v rest) = is_reserved k || any_reserved rest

  -- Python's truth of a value
  abbrev pub is_truthy : Numbers N → Json N → Bool
  is_truthy n null = false
  is_truthy n (bool b) = b
  is_truthy n (num x) = not (n.is_zero x)
  is_truthy n (str s) = not (str_eq s "")
  is_truthy n (arr items) = elim items [ nil ↦ false | cons _ _ ↦ true ]
  is_truthy n (obj fs) = elim fs [ end ↦ false | field _ _ _ ↦ true ]

  abbrev pub check_keys : Json N → Store (Fields N)
  check_keys (obj fs) = if any_reserved fs then err reserved_key else ok fs
  check_keys _ = err payload_not_object

  -- `check_payload`; a JSON value can always be written as JSON
  unfoldable pub check_payload : Numbers N → Json N → Store (Fields N)
  check_payload n payload = if is_truthy n payload then check_keys payload else ok end

  -- `check_text`; a missing text is None
  unfoldable pub check_text : Json N → Store (Option String)
  check_text null = ok none
  check_text (str s) = ok (some s)
  check_text _ = err text_not_string

  -- `[float(x) for x in vector]`
  abbrev pub floats : Numbers N → List (Json N) → Store (List N)
  floats n [] = ok []
  floats n (x ∷ xs) =
      let rest = floats n xs in
      elim (n.to_float x) [
        | not_number ↦ err vector_not_numbers
        | too_large ↦ err overflow_error
        | number f ↦ rest >>= λ fs. ok (f ∷ fs)
      ]

  -- iteration over a dict gives its keys
  abbrev pub keys : Fields N → List (Json N)
  keys end = []
  keys (field k v rest) = str k ∷ keys rest

  unfoldable pub check_values : Numbers N → ℕ → List (Json N) → Store (List N)
  check_values n dim xs = floats n xs >>= λ values.
      if not (length values == dim)
      then err dimension_mismatch
      else if not (all n.is_finite values)
      then err vector_not_finite
      else ok values

  -- `check_vector`
  unfoldable pub check_vector : Numbers N → ℕ → Json N → Store (List N)
  unfolding check_values
  check_vector n dim (arr items) = check_values n dim (to_list items)
  check_vector n dim (obj fs) = check_values n dim (keys fs)
  check_vector n dim _ = err vector_not_list
