-- ===== src/Filters/Grammar.antt =====
-- `validate` and `_validate_condition` of core/vectors/filters.py.
use Prim.Native.Char.{code}
use text.Mathlib.Text.{◌==◌ as str_eq, starts_with}
use py_runner.Prelude.{
  ℕ, zero, suc, String, ◌≡◌, refl, ◌⊎◌, inl, inr, Bool, true, false, not, ◌&&◌, ◌||◌, Option, none,
  some, List, [], ◌∷◌, if◌then◌else◌, leb, ◌==◌,
}
use py_runner.Filters.Json.{Json, Items, Fields, null, num, str, arr, obj, nil, cons, end, field}

-- The messages of `UnsupportedFilter`, by the place that raises them.
pub data Error : Type 0 where
  not_object : Error
  takes_filters bad_entries : String → Error
  bad_field_name reserved_name : String → Error
  empty_condition list_equality : String → Error
  in_takes_scalars prefix_takes_string : Error
  range_takes_number bad_operator : String → Error

pub data Result {ℓ} (A : Type ℓ) : Type ℓ where
  ok : A → Result A
  err : Error → Result A

-- the result of a check that returns nothing
abbrev pub Checked : Type 0
Checked = Result (Unit {0})

infixl 5 ◌>>=◌ ◌>>◌
abbrev pub ◌>>=◌ {ℓ κ} : {A : Type ℓ} {B : Type κ} → Result A → (A → Result B) → Result B
ok a >>= f = f a
err e >>= f = err e

abbrev pub ◌>>◌ {ℓ κ} : {A : Type ℓ} {B : Type κ} → Result A → Result B → Result B
ok a >> k = k
err e >> k = err e

-- A sequence succeeds only if both parts do.
pub >>-eq-ok {ℓ κ} :
    {A : Type ℓ} {B : Type κ} (m : Result A) (k : Result B) {b : B}
    → (m >> k) ≡ ok b
    → (a : A) × (m ≡ ok a) × (k ≡ ok b)
>>-eq-ok (ok a) k h = (a, refl, h)
>>-eq-ok (err e) k h = cc

-- A check either returns or raises.
pub Checked-cases : (m : Checked) → (m ≡ ok tt) ⊎ ((e : Error) × (m ≡ err e))
Checked-cases (ok tt) = inl refl
Checked-cases (err e) = inr (e, refl)

abbrev pub codes : String → List ℕ
codes String.[] = []
codes (String.◌∷◌ c s) = code c ∷ codes s

is_letter : ℕ → Bool
is_letter c = leb b'A' c && leb c b'Z' || leb b'a' c && leb c b'z' || c == b'_'

is_word : ℕ → Bool
unfolding is_letter
is_word c = is_letter c || leb b'0' c && leb c b'9'

-- `[A-Za-z0-9_]{0,n}$`. In Python `$` also matches before a newline that ends the text.
word_tail : ℕ → List ℕ → Bool
unfolding is_word
word_tail n [] = true
word_tail zero (c ∷ rest) = c == 10 && elim rest [ [] ↦ true | _ ∷ _ ↦ false ]
word_tail (suc n) (c ∷ rest) =
    let more = word_tail n rest in
    if is_word c then more else c == 10 && elim rest [ [] ↦ true | _ ∷ _ ↦ false ]

-- `FIELD_RE.match`
abbrev pub max_tail : ℕ
max_tail = 63

unfoldable pub field_re : List ℕ → Bool
unfolding word_tail
field_re [] = false
field_re (c ∷ rest) = is_letter c && word_tail max_tail rest

abbrev pub reserved_prefix : String
reserved_prefix = "_pyrun_"

-- `op in RANGE_OPS`
abbrev pub is_range_op : String → Bool
is_range_op op = str_eq op "$gt" || str_eq op "$gte" || str_eq op "$lt" || str_eq op "$lte"

-- `key in ("must", "must_not")`
abbrev pub is_composition : String → Bool
is_composition key = str_eq key "must" || str_eq key "must_not"

module _ {N : Type 0} where
  -- `isinstance(v, _SCALARS)`
  abbrev pub is_scalar : Json N → Bool
  is_scalar (arr _) = false
  is_scalar (obj _) = false
  is_scalar _ = true

  abbrev pub all_scalars : Items N → Bool
  all_scalars nil = true
  all_scalars (cons v rest) = is_scalar v && all_scalars rest

  unfoldable pub check_in : Json N → Checked
  check_in (arr items) = if all_scalars items then ok tt else err in_takes_scalars
  check_in _ = err in_takes_scalars

  unfoldable pub check_range : String → Json N → Checked
  check_range op (num n) = ok tt
  check_range op (str s) = ok tt
  check_range op _ = err (range_takes_number op)

  unfoldable pub check_prefix : Json N → Checked
  check_prefix (str s) = ok tt
  check_prefix _ = err prefix_takes_string

  unfoldable pub check_operator : String → Json N → Checked
  unfolding check_in check_range check_prefix
  check_operator op arg =
      if str_eq op "$in"
      then check_in arg
      else if is_range_op op
      then check_range op arg
      else if str_eq op "$prefix"
      then check_prefix arg
      else err (bad_operator op)

  unfoldable pub check_operators : Fields N → Checked
  unfolding check_operator
  check_operators end = ok tt
  check_operators (field op arg rest) = do check_operator op arg; check_operators rest

  -- `_validate_condition`
  unfoldable pub validate_condition : String → Json N → Checked
  unfolding check_operators
  validate_condition name (obj end) = err (empty_condition name)
  validate_condition name (obj (field op arg rest)) = check_operators (field op arg rest)
  validate_condition name (arr items) = err (list_equality name)
  validate_condition name _ = ok tt

  -- the part of the loop of `validate` that is about a payload field
  unfoldable pub validate_field : String → Json N → Checked
  validate_field key value =
      if not (field_re (codes key))
      then err (bad_field_name key)
      else if starts_with key reserved_prefix
      then err (reserved_name key)
      else validate_condition key value

  -- `isinstance(sub, dict) and sub`
  abbrev pub is_filter_object : Json N → Bool
  is_filter_object (obj (field _ _ _)) = true
  is_filter_object _ = false

  abbrev pub non_empty : Fields N → Option (Fields N)
  non_empty end = none
  non_empty (field k v rest) = some (field k v rest)

unfoldable mutual
  -- `None` stands for no filter; a filter is returned as it was given.
  pub validate : {N : Type 0} → Json N → Result (Option (Fields N))
  validate null = ok none
  validate (obj fs) = validate_fields fs >> ok (non_empty fs)
  validate _ = err not_object

  pub validate_fields : {N : Type 0} → Fields N → Checked
  validate_fields end = ok tt
  validate_fields (field key (arr subs) rest) =
      (if is_composition key then validate_subs key subs else validate_field key (arr subs))
      >> validate_fields rest
  validate_fields (field key value rest) =
      (if is_composition key then err (takes_filters key) else validate_field key value)
      >> validate_fields rest

  pub validate_subs : {N : Type 0} → String → Items N → Checked
  validate_subs key nil = ok tt
  validate_subs key (cons sub rest) =
      (if is_filter_object sub
        then validate sub >> validate_subs key rest
        else err (bad_entries key))
