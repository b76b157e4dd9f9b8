-- ===== src/Filters/Evaluate/Total.antt =====
-- `matches` raises exactly when `validate` does, and otherwise answers by a Boolean evaluation.
use Prim.Native.Nat.{Ordering}
use text.Mathlib.Text.{◌==◌ as str_eq}
use py_runner.Prelude.{
  String, ◌≡◌, refl, Bool, true, false, not, ◌&&◌, ◌||◌, inl, inr, Bool-cases, Option, arith,
  if◌then◌else◌,
}
use py_runner.Filters.Json.{Json, Items, Fields, null, arr, obj, nil, cons, end, field, get, ops}
use py_runner.Filters.Grammar.{
  Error, Checked, ok, err, ◌>>◌, >>-eq-ok, Checked-cases, is_composition, non_empty, takes_filters,
  validate, validate_field, validate_fields, validate_subs,
}
use py_runner.Filters.Evaluate.{ops_match, matches, matches_fields, all_match, any_match}

unfoldable mutual
  -- What a valid filter says of a payload.
  pub holds : {N : Type 0} → (N → N → Option Ordering) → Fields N → Json N → Bool
  holds num_cmp payload (obj fs) = holds_fields num_cmp payload fs
  holds num_cmp payload flt = true

  pub holds_fields : {N : Type 0} → (N → N → Option Ordering) → Fields N → Fields N → Bool
  holds_fields num_cmp payload end = true
  holds_fields num_cmp payload (field key (arr subs) rest) =
      (if str_eq key "must"
        then all_hold num_cmp payload subs
        else if str_eq key "must_not"
        then not (any_holds num_cmp payload subs)
        else ops_match num_cmp (get payload key) (ops (arr subs)))
      && holds_fields num_cmp payload rest
  holds_fields num_cmp payload (field key value rest) =
      ops_match num_cmp (get payload key) (ops value) && holds_fields num_cmp payload rest

  pub all_hold : {N : Type 0} → (N → N → Option Ordering) → Fields N → Items N → Bool
  all_hold num_cmp payload nil = true
  all_hold num_cmp payload (cons sub rest) =
      holds num_cmp payload sub && all_hold num_cmp payload rest

  pub any_holds : {N : Type 0} → (N → N → Option Ordering) → Fields N → Items N → Bool
  any_holds num_cmp payload nil = false
  any_holds num_cmp payload (cons sub rest) =
      holds num_cmp payload sub || any_holds num_cmp payload rest

-- the items of a filter object
abbrev pub fields_of : {N : Type 0} → Json N → Fields N
fields_of (obj fs) = fs
fields_of _ = end

then-ok :
    {b : Bool} {k : Checked} (r : Checked) → b ≡ true → (if b then k else r) ≡ ok tt → k ≡ ok tt
then-ok {b} r c h = ground arith

else-ok :
    {b : Bool} {k : Checked} (r : Checked) → b ≡ false → (if b then r else k) ≡ ok tt → k ≡ ok tt
else-ok {b} r c h = ground arith

-- what is valid is valid in its parts
module _ {N : Type 0} (key : String) where
  pub validate_fields-rest :
      (value : Json N) (rest : Fields N)
      → validate_fields (field key value rest) ≡ ok tt
      → validate_fields rest ≡ ok tt
  unfolding validate
  validate_fields-rest (arr subs) rest h = (>>-eq-ok _ _ h).2
  validate_fields-rest _ rest h = (>>-eq-ok _ _ h).2

  pub validate_fields-subs :
      (subs : Items N) (rest : Fields N)
      → validate_fields (field key (arr subs) rest) ≡ ok tt
      → is_composition key ≡ true
      → validate_subs key subs ≡ ok tt
  unfolding validate
  validate_fields-subs subs rest h c = then-ok _ c (>>-eq-ok _ _ h).1

  pub validate_subs-sub :
      (sub : Json N) (rest : Items N)
      → validate_subs key (cons sub rest) ≡ ok tt
      → (validate sub ≡ ok (non_empty (fields_of sub)))
        × (validate_fields (fields_of sub) ≡ ok tt)
        × (validate_subs key rest ≡ ok tt)
  unfolding validate
  validate_subs-sub (obj (field k v fs)) rest h =
      let (_, valid, after) = >>-eq-ok (validate (obj (field k v fs))) _ h in
      let (_, inner, _) = >>-eq-ok (validate_fields (field k v fs)) _ valid in
      (rw inner refl, inner, after)
  validate_subs-sub (obj end) rest h = cc
  validate_subs-sub _ rest h = cc

-- a check that did not raise took its other branch
pub if_err-ok :
    (b : Bool) (e : Error) (k r : Checked) → ((if b then err e else k) >> r) ≡ ok tt → b ≡ false
if_err-ok true e k r h = cc
if_err-ok false e k r h = refl

abbrev pub is_list : {N : Type 0} → Json N → Bool
is_list (arr _) = true
is_list _ = false

-- only a list may stand under `must` and `must_not`, and any other key names a payload field
module _ {N : Type 0} (key : String) where
  pub validate_fields-no_list :
      (value : Json N) (rest : Fields N)
      → is_list value ≡ false
      → validate_fields (field key value rest) ≡ ok tt
      → is_composition key ≡ false
  unfolding validate
  validate_fields-no_list (arr subs) rest l h = cc
  validate_fields-no_list value rest l h =
      if_err-ok (is_composition key) (takes_filters key) (validate_field key value) _ h

  pub validate_fields-field :
      (value : Json N) (rest : Fields N)
      → is_composition key ≡ false
      → validate_fields (field key value rest) ≡ ok tt
      → validate_field key value ≡ ok tt
  unfolding validate
  validate_fields-field (arr subs) rest c h = else-ok _ c (>>-eq-ok _ _ h).1
  validate_fields-field value rest c h = else-ok _ c (>>-eq-ok _ _ h).1

mutual
  unfolding holds validate matches

  matches-valid :
      {N : Type 0} (num_cmp : N → N → Option Ordering) (payload : Fields N) (flt : Json N)
      → validate_fields (fields_of flt) ≡ ok tt
      → validate flt ≡ ok (non_empty (fields_of flt))
      → matches num_cmp payload flt ≡ ok (holds num_cmp payload flt)
  matches-valid num_cmp payload (obj fs) inner valid =
      rw valid (matches_fields-valid num_cmp payload fs inner)
  matches-valid num_cmp payload null inner valid = refl
  matches-valid num_cmp payload _ inner valid = cc

  matches_fields-valid :
      {N : Type 0} (num_cmp : N → N → Option Ordering) (payload fs : Fields N)
      → validate_fields fs ≡ ok tt
      → matches_fields num_cmp payload fs ≡ ok (holds_fields num_cmp payload fs)
  matches_fields-valid num_cmp payload end h = refl
  matches_fields-valid num_cmp payload (field key (arr subs) rest) h =
      let below =
        matches_fields-valid num_cmp payload rest (validate_fields-rest key (arr subs) rest h) in
      elim (Bool-cases (str_eq key "must")) [
        | inl m ↦
            let inner = validate_fields-subs key subs rest h (rw m refl) in
            rw m (ground (arith, below, all_match-valid num_cmp payload key subs inner))
        | inr n ↦ elim (Bool-cases (str_eq key "must_not")) [
          | inl m ↦
              let inner = validate_fields-subs key subs rest h (rw (n, m) refl) in
              rw (n, m) (ground (arith, below, any_match-valid num_cmp payload key subs inner))
          | inr o ↦ rw (n, o) (ground (arith, below))
        ]
      ]
  matches_fields-valid num_cmp payload (field key value rest) h =
      let below =
        matches_fields-valid num_cmp payload rest (validate_fields-rest key value rest h) in
      let plain =
        if_err-ok (is_composition key) (takes_filters key) (validate_field key value) _ h in
      rw plain (ground (arith, below))

  all_match-valid :
      {N : Type 0} (num_cmp : N → N → Option Ordering) (payload : Fields N) (key : String)
      (subs : Items N)
      → validate_subs key subs ≡ ok tt
      → all_match num_cmp payload subs ≡ ok (all_hold num_cmp payload subs)
  all_match-valid num_cmp payload key nil h = refl
  all_match-valid num_cmp payload key (cons sub rest) h =
      let (valid, inner, after) = validate_subs-sub key sub rest h in
      ground (
        arith,
        matches-valid num_cmp payload sub inner valid,
        all_match-valid num_cmp payload key rest after,
      )

  any_match-valid :
      {N : Type 0} (num_cmp : N → N → Option Ordering) (payload : Fields N) (key : String)
      (subs : Items N)
      → validate_subs key subs ≡ ok tt
      → any_match num_cmp payload subs ≡ ok (any_holds num_cmp payload subs)
  any_match-valid num_cmp payload key nil h = refl
  any_match-valid num_cmp payload key (cons sub rest) h =
      let (valid, inner, after) = validate_subs-sub key sub rest h in
      ground (
        arith,
        matches-valid num_cmp payload sub inner valid,
        any_match-valid num_cmp payload key rest after,
      )

-- `matches` raises what `validate` raises, and on a valid filter it never raises: its answer is the
-- Boolean evaluation of the filter, whatever the order in which `all` and `any` stop.
pub matches-total :
    {N : Type 0} (num_cmp : N → N → Option Ordering) (payload : Fields N) (flt : Json N)
    → matches num_cmp payload flt ≡ (validate flt >> ok (holds num_cmp payload flt))
unfolding matches validate holds
matches-total num_cmp payload (obj fs) = elim (Checked-cases (validate_fields fs)) [
  | inl v ↦ rw (v, matches_fields-valid num_cmp payload fs v)
  | inr (e, v) ↦ rw v
]
matches-total num_cmp payload _ = refl
