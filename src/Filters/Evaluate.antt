-- ===== src/Filters/Evaluate.antt =====
-- `matches` of core/vectors/filters.py and its helpers: the reference semantics.
pub mod Total
use Prim.Native.Nat.{Ordering}
use Prim.Native.String.{compare}
use text.Mathlib.Text.{◌==◌ as str_eq, starts_with}
use py_runner.Prelude.{String, Bool, true, false, not, ◌&&◌, Option, none, some, any, if◌then◌else◌}
use py_runner.Filters.Json.{
  Json, Items, Fields, null, bool, num, str, arr, obj, nil, cons, end, field, get, elements,
  to_list, ops,
}
use py_runner.Filters.Grammar.{
  Result, ok, err, ◌>>=◌, ◌>>◌, takes_filters, is_composition, validate,
}

-- `_kind`
pub data Kind : Type 0 where
  bool_kind number_kind str_kind null_kind other_kind : Kind

abbrev pub bool_eq : Bool → Bool → Bool
bool_eq true b = b
bool_eq false b = not b

abbrev pub same_kind : Kind → Kind → Bool
same_kind bool_kind bool_kind = true
same_kind number_kind number_kind = true
same_kind str_kind str_kind = true
same_kind null_kind null_kind = true
same_kind other_kind other_kind = true
same_kind _ _ = false

-- Python's `==`, `>`, `>=`, `<` and `<=` on the outcome of a comparison; `none` is a comparison
-- with NaN, which all of them answer with False.
abbrev pub order_test : String → Option Ordering → Bool
order_test op none = false
order_test op (some o) =
    if str_eq op "$eq"
    then (elim o [ Ordering.eq ↦ true | _ ↦ false ])
    else if str_eq op "$gt"
    then (elim o [ Ordering.gt ↦ true | _ ↦ false ])
    else if str_eq op "$gte"
    then (elim o [ Ordering.lt ↦ false | _ ↦ true ])
    else if str_eq op "$lt"
    then (elim o [ Ordering.lt ↦ true | _ ↦ false ])
    else (elim o [ Ordering.gt ↦ false | _ ↦ true ])

module _ {N : Type 0} where
  abbrev pub kind : Json N → Kind
  kind (bool _) = bool_kind
  kind (num _) = number_kind
  kind (str _) = str_kind
  kind null = null_kind
  kind (arr _) = other_kind
  kind (obj _) = other_kind

  abbrev pub is_null : Json N → Bool
  is_null null = true
  is_null _ = false

  -- `isinstance(value, str) and value.startswith(arg)`
  abbrev pub prefix_matches : Json N → Json N → Bool
  prefix_matches (str s) (str t) = starts_with s t
  prefix_matches _ _ = false

-- How Python orders two numbers: `none` if either is NaN.
module _ {N : Type 0} (num_cmp : N → N → Option Ordering) where
  -- Only scalars of one kind are compared; an argument is never a list or a dict once validated.
  abbrev pub value_order : Json N → Json N → Option Ordering
  value_order (num a) (num b) = num_cmp a b
  value_order (str s) (str t) = some (compare s t)
  value_order (bool a) (bool b) =
      some (if bool_eq a b then Ordering.eq else if a then Ordering.gt else Ordering.lt)
  value_order null null = some Ordering.eq
  value_order _ _ = none

  -- `_scalar_matches`
  unfoldable pub scalar_matches : Json N → String → Json N → Bool
  scalar_matches value op arg =
      if str_eq op "$prefix"
      then prefix_matches value arg
      else if not (same_kind (kind value) (kind arg))
      then false
      else order_test op (value_order value arg)

  -- `_op_matches` after its test for `$in`
  unfoldable pub single_matches : Json N → String → Json N → Bool
  single_matches actual op arg =
      if str_eq op "$eq" && is_null arg
      then is_null actual
      else any (λ v. scalar_matches v op arg) (elements actual)

  unfoldable pub in_matches : Json N → Json N → Bool
  in_matches actual (arr items) = any (λ v. single_matches actual "$eq" v) (to_list items)
  in_matches actual _ = false

  -- `_op_matches`
  unfoldable pub op_matches : Json N → String → Json N → Bool
  unfolding in_matches
  op_matches actual op arg =
      if str_eq op "$in" then in_matches actual arg else single_matches actual op arg

  -- `all(_op_matches(payload.get(key), op, arg) for op, arg in _ops(value))`
  unfoldable pub ops_match : Json N → Fields N → Bool
  ops_match actual end = true
  ops_match actual (field op arg rest) = op_matches actual op arg && ops_match actual rest

unfoldable mutual
  -- `matches`; the payload None is the empty dict
  pub matches : {N : Type 0} → (N → N → Option Ordering) → Fields N → Json N → Result Bool
  matches num_cmp payload (obj fs) = validate (obj fs) >> matches_fields num_cmp payload fs
  matches num_cmp payload flt = validate flt >> ok true

  -- its loop over the items of the filter
  pub matches_fields : {N : Type 0} → (N → N → Option Ordering) → Fields N → Fields N → Result Bool
  matches_fields num_cmp payload end = ok true
  matches_fields num_cmp payload (field key (arr subs) rest) =
      let more = matches_fields num_cmp payload rest in
      if str_eq key "must"
      then all_match num_cmp payload subs >>= (λ b. if b then more else ok false)
      else if str_eq key "must_not"
      then any_match num_cmp payload subs >>= (λ b. if b then ok false else more)
      else if ops_match num_cmp (get payload key) (ops (arr subs))
      then more
      else ok false
  matches_fields num_cmp payload (field key value rest) =
      let more = matches_fields num_cmp payload rest in
      if is_composition key
      then err (takes_filters key)
      else if ops_match num_cmp (get payload key) (ops value)
      then more
      else ok false

  -- `all(matches(payload, sub) for sub in value)`
  pub all_match : {N : Type 0} → (N → N → Option Ordering) → Fields N → Items N → Result Bool
  all_match num_cmp payload nil = ok true
  all_match num_cmp payload (cons sub rest) =
      let more = all_match num_cmp payload rest in
      matches num_cmp payload sub >>= (λ b. if b then more else ok false)

  -- `any(matches(payload, sub) for sub in value)`
  pub any_match : {N : Type 0} → (N → N → Option Ordering) → Fields N → Items N → Result Bool
  any_match num_cmp payload nil = ok false
  any_match num_cmp payload (cons sub rest) =
      let more = any_match num_cmp payload rest in
      matches num_cmp payload sub >>= (λ b. if b then ok true else more)
