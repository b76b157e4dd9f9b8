-- ===== src/Filters/Qdrant/Sound.antt =====
-- `to_qdrant` against `matches`: the compiled filter and the re-check together answer exactly.
use Prim.Native.Nat.{Ordering}
use mathlib.Core.List.{map-append}
use text.Mathlib.Text.{◌==◌ as str_eq}
use py_runner.Prelude.{
  String, ◌≡◌, refl, Bool, true, not, ◌&&◌, ◌||◌, Bool-cases, inl, inr, Option, List, [], ◌∷◌, all,
  ◌++◌, arith,
}
use py_runner.Filters.Json.{Json, Items, Fields, arr, obj, nil, cons, end, field, get, ops}
use py_runner.Filters.Grammar.{
  ok, >>-eq-ok, is_scalar, check_operator, check_operators, validate_condition, validate_field,
  validate_fields, validate_subs,
}
use py_runner.Filters.Evaluate.{ops_match, op_matches}
use py_runner.Filters.Evaluate.Total.{
  fields_of, holds, holds_fields, all_hold, any_holds, validate_fields-rest, validate_fields-subs,
  validate_subs-sub, validate_fields-no_list, validate_fields-field,
}
use py_runner.Filters.Qdrant.{
  Node, nodes_of, all_exact, q_op, q_ops, q_filter, q_parts, q_must, q_must_not,
}
use py_runner.Filters.Qdrant.Server.{Server, node_holds}
use py_runner.Filters.Qdrant.Connectives.{node_holds-q_and, node_holds-q_not}
use py_runner.Filters.Qdrant.Operators.{
  Approximates, Approximates-and, Approximates-not, q_eq-Approximates, op-Approximates,
}

not-or : (a b : Bool) → not (a || b) ≡ (not a && not b)
not-or a b = ground arith

all-append :
    {A : Type 0} (f : A → Bool) (xs ys : List A) → all f (xs ++ ys) ≡ (all f xs && all f ys)
all-append f [] ys = refl
all-append f (x ∷ xs) ys = ground (arith, all-append f xs ys)

module _ {N : Type 0} {num_cmp : N → N → Option Ordering} (q : Server N num_cmp)
    (p : Fields N) where
  abbrev conjunction : List (Node N × Bool) → Bool
  conjunction parts = all (node_holds q p) (nodes_of parts)

  parts-append :
      (positive : Bool) (xs ys : List (Node N × Bool)) (t u : Bool)
      → Approximates positive (all_exact xs) t (conjunction xs)
      → Approximates positive (all_exact ys) u (conjunction ys)
      → Approximates positive (all_exact (xs ++ ys)) (t && u) (conjunction (xs ++ ys))
  parts-append positive xs ys t u h k = rw (all-append (λ x. x.1) xs ys) (
      rw (map-append (λ (x : Node N × Bool). x.0) xs ys) (
        rw (all-append (node_holds q p) (nodes_of xs) (nodes_of ys))
          (Approximates-and _ _ _ _ _ _ _ h k)))

  operators-Approximate :
      (key : String) (positive : Bool) (fs : Fields N)
      → check_operators fs ≡ ok tt
      → Approximates positive
          (all_exact (q_ops key positive fs))
          (ops_match num_cmp (get p key) fs)
          (conjunction (q_ops key positive fs))
  unfolding q_ops ops_match check_operators
  operators-Approximate key positive end h = (λ _ _. refl, λ _ _. refl, λ _. refl)
  operators-Approximate key positive (field op arg rest) h =
      let (_, first, others) = >>-eq-ok (check_operator op arg) _ h in
      Approximates-and _ _ _ _ _ _ _ (op-Approximates q p key positive op arg first)
        (operators-Approximate key positive rest others)

  equality-Approximates :
      (key : String) (positive : Bool) (v : Json N)
      → is_scalar v ≡ true
      → Approximates positive
          (all_exact (q_ops key positive (field "$eq" v end)))
          (ops_match num_cmp (get p key) (field "$eq" v end))
          (conjunction (q_ops key positive (field "$eq" v end)))
  unfolding q_ops ops_match op_matches q_op
  equality-Approximates key positive v h =
      Approximates-and _ _ _ _ _ _ _ (q_eq-Approximates q p key positive v h)
        (λ _ _. refl, λ _ _. refl, λ _. refl)

  -- a field's condition: the operators of a dict, or one `$eq` on a scalar
  condition-Approximates :
      (key : String) (positive : Bool) (value : Json N)
      → validate_condition key value ≡ ok tt
      → Approximates positive
          (all_exact (q_ops key positive (ops value)))
          (ops_match num_cmp (get p key) (ops value))
          (conjunction (q_ops key positive (ops value)))
  unfolding validate_condition
  condition-Approximates key positive (obj end) h = cc
  condition-Approximates key positive (obj (field op arg rest)) h =
      operators-Approximate key positive (field op arg rest) h
  condition-Approximates key positive (arr items) h = cc
  condition-Approximates key positive v h = equality-Approximates key positive v refl

  condition_of_field :
      (key : String) (value : Json N)
      → validate_field key value ≡ ok tt
      → validate_condition key value ≡ ok tt
  unfolding validate_field
  condition_of_field key value h = ground arith

  mutual
    unfolding q_filter holds

    pub filter-Approximates :
        (positive : Bool) (flt : Json N)
        → validate_fields (fields_of flt) ≡ ok tt
        → Approximates positive
            (q_filter positive flt).1
            (holds num_cmp p flt)
            (node_holds q p (q_filter positive flt).0)
    filter-Approximates positive (obj fs) h =
        rw (node_holds-q_and q p) (parts-Approximate positive fs h)
    filter-Approximates positive _ h = (λ _ _. refl, λ _ _. refl, λ _. refl)

    parts-Approximate :
        (positive : Bool) (fs : Fields N)
        → validate_fields fs ≡ ok tt
        → Approximates positive
            (all_exact (q_parts positive fs))
            (holds_fields num_cmp p fs)
            (conjunction (q_parts positive fs))
    parts-Approximate positive end h = (λ _ _. refl, λ _ _. refl, λ _. refl)
    parts-Approximate positive (field key (arr subs) rest) h =
        let below = parts-Approximate positive rest (validate_fields-rest key (arr subs) rest h) in
        elim (Bool-cases (str_eq key "must")) [
          | inl m ↦
              let inner = validate_fields-subs key subs rest h (rw m refl) in
              rw m (
                parts-append positive (q_must positive subs) (q_parts positive rest) _ _
                  (must-Approximates positive key subs inner) below)
          | inr n ↦ elim (Bool-cases (str_eq key "must_not")) [
            | inl m ↦
                let inner = validate_fields-subs key subs rest h (rw (n, m) refl) in
                rw (n, m)
                  (parts-append positive (q_must_not (not positive) subs) (q_parts positive rest) _
                    _ (must_not-Approximates positive key subs inner) below)
            | inr o ↦
                rw (n, o)
                  (parts-append positive (q_ops key positive (ops (arr subs)))
                    (q_parts positive rest) _ _
                    (condition-Approximates key positive (arr subs) (
                      condition_of_field key (arr subs)
                        (validate_fields-field key (arr subs) rest (rw (n, o) refl) h)))
                    below)
          ]
        ]
    parts-Approximate positive (field key value rest) h =
        let below = parts-Approximate positive rest (validate_fields-rest key value rest h) in
        let plain = validate_fields-no_list key value rest refl h in
        let valid = condition_of_field key value (validate_fields-field key value rest plain h) in
        parts-append positive (q_ops key positive (ops value)) (q_parts positive rest) _ _
          (condition-Approximates key positive value valid) below

    must-Approximates :
        (positive : Bool) (key : String) (subs : Items N)
        → validate_subs key subs ≡ ok tt
        → Approximates positive
            (all_exact (q_must positive subs))
            (all_hold num_cmp p subs)
            (conjunction (q_must positive subs))
    must-Approximates positive key nil h = (λ _ _. refl, λ _ _. refl, λ _. refl)
    must-Approximates positive key (cons sub rest) h =
        let (valid, inner, after) = validate_subs-sub key sub rest h in
        Approximates-and _ _ _ _ _ _ _ (filter-Approximates positive sub inner)
          (must-Approximates positive key rest after)

    must_not-Approximates :
        (positive : Bool) (key : String) (subs : Items N)
        → validate_subs key subs ≡ ok tt
        → Approximates positive
            (all_exact (q_must_not (not positive) subs))
            (not (any_holds num_cmp p subs))
            (conjunction (q_must_not (not positive) subs))
    must_not-Approximates positive key nil h = (λ _ _. refl, λ _ _. refl, λ _. refl)
    must_not-Approximates positive key (cons sub rest) h =
        let (valid, inner, after) = validate_subs-sub key sub rest h in
        let negated =
          Approximates-not positive _ _ _ (filter-Approximates (not positive) sub inner) in
        rw (not-or, node_holds-q_not q p)
          (Approximates-and _ _ _ _ _ _ _ negated (must_not-Approximates positive key rest after))
