-- ===== src/Filters/Qdrant/Operators.antt =====
-- `_q_eq` and `_q_op` against `_op_matches`: a superset of the truth at positive polarity, a subset
-- at negative polarity, and the truth itself where the part is marked exact.
use Prim.Native.Nat.{Ordering}
use Prim.Native.String.{compare}
use text.Mathlib.TextPositions.{starts_with-append}
use text.Mathlib.Text.{◌==◌ as str_eq}
use text.Mathlib.TextEquality.{eq_iff, path_by_compare}
use text.Mathlib.TextLemmas.{append-nil}
use py_runner.Prelude.{
  String, ◌≡◌, refl, sym, ◌∙◌, ap, subst, Bool, true, false, not, ◌&&◌, ◌||◌, Bool-cases, inl, inr,
  Option, List, [], ◌∷◌, any, arith,
}
use py_runner.Filters.Json.{
  Json, Items, Fields, null, bool, num, str, arr, obj, nil, cons, get, elements, to_list,
}
use py_runner.Filters.Grammar.{
  ok, is_scalar, all_scalars, is_range_op, check_in, check_range, check_prefix, check_operator,
}
use py_runner.Filters.Evaluate.{
  is_null as null_test, prefix_matches, scalar_matches, single_matches, in_matches, op_matches,
}
use py_runner.Filters.Qdrant.{
  q_eq, q_eqs, q_op, q_or, nodes_of, all_exact, gte, lte, q_range, q_prefix, qdrant_range,
}
use py_runner.Filters.Qdrant.Server.{Server, node_holds, equals, in_range}
use py_runner.Filters.Qdrant.Connectives.{node_holds-q_or}

-- `t` is what the grammar says of a payload, `a` what the server answers.
abbrev pub Approximates : Bool → Bool → Bool → Bool → Type 0
Approximates positive exact t a =
    (positive ≡ true → t ≡ true → a ≡ true)
    × (positive ≡ false → a ≡ true → t ≡ true)
    × (exact ≡ true → a ≡ t)

pub Approximates-eq : (positive exact t a : Bool) → a ≡ t → Approximates positive exact t a
Approximates-eq positive exact t a e = (λ _ h. e ∙ h, λ _ h. sym e ∙ h, λ _. e)

pub Approximates-and :
    (positive e f t u a b : Bool)
    → Approximates positive e t a
    → Approximates positive f u b
    → Approximates positive (e && f) (t && u) (a && b)
Approximates-and positive e f t u a b h k = (ground arith, ground arith, ground arith)

pub Approximates-or :
    (positive e f t u a b : Bool)
    → Approximates positive e t a
    → Approximates positive f u b
    → Approximates positive (e && f) (t || u) (a || b)
Approximates-or positive e f t u a b h k = (ground arith, ground arith, ground arith)

pub Approximates-not :
    (positive e t a : Bool)
    → Approximates (not positive) e t a
    → Approximates positive e (not t) (not a)
Approximates-not positive e t a h = (ground arith, ground arith, ground arith)

any-ext :
    {A : Type 0} (f g : A → Bool) → ((x : A) → f x ≡ g x) → (xs : List A) → any f xs ≡ any g xs
any-ext f g h [] = refl
any-ext f g h (x ∷ xs) = rw (h x, any-ext f g h xs)

compared : (o : Ordering) → (elim o [ Ordering.eq ↦ true | _ ↦ false ]) ≡ true → o ≡ Ordering.eq
compared Ordering.eq h = refl
compared _ h = cc

any_mono :
    {A : Type 0} (f g : A → Bool)
    → ((x : A) → f x ≡ true → g x ≡ true)
    → (xs : List A) → any f xs ≡ true
    → any g xs ≡ true
any_mono f g h [] e = e
any_mono f g h (x ∷ xs) e = ground (arith, h x, any_mono f g h xs)

module _ {N : Type 0} {num_cmp : N → N → Option Ordering} (q : Server N num_cmp) (p : Fields N)
    (key : String) where
  bool_equals :
      (b : Bool) (x : Json N) → equals x (bool b) ≡ scalar_matches num_cmp x "$eq" (bool b)
  unfolding scalar_matches
  bool_equals b (bool a) = ground arith
  bool_equals b _ = refl

  str_equals : (s : String) (x : Json N) → equals x (str s) ≡ scalar_matches num_cmp x "$eq" (str s)
  unfolding scalar_matches
  str_equals s (str t) = refl
  str_equals s _ = refl

  num_equals :
      (n : N) (x : Json N)
      → (in_range num_cmp gte x (num n) && in_range num_cmp lte x (num n))
        ≡ scalar_matches num_cmp x "$eq" (num n)
  unfolding scalar_matches
  num_equals n (num m) = ground arith
  num_equals n _ = refl

  of_is_null : (x : Json N) → null_test x ≡ true → x ≡ null
  of_is_null null h = refl
  of_is_null _ h = cc

  pub q_eq-Approximates :
      (positive : Bool) (v : Json N)
      → is_scalar v ≡ true
      → Approximates positive
          (q_eq key v positive).1
          (single_matches num_cmp (get p key) "$eq" v)
          (node_holds q p (q_eq key v positive).0)
  unfolding q_eq single_matches
  q_eq-Approximates true null h =
      (λ _ t. q.empty_law key p (of_is_null (get p key) t), λ f. cc, λ f. cc)
  q_eq-Approximates false null h = (λ f. cc, λ _ a. rw (q.null_law key p a), λ f. cc)
  q_eq-Approximates positive (bool b) h =
      Approximates-eq _ _ _ _ (q.value_law key (bool b) p ∙ any-ext _ _ (bool_equals b) _)
  q_eq-Approximates positive (str s) h =
      Approximates-eq _ _ _ _ (q.value_law key (str s) p ∙ any-ext _ _ (str_equals s) _)
  q_eq-Approximates positive (num n) h =
      Approximates-eq _ _ _ _ (q.closed_range_law key (num n) p ∙ any-ext _ _ (num_equals n) _)
  q_eq-Approximates positive (arr _) h = cc
  q_eq-Approximates positive (obj _) h = cc

  q_eqs-Approximates :
      (positive : Bool) (items : Items N)
      → all_scalars items ≡ true
      → Approximates positive
          (all_exact (q_eqs key (arr items) positive))
          (any (λ v. single_matches num_cmp (get p key) "$eq" v) (to_list items))
          (any (node_holds q p) (nodes_of (q_eqs key (arr items) positive)))
  q_eqs-Approximates positive nil h = (λ _ t. cc, λ _ a. cc, λ _. refl)
  q_eqs-Approximates positive (cons v rest) h =
      Approximates-or _ _ _ _ _ _ _ (q_eq-Approximates positive v (ground arith))
        (q_eqs-Approximates positive rest (ground arith))

  in-Approximates :
      (positive : Bool) (arg : Json N)
      → check_in arg ≡ ok tt
      → Approximates positive
          (all_exact (q_eqs key arg positive))
          (in_matches num_cmp (get p key) arg)
          (node_holds q p (q_or (nodes_of (q_eqs key arg positive))))
  unfolding check_in in_matches
  in-Approximates positive (arr items) h =
      rw (node_holds-q_or q p) (q_eqs-Approximates positive items (ground arith))
  in-Approximates positive _ h = cc

  range_equals :
      (op : String) (n : N) (x : Json N)
      → str_eq op "$eq" ≡ false
      → str_eq op "$prefix" ≡ false
      → in_range num_cmp (qdrant_range op) x (num n) ≡ scalar_matches num_cmp x op (num n)
  unfolding scalar_matches
  range_equals op n (num m) e f = ground arith
  range_equals op n _ e f = rw f

  range-Approximates :
      (positive : Bool) (op : String) (arg : Json N)
      → check_range op arg ≡ ok tt
      → str_eq op "$eq" ≡ false
      → str_eq op "$prefix" ≡ false
      → Approximates positive
          (q_range key op arg positive).1
          (single_matches num_cmp (get p key) op arg)
          (node_holds q p (q_range key op arg positive).0)
  unfolding check_range q_range single_matches
  range-Approximates positive op (num n) h e f = Approximates-eq _ _ _ _ (
      rw e (
        q.range_law key (qdrant_range op) (num n) p ∙ any-ext _ _ (λ x. range_equals op n x e f) _))
  range-Approximates true op (str s) h e f = (λ _ _. refl, λ x. cc, λ x. cc)
  range-Approximates false op (str s) h e f = (λ x. cc, λ _ x. cc, λ x. cc)
  range-Approximates positive op _ h e f = cc

  prefix_of_equals :
      (s : String) (x : Json N) → equals x (str s) ≡ true → prefix_matches x (str s) ≡ true
  prefix_of_equals s (str t) h =
      let same : t ≡ s = path_by_compare t s (compared (compare t s) h) in
      rw same (rw append-nil at (starts_with-append s ""))
  prefix_of_equals s _ h = cc

  prefix-Approximates :
      (positive : Bool) (arg : Json N)
      → check_prefix arg ≡ ok tt
      → Approximates positive
          (q_prefix key arg positive).1
          (single_matches num_cmp (get p key) "$prefix" arg)
          (node_holds q p (q_prefix key arg positive).0)
  unfolding check_prefix q_prefix single_matches scalar_matches
  prefix-Approximates true (str s) h = elim (Bool-cases (str_eq s "")) [
    | inl e ↦ rw e (λ _ _. refl, λ x. cc, λ x. cc)
    | inr n ↦ rw n (λ _ t. q.text_law key s p t, λ x. cc, λ x. cc)
  ]
  prefix-Approximates false (str s) h = elim (Bool-cases (str_eq s "")) [
    | inl e ↦ rw e (λ x. cc, λ _ x. cc, λ x. cc)
    | inr n ↦ rw n (
      λ x. cc,
      λ _ a.
          any_mono _ _ (prefix_of_equals s) (elements (get p key))
            (sym (q.value_law key (str s) p) ∙ a),
      λ x. cc,
    )
  ]
  prefix-Approximates positive _ h = cc

  -- a dict condition holds no `$eq`, and a range operator is no `$prefix`
  checked_not_eq :
      (op : String) (arg : Json N) → check_operator op arg ≡ ok tt → str_eq op "$eq" ≡ false
  unfolding check_operator
  checked_not_eq op arg h = elim (Bool-cases (str_eq op "$eq")) [
    | inl e ↦ cc (ap (λ o. check_operator o arg) ((eq_iff op "$eq").0 e), h)
    | inr n ↦ n
  ]

  range_not_prefix : (op : String) → is_range_op op ≡ true → str_eq op "$prefix" ≡ false
  range_not_prefix op h = elim (Bool-cases (str_eq op "$prefix")) [
    | inl e ↦ cc (ap is_range_op ((eq_iff op "$prefix").0 e), h)
    | inr n ↦ n
  ]

  pub op-Approximates :
      (positive : Bool) (op : String) (arg : Json N)
      → check_operator op arg ≡ ok tt
      → Approximates positive
          (q_op key op arg positive).1
          (op_matches num_cmp (get p key) op arg)
          (node_holds q p (q_op key op arg positive).0)
  unfolding q_op op_matches check_operator
  op-Approximates positive op arg h =
      let not_eq = checked_not_eq op arg h in
      elim (Bool-cases (str_eq op "$in")) [
        | inl i ↦ rw i (in-Approximates positive arg (rw i at h))
        | inr n ↦ elim (Bool-cases (is_range_op op)) [
          | inl r ↦
              let not_prefix = range_not_prefix op r in
              rw (n, not_eq, not_prefix)
                (range-Approximates positive op arg (ground arith) not_eq not_prefix)
          | inr plain ↦ elim (Bool-cases (str_eq op "$prefix")) [
            | inl e ↦
                subst
                  (λ o.
                    Approximates positive (q_op key o arg positive).1
                      (op_matches num_cmp (get p key) o arg)
                      (node_holds q p (q_op key o arg positive).0))
                  (sym ((eq_iff op "$prefix").0 e))
                  (prefix-Approximates positive arg (ground arith))
            | inr m ↦ absurd (ground arith)
          ]
        ]
      ]
