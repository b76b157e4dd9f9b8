-- ===== src/Vectors/QdrantStore/Frame.antt =====
-- A filter never sees the keys that the adapter adds, since their names are refused in filters.
use Prim.Native.Nat.{Ordering}
use text.Mathlib.Text.{◌==◌ as str_eq}
use text.Mathlib.TextEquality.{eq_iff}
use py_runner.Prelude.{
  String, ◌≡◌, refl, sym, ◌∙◌, subst, true, false, Bool-cases, inl, inr, Option, arith,
}
use py_runner.Filters.Json.{Json, Items, Fields, arr, obj, nil, cons, end, field, get}
use py_runner.Filters.Grammar.{
  Checked-cases, ok, ◌>>◌, validate, validate_field, validate_fields, validate_subs,
}
use py_runner.Filters.Evaluate.{matches}
use py_runner.Filters.Evaluate.Total.{
  holds, holds_fields, all_hold, any_holds, fields_of, validate_fields-rest, validate_fields-subs,
  validate_subs-sub, validate_fields-no_list, validate_fields-field, matches-total,
}
use py_runner.Vectors.Points.{is_reserved}
use py_runner.Vectors.QdrantStore.{user_fields}

-- two payloads with the same fields outside the reserved names
abbrev Agree : {N : Type 0} → Fields N → Fields N → Type 0
Agree p q = (k : String) → is_reserved k ≡ false → get p k ≡ get q k

validate_field-free :
    {N : Type 0} (key : String) (value : Json N)
    → validate_field key value ≡ ok tt
    → is_reserved key ≡ false
unfolding validate_field
validate_field-free key value h = ground arith

different : (k key : String) → is_reserved k ≡ true → is_reserved key ≡ false → str_eq k key ≡ false
different k key r n = elim (Bool-cases (str_eq k key)) [
  | inr f ↦ f
  | inl same ↦
      let h = subst (λ x. is_reserved x ≡ true) ((eq_iff k key).0 same) r in
      absurd (ground (arith, h, n))
]

mutual
  unfolding holds validate

  holds-Agree :
      {N : Type 0} (num_cmp : N → N → Option Ordering) (p q : Fields N) (flt : Json N)
      → Agree p q
      → validate_fields (fields_of flt) ≡ ok tt
      → holds num_cmp p flt ≡ holds num_cmp q flt
  holds-Agree num_cmp p q (obj fs) same v = holds_fields-Agree num_cmp p q fs same v
  holds-Agree num_cmp p q _ same v = refl

  holds_fields-Agree :
      {N : Type 0} (num_cmp : N → N → Option Ordering) (p q fs : Fields N)
      → Agree p q
      → validate_fields fs ≡ ok tt
      → holds_fields num_cmp p fs ≡ holds_fields num_cmp q fs
  holds_fields-Agree num_cmp p q end same v = refl
  holds_fields-Agree num_cmp p q (field key (arr subs) rest) same v =
      let below =
        holds_fields-Agree num_cmp p q rest same (validate_fields-rest key (arr subs) rest v) in
      elim (Bool-cases (str_eq key "must")) [
        | inl m ↦
            let inner = validate_fields-subs key subs rest v (rw m refl) in
            rw (m, below, all_hold-Agree num_cmp p q key subs same inner) refl
        | inr n ↦ elim (Bool-cases (str_eq key "must_not")) [
          | inl m ↦
              let inner = validate_fields-subs key subs rest v (rw (n, m) refl) in
              rw (n, m, below, any_holds-Agree num_cmp p q key subs same inner) refl
          | inr o ↦
              let named = validate_fields-field key (arr subs) rest (rw (n, o) refl) v in
              rw (n, o, below, same key (validate_field-free key (arr subs) named)) refl
        ]
      ]
  holds_fields-Agree num_cmp p q (field key value rest) same v =
      let below =
        holds_fields-Agree num_cmp p q rest same (validate_fields-rest key value rest v) in
      let plain = validate_fields-no_list key value rest refl v in
      let named = validate_fields-field key value rest plain v in
      rw (below, same key (validate_field-free key value named)) refl

  all_hold-Agree :
      {N : Type 0} (num_cmp : N → N → Option Ordering) (p q : Fields N) (key : String)
      (subs : Items N)
      → Agree p q
      → validate_subs key subs ≡ ok tt
      → all_hold num_cmp p subs ≡ all_hold num_cmp q subs
  all_hold-Agree num_cmp p q key nil same v = refl
  all_hold-Agree num_cmp p q key (cons sub rest) same v =
      let (valid, inner, after) = validate_subs-sub key sub rest v in
      rw (holds-Agree num_cmp p q sub same inner, all_hold-Agree num_cmp p q key rest same after)
        refl

  any_holds-Agree :
      {N : Type 0} (num_cmp : N → N → Option Ordering) (p q : Fields N) (key : String)
      (subs : Items N)
      → Agree p q
      → validate_subs key subs ≡ ok tt
      → any_holds num_cmp p subs ≡ any_holds num_cmp q subs
  any_holds-Agree num_cmp p q key nil same v = refl
  any_holds-Agree num_cmp p q key (cons sub rest) same v =
      let (valid, inner, after) = validate_subs-sub key sub rest v in
      rw (holds-Agree num_cmp p q sub same inner, any_holds-Agree num_cmp p q key rest same after)
        refl

module _ {N : Type 0} where
  user_fields-Agree : (fs : Fields N) → Agree fs (user_fields fs)
  unfolding user_fields
  user_fields-Agree end key n = refl
  user_fields-Agree (field k v rest) key n = elim (Bool-cases (is_reserved k)) [
    | inl r ↦ rw (r, different k key r n) (user_fields-Agree rest key n)
    | inr u ↦ rw u (elim (Bool-cases (str_eq k key)) [
      | inl t ↦ rw t refl
      | inr f ↦ rw f (user_fields-Agree rest key n)
    ])
  ]

  validated :
      (num_cmp : N → N → Option Ordering) (payload : Fields N) (flt : Json N)
      → (validate flt >> ok (holds num_cmp payload flt))
        ≡ (validate flt >> ok (holds num_cmp (user_fields payload) flt))
  unfolding holds validate
  validated num_cmp payload (obj fs) = elim (Checked-cases (validate_fields fs)) [
    | inl v ↦
        rw
          (
            v,
            holds_fields-Agree num_cmp payload (user_fields payload) fs (user_fields-Agree payload)
                v,
          )
          refl
    | inr (e, v) ↦ rw v refl
  ]
  validated num_cmp payload _ = refl

  -- Whatever the adapter keeps under reserved names, a filter is decided alike, error or answer, on
  -- the stored payload, as the server sees it, and on the caller's.
  pub matches-user_fields :
      (num_cmp : N → N → Option Ordering) (payload : Fields N) (flt : Json N)
      → matches num_cmp payload flt ≡ matches num_cmp (user_fields payload) flt
  matches-user_fields num_cmp payload flt =
      matches-total num_cmp payload flt
      ∙ validated num_cmp payload flt
      ∙ sym (matches-total num_cmp (user_fields payload) flt)
