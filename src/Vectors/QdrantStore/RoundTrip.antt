-- ===== src/Vectors/QdrantStore/RoundTrip.antt =====
-- What was stored comes back, and what the adapter adds never shows.
use text.Mathlib.Text.{◌==◌ as str_eq}
use text.Mathlib.TextEquality.{eq_iff}
use py_runner.Prelude.{
  length, ℕ, String, ◌≡◌, refl, sym, ap, ◌∙◌, subst, Bool, true, false, ◌||◌, Bool-cases, inl, inr,
  Option, none, some, List, arith,
}
use py_runner.Filters.Grammar.{codes}
use py_runner.Filters.Json.{Json, Fields, null, str, end, field, get}
use py_runner.Vectors.Points.{
  bind-ok, ok-injective, ok, Numbers, is_reserved, any_reserved, is_truthy, check_id, check_keys,
  check_payload, check_text, check_vector,
}
use py_runner.Vectors.QdrantStore.{
  encode_rest, id_key, text_key, PointIn, a_point, Raw, put, without, put_text, encode_point,
  user_fields, decode,
}

-- a reserved key is none of the keys of a checked payload
not_the_key :
    (k key : String) → is_reserved key ≡ true → is_reserved k ≡ false → str_eq k key ≡ false
not_the_key k key r n = elim (Bool-cases (str_eq k key)) [
  | inr f ↦ f
  | inl same ↦
      absurd (ground (arith, subst (λ x. is_reserved x ≡ true) (sym ((eq_iff k key).0 same)) r, n))
]

free_head : (a b : Bool) → (a || b) ≡ false → (a ≡ false) × (b ≡ false)
free_head a b h = (ground arith, ground arith)

module _ {N : Type 0} where
  -- the fields, and then some more
  abbrev and_then : Fields N → Fields N → Fields N
  and_then end more = more
  and_then (field k v rest) more = field k v (and_then rest more)

  and_then_end : (fs : Fields N) → and_then fs end ≡ fs
  and_then_end end = refl
  and_then_end (field k v rest) = ap (field k v) (and_then_end rest)

  -- a checked payload is passed over by every operation on a reserved key
  put-and_then :
      (key : String) (x : Json N) (fs more : Fields N)
      → is_reserved key ≡ true
      → any_reserved fs ≡ false
      → put key x (and_then fs more) ≡ and_then fs (put key x more)
  put-and_then key x end more r n = refl
  put-and_then key x (field k v rest) more r n =
      let (head, tail) = free_head (is_reserved k) (any_reserved rest) n in
      rw (not_the_key k key r head) (ap (field k v) (put-and_then key x rest more r tail))

  without-and_then :
      (key : String) (fs more : Fields N)
      → is_reserved key ≡ true
      → any_reserved fs ≡ false
      → without key (and_then fs more) ≡ and_then fs (without key more)
  without-and_then key end more r n = refl
  without-and_then key (field k v rest) more r n =
      let (head, tail) = free_head (is_reserved k) (any_reserved rest) n in
      rw (not_the_key k key r head) (ap (field k v) (without-and_then key rest more r tail))

  get-and_then :
      (key : String) (fs more : Fields N)
      → is_reserved key ≡ true
      → any_reserved fs ≡ false
      → get (and_then fs more) key ≡ get more key
  get-and_then key end more r n = refl
  get-and_then key (field k v rest) more r n =
      let (head, tail) = free_head (is_reserved k) (any_reserved rest) n in
      rw (not_the_key k key r head) (get-and_then key rest more r tail)

  user_fields-and_then :
      (fs more : Fields N)
      → any_reserved fs ≡ false
      → user_fields (and_then fs more) ≡ and_then fs (user_fields more)
  unfolding user_fields
  user_fields-and_then end more n = refl
  user_fields-and_then (field k v rest) more n =
      let (head, tail) = free_head (is_reserved k) (any_reserved rest) n in
      rw head (ap (field k v) (user_fields-and_then rest more tail))

  -- what the adapter adds to a payload
  abbrev added : String → Option String → Fields N
  added pid none = field id_key (str pid) end
  added pid (some t) = field id_key (str pid) (field text_key (str t) end)

  put_id :
      (pid : String) (fs : Fields N)
      → any_reserved fs ≡ false
      → put id_key (str pid) fs ≡ and_then fs (added pid none)
  put_id pid fs n =
      ap (put id_key (str pid)) (sym (and_then_end fs))
      ∙ put-and_then id_key (str pid) fs end refl n

  put_text-put :
      (pid : String) (text : Option String) (fs : Fields N)
      → any_reserved fs ≡ false
      → put_text text (put id_key (str pid) fs) ≡ and_then fs (added pid text)
  put_text-put pid none fs n = put_id pid fs n
  put_text-put pid (some t) fs n =
      ap (put text_key (str t)) (put_id pid fs n)
      ∙ put-and_then text_key (str t) fs (added pid none) refl n

  abbrev pub text_value : Option String → Json N
  text_value none = null
  text_value (some t) = str t

  abbrev back : Fields N → String → Option String → Fields N
  back fs pid text = and_then fs (added pid text)

  back-decoded :
      (fs : Fields N) (pid : String) (text : Option String)
      → any_reserved fs ≡ false
      → (get (back fs pid text) id_key ≡ str pid)
        × (without text_key (without id_key (back fs pid text)) ≡ fs)
        × (get (without id_key (back fs pid text)) text_key ≡ text_value text)
        × (user_fields (back fs pid text) ≡ fs)
  unfolding user_fields
  back-decoded fs pid none n = (
    get-and_then id_key fs (added pid none) refl n,
    rw (without-and_then id_key fs (added pid none) refl n)
        (without-and_then text_key fs end refl n ∙ and_then_end fs),
    rw (without-and_then id_key fs (added pid none) refl n) (get-and_then text_key fs end refl n),
    user_fields-and_then fs (added pid none) n ∙ and_then_end fs,
  )
  back-decoded fs pid (some t) n = (
    get-and_then id_key fs (added pid (some t)) refl n,
    rw (without-and_then id_key fs (added pid (some t)) refl n)
        (without-and_then text_key fs (field text_key (str t) end) refl n ∙ and_then_end fs),
    rw (without-and_then id_key fs (added pid (some t)) refl n)
        (get-and_then text_key fs (field text_key (str t) end) refl n),
    user_fields-and_then fs (added pid (some t)) n ∙ and_then_end fs,
  )

  check_keys-free : (p : Json N) (fs : Fields N) → check_keys p ≡ ok fs → any_reserved fs ≡ false
  check_keys-free p fs h = ground arith

  check_payload-free :
      (n : Numbers N) (p : Json N) (fs : Fields N)
      → check_payload n p ≡ ok fs
      → any_reserved fs ≡ false
  unfolding check_payload
  check_payload-free n p fs h = elim (Bool-cases (is_truthy n p)) [
    | inr f ↦ ground (arith, h, f)
    | inl t ↦ check_keys-free p fs (rw t at h)
  ]

  check_id-str :
      (id : Json N) (pid : String) → check_id id ≡ ok pid → (id ≡ str pid) × (str_eq pid "" ≡ false)
  unfolding check_id
  check_id-str (str s) pid h = elim (Bool-cases (str_eq s "")) [
    | inl same ↦ absurd (ground (arith, h, ap (λ x. length (codes x)) ((eq_iff s "").0 same)))
    | inr other ↦ (ground (arith, h), subst (λ x. str_eq x "" ≡ false) (ground (arith, h)) other)
  ]
  check_id-str _ pid h = absurd (ground (arith, h))

  -- what a stored point reads as, apart from its id
  abbrev Reads : Numbers N → String → Json N → Json N → Raw N → Type 0
  Reads n pid payload text raw =
      (fs : Fields N) × (check_payload n payload ≡ ok fs)
      × (decode n false raw ≡ record { id = str pid; payload = fs; text = text; vector = none })
      × (user_fields raw.payload ≡ fs)

  stored-Reads :
      (n : Numbers N) (uuid : String) (vector : List N) (pid : String) (fs : Fields N)
      (t : Option String) (payload text : Json N)
      → str_eq pid "" ≡ false
      → check_payload n payload ≡ ok fs
      → text ≡ text_value t
      → Reads n pid payload text (record {
        uuid = uuid;
        vector = vector;
        payload = put_text t (put id_key (str pid) fs);
        score = none;
      })
  unfolding decode
  stored-Reads n uuid vector pid fs t payload text ne checked same =
      let free = check_payload-free n payload fs checked in
      let (id, fields, given, user) = back-decoded fs pid t free in
      (
        fs,
        checked,
        rw (put_text-put pid t fs free, id, fields, given, same, ne) refl,
        rw (put_text-put pid t fs free) user,
      )

  check_text-value :
      (text : Json N) (t : Option String) → check_text text ≡ ok t → text ≡ text_value t
  unfolding check_text
  check_text-value text t h = ground arith

  encode_rest-Reads :
      (n : Numbers N) (uuid5 : String → String) (dim : ℕ) (pid : String) (v : Option (Json N))
      (payload text : Json N) (raw : Raw N)
      → str_eq pid "" ≡ false
      → encode_rest n uuid5 dim pid v payload text ≡ ok raw
      → Reads n pid payload text raw
  unfolding encode_rest
  encode_rest-Reads n uuid5 dim pid none payload text raw ne h = cc
  encode_rest-Reads n uuid5 dim pid (some v) payload text raw ne h =
      let (vector, _, h1) = bind-ok (check_vector n dim v) _ h in
      let (fs, checked, h2) = bind-ok (check_payload n payload) _ h1 in
      let (t, given, h3) = bind-ok (check_text text) _ h2 in
      subst (λ r. Reads n pid payload text r) (ok-injective h3)
        (stored-Reads n (uuid5 pid) vector pid fs t payload text ne checked
          (check_text-value text t given))

  -- A point that is stored comes back as it was given, its id, its payload and its text; and what
  -- the adapter adds to the payload is not among the fields that a filter is checked against.
  pub decode-encode_point :
      (n : Numbers N) (uuid5 : String → String) (dim : ℕ) (p : PointIn N) (raw : Raw N)
      → encode_point n uuid5 dim (a_point p) ≡ ok raw
      → (fs : Fields N) × (check_payload n p.payload ≡ ok fs)
        × (decode n false raw ≡ record { id = p.id; payload = fs; text = p.text; vector = none })
        × (user_fields raw.payload ≡ fs)
  unfolding encode_point
  decode-encode_point n uuid5 dim p raw h =
      let (pid, checked, h1) = bind-ok (check_id p.id) _ h in
      let (id, ne) = check_id-str p.id pid checked in
      let (fs, payload, item, user) =
        encode_rest-Reads n uuid5 dim pid p.vector p.payload p.text raw ne h1 in
      (fs, payload, rw id item, user)
