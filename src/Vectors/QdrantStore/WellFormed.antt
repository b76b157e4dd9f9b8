-- ===== src/Vectors/QdrantStore/WellFormed.antt =====
-- What core/vectors/points.py makes sure of in a point that is stored.
use py_runner.Prelude.{
  ℕ, String, ◌≤◌, ◌≡◌, refl, ap, subst, true, not, Bool-cases, inl, inr, Option, none, some, List,
  all, length, ltb, ◌==◌, ==→eq, arith, ◌||◌, if◌then◌else◌,
}
use py_runner.Filters.Grammar.{codes}
use py_runner.Filters.Json.{Json, str, arr, obj, to_list}
use py_runner.Vectors.Points.{
  ok, err, bind-ok, ok-injective, err_not_ok, Numbers, dimension_mismatch, vector_not_finite,
  floats, keys, max_id_length, check_id, check_payload, check_text, check_values, check_vector,
}
use py_runner.Vectors.QdrantStore.{PointIn, a_point, Raw, encode_point, encode_rest}

module _ {N : Type 0} (n : Numbers N) where
  -- a vector of a collection with `dim` dimensions
  abbrev pub IsVector : ℕ → List N → Type 0
  IsVector dim values = (length values ≡ dim) × (all n.is_finite values ≡ true)

  -- an id, as a string of at most 256 characters
  abbrev pub IsId : String → Type 0
  IsId s = (1 ≤ length (codes s)) × (length (codes s) ≤ max_id_length)

  tests-IsVector :
      (dim : ℕ) (values v : List N)
      → (if not (length values == dim)
          then err dimension_mismatch
          else if not (all n.is_finite values)
          then err vector_not_finite
          else ok values)
        ≡ ok v
      → IsVector dim v
  tests-IsVector dim values v h = elim (Bool-cases (length values == dim)) [
    | inr f ↦ absurd (err_not_ok (rw f at h))
    | inl t ↦ elim (Bool-cases (all n.is_finite values)) [
      | inr f ↦ absurd (err_not_ok (rw (t, f) at h))
      | inl u ↦
          subst (IsVector dim) (ok-injective (rw (t, u) at h)) (==→eq (length values) dim t, u)
    ]
  ]

  check_values-IsVector :
      (dim : ℕ) (xs : List (Json N)) (v : List N) → check_values n dim xs ≡ ok v → IsVector dim v
  unfolding check_values
  check_values-IsVector dim xs v h =
      let (values, _, passed) = bind-ok (floats n xs) _ h in tests-IsVector dim values v passed

  check_vector-IsVector :
      (dim : ℕ) (x : Json N) (v : List N) → check_vector n dim x ≡ ok v → IsVector dim v
  unfolding check_vector
  check_vector-IsVector dim (arr items) v h = check_values-IsVector dim (to_list items) v h
  check_vector-IsVector dim (obj fs) v h = check_values-IsVector dim (keys fs) v h
  check_vector-IsVector dim _ v h = absurd (err_not_ok h)

  check_id-IsId : (x : Json N) (s : String) → check_id x ≡ ok s → (x ≡ str s) × IsId s
  unfolding check_id
  check_id-IsId (str t) s h =
      elim (Bool-cases (length (codes t) == 0 || ltb max_id_length (length (codes t)))) [
        | inl b ↦ absurd (err_not_ok (rw b at h))
        | inr g ↦
            let same : t ≡ s = ok-injective (rw g at h) in
            (ap str same, subst IsId same (ground (arith, g), ground (arith, g)))
      ]
  check_id-IsId _ s h = absurd (err_not_ok h)

  encode_rest-IsVector :
      (uuid5 : String → String) (dim : ℕ) (pid : String) (v : Option (Json N))
      (payload text : Json N) (raw : Raw N)
      → encode_rest n uuid5 dim pid v payload text ≡ ok raw
      → IsVector dim raw.vector × (raw.uuid ≡ uuid5 pid)
  unfolding encode_rest
  encode_rest-IsVector uuid5 dim pid none payload text raw h = absurd (err_not_ok h)
  encode_rest-IsVector uuid5 dim pid (some v) payload text raw h =
      let (vector, checked, h1) = bind-ok (check_vector n dim v) _ h in
      let (fs, _, h2) = bind-ok (check_payload n payload) _ h1 in
      let (t, _, h3) = bind-ok (check_text text) _ h2 in
      subst (λ r. IsVector dim r.vector × (r.uuid ≡ uuid5 pid)) (ok-injective h3)
        (check_vector-IsVector dim v vector checked, refl)

  -- A point that is stored has a vector of the collection's dimension, of finite numbers, and is
  -- stored under the uuid of its id, which is a string of 1 to 256 characters.
  pub encode_point-IsVector :
      (uuid5 : String → String) (dim : ℕ) (p : PointIn N) (raw : Raw N)
      → encode_point n uuid5 dim (a_point p) ≡ ok raw
      → IsVector dim raw.vector × ((s : String) × (p.id ≡ str s) × (raw.uuid ≡ uuid5 s) × IsId s)
  unfolding encode_point
  encode_point-IsVector uuid5 dim p raw h =
      let (pid, checked, h1) = bind-ok (check_id p.id) _ h in
      let (same, short) = check_id-IsId p.id pid checked in
      let (vector, uuid) = encode_rest-IsVector uuid5 dim pid p.vector p.payload p.text raw h1 in
      (vector, (pid, same, uuid, short))
