-- ===== src/Vectors/QdrantStore.antt =====
-- core/vectors/qdrant_store.py: points as the adapter stores them, and as it gives them back.
pub mod RoundTrip
pub mod Frame
pub mod Queries
pub mod Scan
pub mod Request
pub mod WellFormed
pub mod Delete
use text.Mathlib.Text.{◌==◌ as str_eq}
use py_runner.Prelude.{
  ℕ, String, Bool, true, false, Option, none, some, List, [], ◌∷◌, if◌then◌else◌,
}
use py_runner.Filters.Json.{Json, Fields, null, str, end, field, get}
use py_runner.Vectors.Points.{
  Store, ok, err, ◌>>=◌, Numbers, not_object, no_vector, check_id, check_payload, check_text,
  check_vector, is_reserved, is_truthy,
}

abbrev pub id_key : String
id_key = "_pyrun_id"

abbrev pub text_key : String
text_key = "_pyrun_text"

-- a point as a caller gives it: missing keys are null, but for a missing vector
pub record PointIn (N : Type 0) : Type 0 where
  pub id : Json N
  pub vector : Option (Json N)
  pub payload : Json N
  pub text : Json N

pub data Given (N : Type 0) : Type 0 where
  a_point : PointIn N → Given N
  another_value : Given N

-- a point on the server
pub record Raw (N : Type 0) : Type 0 where
  pub uuid : String
  pub vector : List N
  pub payload : Fields N
  pub score : Option N

-- what the adapter returns
pub record Item (N : Type 0) : Type 0 where
  pub id : Json N
  pub payload : Fields N
  pub text : Json N
  pub vector : Option (List N)

module _ {N : Type 0} where
  -- `d[key] = value`
  abbrev pub put : String → Json N → Fields N → Fields N
  put key value end = field key value end
  put key value (field k v rest) =
      let more = put key value rest in if str_eq k key then field k value rest else field k v more

  -- `d.pop(key, None)`: the dict without the key; the value is `get`
  abbrev pub without : String → Fields N → Fields N
  without key end = end
  without key (field k v rest) =
      let more = without key rest in if str_eq k key then rest else field k v more

  abbrev pub put_text : Option String → Fields N → Fields N
  put_text none fs = fs
  put_text (some s) fs = put text_key (str s) fs

  -- `_encode_point` after `check_id`
  unfoldable pub encode_rest :
      Numbers N → (String → String) → ℕ → String → Option (Json N) → Json N → Json N → Store (Raw N)
  encode_rest n uuid5 dim pid none payload text = err no_vector
  encode_rest n uuid5 dim pid (some v) payload text = check_vector n dim v >>= λ vector.
      check_payload n payload >>= λ fs. check_text text >>= λ t. ok (record {
        uuid = uuid5 pid;
        vector = vector;
        payload = put_text t (put id_key (str pid) fs);
        score = none;
      })

  -- `_encode_point`; `uuid5` is the id under the fixed namespace
  unfoldable pub encode_point : Numbers N → (String → String) → ℕ → Given N → Store (Raw N)
  unfolding encode_rest
  encode_point n uuid5 dim another_value = err not_object
  encode_point n uuid5 dim (a_point p) =
      check_id p.id >>= λ pid. encode_rest n uuid5 dim pid p.vector p.payload p.text

  -- `_user_payload`
  unfoldable pub user_fields : Fields N → Fields N
  user_fields end = end
  user_fields (field k v rest) =
      let more = user_fields rest in if is_reserved k then more else field k v more

  -- `_decode`
  unfoldable pub decode : Numbers N → Bool → Raw N → Item N
  decode n include_vectors raw =
      let pid = get raw.payload id_key in
      let payload = without id_key raw.payload in
      record {
        id = if is_truthy n pid then pid else str raw.uuid;
        payload = without text_key payload;
        text = get payload text_key;
        vector = if include_vectors then some raw.vector else none;
      }
