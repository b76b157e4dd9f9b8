-- ===== src/Vectors/QdrantStore/Request.antt =====
-- `_request` and `_parse` of core/vectors/qdrant_store.py, and the lifecycle of a collection. A
-- session is what each attempt brings; the texts of errors are left out.
pub mod Attempts
use text.Mathlib.Text.{◌==◌ as str_eq}
use py_runner.Prelude.{
  ℕ, zero, suc, ◌+◌, String, Bool, true, false, not, ◌&&◌, ◌||◌, Option, none, some, List, [], ◌∷◌,
  ltb, leb, ◌==◌, if◌then◌else◌,
}
use py_runner.Filters.Json.{Json, Fields, obj, end}

pub record Response (N : Type 0) : Type 0 where
  pub status_code : ℕ
  -- `response.json()`, or nothing where it raises ValueError
  pub json : Option (Json N)

-- what one call of `session.request` does
pub data Reply (N : Type 0) : Type 0 where
  unreachable : Reply N
  answered : Response N → Reply N

-- BackendUnavailable with its messages, and QdrantRejected
pub data RequestError : Type 0 where
  could_not_reach not_there bad_key not_json : RequestError
  server_error rejected : ℕ → RequestError

pub data Parsed (N : Type 0) : Type 0 where
  body : Fields N → Parsed N
  missing : Parsed N
  failed : RequestError → Parsed N

-- What a request gives, the delays before its retries in half seconds, and its attempts.
pub record Outcome (N : Type 0) : Type 0 where
  pub result : Parsed N
  pub delays : List ℕ
  pub attempts : ℕ

-- RETRY_BACKOFF
abbrev pub retry_backoff : List ℕ
retry_backoff = 1 ∷ 2 ∷ 4 ∷ []

module _ {N : Type 0} where
  -- `body if isinstance(body, dict) else {}`
  abbrev pub dict_or_empty : Json N → Fields N
  dict_or_empty (obj fs) = fs
  dict_or_empty _ = end

  -- `_parse`
  unfoldable pub parse : Bool → Response N → Parsed N
  parse allow_404 response =
      let status = response.status_code in
      if status == 404
      then if allow_404 then missing else failed not_there
      else if status == 401 || status == 403
      then failed bad_key
      else if leb 400 status
      then failed (rejected status)
      else elim response.json [ none ↦ failed not_json | some value ↦ body (dict_or_empty value) ]

  -- one turn of the loop: the error to remember, or the end
  abbrev pub try_once : Bool → Reply N → Parsed N × Bool
  try_once allow_404 unreachable = (failed could_not_reach, true)
  try_once allow_404 (answered response) =
      let status = response.status_code in
      if not (status == 429) && ltb status 500
      then (parse allow_404 response, false)
      else (failed (server_error status), true)

  -- the attempts from number `n` on, with the delays that are left
  unfoldable pub attempts_from : Bool → (ℕ → Reply N) → ℕ → List ℕ → Outcome N
  attempts_from allow_404 session n [] = record {
    result = (try_once allow_404 (session n)).0;
    delays = [];
    attempts = 1;
  }
  attempts_from allow_404 session n (delay ∷ rest) =
      let more = attempts_from allow_404 session (n + 1) rest in
      if (try_once allow_404 (session n)).1
      then record {
        result = more.result;
        delays = delay ∷ more.delays;
        attempts = more.attempts + 1;
      }
      else record { result = (try_once allow_404 (session n)).0; delays = []; attempts = 1 }

  -- `_request`
  unfoldable pub request : Bool → (ℕ → Reply N) → Outcome N
  request allow_404 session = attempts_from allow_404 session 0 retry_backoff
