-- ===== src/Vectors/QdrantStore/Queries.antt =====
-- The searches of QdrantStore, which page through a server's answers. Loops have fuel,
-- and `none` is fuel that ran out. The server is the record `Points`: what Qdrant documents of it.
pub mod Recheck
pub mod Search
pub mod Paged
use Prim.Native.Nat.{Ordering}
use py_runner.Prelude.{
  ◌||◌, ℕ, zero, suc, ℤ, pos, negsuc, ◌+◌, ◌-◌, ◌*◌, ◌<◌, ◌≤◌, ◌≡◌, String, Bool, true, false, not,
  ◌&&◌, Option, none, some, List, [], ◌∷◌, ◌++◌, map, keep, length, ltb, leb, ◌==◌, if◌then◌else◌,
}
use py_runner.Filters.Json.{Json, Fields}
use py_runner.Filters.Grammar.{Result}
use py_runner.Filters.Evaluate.{matches}
use py_runner.Filters.Qdrant.{Node, QdrantFilter, to_qdrant}
use py_runner.Filters.Qdrant.Server.{Server}
use py_runner.Vectors.Slices.{take, drop}
use py_runner.Vectors.Points.{Store, ok, err, ◌>>=◌, Numbers, unsupported_filter, check_vector}
use py_runner.Vectors.QdrantStore.{Raw, Item, user_fields, decode}

-- what filters.py raises goes through the store
abbrev pub lift {ℓ} : {A : Type ℓ} → Result A → Store A
lift (Result.ok a) = ok a
lift (Result.err e) = err (unsupported_filter e)

-- the points that a server filter selects
abbrev pub selects :
    {N : Type 0} {num_cmp : N → N → Option Ordering}
    → Server N num_cmp
    → Option (Node N)
    → Raw N
    → Bool
selects q none raw = true
selects q (some n) raw = q.accepts n raw.payload

-- A collection on a server, with its points in the order of their ids. A query is approximate: of its
-- answer only the filter and the size are known. A page of a scroll starts at a cursor, an id that it
-- includes, and has a next cursor only if points follow it.
pub record Points (N : Type 0) (num_cmp : N → N → Option Ordering) (q : Server N num_cmp)
    : Type 1 where
  pub Cursor : Type 0
  pub stored : List (Raw N)
  pub count : Option (Node N) → ℕ
  pub count_law : (f : Option (Node N)) → count f ≡ length (keep (selects q f) stored)
  pub at : String → Cursor
  pub query : List N → Option (Node N) → ℕ → ℕ → List (Raw N)
  pub query_selects :
      (v : List N) (f : Option (Node N)) (limit offset : ℕ)
      → keep (selects q f) (query v f limit offset) ≡ query v f limit offset
  pub query_size :
      (v : List N) (f : Option (Node N)) (limit offset : ℕ)
      → (length (query v f limit offset) ≤ limit)
        × (length (query v f limit offset) ≤ length stored - offset)
  pub from : Option (Node N) → Option Cursor → List (Raw N)
  pub from_start : (f : Option (Node N)) → from f none ≡ keep (selects q f) stored
  pub from_law :
      (f : Option (Node N)) (c : Option Cursor) → keep (selects q f) (from f c) ≡ from f c
  pub scroll : Option (Node N) → Option Cursor → ℕ → List (Raw N) × Option Cursor
  pub page_law :
      (f : Option (Node N)) (c : Option Cursor) (limit : ℕ)
      → (scroll f c limit).0 ≡ take limit (from f c)
  pub last_law :
      (f : Option (Node N)) (c : Option Cursor) (limit : ℕ)
      → (scroll f c limit).1 ≡ none
      → length (from f c) ≤ limit
  pub next_law :
      (f : Option (Node N)) (c : Option Cursor) (limit : ℕ) (next : Cursor)
      → (scroll f c limit).1 ≡ some next
      → (limit < length (from f c)) × (from f (some next) ≡ drop limit (from f c))
  pub at_law :
      (f : Option (Node N)) (c : Option Cursor) (n : ℕ) (raw : Raw N) (rest : List (Raw N))
      → drop n (from f c) ≡ raw ∷ rest
      → from f (some (at raw.uuid)) ≡ raw ∷ rest

-- `max(1, min(int(k), MAX_LIMIT))`
abbrev pub max_limit : ℕ
max_limit = 1000

abbrev pub clamp : ℤ → ℕ
clamp (pos zero) = 1
clamp (pos (suc n)) = if ltb max_limit (suc n) then max_limit else suc n
clamp (negsuc n) = 1

-- `min(max(k * 4, 64), MAX_LIMIT)`
abbrev pub page_size : ℕ → ℕ
page_size k =
    let wanted = if ltb (k * 4) 64 then 64 else k * 4 in
    if ltb max_limit wanted then max_limit else wanted

-- what a search returns for a point
pub record Hit (N : Type 0) : Type 0 where
  pub item : Item N
  pub score : N

module _ {N : Type 0} (numbers : Numbers N) where
  -- `float(raw.get("score") or 0.0)`
  abbrev pub score_of : Option N → N
  score_of none = numbers.nought
  score_of (some s) = if numbers.is_zero s then numbers.nought else s

  -- `_hit`: a distance of the metric euclid is negated
  abbrev pub hit : Bool → Raw N → Hit N
  hit euclid raw =
      let score = score_of raw.score in
      record {
        item = decode numbers false raw;
        score = if euclid then numbers.negate score else score;
      }

module _ {N : Type 0} (num_cmp : N → N → Option Ordering) where
  -- `filters.matches(self._user_payload(raw), flt)`
  abbrev pub recheck : Json N → Raw N → Store Bool
  recheck flt raw = lift (matches num_cmp (user_fields raw.payload) flt)

  -- The inner loop of `search`: the hits of one batch, and how many are left to find.
  unfoldable pub collect : Json N → ℕ → List (Raw N) → Store (List (Raw N) × ℕ)
  collect flt left [] = ok ([], left)
  collect flt left (raw ∷ rest) = recheck flt raw >>= λ b. elim b [
    | false ↦ collect flt left rest
    | true ↦
        if leb left 1
        then ok (raw ∷ [], 0)
        else collect flt (left - 1) rest >>= λ found. ok (raw ∷ found.0, found.1)
  ]

  module _ (q : Server N num_cmp) (server : Points N num_cmp q) where
    -- the outer loop: pages of the ranked superset
    unfoldable pub search_pages :
        ℕ → List N → Option (Node N) → Json N → ℕ → ℕ → ℕ → Store (Option (List (Raw N)))
    unfolding collect
    search_pages zero v f flt page offset left = ok none
    search_pages (suc fuel) v f flt page offset left =
        let batch = server.query v f page offset in
        collect flt left batch >>= λ found.
        if found.1 == 0 || ltb (length batch) page
        then ok (some found.0)
        else search_pages fuel v f flt page (offset + page) found.1 >>= λ more. elim more [
          | none ↦ ok none
          | some hits ↦ ok (some (found.0 ++ hits))
        ]

    -- `search`, on a checked query vector
    unfoldable pub search_checked : ℕ → List N → ℤ → Json N → Store (Option (List (Raw N)))
    unfolding search_pages
    search_checked fuel v k flt =
        let k' = clamp k in
        lift (to_qdrant flt) >>= λ compiled.
        if compiled.matches_nothing
        then ok (some [])
        else if compiled.exact
        then ok (some (server.query v compiled.filter k' 0))
        else search_pages fuel v compiled.filter flt (page_size k') 0 k'

    -- `search`
    unfoldable pub search :
        Numbers N → ℕ → ℕ → Bool → Json N → ℤ → Json N → Store (Option (List (Hit N)))
    unfolding search_checked
    search numbers fuel dim euclid vector k flt = check_vector numbers dim vector >>= λ v.
        search_checked fuel v k flt >>= λ found. elim found [
          | none ↦ ok none
          | some raws ↦ ok (some (map (hit numbers euclid) raws))
        ]
