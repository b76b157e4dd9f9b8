-- ===== src/Vectors/QdrantStore/Scan.antt =====
-- The counts and pages of QdrantStore, which scan the points of a server filter in the order of ids.
pub mod Pages
pub mod Cursors
use Prim.Native.Nat.{Ordering}
use py_runner.Prelude.{
  ℕ, zero, suc, ℤ, ◌+◌, String, Bool, true, false, Option, none, some, List, [], ◌∷◌, ◌++◌, map,
  length, ◌==◌, if◌then◌else◌,
}
use py_runner.Filters.Json.{Json}
use py_runner.Filters.Qdrant.{Node, QdrantFilter, to_qdrant}
use py_runner.Filters.Qdrant.Server.{Server}
use py_runner.Vectors.Points.{Store, ok, err, ◌>>=◌, Numbers}
use py_runner.Vectors.QdrantStore.{Raw, Item, decode}
use py_runner.Vectors.QdrantStore.Queries.{Points, lift, clamp, recheck}

abbrev pub scan_batch : ℕ
scan_batch = 256

module _ {N : Type 0} (num_cmp : N → N → Option Ordering) where
  -- `[raw for raw in points if filters.matches(self._user_payload(raw), flt)]`
  unfoldable pub matching : Json N → List (Raw N) → Store (List (Raw N))
  matching flt [] = ok []
  matching flt (raw ∷ rest) = recheck num_cmp flt raw >>= λ b.
      matching flt rest >>= λ more. ok (if b then raw ∷ more else more)

module _ {N : Type 0} (num_cmp : N → N → Option Ordering) (q : Server N num_cmp)
    (server : Points N num_cmp q) where
  -- `_scan`, all that it yields
  unfoldable pub scan : ℕ → Option (Node N) → Option server.Cursor → Option (List (Raw N))
  scan zero f c = none
  scan (suc fuel) f c =
      let page = server.scroll f c scan_batch in
      elim page.1 [
        | none ↦ some page.0
        | some next ↦ elim (scan fuel f (some next)) [
          | none ↦ none
          | some rest ↦ some (page.0 ++ rest)
        ]
      ]

  -- `count`
  unfoldable pub count : ℕ → Json N → Store (Option ℕ)
  unfolding scan matching
  count fuel flt = lift (to_qdrant flt) >>= λ compiled.
      if compiled.matches_nothing
      then ok (some 0)
      else if compiled.exact
      then ok (some (server.count compiled.filter))
      else elim (scan fuel compiled.filter none) [
        | none ↦ ok none
        | some raws ↦ matching num_cmp flt raws >>= λ found. ok (some (length found))
      ]

  -- the loop of `scroll` on a filter that is not exact, with `taken` items already
  unfoldable pub fill : Json N → ℕ → ℕ → List (Raw N) → Store (List (Raw N) × Option server.Cursor)
  fill flt limit taken [] = ok ([], none)
  fill flt limit taken (raw ∷ rest) = recheck num_cmp flt raw >>= λ b. elim b [
    | false ↦ fill flt limit taken rest
    | true ↦
        if taken == limit
        then ok ([], some (server.at raw.uuid))
        else fill flt limit (taken + 1) rest >>= λ more. ok (raw ∷ more.0, more.1)
  ]

  -- `scroll`, before the points are decoded
  unfoldable pub scroll_raw :
      ℕ → Option server.Cursor → ℤ → Json N → Store (Option (List (Raw N) × Option server.Cursor))
  unfolding scan fill
  scroll_raw fuel cursor limit flt =
      let limit' = clamp limit in
      lift (to_qdrant flt) >>= λ compiled.
      if compiled.matches_nothing
      then ok (some ([], none))
      else if compiled.exact
      then ok (some (server.scroll compiled.filter cursor limit'))
      else elim (scan fuel compiled.filter cursor) [
        | none ↦ ok none
        | some raws ↦ fill flt limit' 0 raws >>= λ page. ok (some page)
      ]

  -- `scroll`
  unfoldable pub scroll :
      Numbers N
      → ℕ
      → Option server.Cursor
      → ℤ
      → Json N
      → Bool
      → Store (Option (List (Item N) × Option server.Cursor))
  unfolding scroll_raw
  scroll numbers fuel cursor limit flt include_vectors =
      scroll_raw fuel cursor limit flt >>= λ found. elim found [
        | none ↦ ok none
        | some page ↦ ok (some (map (decode numbers include_vectors) page.0, page.1))
      ]
