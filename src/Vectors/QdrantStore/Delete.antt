-- ===== src/Vectors/QdrantStore/Delete.antt =====
-- `delete` of core/vectors/qdrant_store.py: the requests that it sends, and the number it returns.
pub mod Effect
use Prim.Native.Nat.{Ordering}
use text.Mathlib.Text.{◌==◌ as str_eq}
use py_runner.Prelude.{
  ℕ, ◌+◌, ◌≡◌, String, Bool, true, false, not, ◌&&◌, Option, none, some, List, [], ◌∷◌, ◌++◌, map,
  keep, length, ◌==◌, if◌then◌else◌,
}
use py_runner.Filters.Json.{Json}
use py_runner.Filters.Qdrant.{Node, QdrantFilter, to_qdrant}
use py_runner.Filters.Qdrant.Server.{Server}
use py_runner.Vectors.Points.{Store, ok, err, ◌>>=◌, ids_or_filter}
use py_runner.Vectors.LocalStore.{among, chunks_up_to}
use py_runner.Vectors.QdrantStore.{Raw}
use py_runner.Vectors.QdrantStore.Queries.{Points, selects, lift}
use py_runner.Vectors.QdrantStore.Scan.{scan, matching}

abbrev pub id_batch : ℕ
id_batch = 1000

-- a POST to `points/delete`
pub data Deletion (N : Type 0) : Type 0 where
  points : List String → Deletion N
  filter : Option (Node N) → Deletion N

abbrev pub uuids_of : {N : Type 0} → List (Raw N) → List String
uuids_of raws = map (λ raw. raw.uuid) raws

-- `_chunks(uuids, ID_BATCH)`
abbrev pub id_chunks : List String → List (List String)
id_chunks uuids = chunks_up_to (length uuids) id_batch uuids

-- `list(dict.fromkeys(xs))`, with the keys that were there before
abbrev pub from_keys : List String → List String → List String
from_keys before [] = []
from_keys before (x ∷ xs) =
    let fresh = from_keys (x ∷ before) xs in
    let seen = from_keys before xs in if among before x then seen else x ∷ fresh

module _ {N : Type 0} where
  -- the branch of an exact filter, after `_count`
  abbrev pub delete_exact : ℕ → Option (Node N) → ℕ × List (Deletion N)
  delete_exact removed f = (removed, if removed == 0 then [] else filter f ∷ [])

  -- `_delete_ids`
  abbrev pub delete_ids : List String → List (Deletion N)
  delete_ids uuids = map points (id_chunks uuids)

  -- the points that a server has of those that are asked for, chunk by chunk
  unfoldable pub present : (List String → List (Raw N)) → List (List String) → List (Raw N)
  present retrieve [] = []
  present retrieve (chunk ∷ more) = retrieve chunk ++ present retrieve more

  module _ (num_cmp : N → N → Option Ordering) (q : Server N num_cmp)
      (server : Points N num_cmp q) where
    -- `delete` by filter: the number of removed points, and the requests
    unfoldable pub delete_matching : ℕ → Json N → Store (Option (ℕ × List (Deletion N)))
    delete_matching fuel flt = lift (to_qdrant flt) >>= λ compiled.
        if compiled.matches_nothing
        then ok (some (0, []))
        else if compiled.exact
        then ok (some (delete_exact (server.count compiled.filter) compiled.filter))
        else elim (scan num_cmp q server fuel compiled.filter none) [
          | none ↦ ok none
          | some raws ↦ matching num_cmp flt raws >>= λ doomed.
              ok (some (length doomed, delete_ids (uuids_of doomed)))
        ]

    -- `delete`; `retrieve` is the server's answer to `_retrieve`, and `uuid5` gives a point its uuid
    unfoldable pub delete :
        (List String → List (Raw N))
        → (String → String)
        → ℕ
        → Option (List String)
        → Option (Json N)
        → Store (Option (ℕ × List (Deletion N)))
    unfolding delete_matching
    delete retrieve uuid5 fuel none none = err ids_or_filter
    delete retrieve uuid5 fuel (some ids) (some flt) = err ids_or_filter
    delete retrieve uuid5 fuel (some ids) none =
        let found = present retrieve (id_chunks (from_keys [] (map uuid5 ids))) in
        ok (some (length found, delete_ids (uuids_of found)))
    delete retrieve uuid5 fuel none (some flt) = delete_matching fuel flt
