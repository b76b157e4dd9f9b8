-- ===== src/Tests/LocalStoreTests.antt =====
-- core/vectors/local_store.py and the requests of core/vectors/qdrant_store.py at concrete inputs.
use py_runner.Prelude.{
  map, ℕ, ◌+◌, ◌<◌, ◌≤◌, ◌≡◌, refl, ◌⊎◌, ◌==◌, String, Bool, true, none, some, List, [], ◌∷◌, ◌++◌,
  length, ltb, arith, if◌then◌else◌,
}
use py_runner.Filters.Json.{Json, end}
use py_runner.Vectors.Points.{Store, ok, err, store_full}
use py_runner.Vectors.Slices.{take}
use py_runner.Vectors.LocalStore.{Row, File, hard_limit_points, write_rows, insert_all, count_in}
use py_runner.Vectors.LocalStore.Writes.{last_rows, untouched, write_rows-table}
use py_runner.Vectors.LocalStore.Lookup.{
  get, decode_row, found_rows, or_else, by_id, get-write_rows,
}
use py_runner.Vectors.LocalStore.Cache.{
  Cached, Cache, lookup, total_bytes, cache_put, load, cached, Shared, upserts, reads, Reach, start,
  later,
}
use py_runner.Vectors.LocalStore.Cache.Budget.{cache_put-IsBounded}
use py_runner.Vectors.LocalStore.Cache.Freshness.{cached-load}
use py_runner.Vectors.QdrantStore.Request.{
  Reply, unreachable, answered, try_once, retry_backoff, request,
}
use py_runner.Vectors.QdrantStore.Request.Attempts.{is_transient, request-settled}

abbrev row : String → ℕ → Row ℕ
row i x = record { id = i; vector = x ∷ []; payload = end; text = none }

abbrev old_file : File ℕ
old_file = record { rows = row "a" 1 ∷ row "b" 2 ∷ []; version = 4 }

abbrev batch : List (Row ℕ)
batch = row "b" 3 ∷ row "c" 4 ∷ row "b" 5 ∷ []

abbrev new_file : File ℕ
new_file = record { rows = row "a" 1 ∷ row "c" 4 ∷ row "b" 5 ∷ []; version = 5 }

written : write_rows batch old_file ≡ ok (3, new_file)
unfolding write_rows insert_all count_in
written = refl

write_rows-table_example : write_rows batch old_file ≡ (
    let after = untouched batch old_file.rows ++ last_rows batch in
    if length batch == 0
    then ok (0, old_file)
    else if ltb hard_limit_points (length after)
    then err store_full
    else ok (length batch, record { rows = after; version = old_file.version + 1 }))
write_rows-table_example = write_rows-table batch old_file

abbrev any_row : Json ℕ → Store (Row ℕ → Bool)
any_row flt = ok (λ r. true)

get-write_rows_example :
    get true ("b" ∷ "x" ∷ "a" ∷ []) new_file
    ≡ map
        (decode_row true)
        (found_rows ("b" ∷ "x" ∷ "a" ∷ []) (λ i. or_else (by_id batch i) (by_id old_file.rows i)))
get-write_rows_example =
    get-write_rows true ("b" ∷ "x" ∷ "a" ∷ []) batch old_file new_file 3 written

abbrev entry : Cached ℕ
entry = record { version = 1; ids = "z" ∷ []; matrix = (7 ∷ []) ∷ []; dim = 1 }

abbrev cache : Cache ℕ
cache = ("other", entry) ∷ []

cache_put-IsBounded_example :
    (lookup "key" (cache_put 5 "key" entry cache) ≡ some entry)
    × ((total_bytes (cache_put 5 "key" entry cache) ≤ 5)
        ⊎ (length (cache_put 5 "key" entry cache) ≤ 1))
cache_put-IsBounded_example = cache_put-IsBounded 5 "key" entry cache

-- a search, an upsert, and the state in which the next search starts
abbrev after_search : Shared ℕ
after_search = record { file = old_file; cache = (cached 100 "key" 1 old_file cache).1 }

abbrev after_upsert : Shared ℕ
after_upsert = record { file = new_file; cache = after_search.cache }

reached : Reach any_row 100 "key" 1 after_upsert
reached = later (later (start old_file cache refl) reads) (upserts batch written)

cached-load_example : (cached 100 "key" 1 new_file after_upsert.cache).0 ≡ load 1 new_file
cached-load_example = cached-load 1 "key" any_row 100 after_upsert reached

-- no answer, then a full queue, then an answer
abbrev session : ℕ → Reply ℕ
session n =
    if n == 0
    then unreachable
    else if n == 1
    then answered (record { status_code = 429; json = none })
    else answered (record { status_code = 404; json = none })

fails_first : (j : ℕ) → j < 2 → is_transient (session j) ≡ true
fails_first j h = ground arith

request-settled_example :
    request true session
    ≡ record { result = (try_once true (session 2)).0; delays = take 2 retry_backoff; attempts = 3 }
request-settled_example = request-settled true session 2 (omega arith) fails_first (λ h. refl)
