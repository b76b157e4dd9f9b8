-- ===== src/Vectors/LocalStore.antt =====
-- core/vectors/local_store.py: one SQLite file per collection, its rows in the order of rowids. numpy's
-- check of a vector and the test that SQLite makes of a filter's clause are function arguments.
pub mod Chunks
pub mod Writes
pub mod Versions
pub mod Lookup
pub mod Cache
use text.Mathlib.Text.{◌==◌ as str_eq}
use py_runner.Prelude.{
  ℕ, zero, suc, ◌+◌, ◌-◌, String, Bool, true, false, not, ◌||◌, Option, none, some, List, [], ◌∷◌,
  ◌++◌, map, any, keep, length, ltb, leb, ◌==◌, if◌then◌else◌,
}
use py_runner.Filters.Json.{Json, Fields}
use py_runner.Vectors.Points.{
  Store, ok, err, ◌>>=◌, Numbers, not_object, no_vector, store_full, ids_or_filter, check_id,
  check_payload, check_text,
}
use py_runner.Vectors.Slices.{take, drop}
use py_runner.Vectors.QdrantStore.{PointIn, Given, a_point, another_value}

-- a row of the table `points`
pub record Row (N : Type 0) : Type 0 where
  pub id : String
  pub vector : List N
  pub payload : Fields N
  pub text : Option String

-- the table `points` and the `version` of the table `meta`
pub record File (N : Type 0) : Type 0 where
  pub rows : List (Row N)
  pub version : ℕ

abbrev pub hard_limit_points : ℕ
hard_limit_points = 200000

abbrev pub id_chunk : ℕ
id_chunk = 900

-- `x in xs`
abbrev pub among : List String → String → Bool
among xs x = any (λ y. str_eq x y) xs

-- `set(xs)`, as a list
abbrev pub distinct : List String → List String
distinct [] = []
distinct (x ∷ xs) = let more = distinct xs in if among xs x then more else x ∷ more

module _ {A : Type 0} where
  -- `_chunks`; the first argument is the chunks that there can be at most
  abbrev pub chunks_up_to : ℕ → ℕ → List A → List (List A)
  chunks_up_to zero size xs = []
  chunks_up_to (suc n) size [] = []
  chunks_up_to (suc n) size (x ∷ xs) = take size (x ∷ xs) ∷ chunks_up_to n size (drop size (x ∷ xs))

  abbrev pub chunks : List A → List (List A)
  chunks xs = chunks_up_to (length xs) id_chunk xs

module _ {N : Type 0} where
  -- `WHERE id IN (...)`
  abbrev pub id_in : List String → Row N → Bool
  id_in ids row = among ids row.id

  -- `_encode_point` after `check_id`
  unfoldable pub encode_row :
      Numbers N
      → (Json N → Store (List N))
      → String
      → Option (Json N)
      → Json N
      → Json N
      → Store (Row N)
  encode_row n prepare pid none payload text = err no_vector
  encode_row n prepare pid (some v) payload text = prepare v >>= λ vector.
      check_payload n payload >>= λ fs.
      check_text text >>= λ t. ok (record { id = pid; vector = vector; payload = fs; text = t })

  -- `_encode_point`
  unfoldable pub encode_local : Numbers N → (Json N → Store (List N)) → Given N → Store (Row N)
  unfolding encode_row
  encode_local n prepare another_value = err not_object
  encode_local n prepare (a_point p) =
      check_id p.id >>= λ pid. encode_row n prepare pid p.vector p.payload p.text

  -- `[self._encode_point(p) for p in points]`
  unfoldable pub encode_all :
      Numbers N → (Json N → Store (List N)) → List (Given N) → Store (List (Row N))
  unfolding encode_local
  encode_all n prepare [] = ok []
  encode_all n prepare (p ∷ ps) =
      encode_local n prepare p >>= λ row. encode_all n prepare ps >>= λ rows. ok (row ∷ rows)

  -- `INSERT OR REPLACE`: the replaced row goes, the new one comes last
  abbrev pub insert_or_replace : Row N → List (Row N) → List (Row N)
  insert_or_replace row rows = keep (λ r. not (str_eq r.id row.id)) rows ++ row ∷ []

  unfoldable pub insert_all : List (Row N) → List (Row N) → List (Row N)
  insert_all [] rows = rows
  insert_all (row ∷ more) rows = insert_all more (insert_or_replace row rows)

  -- the rows whose id is in one of the chunks, summed over the chunks
  unfoldable pub count_in : List (List String) → List (Row N) → ℕ
  count_in [] rows = 0
  count_in (chunk ∷ more) rows = length (keep (id_in chunk) rows) + count_in more rows

  -- `upsert` on encoded rows: `existing - already + len(new_ids) > HARD_LIMIT_POINTS`
  unfoldable pub write_rows : List (Row N) → File N → Store (ℕ × File N)
  write_rows [] file = ok (0, file)
  write_rows (row ∷ more) file =
      let new_ids = distinct (map (λ r. r.id) (row ∷ more)) in
      let already = count_in (chunks new_ids) file.rows in
      if ltb (hard_limit_points + already) (length file.rows + length new_ids)
      then err store_full
      else ok (
        length (row ∷ more),
        record { rows = insert_all (row ∷ more) file.rows; version = file.version + 1 },
      )

  -- `upsert`
  unfoldable pub upsert :
      Numbers N → (Json N → Store (List N)) → List (Given N) → File N → Store (ℕ × File N)
  unfolding encode_all write_rows
  upsert n prepare points file = encode_all n prepare points >>= λ rows. write_rows rows file

  -- `DELETE FROM points WHERE ...`: the row count and what is left
  abbrev pub delete_where : (Row N → Bool) → List (Row N) → ℕ × List (Row N)
  delete_where p rows = (length (keep p rows), keep (λ r. not (p r)) rows)

  -- the deletions chunk by chunk, with the sum of their row counts
  unfoldable pub delete_chunks : List (List String) → List (Row N) → ℕ × List (Row N)
  delete_chunks [] rows = (0, rows)
  delete_chunks (chunk ∷ more) rows =
      let one = delete_where (id_in chunk) rows in
      let rest = delete_chunks more one.1 in (one.0 + rest.0, rest.1)

  -- the version is raised if a row went
  abbrev pub finish_delete : ℕ × List (Row N) → File N → ℕ × File N
  finish_delete (removed, rows) file = (
    removed,
    record { rows = rows; version = if removed == 0 then file.version else file.version + 1 },
  )

  -- `delete`
  unfoldable pub delete :
      (Json N → Store (Row N → Bool))
      → Option (List String)
      → Option (Json N)
      → File N
      → Store (ℕ × File N)
  delete to_sqlite none none file = err ids_or_filter
  delete to_sqlite (some ids) (some flt) file = err ids_or_filter
  delete to_sqlite (some ids) none file =
      ok (finish_delete (delete_chunks (chunks ids) file.rows) file)
  delete to_sqlite none (some flt) file =
      to_sqlite flt >>= λ p. ok (finish_delete (delete_where p file.rows) file)
