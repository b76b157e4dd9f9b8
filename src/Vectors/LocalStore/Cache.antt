-- ===== src/Vectors/LocalStore/Cache.antt =====
-- The matrices that core/vectors/local_store.py keeps in memory: the OrderedDict `_CACHE`, the least
-- recently used entry first, and `_cached`.
pub mod Budget
pub mod Fresh
pub mod Freshness
use text.Mathlib.Text.{◌==◌ as str_eq}
use py_runner.Prelude.{
  ◌<◌, ℕ, suc, ◌+◌, ◌-◌, ◌*◌, ◌≡◌, String, Bool, true, false, not, Option, none, some, List, [],
  ◌∷◌, ◌++◌, map, keep, length, ltb, ◌==◌, if◌then◌else◌,
}
use py_runner.Filters.Json.{Json}
use py_runner.Vectors.Points.{Store, ok, err, ◌>>=◌, dimension_mismatch}
use py_runner.Vectors.LocalStore.{Row, File, write_rows, delete}

-- `_Cached`; `dim` is the matrix's number of columns
pub record Cached (N : Type 0) : Type 0 where
  pub version : ℕ
  pub ids : List String
  pub matrix : List (List N)
  pub dim : ℕ

abbrev pub Cache : Type 0 → Type 0
Cache N = List (String × Cached N)

module _ {N : Type 0} where
  -- four bytes for a float32
  abbrev pub nbytes : Cached N → ℕ
  nbytes entry = length entry.matrix * entry.dim * 4

  abbrev pub total_bytes : Cache N → ℕ
  total_bytes [] = 0
  total_bytes (slot ∷ rest) = nbytes slot.1 + total_bytes rest

  -- `_CACHE.get(key)`
  abbrev pub lookup : String → Cache N → Option (Cached N)
  lookup key [] = none
  lookup key (slot ∷ rest) =
      let more = lookup key rest in if str_eq slot.0 key then some slot.1 else more

  -- `_CACHE.pop(key, None)`, which is `_cache_drop`
  abbrev pub cache_drop : String → Cache N → Cache N
  cache_drop key cache = keep (λ slot. not (str_eq slot.0 key)) cache

  -- `_cache_get`: the entry moves to the end
  unfoldable pub cache_get : String → Cache N → Option (Cached N) × Cache N
  cache_get key cache = elim (lookup key cache) [
    | none ↦ (none, cache)
    | some entry ↦ (some entry, cache_drop key cache ++ (key, entry) ∷ [])
  ]

  -- `while total > budget and len(_CACHE) > 1`
  unfoldable pub evict : ℕ → ℕ → Cache N → Cache N
  evict budget total [] = []
  evict budget total (slot ∷ []) = slot ∷ []
  evict budget total (slot ∷ next ∷ rest) =
      let fewer = evict budget (total - nbytes slot.1) (next ∷ rest) in
      if ltb budget total then fewer else slot ∷ next ∷ rest

  -- `_cache_put`
  unfoldable pub cache_put : ℕ → String → Cached N → Cache N → Cache N
  cache_put budget key entry cache =
      let after = cache_drop key cache ++ (key, entry) ∷ [] in
      evict budget (total_bytes after) after

  -- the rows as a matrix, if each has `dim` numbers
  unfoldable pub matrix_of : ℕ → List (Row N) → Store (List (List N))
  matrix_of dim [] = ok []
  matrix_of dim (row ∷ rest) =
      if length row.vector == dim
      then (matrix_of dim rest >>= λ more. ok (row.vector ∷ more))
      else err dimension_mismatch

  -- what `_cached` reads from the file
  unfoldable pub load : ℕ → File N → Store (Cached N)
  load dim file = matrix_of dim file.rows >>= λ matrix. ok (record {
    version = file.version;
    ids = map (λ r. r.id) file.rows;
    matrix = matrix;
    dim = dim;
  })

  abbrev pub reload : ℕ → String → Store (Cached N) → Cache N → Store (Cached N) × Cache N
  reload budget key (ok entry) cache = (ok entry, cache_put budget key entry cache)
  reload budget key (err e) cache = (err e, cache)

  abbrev pub use_entry :
      ℕ → String → ℕ → File N → Option (Cached N) → Cache N → Store (Cached N) × Cache N
  use_entry budget key dim file none cache = reload budget key (load dim file) cache
  use_entry budget key dim file (some entry) cache =
      if entry.version == file.version
      then (ok entry, cache)
      else reload budget key (load dim file) cache

  -- `_cached`
  unfoldable pub cached : ℕ → String → ℕ → File N → Cache N → Store (Cached N) × Cache N
  cached budget key dim file cache =
      let got = cache_get key cache in use_entry budget key dim file got.0 got.1

  -- `import_bytes`, for an image that may be no vector store: the file after it, which is gone where it
  -- raises, and the cache of its process
  unfoldable pub import_bytes : String → Option (File N) → Cache N → Option (File N) × Cache N
  import_bytes key none cache = (none, cache)
  import_bytes key (some image) cache = (some image, cache_drop key cache)

-- A file with the cache of a process. Other processes write to the file; other collections use the
-- cache under other keys.
pub record Shared (N : Type 0) : Type 0 where
  pub file : File N
  pub cache : Cache N

-- A read of the version and the rows is one step here. An import in another process drops nothing from
-- this cache; it is a step here only if the image has a higher version than the file it replaces.
pub data Step {N : Type 0} (to_sqlite : Json N → Store (Row N → Bool)) (budget : ℕ) (key : String)
    (dim : ℕ) (s : Shared N) : Shared N → Type 0 where
  upserts :
      (batch : List (Row N)) {count : ℕ} {file : File N}
      → write_rows batch s.file ≡ ok (count, file)
      → Step to_sqlite budget key dim s (record { file = file; cache = s.cache })
  deletes :
      (ids : Option (List String)) (flt : Option (Json N)) {count : ℕ} {file : File N}
      → delete to_sqlite ids flt s.file ≡ ok (count, file)
      → Step to_sqlite budget key dim s (record { file = file; cache = s.cache })
  reads :
      Step to_sqlite budget key dim s
        (record { file = s.file; cache = (cached budget key dim s.file s.cache).1 })
  reads_other :
      (other : String)
      → str_eq other key ≡ false
      → Step to_sqlite budget key dim s
          (record { file = s.file; cache = (cache_get other s.cache).1 })
  puts_other :
      (other : String) (entry : Cached N)
      → str_eq other key ≡ false
      → Step to_sqlite budget key dim s
          (record { file = s.file; cache = cache_put budget other entry s.cache })
  imports :
      (image : File N) {file : File N} {cache : Cache N}
      → import_bytes key (some image) s.cache ≡ (some file, cache)
      → Step to_sqlite budget key dim s (record { file = file; cache = cache })
  imports_elsewhere :
      (image : File N) (elsewhere : Cache N) {file : File N} {cache : Cache N}
      → s.file.version < image.version
      → import_bytes key (some image) elsewhere ≡ (some file, cache)
      → Step to_sqlite budget key dim s (record { file = file; cache = s.cache })
  drops :
      (any_key : String)
      → Step to_sqlite budget key dim s
          (record { file = s.file; cache = cache_drop any_key s.cache })

-- what can follow on a file whose key is not cached
pub data Reach {N : Type 0} (to_sqlite : Json N → Store (Row N → Bool)) (budget : ℕ) (key : String)
    (dim : ℕ) : Shared N → Type 0 where
  start :
      (file : File N) (cache : Cache N)
      → lookup key cache ≡ none
      → Reach to_sqlite budget key dim (record { file = file; cache = cache })
  later :
      {s t : Shared N}
      → Reach to_sqlite budget key dim s
      → Step to_sqlite budget key dim s t
      → Reach to_sqlite budget key dim t
