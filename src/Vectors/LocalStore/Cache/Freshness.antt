-- ===== src/Vectors/LocalStore/Cache/Freshness.antt =====
-- A search uses no matrix of rows that were written over, but for imports of older images elsewhere.
use py_runner.Prelude.{
  ap, subst, ◌<◌, ℕ, ◌≡◌, refl, sym, ◌∙◌, inl, inr, String, Bool, Bool-cases, Option, none, some,
  [], ◌∷◌, ◌==◌, ==→eq,
}
use py_runner.Filters.Json.{Json}
use py_runner.Vectors.Points.{Store, ok, err}
use py_runner.Vectors.Slices.{Option-cases}
use py_runner.Vectors.LocalStore.{Row, File}
use py_runner.Vectors.LocalStore.Cache.Budget.{lookup_first}
use py_runner.Vectors.LocalStore.Cache.{
  imports, imports_elsewhere, import_bytes, cache_drop, Cached, Cache, lookup, cache_get, load,
  reload, use_entry, cached, Shared, Step, upserts, deletes, reads, reads_other, puts_other, drops,
  Reach, start, later,
}
use py_runner.Vectors.LocalStore.Versions.{write_rows-Follows, delete-Follows}
use py_runner.Vectors.LocalStore.Cache.Fresh.{
  dropped-Safe, IsFresh, Safe, Safe-Follows, put-Safe, get-Safe, cache_drop-Safe, lookup-IsFresh,
  loaded-IsFresh, IsFresh-load,
}

import_bytes-image :
    {N : Type 0} (key : String) (image : File N) (cache : Cache N)
    → (some image, cache_drop key cache) ≡ import_bytes key (some image) cache
unfolding import_bytes
import_bytes-image key image cache = refl

some-injective : {A : Type 0} {a b : A} → some a ≡ some b → a ≡ b
some-injective h = cc

newer_image :
    {N : Type 0} (key : String) (old image file : File N) (elsewhere : Cache N) {cache : Cache N}
    → old.version < image.version
    → import_bytes key (some image) elsewhere ≡ (some file, cache)
    → old.version < file.version
newer_image key old image file elsewhere newer h =
    subst (λ f. old.version < f.version)
      (some-injective (ap (λ t. t.0) (import_bytes-image key image elsewhere ∙ h))) newer

module _ {N : Type 0} (dim : ℕ) (key : String) where
  Answers : ℕ → File N → Store (Cached N) × Cache N → Type 0
  Answers budget file got = (got.0 ≡ load dim file) × Safe dim key file got.1

  put_loaded-Answers :
      (file : File N) (budget : ℕ) (cache : Cache N)
      → Safe dim key file cache
      → (loaded : Store (Cached N)) → load dim file ≡ loaded
      → Answers budget file (reload budget key loaded cache)
  unfolding Answers
  put_loaded-Answers file budget cache h (ok entry) e = (
    sym e,
    put-Safe dim key file budget key entry cache (inr (loaded-IsFresh dim key file entry e)) h,
  )
  put_loaded-Answers file budget cache h (err x) e = (sym e, h)

  answer_entry :
      (file : File N) (budget : ℕ) (entry : Cached N) (cache : Cache N)
      → IsFresh dim file entry
      → entry.version ≡ file.version
      → Safe dim key file cache
      → Answers budget file (ok entry, cache)
  unfolding Answers
  answer_entry file budget entry cache fresh e h = (IsFresh-load dim key file entry fresh e, h)

  use_entry-Answers :
      (file : File N) (budget : ℕ) (got : Option (Cached N)) (cache : Cache N)
      → ((entry : Cached N) → got ≡ some entry → IsFresh dim file entry)
      → Safe dim key file cache
      → Answers budget file (use_entry budget key dim file got cache)
  use_entry-Answers file budget none cache fresh h =
      put_loaded-Answers file budget cache h (load dim file) refl
  use_entry-Answers file budget (some entry) cache fresh h =
      elim (Bool-cases (entry.version == file.version)) [
        | inl t ↦ rw t (
            answer_entry file budget entry cache (fresh entry refl)
              (==→eq entry.version file.version t) h)
        | inr f ↦ rw f (put_loaded-Answers file budget cache h (load dim file) refl)
      ]

  got-lookup : (cache : Cache N) → (cache_get key cache).0 ≡ lookup key cache
  unfolding cache_get
  got-lookup cache = elim (Option-cases (lookup key cache)) [
    | inl e ↦ rw (cache_get, e) refl
    | inr (entry, e) ↦ rw (cache_get, e) refl
  ]

  cached-Answers :
      (file : File N) (budget : ℕ) (cache : Cache N)
      → Safe dim key file cache
      → Answers budget file (cached budget key dim file cache)
  unfolding cached
  cached-Answers file budget cache h =
      use_entry-Answers file budget (cache_get key cache).0 (cache_get key cache).1
        (λ entry e. lookup-IsFresh dim key file entry cache h (sym (got-lookup cache) ∙ e))
        (get-Safe dim key file key cache (inr refl) h)

  none-Safe : (file : File N) (cache : Cache N) → lookup key cache ≡ none → Safe dim key file cache
  unfolding Safe
  none-Safe file [] h = tt
  none-Safe file (slot ∷ rest) h =
      let (other, left) = lookup_first key slot rest h in (inl other, none-Safe file rest left)

  module _ (to_sqlite : Json N → Store (Row N → Bool)) (budget : ℕ) where
    Step-Safe :
        {s t : Shared N}
        → Step to_sqlite budget key dim s t
        → Safe dim key s.file s.cache
        → Safe dim key t.file t.cache
    unfolding Answers
    Step-Safe (upserts batch h) safe =
        Safe-Follows dim key _ _ _ (write_rows-Follows batch _ _ _ h) safe
    Step-Safe (deletes ids flt h) safe =
        Safe-Follows dim key _ _ _ (delete-Follows to_sqlite ids flt _ _ _ h) safe
    Step-Safe reads safe = (cached-Answers _ budget _ safe).1
    Step-Safe (reads_other other h) safe = get-Safe dim key _ other _ (inl h) safe
    Step-Safe (puts_other other entry h) safe = put-Safe dim key _ budget other entry _ (inl h) safe
    Step-Safe (imports image h) safe =
        subst (Safe dim key _) (ap (λ t. t.1) (import_bytes-image _ image _ ∙ h))
          (dropped-Safe dim key _ _)
    Step-Safe {s = s} (imports_elsewhere image elsewhere {file = file} newer h) safe =
        Safe-Follows dim key s.file file s.cache
          (inr (newer_image key s.file image file elsewhere newer h)) safe
    Step-Safe (drops any_key) safe = cache_drop-Safe dim key _ any_key _ safe

    Reach-Safe : {s : Shared N} → Reach to_sqlite budget key dim s → Safe dim key s.file s.cache
    Reach-Safe (start file cache h) = none-Safe file cache h
    Reach-Safe (later r step) = Step-Safe step (Reach-Safe r)

    -- A search uses the matrix, or gives the error, that it would get by reading the file again,
    -- after any upserts, deletions and searches on the collection, in this process or another, imports
    -- in this process, imports in another of images with a higher version than the file they replace,
    -- and whatever other collections put into the cache.
    pub cached-load :
        (s : Shared N)
        → Reach to_sqlite budget key dim s
        → (cached budget key dim s.file s.cache).0 ≡ load dim s.file
    unfolding Answers
    cached-load s r = (cached-Answers s.file budget s.cache (Reach-Safe r)).0
