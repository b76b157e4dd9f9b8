-- ===== src/Vectors/LocalStore/Cache/Fresh.antt =====
-- The cache entries of a local store that may be used, and the cache's operations on them.
use text.Mathlib.Text.{◌==◌ as str_eq}
use py_runner.Prelude.{
  ℕ, ◌-◌, ◌<◌, ◌≡◌, sym, ap, ◌∙◌, subst, ◌⊎◌, inl, inr, String, true, false, Bool-cases, none, some,
  [], ◌∷◌, ◌++◌, ltb, All, arith,
}
use py_runner.Vectors.Points.{ok-injective, err_not_ok, Store-cases, ok}
use py_runner.Vectors.Slices.{Option-cases}
use py_runner.Vectors.LocalStore.{File}
use py_runner.Vectors.LocalStore.Cache.{
  Cached, Cache, nbytes, lookup, cache_drop, cache_get, evict, cache_put, matrix_of, load,
}
use py_runner.Vectors.LocalStore.Versions.{Follows}

none_not_some : {A : Type 0} {a : A} → none ≡ some a → ⊥
none_not_some h = cc

some-injective : {A : Type 0} {a b : A} → some a ≡ some b → a ≡ b
some-injective h = cc

true_not_false : true ≡ false → ⊥
true_not_false h = cc

module _ {N : Type 0} (dim : ℕ) where
  -- An entry is of an earlier version, or it is what the file holds.
  unfoldable pub IsFresh : File N → Cached N → Type 0
  IsFresh file entry = (entry.version < file.version) ⊎ (load dim file ≡ ok entry)

  load-version :
      (file : File N) (entry : Cached N) → load dim file ≡ ok entry → entry.version ≡ file.version
  unfolding load
  load-version file entry h = elim (Store-cases (matrix_of dim file.rows)) [
    | inl (m, e) ↦ sym (ap (λ c. c.version) (ok-injective (rw e at h)))
    | inr (x, e) ↦ absurd (err_not_ok (rw e at h))
  ]

  IsFresh-Follows :
      (old new : File N) (entry : Cached N)
      → Follows old new
      → IsFresh old entry
      → IsFresh new entry
  unfolding IsFresh
  IsFresh-Follows old new entry (inl e) h = subst (λ f. IsFresh f entry) e h
  IsFresh-Follows old new entry (inr lt) (inl older) = inl (omega (arith, lt, older))
  IsFresh-Follows old new entry (inr lt) (inr same) =
      inl (omega (arith, lt, load-version old entry same))

  module _ (key : String) where
    -- every entry under the key is fresh
    unfoldable pub Safe : File N → Cache N → Type 0
    Safe file cache = All (λ slot. (str_eq slot.0 key ≡ false) ⊎ IsFresh file slot.1) cache

    pub Safe-Follows :
        (old new : File N) (cache : Cache N) → Follows old new → Safe old cache → Safe new cache
    unfolding Safe
    Safe-Follows old new [] f h = tt
    Safe-Follows old new (slot ∷ rest) f (inl other, h) = (inl other, Safe-Follows old new rest f h)
    Safe-Follows old new (slot ∷ rest) f (inr fresh, h) =
        (inr (IsFresh-Follows old new slot.1 f fresh), Safe-Follows old new rest f h)

    Safe-append :
        (file : File N) (xs ys : Cache N) → Safe file xs → Safe file ys → Safe file (xs ++ ys)
    unfolding Safe
    Safe-append file [] ys h g = g
    Safe-append file (slot ∷ xs) ys h g = (h.0, Safe-append file xs ys h.1 g)

    pub cache_drop-Safe :
        (file : File N) (any_key : String) (cache : Cache N)
        → Safe file cache
        → Safe file (cache_drop any_key cache)
    unfolding Safe
    cache_drop-Safe file any_key [] h = tt
    cache_drop-Safe file any_key (slot ∷ rest) h = elim (Bool-cases (str_eq slot.0 any_key)) [
      | inl t ↦ rw t (cache_drop-Safe file any_key rest h.1)
      | inr f ↦ rw f (h.0, cache_drop-Safe file any_key rest h.1)
    ]

    -- an entry that was dropped is of no file
    pub dropped-Safe : (file : File N) (cache : Cache N) → Safe file (cache_drop key cache)
    unfolding Safe
    dropped-Safe file [] = tt
    dropped-Safe file (slot ∷ rest) = elim (Bool-cases (str_eq slot.0 key)) [
      | inl t ↦ rw t (dropped-Safe file rest)
      | inr f ↦ rw f (inl f, dropped-Safe file rest)
    ]

    evict-Safe :
        (file : File N) (budget total : ℕ) (cache : Cache N)
        → Safe file cache
        → Safe file (evict budget total cache)
    unfolding Safe evict
    evict-Safe file budget total [] h = tt
    evict-Safe file budget total (slot ∷ []) h = h
    evict-Safe file budget total (slot ∷ next ∷ rest) h = elim (Bool-cases (ltb budget total)) [
      | inl t ↦ rw t (evict-Safe file budget (total - nbytes slot.1) (next ∷ rest) h.1)
      | inr f ↦ rw f h
    ]

    pub put-Safe :
        (file : File N) (budget : ℕ) (any_key : String) (entry : Cached N) (cache : Cache N)
        → (str_eq any_key key ≡ false) ⊎ IsFresh file entry
        → Safe file cache
        → Safe file (cache_put budget any_key entry cache)
    unfolding Safe cache_put
    put-Safe file budget any_key entry cache new h =
        evict-Safe file budget _ (cache_drop any_key cache ++ (any_key, entry) ∷ []) (
          Safe-append file (cache_drop any_key cache) ((any_key, entry) ∷ [])
            (cache_drop-Safe file any_key cache h) (new, tt))

    pub lookup-IsFresh :
        (file : File N) (entry : Cached N) (cache : Cache N)
        → Safe file cache
        → lookup key cache ≡ some entry
        → IsFresh file entry
    unfolding Safe
    lookup-IsFresh file entry [] h g = absurd (none_not_some g)
    lookup-IsFresh file entry (slot ∷ rest) h g = elim (Bool-cases (str_eq slot.0 key)) [
      | inr f ↦ lookup-IsFresh file entry rest h.1 (rw f at g)
      | inl t ↦
          let same : slot.1 ≡ entry = some-injective (rw t at g) in
          elim h.0 [
            | inl other ↦ absurd (true_not_false (sym t ∙ other))
            | inr fresh ↦ subst (λ e. IsFresh file e) same fresh
          ]
    ]

    pub get-Safe :
        (file : File N) (any_key : String) (cache : Cache N)
        → (str_eq any_key key ≡ false) ⊎ (any_key ≡ key)
        → Safe file cache
        → Safe file (cache_get any_key cache).1
    unfolding Safe cache_get
    get-Safe file any_key cache which h = elim (Option-cases (lookup any_key cache)) [
      | inl e ↦ rw (cache_get, e) h
      | inr (entry, e) ↦
          let new : (str_eq any_key key ≡ false) ⊎ IsFresh file entry = elim which [
            | inl other ↦ inl other
            | inr same ↦ inr (
                lookup-IsFresh file entry cache h (subst (λ k. lookup k cache ≡ some entry) same e))
          ] in
          rw (cache_get, e)
            (Safe-append file (cache_drop any_key cache) ((any_key, entry) ∷ [])
              (cache_drop-Safe file any_key cache h) (new, tt))
    ]

    pub loaded-IsFresh :
        (file : File N) (entry : Cached N) → load dim file ≡ ok entry → IsFresh file entry
    unfolding IsFresh
    loaded-IsFresh file entry e = inr e

    -- an entry of the file's version is what the file holds
    pub IsFresh-load :
        (file : File N) (entry : Cached N)
        → IsFresh file entry
        → entry.version ≡ file.version
        → ok entry ≡ load dim file
    unfolding IsFresh
    IsFresh-load file entry (inl older) e = absurd (omega (arith, older, e))
    IsFresh-load file entry (inr same) e = sym same
