-- ===== src/Vectors/LocalStore/Cache/Budget.antt =====
-- The cache's budget.
use text.Mathlib.Text.{◌==◌ as str_eq}
use text.Mathlib.TextEquality.{eq_iff}
use py_runner.Prelude.{
  ℕ, ◌+◌, ◌-◌, ◌≤◌, ◌≡◌, refl, ◌⊎◌, inl, inr, String, false, Bool-cases, none, some, [], ◌∷◌, ◌++◌,
  length, ltb, arith,
}
use py_runner.Vectors.LocalStore.Cache.{
  Cached, Cache, nbytes, total_bytes, cache_drop, evict, cache_put, lookup,
}

some_not_none : {A : Type 0} {a : A} → some a ≡ none → ⊥
some_not_none h = cc

less_first : (m n : ℕ) → m + n - m ≡ n
less_first m n = omega arith

module _ {N : Type 0} where
  pub lookup_first :
      (key : String) (slot : String × Cached N) (rest : Cache N)
      → lookup key (slot ∷ rest) ≡ none
      → (str_eq slot.0 key ≡ false) × (lookup key rest ≡ none)
  lookup_first key slot rest h = elim (Bool-cases (str_eq slot.0 key)) [
    | inl t ↦ absurd (some_not_none (rw t at h))
    | inr f ↦ (f, rw f at h)
  ]

  lookup_last :
      (key : String) (entry : Cached N) (cache : Cache N)
      → lookup key cache ≡ none
      → lookup key (cache ++ (key, entry) ∷ []) ≡ some entry
  lookup_last key entry [] h = rw ((eq_iff key key).1 refl) refl
  lookup_last key entry (slot ∷ rest) h =
      let (other, none_left) = lookup_first key slot rest h in
      rw other (lookup_last key entry rest none_left)

  evict-IsBounded :
      (budget : ℕ) (cache : Cache N)
      → (total_bytes (evict budget (total_bytes cache) cache) ≤ budget)
        ⊎ (length (evict budget (total_bytes cache) cache) ≤ 1)
  unfolding evict
  evict-IsBounded budget [] = inr (omega arith)
  evict-IsBounded budget (slot ∷ []) = inr (omega arith)
  evict-IsBounded budget (slot ∷ next ∷ rest) =
      let below = evict-IsBounded budget (next ∷ rest) in
      elim (Bool-cases (ltb budget (total_bytes (slot ∷ next ∷ rest)))) [
        | inl t ↦ rw (t, less_first (nbytes slot.1) (total_bytes (next ∷ rest))) below
        | inr f ↦ rw f (inl (ground (arith, f)))
      ]

  lookup-evict :
      (budget total : ℕ) (key : String) (entry : Cached N) (cache : Cache N)
      → lookup key cache ≡ none
      → lookup key (evict budget total (cache ++ (key, entry) ∷ [])) ≡ some entry
  unfolding evict
  lookup-evict budget total key entry [] h = lookup_last key entry [] h
  lookup-evict budget total key entry (slot ∷ []) h = elim (Bool-cases (ltb budget total)) [
    | inl t ↦ rw t (lookup_last key entry [] refl)
    | inr f ↦ rw f (lookup_last key entry (slot ∷ []) h)
  ]
  lookup-evict budget total key entry (slot ∷ next ∷ rest) h =
      elim (Bool-cases (ltb budget total)) [
        | inl t ↦
            let left = (lookup_first key slot (next ∷ rest) h).1 in
            rw t (lookup-evict budget (total - nbytes slot.1) key entry (next ∷ rest) left)
        | inr f ↦ rw f (lookup_last key entry (slot ∷ next ∷ rest) h)
      ]

  lookup-cache_drop : (key : String) (cache : Cache N) → lookup key (cache_drop key cache) ≡ none
  lookup-cache_drop key [] = refl
  lookup-cache_drop key (slot ∷ rest) = ground (arith, lookup-cache_drop key rest)

  -- After an entry is put into the cache, the cache holds it, and its matrices are within the budget
  -- or there is no other.
  pub cache_put-IsBounded :
      (budget : ℕ) (key : String) (entry : Cached N) (cache : Cache N)
      → (lookup key (cache_put budget key entry cache) ≡ some entry)
        × ((total_bytes (cache_put budget key entry cache) ≤ budget)
            ⊎ (length (cache_put budget key entry cache) ≤ 1))
  unfolding cache_put
  cache_put-IsBounded budget key entry cache = (
    lookup-evict budget _ key entry (cache_drop key cache) (lookup-cache_drop key cache),
    evict-IsBounded budget (cache_drop key cache ++ (key, entry) ∷ []),
  )
