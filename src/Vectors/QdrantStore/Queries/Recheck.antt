-- ===== src/Vectors/QdrantStore/Queries/Recheck.antt =====
-- The re-check of a batch against the compiled filter, of core/vectors/qdrant_store.py.
use Prim.Native.Nat.{Ordering}
use py_runner.Prelude.{
  ℕ, zero, suc, ◌-◌, ◌≤◌, ◌≡◌, refl, sym, ap, ◌∙◌, Bool, true, false, not, ◌&&◌, Bool-cases, inl,
  inr, Option, List, [], ◌∷◌, keep, length, leb, arith,
}
use py_runner.Filters.Json.{Json}
use py_runner.Filters.Grammar.{Result, ◌>>=◌ as then_check, ◌>>◌, validate}
use py_runner.Filters.Evaluate.{matches}
use py_runner.Filters.Evaluate.Total.{holds, matches-total}
use py_runner.Filters.Qdrant.{QdrantFilter, to_qdrant}
use py_runner.Filters.Qdrant.Server.{Server}
use py_runner.Filters.Qdrant.Answer.{answer, ok-injective, to_qdrant_sound}
use py_runner.Vectors.Points.{ok}
use py_runner.Vectors.Slices.{take, less_none, keep-keep, keep_same, keep_none}
use py_runner.Vectors.QdrantStore.{Raw, user_fields}
use py_runner.Vectors.QdrantStore.Frame.{matches-user_fields}
use py_runner.Vectors.QdrantStore.Queries.{selects, recheck, collect}

-- whether a point matches
abbrev holds_of : Result Bool → Bool
holds_of (Result.ok b) = b
holds_of (Result.err e) = false

abbrev pub passes : {N : Type 0} → (N → N → Option Ordering) → Json N → Raw N → Bool
passes num_cmp flt raw = holds_of (matches num_cmp (user_fields raw.payload) flt)

-- the points of a list that match
abbrev pub passing : {N : Type 0} → (N → N → Option Ordering) → Json N → List (Raw N) → List (Raw N)
passing num_cmp flt xs = keep (passes num_cmp flt) xs

module _ {A B : Type 0} where
  ok-first :
      (m : Result A) (f : A → Result B) (r : B) (b : Bool)
      → then_check m f ≡ Result.ok r
      → (m >> Result.ok b) ≡ Result.ok b
  ok-first (Result.ok a) f r b h = refl
  ok-first (Result.err e) f r b h = absurd (ground (arith, h))

holds_of-ok : (m : Result Bool) (b : Bool) → m ≡ Result.ok b → m ≡ Result.ok (holds_of m)
holds_of-ok m b h = rw h refl

module _ {N : Type 0} (num_cmp : N → N → Option Ordering) where
  matches-decided :
      (flt : Json N) (r : QdrantFilter N) (raw : Raw N)
      → to_qdrant flt ≡ Result.ok r
      → matches num_cmp (user_fields raw.payload) flt ≡ Result.ok (passes num_cmp flt raw)
  unfolding to_qdrant
  matches-decided flt r raw h =
      holds_of-ok (matches num_cmp (user_fields raw.payload) flt)
        (holds num_cmp (user_fields raw.payload) flt)
        (matches-total num_cmp (user_fields raw.payload) flt ∙ ok-first (validate flt) _ r _ h)

  pub recheck-decided :
      (flt : Json N) (r : QdrantFilter N) (raw : Raw N)
      → to_qdrant flt ≡ Result.ok r
      → recheck num_cmp flt raw ≡ ok (passes num_cmp flt raw)
  recheck-decided flt r raw h = rw (matches-decided flt r raw h) refl

  module _ (q : Server N num_cmp) where
    pub answer-selects :
        (r : QdrantFilter N) (raw : Raw N)
        → answer q raw.payload r ≡ (not r.matches_nothing && selects q r.filter raw)
    unfolding answer
    answer-selects r raw = ground arith

    -- what the server answers against what passes
    pub passes-answer :
        (flt : Json N) (r : QdrantFilter N) (raw : Raw N)
        → to_qdrant flt ≡ Result.ok r
        → (passes num_cmp flt raw ≡ true → answer q raw.payload r ≡ true)
          × (r.exact ≡ true → passes num_cmp flt raw ≡ answer q raw.payload r)
    passes-answer flt r raw h =
        let e = matches-user_fields num_cmp raw.payload flt ∙ matches-decided flt r raw h in
        let sound = to_qdrant_sound q raw.payload flt r h in
        (λ t. sound.0 (e ∙ ap Result.ok t), λ x. ok-injective (sym e ∙ sound.1 x))

    module _ (flt : Json N) (r : QdrantFilter N) (given : to_qdrant flt ≡ Result.ok r) where
      pub none_pass : r.matches_nothing ≡ true → (xs : List (Raw N)) → passing num_cmp flt xs ≡ []
      none_pass m xs = keep_none (passes num_cmp flt) xs (λ raw.
          elim (Bool-cases (passes num_cmp flt raw)) [
            | inr f ↦ f
            | inl t ↦
                absurd
                  (ground (arith, m, (passes-answer flt r raw given).0 t, answer-selects r raw))
          ])

      pub exact_same :
          r.matches_nothing ≡ false
          → r.exact ≡ true
          → (raw : Raw N) → passes num_cmp flt raw ≡ selects q r.filter raw
      exact_same m x raw = (passes-answer flt r raw given).1 x ∙ answer-selects r raw ∙ rw m refl

      pub exact_pass :
          r.matches_nothing ≡ false
          → r.exact ≡ true
          → (xs : List (Raw N)) → keep (selects q r.filter) xs ≡ passing num_cmp flt xs
      exact_pass m x xs =
          sym (keep_same (passes num_cmp flt) (selects q r.filter) xs (exact_same m x))

      pub superset_pass :
          r.matches_nothing ≡ false
          → (xs : List (Raw N))
          → passing num_cmp flt (keep (selects q r.filter) xs) ≡ passing num_cmp flt xs
      superset_pass m xs = keep-keep (passes num_cmp flt) (selects q r.filter) xs (λ raw t.
          let a = (passes-answer flt r raw given).0 t in ground (arith, m, a, answer-selects r raw))

-- collecting, against the list of what passes
less_one : (n : ℕ) → suc (suc n) - 1 ≡ suc n
less_one n = omega arith

many : (n : ℕ) → leb (suc (suc n)) 1 ≡ false
many n = ground arith

pub one_less : (n : ℕ) → 1 - suc n ≡ 0
one_less n = omega arith

two_less : (n m : ℕ) → suc (suc n) - suc m ≡ suc n - m
two_less n m = omega arith

module _ {N : Type 0} (num_cmp : N → N → Option Ordering) (flt : Json N) (r : QdrantFilter N)
    (given : to_qdrant flt ≡ Result.ok r) where
  unfoldable pub found : ℕ → List (Raw N) → List (Raw N) × ℕ
  found left xs = let ys = keep (passes num_cmp flt) xs in (take left ys, left - length ys)

  collect-found-suc :
      (left : ℕ) (xs : List (Raw N)) → collect num_cmp flt (suc left) xs ≡ ok (found (suc left) xs)
  unfolding collect found
  collect-found-suc left [] = rw (less_none (suc left)) refl
  collect-found-suc zero (raw ∷ rest) = elim (Bool-cases (passes num_cmp flt raw)) [
    | inr f ↦ rw (recheck-decided num_cmp flt r raw given, f) (collect-found-suc zero rest)
    | inl t ↦
        rw
          (
            recheck-decided num_cmp flt r raw given,
            t,
            one_less (length (keep (passes num_cmp flt) rest)),
          )
          refl
  ]
  collect-found-suc (suc n) (raw ∷ rest) = elim (Bool-cases (passes num_cmp flt raw)) [
    | inr f ↦ rw (recheck-decided num_cmp flt r raw given, f) (collect-found-suc (suc n) rest)
    | inl t ↦
        rw
          (
            recheck-decided num_cmp flt r raw given,
            t,
            many n,
            less_one n,
            collect-found-suc n rest,
            two_less n (length (keep (passes num_cmp flt) rest)),
          )
          refl
  ]

  -- A batch gives its first `left` points that pass, and what is left to find after it.
  pub collect-found :
      (left : ℕ) (xs : List (Raw N)) → 1 ≤ left → collect num_cmp flt left xs ≡ ok (found left xs)
  collect-found zero xs h = absurd (omega arith)
  collect-found (suc left) xs h = collect-found-suc left xs
