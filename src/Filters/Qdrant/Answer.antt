-- ===== src/Filters/Qdrant/Answer.antt =====
-- The answer of a Qdrant server to a compiled filter, against `matches`.
use Prim.Native.Nat.{Ordering}
use py_runner.Prelude.{
  ◌≡◌, refl, sym, ◌∙◌, ap, subst, Bool, true, false, inl, inr, Option, none, some, arith,
  if◌then◌else◌,
}
use py_runner.Filters.Json.{Json, Fields, null, obj, end, field}
use py_runner.Filters.Grammar.{Error, Checked-cases, ok, err, validate_fields, validate}
use py_runner.Filters.Evaluate.{matches}
use py_runner.Filters.Evaluate.Total.{holds, holds_fields, matches-total}
use py_runner.Filters.Qdrant.{
  Node, match_all, match_none, must, last, next, q_filter, QdrantFilter, finish, to_qdrant,
}
use py_runner.Filters.Qdrant.Server.{Server, node_holds}
use py_runner.Filters.Qdrant.Operators.{Approximates}
use py_runner.Filters.Qdrant.Sound.{filter-Approximates}

pub ok-injective {ℓ} : {A : Type ℓ} {a b : A} → ok a ≡ ok b → a ≡ b
ok-injective h = cc

pub err_not_ok {ℓ κ} : {A : Type ℓ} {a : A} {e : Error} {B : Type κ} → err e ≡ ok a → B
err_not_ok h = cc

module _ {N : Type 0} {num_cmp : N → N → Option Ordering} (q : Server N num_cmp)
    (p : Fields N) where
  -- what the adapter gets for a stored payload, before any re-check
  unfoldable pub answer : QdrantFilter N → Bool
  answer r =
      if r.matches_nothing then false else elim r.filter [ none ↦ true | some n ↦ q.accepts n p ]

  answer-finish : (n : Node N) (exact : Bool) → answer (finish n exact) ≡ node_holds q p n
  unfolding answer finish
  answer-finish match_all exact = refl
  answer-finish match_none exact = refl
  answer-finish (must ns) exact = refl
  answer-finish n exact = ground (arith, q.must_law (next n last) p)

  exact-finish : (n : Node N) (exact : Bool) → (finish n exact).exact ≡ exact
  unfolding finish
  exact-finish match_all exact = refl
  exact-finish _ exact = refl

  finish-Approximates :
      (fs : Fields N) (r : QdrantFilter N)
      → validate_fields fs ≡ ok tt
      → finish (q_filter true (obj fs)).0 (q_filter true (obj fs)).1 ≡ r
      → Approximates true r.exact (holds_fields num_cmp p fs) (answer r)
  unfolding holds
  finish-Approximates fs r v e =
      subst (λ s. Approximates true s.exact (holds_fields num_cmp p fs) (answer s)) e
        (rw (answer-finish, exact-finish) (filter-Approximates q p true (obj fs) v))

  Given : QdrantFilter N → Json N → Type 0
  Given r flt =
      (matches num_cmp p flt ≡ ok true → answer r ≡ true)
      × (r.exact ≡ true → matches num_cmp p flt ≡ ok (answer r))

  Given-of :
      (r : QdrantFilter N) (flt : Json N) (b : Bool)
      → matches num_cmp p flt ≡ ok b
      → Approximates true r.exact b (answer r)
      → Given r flt
  unfolding Given
  Given-of r flt b e h = (λ m. h.0 refl (ok-injective (sym e ∙ m)), λ x. e ∙ ap ok (sym (h.2 x)))

  no_filter :
      (flt : Json N) (r : QdrantFilter N)
      → matches num_cmp p flt ≡ ok true
      → record { filter = none; exact = true; matches_nothing = false } ≡ r
      → Given r flt
  unfolding answer
  no_filter flt r m e = Given-of r flt true m (
      subst (λ s. Approximates true s.exact true (answer s)) e
        (λ _ _. refl, λ _ _. refl, λ _. refl))

  matches-ok :
      (fs : Fields N)
      → validate_fields fs ≡ ok tt
      → matches num_cmp p (obj fs) ≡ ok (holds_fields num_cmp p fs)
  unfolding validate holds
  matches-ok fs v = matches-total num_cmp p (obj fs) ∙ rw v

  -- Of the filter that `to_qdrant` returns: the server accepts every payload that matches, and where
  -- the result is marked exact, it accepts no other.
  pub to_qdrant_sound :
      (flt : Json N) (r : QdrantFilter N)
      → to_qdrant flt ≡ ok r
      → (matches num_cmp p flt ≡ ok true → answer r ≡ true)
        × (r.exact ≡ true → matches num_cmp p flt ≡ ok (answer r))
  unfolding Given to_qdrant validate holds
  to_qdrant_sound null r h = no_filter null r (matches-total num_cmp p null) (ok-injective h)
  to_qdrant_sound (obj end) r h =
      no_filter (obj end) r (matches-total num_cmp p (obj end)) (ok-injective h)
  to_qdrant_sound (obj (field k v fs)) r h = elim (Checked-cases (validate_fields (field k v fs))) [
    | inl valid ↦
        Given-of r (obj (field k v fs)) _ (matches-ok (field k v fs) valid)
          (finish-Approximates (field k v fs) r valid (ok-injective (rw valid at h)))
    | inr (e, invalid) ↦ err_not_ok (rw invalid at h)
  ]
  to_qdrant_sound _ r h = err_not_ok h
