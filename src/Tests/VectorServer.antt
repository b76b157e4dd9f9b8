-- ===== src/Tests/VectorServer.antt =====
-- A Qdrant server in memory that keeps the documentation: points in the order of a list.
use Prim.Native.Nat.{Ordering}
use text.Mathlib.Text.{◌==◌ as str_eq}
use text.Mathlib.TextEquality.{eq_iff}
use py_runner.Prelude.{
  ◌-◌, ℕ, zero, suc, ◌+◌, ◌<◌, ◌≤◌, ◌≡◌, refl, sym, ap, ◌∙◌, subst, String, Bool, false, Bool-cases,
  inl, inr, Option, none, some, List, [], ◌∷◌, keep, length, All, arith, if◌then◌else◌,
}
use py_runner.Filters.Qdrant.{Node}
use py_runner.Filters.Qdrant.Server.{Server}
use py_runner.Vectors.Slices.{
  length-keep, take, drop, length-drop, drop-drop, head_eq, nil_not_cons, List-cases,
}
use py_runner.Vectors.QdrantStore.{Raw}
use py_runner.Vectors.QdrantStore.Queries.{Points, selects}

none_not_some : {A : Type 0} {a : A} → none ≡ some a → ⊥
none_not_some h = cc

some-injective : {A : Type 0} {a b : A} → some a ≡ some b → a ≡ b
some-injective h = cc

module _ {N : Type 0} where
  -- the points from an id on
  abbrev since : String → List (Raw N) → List (Raw N)
  since u [] = []
  since u (raw ∷ rest) = let more = since u rest in if str_eq raw.uuid u then raw ∷ rest else more

  abbrev from_cursor : Option String → List (Raw N) → List (Raw N)
  from_cursor none xs = xs
  from_cursor (some u) xs = since u xs

  abbrev first_id : List (Raw N) → Option String
  first_id [] = none
  first_id (raw ∷ rest) = some raw.uuid

  abbrev Fresh : String → List (Raw N) → Type 0
  Fresh u xs = All (λ raw. str_eq u raw.uuid ≡ false) xs

  -- no point has the id of an earlier one
  abbrev pub Distinct : List (Raw N) → Type 0
  Distinct [] = Unit
  Distinct (raw ∷ rest) = Fresh raw.uuid rest × Distinct rest

  since-drop : (u : String) (xs : List (Raw N)) → (m : ℕ) × (since u xs ≡ drop m xs)
  since-drop u [] = (0, refl)
  since-drop u (raw ∷ rest) = elim (Bool-cases (str_eq raw.uuid u)) [
    | inl t ↦ (0, rw t refl)
    | inr f ↦ let (m, e) = since-drop u rest in (suc m, rw f e)
  ]

  from_cursor-drop :
      (c : Option String) (xs : List (Raw N)) → (m : ℕ) × (from_cursor c xs ≡ drop m xs)
  from_cursor-drop none xs = (0, refl)
  from_cursor-drop (some u) xs = since-drop u xs

  drop-Fresh :
      (u : String) (n : ℕ) (xs : List (Raw N)) (raw : Raw N) (rest : List (Raw N))
      → Fresh u xs
      → drop n xs ≡ raw ∷ rest
      → str_eq u raw.uuid ≡ false
  drop-Fresh u zero [] raw rest fresh h = absurd (nil_not_cons h)
  drop-Fresh u zero (x ∷ xs) raw rest fresh h =
      subst (λ y. str_eq u y.uuid ≡ false) (head_eq h) fresh.0
  drop-Fresh u (suc n) [] raw rest fresh h = absurd (nil_not_cons h)
  drop-Fresh u (suc n) (x ∷ xs) raw rest fresh h = drop-Fresh u n xs raw rest fresh.1 h

  since-found :
      (n : ℕ) (xs : List (Raw N)) (raw : Raw N) (rest : List (Raw N))
      → Distinct xs
      → drop n xs ≡ raw ∷ rest
      → since raw.uuid xs ≡ raw ∷ rest
  since-found zero xs raw rest distinct h =
      subst (λ ys. since raw.uuid ys ≡ raw ∷ rest) (sym h)
        (rw ((eq_iff raw.uuid raw.uuid).1 refl) refl)
  since-found (suc n) [] raw rest distinct h = h
  since-found (suc n) (x ∷ xs) raw rest distinct h =
      rw (drop-Fresh x.uuid n xs raw rest distinct.0 h) (since-found n xs raw rest distinct.1 h)

  module _ (p : Raw N → Bool) where
    keep-Fresh : (u : String) (xs : List (Raw N)) → Fresh u xs → Fresh u (keep p xs)
    keep-Fresh u [] h = tt
    keep-Fresh u (x ∷ xs) h = elim (Bool-cases (p x)) [
      | inl t ↦ rw t (h.0, keep-Fresh u xs h.1)
      | inr f ↦ rw f (keep-Fresh u xs h.1)
    ]

    keep-Distinct : (xs : List (Raw N)) → Distinct xs → Distinct (keep p xs)
    keep-Distinct [] h = tt
    keep-Distinct (x ∷ xs) h = elim (Bool-cases (p x)) [
      | inl t ↦ rw t (keep-Fresh x.uuid xs h.0, keep-Distinct xs h.1)
      | inr f ↦ rw f (keep-Distinct xs h.1)
    ]

    keep_again : (m : ℕ) (xs : List (Raw N)) → keep p (drop m (keep p xs)) ≡ drop m (keep p xs)
    keep_again zero [] = refl
    keep_again (suc m) [] = refl
    keep_again zero (x ∷ xs) = elim (Bool-cases (p x)) [
      | inl t ↦ rw t (rw t (ap (λ ys. x ∷ ys) (keep_again zero xs)))
      | inr f ↦ rw f (keep_again zero xs)
    ]
    keep_again (suc m) (x ∷ xs) = elim (Bool-cases (p x)) [
      | inl t ↦ rw t (keep_again m xs)
      | inr f ↦ rw f (keep_again (suc m) xs)
    ]

    pub keep_taken :
        (n m : ℕ) (xs : List (Raw N))
        → keep p (take n (drop m (keep p xs))) ≡ take n (drop m (keep p xs))
    keep_taken zero m xs = refl
    keep_taken (suc n) zero [] = refl
    keep_taken (suc n) (suc m) [] = refl
    keep_taken (suc n) zero (x ∷ xs) = elim (Bool-cases (p x)) [
      | inl t ↦ rw t (rw t (ap (λ ys. x ∷ ys) (keep_taken n zero xs)))
      | inr f ↦ rw f (keep_taken (suc n) zero xs)
    ]
    keep_taken (suc n) (suc m) (x ∷ xs) = elim (Bool-cases (p x)) [
      | inl t ↦ rw t (keep_taken (suc n) m xs)
      | inr f ↦ rw f (keep_taken (suc n) (suc m) xs)
    ]

    length-taken :
        (n : ℕ) (ys : List (Raw N)) → (length (take n ys) ≤ n) × (length (take n ys) ≤ length ys)
    length-taken zero ys = (omega arith, omega arith)
    length-taken (suc n) [] = (omega arith, omega arith)
    length-taken (suc n) (y ∷ ys) =
        let (short, few) = length-taken n ys in (omega (arith, short), omega (arith, few))

    pub answer_size :
        (n m : ℕ) (xs : List (Raw N))
        → (length (take n (drop m (keep p xs))) ≤ n)
          × (length (take n (drop m (keep p xs))) ≤ length xs - m)
    answer_size n m xs =
        let (short, few) = length-taken n (drop m (keep p xs)) in
        (short, omega (arith, few, length-drop m (keep p xs), length-keep p xs))

  module _ {num_cmp : N → N → Option Ordering} (q : Server N num_cmp) (stored : List (Raw N))
      (distinct : Distinct stored) where
    abbrev points_from : Option (Node N) → Option String → List (Raw N)
    points_from f c = from_cursor c (keep (selects q f) stored)

    pub from_law :
        (f : Option (Node N)) (c : Option String)
        → keep (selects q f) (points_from f c) ≡ points_from f c
    from_law f c =
        let (m, e) = from_cursor-drop c (keep (selects q f) stored) in
        rw e (keep_again (selects q f) m stored)

    pub at_law :
        (f : Option (Node N)) (c : Option String) (n : ℕ) (raw : Raw N) (rest : List (Raw N))
        → drop n (points_from f c) ≡ raw ∷ rest
        → points_from f (some raw.uuid) ≡ raw ∷ rest
    at_law f c n raw rest h =
        let (m, e) = from_cursor-drop c (keep (selects q f) stored) in
        since-found (m + n) (keep (selects q f) stored) raw rest
          (keep-Distinct (selects q f) stored distinct)
          (sym (drop-drop m n (keep (selects q f) stored)) ∙ ap (drop n) (sym e) ∙ h)

    pub no_next :
        (limit : ℕ) (xs : List (Raw N)) → first_id (drop limit xs) ≡ none → length xs ≤ limit
    no_next limit xs h = elim (List-cases (drop limit xs)) [
      | inl e ↦ omega (arith, length-drop limit xs, ap length e)
      | inr (raw, rest, e) ↦
          let g : first_id (raw ∷ rest) ≡ none = rw e at h in absurd (none_not_some (sym g))
    ]

    pub a_next :
        (f : Option (Node N)) (c : Option String) (limit : ℕ) (next : String)
        → first_id (drop limit (points_from f c)) ≡ some next
        → (limit < length (points_from f c))
          × (points_from f (some next) ≡ drop limit (points_from f c))
    a_next f c limit next h = elim (List-cases (drop limit (points_from f c))) [
      | inl e ↦ absurd (none_not_some (rw e at h))
      | inr (raw, rest, e) ↦
          let same : raw.uuid ≡ next = some-injective (rw e at h) in
          (
            omega (arith, length-drop limit (points_from f c), ap length e),
            subst (λ u. points_from f (some u) ≡ drop limit (points_from f c)) same
                (at_law f c limit raw rest e ∙ sym e),
          )
    ]

    abbrev pub in_memory : Points N num_cmp q
    in_memory = record {
      Cursor = String;
      stored = stored;
      count = λ f. length (keep (selects q f) stored);
      count_law = λ f. refl;
      at = λ u. u;
      query = λ v f limit offset. take limit (drop offset (keep (selects q f) stored));
      query_selects = λ v f limit offset. keep_taken (selects q f) limit offset stored;
      query_size = λ v f limit offset. answer_size (selects q f) limit offset stored;
      from = points_from;
      from_start = λ f. refl;
      from_law = from_law;
      scroll = λ f c limit. (take limit (points_from f c), first_id (drop limit (points_from f c)));
      page_law = λ f c limit. refl;
      last_law = λ f c limit h. no_next limit (points_from f c) h;
      next_law = a_next;
      at_law = at_law;
    }
