-- ===== src/Vectors/LocalStore/Chunks.antt =====
-- Chunks are the whole list in order, so that a statement per chunk is a statement on the list.
use text.Mathlib.Text.{◌==◌ as str_eq}
use text.Mathlib.TextEquality.{eq_iff}
use py_runner.Prelude.{
  ℕ, zero, suc, ◌+◌, ◌≤◌, ◌≡◌, refl, sym, ap, ◌∙◌, subst, String, true, false, ◌||◌, Bool-cases,
  inl, inr, List, [], ◌∷◌, ◌++◌, keep, length, arith,
}
use py_runner.Vectors.Slices.{take, drop, take-drop, length-drop}
use py_runner.Vectors.LocalStore.{
  Row, among, distinct, chunks_up_to, chunks, id_chunk, id_in, count_in,
}

abbrev pub concat : {A : Type 0} → List (List A) → List A
concat [] = []
concat (xs ∷ rest) = xs ++ concat rest

module _ {A : Type 0} where
  shorter :
      (n size : ℕ) (x : A) (xs : List A)
      → 1 ≤ size
      → length (x ∷ xs) ≤ suc n
      → length (drop size (x ∷ xs)) ≤ n
  shorter n size x xs some_size h = omega (arith, some_size, h, length-drop size (x ∷ xs))

  pub concat-chunks_up_to :
      (n size : ℕ) (xs : List A) → 1 ≤ size → length xs ≤ n → concat (chunks_up_to n size xs) ≡ xs
  concat-chunks_up_to zero size [] some_size h = refl
  concat-chunks_up_to zero size (x ∷ xs) some_size h = absurd (omega (arith, h))
  concat-chunks_up_to (suc n) size [] some_size h = refl
  concat-chunks_up_to (suc n) size (x ∷ xs) some_size h =
      ap (λ rest. take size (x ∷ xs) ++ rest)
        (concat-chunks_up_to n size (drop size (x ∷ xs)) some_size
          (shorter n size x xs some_size h))
      ∙ take-drop size (x ∷ xs)

  pub concat-chunks : (xs : List A) → concat (chunks xs) ≡ xs
  concat-chunks xs = concat-chunks_up_to (length xs) id_chunk xs (omega arith) (omega arith)

pub among-append :
    (xs ys : List String) (z : String) → among (xs ++ ys) z ≡ (among xs z || among ys z)
among-append [] ys z = refl
among-append (x ∷ xs) ys z = ground (arith, among-append xs ys z)

pub str_eq_sym : (x y : String) → str_eq x y ≡ str_eq y x
str_eq_sym x y = elim (Bool-cases (str_eq x y)) [
  | inl t ↦ t ∙ sym ((eq_iff y x).1 (sym ((eq_iff x y).0 t)))
  | inr f ↦ elim (Bool-cases (str_eq y x)) [
    | inl t ↦ absurd (ground (arith, f, (eq_iff x y).1 (sym ((eq_iff y x).0 t))))
    | inr g ↦ f ∙ sym g
  ]
]

-- equal strings are in the same lists
pub among_same : (xs : List String) (z x : String) → str_eq z x ≡ true → among xs z ≡ among xs x
among_same xs z x h = ap (among xs) ((eq_iff z x).0 h)

-- no string stands twice
abbrev pub NoTwice : List String → Type 0
NoTwice [] = Unit
NoTwice (x ∷ xs) = (among xs x ≡ false) × NoTwice xs

pub among-distinct : (xs : List String) (z : String) → among (distinct xs) z ≡ among xs z
among-distinct [] z = refl
among-distinct (x ∷ xs) z = elim (Bool-cases (among xs x)) [
  | inl t ↦ elim (Bool-cases (str_eq z x)) [
    | inl same ↦ rw (t, same) (among-distinct xs z ∙ among_same xs z x same ∙ t)
    | inr f ↦ rw (t, f) (among-distinct xs z)
  ]
  | inr f ↦ rw f (ap (λ b. str_eq z x || b) (among-distinct xs z))
]

pub distinct-NoTwice : (xs : List String) → NoTwice (distinct xs)
distinct-NoTwice [] = tt
distinct-NoTwice (x ∷ xs) = elim (Bool-cases (among xs x)) [
  | inl t ↦ rw t (distinct-NoTwice xs)
  | inr f ↦ rw f (among-distinct xs x ∙ f, distinct-NoTwice xs)
]

-- what stands in the first of two parts does not stand in the second
apart :
    (xs ys : List String) (z : String) → NoTwice (xs ++ ys) → among xs z ≡ true → among ys z ≡ false
apart [] ys z h m = absurd (ground (arith, m))
apart (x ∷ xs) ys z h m = elim (Bool-cases (str_eq z x)) [
  | inl t ↦ among_same ys z x t ∙ ground (arith, h.0, among-append xs ys x)
  | inr f ↦ apart xs ys z h.1 (rw f at m)
]

NoTwice-rest : (xs ys : List String) → NoTwice (xs ++ ys) → NoTwice ys
NoTwice-rest [] ys h = h
NoTwice-rest (x ∷ xs) ys h = NoTwice-rest xs ys h.1

module _ {N : Type 0} where
  keep-append_ids :
      (xs ys : List String) (rows : List (Row N))
      → NoTwice (xs ++ ys)
      → length (keep (id_in (xs ++ ys)) rows)
        ≡ length (keep (id_in xs) rows) + length (keep (id_in ys) rows)
  keep-append_ids xs ys [] h = omega arith
  keep-append_ids xs ys (row ∷ rest) h =
      let more = keep-append_ids xs ys rest h in
      ground (arith, more, among-append xs ys row.id, apart xs ys row.id h)

  -- the counts of the chunks add up
  count_in-concat :
      (cs : List (List String)) (rows : List (Row N))
      → NoTwice (concat cs)
      → count_in cs rows ≡ length (keep (id_in (concat cs)) rows)
  unfolding count_in
  count_in-concat [] [] h = refl
  count_in-concat [] (row ∷ rest) h = count_in-concat [] rest h
  count_in-concat (c ∷ cs) rows h =
      ap (λ n. length (keep (id_in c) rows) + n)
        (count_in-concat cs rows (NoTwice-rest c (concat cs) h))
      ∙ sym (keep-append_ids c (concat cs) rows h)

  pub count_in-chunks :
      (ids : List String) (rows : List (Row N))
      → NoTwice ids
      → count_in (chunks ids) rows ≡ length (keep (id_in ids) rows)
  count_in-chunks ids rows h =
      count_in-concat (chunks ids) rows (subst NoTwice (sym (concat-chunks ids)) h)
      ∙ ap (λ xs. length (keep (id_in xs) rows)) (concat-chunks ids)
