-- ===== src/Vectors/Slices.antt =====
-- List slices, as the stores take them: `xs[:n]` and `xs[n:]`.
use py_runner.Prelude.{
  All, not, Option, none, some, ℕ, zero, suc, ◌+◌, ◌-◌, ◌<◌, ◌≤◌, ◌≡◌, refl, sym, ap, ◌∙◌, subst,
  Bool, true, false, List, [], ◌∷◌, ◌++◌, keep, length, arith, Bool-cases, ◌⊎◌, inl, inr,
}

abbrev pub take {ℓ} : {A : Type ℓ} → ℕ → List A → List A
take zero xs = []
take (suc n) [] = []
take (suc n) (x ∷ xs) = x ∷ take n xs

abbrev pub drop {ℓ} : {A : Type ℓ} → ℕ → List A → List A
drop zero xs = xs
drop (suc n) [] = []
drop (suc n) (x ∷ xs) = drop n xs

less_zero : (n : ℕ) → 0 - n ≡ 0
less_zero n = omega arith

pub less_none : (n : ℕ) → n - 0 ≡ n
less_none n = omega arith

plus_zero : (n : ℕ) → 0 + n ≡ n
plus_zero n = omega arith

less_suc : (m n : ℕ) → suc m - suc n ≡ m - n
less_suc m n = omega arith

plus_suc : (m n : ℕ) → suc m + n ≡ suc (m + n)
plus_suc m n = omega arith

module _ {A : Type 0} where
  pub drop_nil : (n : ℕ) → drop {A = A} n [] ≡ []
  drop_nil zero = refl
  drop_nil (suc n) = refl

  pub take_nil : (n : ℕ) → take {A = A} n [] ≡ []
  take_nil zero = refl
  take_nil (suc n) = refl

  pub take-append :
      (n : ℕ) (xs ys : List A) → take n (xs ++ ys) ≡ take n xs ++ take (n - length xs) ys
  take-append zero xs ys = rw (less_zero (length xs)) refl
  take-append (suc n) [] ys = rw (less_none (suc n)) refl
  take-append (suc n) (x ∷ xs) ys =
      rw (less_suc n (length xs)) (ap (λ t. x ∷ t) (take-append n xs ys))

  pub take_all : (n : ℕ) (xs : List A) → length xs ≤ n → take n xs ≡ xs
  take_all zero [] h = refl
  take_all (suc n) [] h = refl
  take_all zero (x ∷ xs) h = absurd (omega arith)
  take_all (suc n) (x ∷ xs) h = ap (λ t. x ∷ t) (take_all n xs (omega arith))

  pub keep-append : (p : A → Bool) (xs ys : List A) → keep p (xs ++ ys) ≡ keep p xs ++ keep p ys
  keep-append p [] ys = refl
  keep-append p (x ∷ xs) ys = ground (arith, keep-append p xs ys)

  pub take-drop : (n : ℕ) (xs : List A) → take n xs ++ drop n xs ≡ xs
  take-drop zero xs = refl
  take-drop (suc n) [] = refl
  take-drop (suc n) (x ∷ xs) = ap (λ t. x ∷ t) (take-drop n xs)

  pub drop-drop : (m n : ℕ) (xs : List A) → drop n (drop m xs) ≡ drop (m + n) xs
  drop-drop zero n xs = rw (plus_zero n) refl
  drop-drop (suc m) n [] = rw (plus_suc m n) (drop_nil n)
  drop-drop (suc m) n (x ∷ xs) = rw (plus_suc m n) (drop-drop m n xs)

  -- a slice that is not full took everything
  pub length-take_lt : (n : ℕ) (xs : List A) → length (take n xs) < n → length xs < n
  length-take_lt zero xs h = absurd (omega arith)
  length-take_lt (suc n) [] h = h
  length-take_lt (suc n) (x ∷ xs) h = omega (arith, length-take_lt n xs (omega arith))

  pub length-drop : (n : ℕ) (xs : List A) → length (drop n xs) ≡ length xs - n
  length-drop zero xs = omega arith
  length-drop (suc n) [] = omega arith
  length-drop (suc n) (x ∷ xs) = omega (arith, length-drop n xs)

  length-take_le : (n : ℕ) (xs : List A) → length (take n xs) ≤ length xs
  length-take_le zero xs = omega arith
  length-take_le (suc n) [] = omega arith
  length-take_le (suc n) (x ∷ xs) = omega (arith, length-take_le n xs)

  -- after a full page there is less left
  pub full_page :
      (page offset fuel : ℕ) (xs : List A)
      → 1 ≤ page
      → length (drop offset xs) < suc fuel
      → page ≤ length (take page (drop offset xs))
      → length (drop (offset + page) xs) < fuel
  full_page page offset fuel xs h enough full = omega (
    arith,
    h,
    enough,
    full,
    length-take_le page (drop offset xs),
    length-drop offset xs,
    length-drop (offset + page) xs,
  )

  pub Option-cases : (o : Option A) → (o ≡ none) ⊎ ((a : A) × (o ≡ some a))
  Option-cases none = inl refl
  Option-cases (some a) = inr (a, refl)

  pub List-cases : (xs : List A) → (xs ≡ []) ⊎ ((y : A) × (ys : List A) × (xs ≡ y ∷ ys))
  List-cases [] = inl refl
  List-cases (x ∷ xs) = inr (x, xs, refl)

  pub head_eq : {x y : A} {xs ys : List A} → x ∷ xs ≡ y ∷ ys → x ≡ y
  head_eq h = cc

  pub nil_not_cons : {x : A} {xs : List A} → [] ≡ x ∷ xs → ⊥
  nil_not_cons h = cc

  -- where an element that was kept stands
  pub locate :
      (p : A → Bool) (xs : List A) (n : ℕ) (y : A) (ys : List A)
      → drop n (keep p xs) ≡ y ∷ ys
      → (m : ℕ) × (rest : List A) × (drop m xs ≡ y ∷ rest) × (keep p (y ∷ rest) ≡ y ∷ ys)
  locate p [] n y ys h = absurd (nil_not_cons (sym (drop_nil n) ∙ h))
  locate p (x ∷ xs) zero y ys h = elim (Bool-cases (p x)) [
    | inr f ↦
        let (m, rest, at_m, kept) = locate p xs zero y ys (rw f at h) in (suc m, rest, at_m, kept)
    | inl t ↦
        let g : x ∷ keep p xs ≡ y ∷ ys = rw t at h in
        let same = head_eq g in
        (0, xs, ap (λ z. z ∷ xs) same, subst (λ z. keep p (z ∷ xs) ≡ y ∷ ys) same (rw t g))
  ]
  locate p (x ∷ xs) (suc k) y ys h = elim (Bool-cases (p x)) [
    | inr f ↦
        let (m, rest, at_m, kept) = locate p xs (suc k) y ys (rw f at h) in
        (suc m, rest, at_m, kept)
    | inl t ↦
        let (m, rest, at_m, kept) = locate p xs k y ys (rw t at h) in (suc m, rest, at_m, kept)
  ]

module _ {A : Type 0} (p : A → Bool) where
  pub length-keep : (xs : List A) → length (keep p xs) ≤ length xs
  length-keep [] = omega arith
  length-keep (x ∷ xs) = ground (arith, length-keep xs)

  -- two tests, one of them weaker
  pub keep-keep :
      (s : A → Bool) (xs : List A)
      → ((x : A) → p x ≡ true → s x ≡ true)
      → keep p (keep s xs) ≡ keep p xs
  keep-keep s [] h = refl
  keep-keep s (x ∷ xs) h = elim (Bool-cases (s x)) [
    | inl t ↦ rw t (ground (arith, keep-keep s xs h))
    | inr f ↦ ground (arith, f, h x, keep-keep s xs h)
  ]

  pub keep_same : (s : A → Bool) (xs : List A) → ((x : A) → p x ≡ s x) → keep p xs ≡ keep s xs
  keep_same s [] h = refl
  keep_same s (x ∷ xs) h = ground (arith, h x, keep_same s xs h)

  pub keep_none : (xs : List A) → ((x : A) → p x ≡ false) → keep p xs ≡ []
  keep_none [] h = refl
  keep_none (x ∷ xs) h = ground (arith, h x, keep_none xs h)

  -- if none is kept, all are left
  pub none_kept : (xs : List A) → length (keep p xs) ≡ 0 → keep (λ x. not (p x)) xs ≡ xs
  none_kept [] h = refl
  none_kept (x ∷ xs) h = elim (Bool-cases (p x)) [
    | inl t ↦ let g : suc (length (keep p xs)) ≡ 0 = rw t at h in absurd (omega (arith, g))
    | inr f ↦ rw f (ap (λ t. x ∷ t) (none_kept xs (rw f at h)))
  ]

  -- two tests that agree on a list
  pub keep_same_on : (s : A → Bool) (xs : List A) → All (λ x. p x ≡ s x) xs → keep p xs ≡ keep s xs
  keep_same_on s [] h = refl
  keep_same_on s (x ∷ xs) h = ground (arith, h.0, keep_same_on s xs h.1)
