-- ===== src/Retention/Newest.antt =====
-- A cleanup deletes only old runs, with enough others that are at least as new.
use mathlib.Core.Bool.{false≢true}
use py_runner.Prelude.{
  ℕ, zero, suc, ◌+◌, ◌*◌, ◌≤◌, ◌<◌, ◌≡◌, ◌≢◌, refl, sym, ◌∙◌, ◌⊎◌, inl, inr, Bool, true, false, not,
  ◌&&◌, Bool-cases, Option, List, [], ◌∷◌, any, All, keep, length, if◌then◌else◌, leb, ◌==◌,
  ==_refl, le→leb, arith,
}
use py_runner.Retention.{
  Row, Settings, Script, or_default, insert_newest, newest_first, take, has_key, seconds_per_day,
  is_recent, is_kept, get_effective_retention, get_runs_to_delete_for_script,
}

abbrev pub In : Row → List Row → Type 0
In r [] = ⊥
In r (x ∷ xs) = (r ≡ x) ⊎ In r xs

-- how many of the rows, other than `r`, are at least as new
abbrev pub at_least_as_new : Row → List Row → ℕ
at_least_as_new r rows =
    length (keep (λ x. leb r.created_at x.created_at && not (x.key == r.key)) rows)

Descending : List Row → Type 0
Descending [] = Unit
Descending (x ∷ xs) = All (λ y. y.created_at ≤ x.created_at) xs × Descending xs

All-insert_newest :
    (b : ℕ) (r : Row) (xs : List Row)
    → r.created_at ≤ b
    → All (λ y. y.created_at ≤ b) xs
    → All (λ y. y.created_at ≤ b) (insert_newest r xs)
unfolding insert_newest
All-insert_newest b r [] h a = (h, tt)
All-insert_newest b r (x ∷ xs) h a = elim (Bool-cases (leb x.created_at r.created_at)) [
  | inl e ↦ rw e (h, a)
  | inr n ↦ rw n (a.0, All-insert_newest b r xs h a.1)
]

All-weaken :
    (b c : ℕ) (xs : List Row)
    → b ≤ c
    → All (λ y. y.created_at ≤ b) xs
    → All (λ y. y.created_at ≤ c) xs
All-weaken b c [] h a = tt
All-weaken b c (x ∷ xs) h a = (omega arith, All-weaken b c xs h a.1)

insert_newest-Descending :
    (r : Row) (xs : List Row) → Descending xs → Descending (insert_newest r xs)
unfolding insert_newest Descending
insert_newest-Descending r [] d = (tt, tt)
insert_newest-Descending r (x ∷ xs) d = elim (Bool-cases (leb x.created_at r.created_at)) [
  | inl e ↦ rw e ((ground arith, All-weaken x.created_at r.created_at xs (ground arith) d.0), d)
  | inr n ↦
      rw n
        (All-insert_newest x.created_at r xs (ground arith) d.0, insert_newest-Descending r xs d.1)
]

newest_first-Descending : (rows : List Row) → Descending (newest_first rows)
unfolding newest_first Descending
newest_first-Descending [] = tt
newest_first-Descending (r ∷ rest) =
    insert_newest-Descending r (newest_first rest) (newest_first-Descending rest)

In-insert_newest : (r x : Row) (xs : List Row) → (r ≡ x) ⊎ In r xs → In r (insert_newest x xs)
unfolding insert_newest
In-insert_newest r x [] m = m
In-insert_newest r x (y ∷ ys) m = elim (Bool-cases (leb y.created_at x.created_at)) [
  | inl e ↦ rw e m
  | inr n ↦ rw n (elim m [
    | inl e ↦ inr (In-insert_newest r x ys (inl e))
    | inr later ↦ elim later [ inl e ↦ inl e | inr i ↦ inr (In-insert_newest r x ys (inr i)) ]
  ])
]

In-newest_first : (r : Row) (rows : List Row) → In r rows → In r (newest_first rows)
unfolding newest_first
In-newest_first r [] m = m
In-newest_first r (x ∷ xs) m =
    In-insert_newest r x (newest_first xs)
      (elim m [ inl e ↦ inl e | inr i ↦ inr (In-newest_first r xs i) ])

count-insert_newest :
    (r x : Row) (xs : List Row)
    → at_least_as_new r (insert_newest x xs) ≡ at_least_as_new r (x ∷ xs)
unfolding insert_newest
count-insert_newest r x [] = refl
count-insert_newest r x (y ∷ ys) = ground (arith, count-insert_newest r x ys)

count-newest_first :
    (r : Row) (rows : List Row) → at_least_as_new r (newest_first rows) ≡ at_least_as_new r rows
unfolding newest_first
count-newest_first r [] = refl
count-newest_first r (x ∷ xs) =
    count-insert_newest r x (newest_first xs) ∙ ground (arith, count-newest_first r xs)

All-In :
    {b : ℕ} (xs : List Row) (r : Row) → In r xs → All (λ y. y.created_at ≤ b) xs → r.created_at ≤ b
All-In [] r m a = absurd m
All-In (x ∷ xs) r m a = elim m [ inl e ↦ rw e a.0 | inr i ↦ All-In xs r i a.1 ]

not_itself :
    (c : ℕ) (r x : Row) (xs : List Row) → r ≡ x → has_key r.key (take (suc c) (x ∷ xs)) ≡ false → ⊥
not_itself c r x xs e h = false≢true (sym h ∙ rw (← e) (rw (==_refl r.key)))

tail_key :
    (c : ℕ) (r x : Row) (xs : List Row)
    → has_key r.key (take (suc c) (x ∷ xs)) ≡ false
    → has_key r.key (take c xs) ≡ false
tail_key c r x xs h = ground arith

-- a row that is not among the first `c` has `c` rows before it
outranked :
    (c : ℕ) (r : Row) (rows : List Row)
    → Descending rows
    → In r rows
    → has_key r.key (take c rows) ≡ false
    → c ≤ at_least_as_new r rows
unfolding Descending
outranked zero r rows d m h = omega arith
outranked (suc c) r [] d m h = absurd m
outranked (suc c) r (x ∷ xs) d m h = elim m [
  | inl e ↦ absurd (not_itself c r x xs e h)
  | inr i ↦
      let older : leb r.created_at x.created_at ≡ true = le→leb _ _ (All-In xs r i d.0) in
      let another : (x.key == r.key) ≡ false = ground arith in
      rw (older, another) (omega (arith, outranked c r xs d.1 i (tail_key c r x xs h)))
]

In-keep :
    (p : Row → Bool) (rows : List Row) (r : Row) → In r (keep p rows) → In r rows × (p r ≡ true)
In-keep p [] r m = absurd m
In-keep p (x ∷ xs) r m = elim (Bool-cases (p x)) [
  | inl t ↦ elim (rw t at m) [
    | inl e ↦ (inl e, rw e t)
    | inr i ↦ let (there, holds) = In-keep p xs r i in (inr there, holds)
  ]
  | inr f ↦ let (there, holds) = In-keep p xs r (rw f at m) in (inr there, holds)
]

any-false :
    (p : Row → Bool) (rows : List Row) (r : Row) → In r rows → any p rows ≡ false → p r ≡ false
any-false p [] r m h = absurd m
any-false p (x ∷ xs) r m h = elim m [
  | inl e ↦ rw e (ground arith)
  | inr i ↦ any-false p xs r i (ground arith)
]

not_recent :
    (now d c : ℕ) (rows : List Row) (r : Row)
    → In r rows
    → is_kept now d c rows r ≡ false
    → d ≢ 0
    → r.created_at + d * seconds_per_day < now
unfolding is_kept
not_recent now d c rows r m k n =
    let none_recent : any (λ x. x.key == r.key && is_recent now d x) rows ≡ false = ground arith in
    let late = any-false (λ x. x.key == r.key && is_recent now d x) rows r m none_recent in
    ground (arith, ==_refl r.key)

not_newest :
    (now d c : ℕ) (rows : List Row) (r : Row)
    → In r rows
    → is_kept now d c rows r ≡ false
    → c ≢ 0
    → c ≤ at_least_as_new r rows
unfolding is_kept
not_newest now d c rows r m k n =
    let absent : has_key r.key (take c (newest_first rows)) ≡ false = ground arith in
    rw (← count-newest_first r rows) (
      outranked c r (newest_first rows) (newest_first-Descending rows) (In-newest_first r rows m)
        absent)

some_limit : (d c : ℕ) → (d == 0 && c == 0) ≡ false → (d ≢ 0) ⊎ (c ≢ 0)
some_limit zero zero h = cc
some_limit zero (suc c) h = inr (omega arith)
some_limit (suc d) c h = inl (omega arith)

deleted_old :
    (now d c : ℕ) (rows : List Row) (r : Row)
    → In r (if d == 0 && c == 0 then [] else keep (λ x. not (is_kept now d c rows x)) rows)
    → In r rows
      × ((d ≢ 0) ⊎ (c ≢ 0))
      × (d ≢ 0 → r.created_at + d * seconds_per_day < now)
      × (c ≢ 0 → c ≤ at_least_as_new r rows)
deleted_old now d c rows r m = elim (Bool-cases (d == 0 && c == 0)) [
  | inl off ↦ absurd (rw off at m)
  | inr limited ↦
      let (there, doomed) = In-keep (λ x. not (is_kept now d c rows x)) rows r (rw limited at m) in
      let kept : is_kept now d c rows r ≡ false = ground arith in
      (
        there,
        some_limit d c limited,
        not_recent now d c rows r there kept,
        not_newest now d c rows r there kept,
      )
]

-- A run that a cleanup would delete is old and outranked: neither of both limits is off, a day limit
-- is passed, and if there is a count limit, that many other runs of the script are at least as new. With
-- both limits at 0 nothing is deleted.
pub get_runs_to_delete_for_script-old :
    (s : Settings) (now : ℕ) (script : Script) (days count : Option ℕ) (r : Row)
    → In r (get_runs_to_delete_for_script s now script days count)
    → let d = or_default days (get_effective_retention s script).0 in
      let c = or_default count (get_effective_retention s script).1 in
      In r script.runs
      × ((d ≢ 0) ⊎ (c ≢ 0))
      × (d ≢ 0 → r.created_at + d * seconds_per_day < now)
      × (c ≢ 0 → (c ≤ at_least_as_new r script.runs))
unfolding get_runs_to_delete_for_script
get_runs_to_delete_for_script-old s now script days count r m =
    deleted_old now (or_default days (get_effective_retention s script).0)
      (or_default count (get_effective_retention s script).1) script.runs r m
