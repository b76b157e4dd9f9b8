-- ===== src/Schedules/CronText/Groups.antt =====
-- The groups hold exactly the converted times: each is a cross product, and none adds a time.
use py_runner.Prelude.{
  ℕ, ◌≡◌, ◌∙◌, refl, sym, Bool, true, false, ◌&&◌, ◌||◌, Bool-cases, inl, inr, List, [], ◌∷◌, ◌++◌,
  any, member, sorted, member-sorted, ◌==◌, ==→eq, arith,
}
use py_runner.Schedules.CronText.{
  Entry, Group, Pair, add_to_set, add_hour, same_list, add_minute, by_key, regroup, groups_of,
}

or_assoc : (a b c : Bool) → ((a || b) || c) ≡ (a || (b || c))
or_assoc true b c = refl
or_assoc false b c = refl

abbrev pub in_pairs : ℕ → ℕ → ℕ → List Pair → Bool
in_pairs s h m pairs = any (λ p. p.shift == s && p.minute == m && p.hour == h) pairs

abbrev pub in_entries : ℕ → ℕ → ℕ → List Entry → Bool
in_entries s h m entries = any (λ e. e.shift == s && e.minute == m && member h e.hours) entries

abbrev pub in_groups : ℕ → ℕ → ℕ → List Group → Bool
in_groups s h m groups = any (λ g. g.shift == s && member h g.hours && member m g.minutes) groups

member-append : (z : ℕ) (xs ys : List ℕ) → member z (xs ++ ys) ≡ (member z xs || member z ys)
member-append z [] ys = refl
member-append z (x ∷ xs) ys = ground (arith, member-append z xs ys)

already : (z x : ℕ) (xs : List ℕ) → member x xs ≡ true → member z xs ≡ (member z xs || x == z)
already z x xs old = elim (Bool-cases (x == z)) [
  | inl same ↦ rw (same, sym (==→eq x z same), old) refl
  | inr other ↦ rw other (ground arith)
]

member-add_to_set : (z x : ℕ) (xs : List ℕ) → member z (add_to_set x xs) ≡ (member z xs || x == z)
member-add_to_set z x xs = elim (Bool-cases (member x xs)) [
  | inl old ↦ rw old (already z x xs old)
  | inr new ↦ rw new (member-append z xs (x ∷ []) ∙ ground arith)
]

in_entries-add_hour :
    (s h m s1 h1 m1 : ℕ) (entries : List Entry)
    → in_entries s h m (add_hour s1 m1 h1 entries)
      ≡ (in_entries s h m entries || (s1 == s && m1 == m && h1 == h))
unfolding add_hour
in_entries-add_hour s h m s1 h1 m1 [] = ground arith
in_entries-add_hour s h m s1 h1 m1 (e ∷ rest) =
    ground (arith, in_entries-add_hour s h m s1 h1 m1 rest, member-add_to_set h h1 e.hours)

same_list-member : (z : ℕ) (xs ys : List ℕ) → same_list xs ys ≡ true → member z xs ≡ member z ys
same_list-member z [] [] h = refl
same_list-member z [] (y ∷ ys) h = absurd (ground (arith, h))
same_list-member z (x ∷ xs) [] h = absurd (ground (arith, h))
same_list-member z (x ∷ xs) (y ∷ ys) h = ground (arith, same_list-member z xs ys)

in_groups-add_minute :
    (s h m s1 m1 : ℕ) (hours : List ℕ) (groups : List Group)
    → in_groups s h m (add_minute s1 hours m1 groups)
      ≡ (in_groups s h m groups || (s1 == s && m1 == m && member h hours))
unfolding add_minute
in_groups-add_minute s h m s1 m1 hours [] = ground arith
in_groups-add_minute s h m s1 m1 hours (g ∷ rest) = ground (
  arith,
  in_groups-add_minute s h m s1 m1 hours rest,
  member-add_to_set m m1 g.minutes,
  same_list-member h g.hours hours,
)

in_entries-by_key :
    (s h m : ℕ) (pairs : List Pair) (entries : List Entry)
    → in_entries s h m (by_key pairs entries) ≡ (in_entries s h m entries || in_pairs s h m pairs)
in_entries-by_key s h m [] entries = ground arith
in_entries-by_key s h m (p ∷ rest) entries =
    in_entries-by_key s h m rest (add_hour p.shift p.minute p.hour entries)
    ∙ rw (in_entries-add_hour s h m p.shift p.hour p.minute entries) (
        or_assoc (in_entries s h m entries) (p.shift == s && p.minute == m && p.hour == h)
          (in_pairs s h m rest))

in_groups-regroup :
    (s h m : ℕ) (entries : List Entry) (groups : List Group)
    → in_groups s h m (regroup entries groups)
      ≡ (in_groups s h m groups || in_entries s h m entries)
in_groups-regroup s h m [] groups = ground arith
in_groups-regroup s h m (e ∷ rest) groups =
    in_groups-regroup s h m rest (add_minute e.shift (sorted e.hours) e.minute groups)
    ∙ rw (in_groups-add_minute s h m e.shift e.minute (sorted e.hours) groups, member-sorted)
        (or_assoc (in_groups s h m groups) (e.shift == s && e.minute == m && member h e.hours)
          (in_entries s h m rest))

-- The groups of a list of converted times are exact: a UTC hour and minute with a day shift is in
-- the cross product of one of them exactly if it is one of the times, however hours and minutes
-- were merged on the way.
pub groups_of-exact :
    (s h m : ℕ) (pairs : List Pair) → in_groups s h m (groups_of pairs) ≡ in_pairs s h m pairs
unfolding groups_of
groups_of-exact s h m pairs =
    in_groups-regroup s h m (by_key pairs []) [] ∙ in_entries-by_key s h m pairs []
