-- ===== src/Vectors/LocalStore/Lookup.antt =====
-- `get` of core/vectors/local_store.py, after the writes.
use text.Mathlib.Text.{◌==◌ as str_eq}
use text.Mathlib.TextEquality.{eq_iff}
use py_runner.Prelude.{
  map, ℕ, ◌≡◌, refl, sym, ap, ◌∙◌, String, Bool, true, false, not, ◌||◌, Bool-cases, inl, inr,
  Option, none, some, List, [], ◌∷◌, ◌++◌, keep, length, arith, if◌then◌else◌,
}
use py_runner.Vectors.Points.{ok-injective, err_not_ok, Store, StoreError, ok, err}
use py_runner.Filters.Json.{null, str}
use py_runner.Vectors.QdrantStore.{Item}
use py_runner.Vectors.LocalStore.{Row, File, among, chunks, id_in, write_rows}
use py_runner.Vectors.LocalStore.Chunks.{
  concat, concat-chunks, among-append, among_same, str_eq_sym,
}
use py_runner.Vectors.LocalStore.Writes.{ids_of, last_rows, untouched, write_rows-table, not_empty}

module _ {N : Type 0} where
  abbrev pub or_else : Option (Row N) → Option (Row N) → Option (Row N)
  or_else (some row) other = some row
  or_else none other = other

  -- `by_id[i]`, where the last row with an id stands for it
  abbrev pub by_id : List (Row N) → String → Option (Row N)
  by_id [] i = none
  by_id (row ∷ rest) i = or_else (by_id rest i) (if str_eq row.id i then some row else none)

  -- `SELECT ... WHERE id IN (...)`, chunk by chunk
  unfoldable pub fetch : List (List String) → List (Row N) → List (Row N)
  fetch [] rows = []
  fetch (chunk ∷ more) rows = keep (id_in chunk) rows ++ fetch more rows

  abbrev pub add_found : Option (Row N) → List (Row N) → List (Row N)
  add_found none rows = rows
  add_found (some row) rows = row ∷ rows

  abbrev pub found_rows : List String → (String → Option (Row N)) → List (Row N)
  found_rows [] f = []
  found_rows (i ∷ ids) f = add_found (f i) (found_rows ids f)

  -- `get`, before the rows are decoded
  unfoldable pub get_rows : List String → File N → List (Row N)
  get_rows ids file = found_rows ids (by_id (fetch (chunks ids) file.rows))

  -- `_decode_row`
  abbrev pub decode_row : Bool → Row N → Item N
  decode_row include_vectors row = record {
    id = str row.id;
    payload = row.payload;
    text = elim row.text [ none ↦ null | some s ↦ str s ];
    vector = if include_vectors then some row.vector else none;
  }

  -- `get`
  unfoldable pub get : Bool → List String → File N → List (Item N)
  unfolding get_rows
  get include_vectors ids file = map (decode_row include_vectors) (get_rows ids file)

  or_else-none : (o : Option (Row N)) → o ≡ or_else o none
  or_else-none none = refl
  or_else-none (some row) = refl

  or_else_assoc : (a b c : Option (Row N)) → or_else (or_else a b) c ≡ or_else a (or_else b c)
  or_else_assoc none b c = refl
  or_else_assoc (some row) b c = refl

  is_some : Option (Row N) → Bool
  is_some none = false
  is_some (some row) = true

  some_stays : (o x : Option (Row N)) → is_some o ≡ true → o ≡ or_else o x
  unfolding is_some
  some_stays none x h = absurd (ground (arith, h))
  some_stays (some row) x h = refl

  or_else_unless :
      (o x : Option (Row N)) → or_else o (if not (is_some o) then x else none) ≡ or_else o x
  unfolding is_some
  or_else_unless none x = refl
  or_else_unless (some row) x = refl

  either :
      (b c : Bool) (o : Option (Row N))
      → or_else (if b then o else none) (if c then o else none) ≡ (if c || b then o else none)
  either true true none = refl
  either true true (some row) = refl
  either true false none = refl
  either true false (some row) = refl
  either false true o = refl
  either false false o = refl

  by_id-append :
      (xs ys : List (Row N)) (i : String) → by_id (xs ++ ys) i ≡ or_else (by_id ys i) (by_id xs i)
  by_id-append [] ys i = or_else-none (by_id ys i)
  by_id-append (row ∷ xs) ys i =
      rw (by_id-append xs ys i)
        (or_else_assoc (by_id ys i) (by_id xs i) (if str_eq row.id i then some row else none))

  kept_none :
      (b : Bool) (o : Option (Row N))
      → (if b then o else none) ≡ (if b then or_else o none else none)
  kept_none true o = or_else-none o
  kept_none false o = refl

  by_id-keep :
      (p : String → Bool) (rows : List (Row N)) (i : String)
      → by_id (keep (λ r. p r.id) rows) i ≡ (if p i then by_id rows i else none)
  by_id-keep p [] i = ground arith
  by_id-keep p (row ∷ rows) i = elim (Bool-cases (str_eq row.id i)) [
    | inl t ↦
        let same = ap p ((eq_iff row.id i).0 t) in ground (arith, t, same, by_id-keep p rows i)
    | inr f ↦ rw f (elim (Bool-cases (p row.id)) [
      | inl t ↦
          rw (t, f) (sym (or_else-none _) ∙ by_id-keep p rows i ∙ kept_none (p i) (by_id rows i))
      | inr g ↦ rw g (by_id-keep p rows i ∙ kept_none (p i) (by_id rows i))
    ])
  ]

  among-by_id : (rows : List (Row N)) (i : String) → among (ids_of rows) i ≡ is_some (by_id rows i)
  unfolding is_some
  among-by_id [] i = refl
  among-by_id (row ∷ rows) i = ground (arith, str_eq_sym i row.id, among-by_id rows i)

  by_id-last_rows : (batch : List (Row N)) (i : String) → by_id (last_rows batch) i ≡ by_id batch i
  by_id-last_rows [] i = refl
  by_id-last_rows (row ∷ more) i =
      let new = if str_eq row.id i then some row else none in
      elim (Bool-cases (among (ids_of more) row.id)) [
        | inr f ↦ rw f (ap (λ o. or_else o new) (by_id-last_rows more i))
        | inl t ↦ rw t (
            by_id-last_rows more i ∙ elim (Bool-cases (str_eq row.id i)) [
              | inr f ↦ rw f (or_else-none (by_id more i))
              | inl same ↦
                  some_stays (by_id more i) new
                    (sym (among-by_id more i) ∙ sym (among_same (ids_of more) row.id i same) ∙ t)
            ])
      ]

  by_id-after :
      (batch rows : List (Row N)) (i : String)
      → by_id (untouched batch rows ++ last_rows batch) i ≡ or_else (by_id batch i) (by_id rows i)
  unfolding is_some
  by_id-after batch rows i =
      by_id-append (untouched batch rows) (last_rows batch) i
      ∙ rw
          (
            by_id-last_rows batch i,
            by_id-keep (λ x. not (among (ids_of batch) x)) rows i,
            among-by_id batch i,
          )
          (or_else_unless (by_id batch i) (by_id rows i))

  by_id-fetch :
      (cs : List (List String)) (rows : List (Row N)) (i : String)
      → by_id (fetch cs rows) i ≡ (if among (concat cs) i then by_id rows i else none)
  unfolding fetch
  by_id-fetch [] rows i = refl
  by_id-fetch (c ∷ cs) rows i =
      by_id-append (keep (id_in c) rows) (fetch cs rows) i
      ∙ rw (by_id-fetch cs rows i, by_id-keep (among c) rows i, among-append c (concat cs) i)
          (either (among (concat cs) i) (among c i) (by_id rows i))

  found_rows-same :
      (ids : List String) (f g : String → Option (Row N))
      → ((i : String) → among ids i ≡ true → f i ≡ g i)
      → found_rows ids f ≡ found_rows ids g
  found_rows-same [] f g h = refl
  found_rows-same (i ∷ ids) f g h =
      let here : among (i ∷ ids) i ≡ true = rw ((eq_iff i i).1 refl) refl in
      ap (λ o. add_found o (found_rows ids f)) (h i here)
      ∙ ap (add_found (g i)) (found_rows-same ids f g (λ j m. h j (ground (arith, m))))

  get_rows-by_id :
      (ids : List String) (file : File N) → get_rows ids file ≡ found_rows ids (by_id file.rows)
  unfolding get_rows
  get_rows-by_id ids file =
      found_rows-same ids _ _
        (λ i m. by_id-fetch (chunks ids) file.rows i ∙ rw (concat-chunks ids, m) refl)

  test_passed :
      (c : Bool) (e : StoreError) (n k : ℕ) (new file : File N)
      → if◌then◌else◌ {A = Store (ℕ × File N)} c (err e) (ok (k, file)) ≡ ok (n, new)
      → file ≡ new
  test_passed true e n k new file h = absurd (err_not_ok h)
  test_passed false e n k new file h = ap (λ t. t.1) (ok-injective h)

  by_id-written :
      (batch : List (Row N)) (old new : File N) (n : ℕ) (i : String)
      → write_rows batch old ≡ ok (n, new)
      → by_id new.rows i ≡ or_else (by_id batch i) (by_id old.rows i)
  unfolding write_rows
  by_id-written [] old new n i h = ap (λ f. by_id f.rows i) (sym (ap (λ t. t.1) (ok-injective h)))
  by_id-written (row ∷ more) old new n i h =
      let written =
        test_passed _ _ n _ new _
          (rw (not_empty (length more)) at (sym (write_rows-table (row ∷ more) old) ∙ h)) in
      ap (λ f. by_id f.rows i) (sym written) ∙ by_id-after (row ∷ more) old.rows i

  -- After an upsert, `get` returns for each id that it is given the last row of the batch with that
  -- id, or else the row that the table had before, and nothing where there is neither; in the order
  -- of the given ids, however they are split into chunks.
  pub get-write_rows :
      (include_vectors : Bool) (ids : List String) (batch : List (Row N)) (old new : File N) (n : ℕ)
      → write_rows batch old ≡ ok (n, new)
      → get include_vectors ids new
        ≡ map
            (decode_row include_vectors)
            (found_rows ids (λ i. or_else (by_id batch i) (by_id old.rows i)))
  unfolding get
  get-write_rows include_vectors ids batch old new n h =
      ap (map (decode_row include_vectors)) (
        get_rows-by_id ids new ∙ found_rows-same ids _ _ (λ i m. by_id-written batch old new n i h))
