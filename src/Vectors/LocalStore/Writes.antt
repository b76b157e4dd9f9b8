-- ===== src/Vectors/LocalStore/Writes.antt =====
-- What an upsert and a deletion leave in the table.
use text.Mathlib.Text.{◌==◌ as str_eq}
use py_runner.Prelude.{
  ℕ, suc, ◌+◌, ◌≡◌, refl, sym, ap, ◌∙◌, String, Bool, false, not, Bool-cases, inl, inr, List, [],
  ◌∷◌, ◌++◌, map, keep, length, length-append, ltb, arith, ◌==◌, if◌then◌else◌, none, some,
}
use py_runner.Filters.Json.{Json}
use py_runner.Vectors.Points.{Store, ok, err, store_full}
use py_runner.Vectors.Slices.{keep-append}
use py_runner.Vectors.LocalStore.{
  Row, File, hard_limit_points, among, distinct, chunks, id_in, insert_or_replace, insert_all,
  count_in, write_rows, delete_where, delete_chunks, finish_delete, delete,
}
use py_runner.Vectors.LocalStore.Chunks.{
  concat, concat-chunks, among-append, among-distinct, distinct-NoTwice, count_in-chunks,
}

pub not_empty : (n : ℕ) → (suc n == 0) ≡ false
not_empty n = ground arith

same_guard :
    (already sum after : ℕ)
    → sum ≡ after + already
    → ltb (hard_limit_points + already) sum ≡ ltb hard_limit_points after
same_guard already sum after h = ground arith

module _ {N : Type 0} where
  abbrev pub ids_of : List (Row N) → List String
  ids_of rows = map (λ r. r.id) rows

  -- of the rows of a batch, the last one for each id
  abbrev pub last_rows : List (Row N) → List (Row N)
  last_rows [] = []
  last_rows (row ∷ more) =
      let rest = last_rows more in if among (ids_of more) row.id then rest else row ∷ rest

  -- the rows whose id is in no row of a batch
  abbrev pub untouched : List (Row N) → List (Row N) → List (Row N)
  untouched batch rows = keep (λ r. not (id_in (ids_of batch) r)) rows

  untouched-insert :
      (row : Row N) (more rows : List (Row N))
      → untouched more (keep (λ r. not (str_eq r.id row.id)) rows) ≡ untouched (row ∷ more) rows
  untouched-insert row more [] = refl
  untouched-insert row more (r ∷ rows) = elim (Bool-cases (str_eq r.id row.id)) [
    | inl t ↦ rw t (untouched-insert row more rows)
    | inr f ↦ ground (arith, f, untouched-insert row more rows)
  ]

  append_assoc : (xs ys zs : List (Row N)) → (xs ++ ys) ++ zs ≡ xs ++ (ys ++ zs)
  append_assoc [] ys zs = refl
  append_assoc (x ∷ xs) ys zs = ap (λ t. x ∷ t) (append_assoc xs ys zs)

  last_one :
      (row : Row N) (more : List (Row N))
      → untouched more (row ∷ []) ++ last_rows more ≡ last_rows (row ∷ more)
  last_one row more = ground arith

  insert_all-rows :
      (batch rows : List (Row N)) → insert_all batch rows ≡ untouched batch rows ++ last_rows batch
  unfolding insert_all
  insert_all-rows [] [] = refl
  insert_all-rows [] (r ∷ rows) = ap (λ t. r ∷ t) (insert_all-rows [] rows)
  insert_all-rows (row ∷ more) rows =
      insert_all-rows more (insert_or_replace row rows)
      ∙ ap (λ t. t ++ last_rows more)
          (keep-append (λ r. not (id_in (ids_of more) r))
            (keep (λ r. not (str_eq r.id row.id)) rows) (row ∷ []))
      ∙ append_assoc (untouched more (keep (λ r. not (str_eq r.id row.id)) rows))
          (untouched more (row ∷ [])) (last_rows more)
      ∙ ap (λ t. untouched more (keep (λ r. not (str_eq r.id row.id)) rows) ++ t)
          (last_one row more)
      ∙ ap (λ t. t ++ last_rows (row ∷ more)) (untouched-insert row more rows)

  length-last_rows :
      (batch : List (Row N)) → length (last_rows batch) ≡ length (distinct (ids_of batch))
  length-last_rows [] = refl
  length-last_rows (row ∷ more) = ground (arith, length-last_rows more)

  length-split :
      (p : Row N → Bool) (rows : List (Row N))
      → length (keep p rows) + length (keep (λ r. not (p r)) rows) ≡ length rows
  length-split p [] = omega arith
  length-split p (r ∷ rows) = ground (arith, length-split p rows)

  id_in-distinct :
      (ids : List String) (rows : List (Row N))
      → keep (id_in (distinct ids)) rows ≡ keep (id_in ids) rows
  id_in-distinct ids [] = refl
  id_in-distinct ids (r ∷ rows) = ground (arith, among-distinct ids r.id, id_in-distinct ids rows)

  -- the guard of `upsert` counts the rows that the table would have
  size_after :
      (batch rows : List (Row N))
      → length rows + length (distinct (ids_of batch))
        ≡ length (untouched batch rows ++ last_rows batch)
          + count_in (chunks (distinct (ids_of batch))) rows
  size_after batch rows =
      let counted =
        count_in-chunks (distinct (ids_of batch)) rows (distinct-NoTwice (ids_of batch))
        ∙ ap length (id_in-distinct (ids_of batch) rows) in
      rw (counted, length-append (untouched batch rows) (last_rows batch), length-last_rows batch)
        (omega (arith, length-split (id_in (ids_of batch)) rows))

  -- An upsert of rows leaves the rows with other ids, then the last given row of each id; it raises
  -- the version by one and returns the number of given rows. It is refused, with the table as it
  -- was, exactly if the table would have more rows than the limit. Without rows nothing changes.
  pub write_rows-table :
      (batch : List (Row N)) (file : File N)
      → write_rows batch file ≡ (
          let after = untouched batch file.rows ++ last_rows batch in
          if length batch == 0
          then ok (0, file)
          else if ltb hard_limit_points (length after)
          then err store_full
          else ok (length batch, record { rows = after; version = file.version + 1 }))
  unfolding write_rows
  write_rows-table [] file = refl
  write_rows-table (row ∷ more) file =
      rw
        (
          not_empty (length more),
          same_guard (count_in (chunks (distinct (ids_of (row ∷ more)))) file.rows) _ _
              (size_after (row ∷ more) file.rows),
          insert_all-rows (row ∷ more) file.rows,
        )
        refl

  rest_ids :
      (c d : List String) (rows : List (Row N))
      → delete_where (id_in (c ++ d)) rows ≡ (
          let one = delete_where (id_in c) rows in
          let rest = delete_where (id_in d) one.1 in (one.0 + rest.0, rest.1))
  rest_ids c d [] = refl
  rest_ids c d (r ∷ rows) =
      let more = rest_ids c d rows in
      let counts = ap (λ t. t.0) more in
      let kept = ap (λ t. t.1) more in ground (arith, counts, kept, among-append c d r.id)

  delete_chunks-where :
      (cs : List (List String)) (rows : List (Row N))
      → delete_chunks cs rows ≡ delete_where (id_in (concat cs)) rows
  unfolding delete_chunks
  delete_chunks-where [] [] = refl
  delete_chunks-where [] (r ∷ rows) = ap (λ t. (t.0, r ∷ t.1)) (delete_chunks-where [] rows)
  delete_chunks-where (c ∷ cs) rows =
      rw (delete_chunks-where cs (delete_where (id_in c) rows).1)
        (sym (rest_ids c (concat cs) rows))

  -- A deletion by ids, chunk by chunk, removes the rows whose id is given, returns how many there
  -- were, and raises the version if there were any: also for ids that are given twice.
  pub delete-ids :
      (to_sqlite : Json N → Store (Row N → Bool)) (ids : List String) (file : File N)
      → delete to_sqlite (some ids) none file
        ≡ ok (finish_delete (delete_where (id_in ids) file.rows) file)
  unfolding delete
  delete-ids to_sqlite ids file =
      ap (λ t. ok (finish_delete t file))
        (delete_chunks-where (chunks ids) file.rows
          ∙ ap (λ xs. delete_where (id_in xs) file.rows) (concat-chunks ids))
