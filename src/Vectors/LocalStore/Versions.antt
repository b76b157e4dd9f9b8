-- ===== src/Vectors/LocalStore/Versions.antt =====
-- A write raises the version of a local store's file, or leaves the file alone.
use py_runner.Prelude.{
  ℕ, ◌<◌, ◌≡◌, sym, ap, ◌∙◌, ◌⊎◌, inl, inr, String, Bool, true, false, Bool-cases, Option, none,
  some, List, keep, length, ◌==◌, ==→eq, arith, if◌then◌else◌,
}
use py_runner.Filters.Json.{Json}
use py_runner.Vectors.Points.{ok-injective, err_not_ok, Store-cases, Store, StoreError, ok, err}
use py_runner.Vectors.LocalStore.{Row, File, write_rows, delete, delete_where, finish_delete, id_in}
use py_runner.Vectors.Slices.{none_kept}
use py_runner.Vectors.LocalStore.Writes.{write_rows-table, delete-ids}

module _ {N : Type 0} where
  -- a file at a later version, or the same file
  abbrev pub Follows : File N → File N → Type 0
  Follows old new = (old ≡ new) ⊎ (old.version < new.version)

  pub tests_passed :
      (b c : Bool) (e : StoreError) (n k : ℕ) (old new file : File N)
      → if◌then◌else◌ {A = Store (ℕ × File N)} b
          (ok (0, old))
          (if◌then◌else◌ {A = Store (ℕ × File N)} c (err e) (ok (k, file)))
        ≡ ok (n, new)
      → (old ≡ new) ⊎ (file ≡ new)
  tests_passed true c e n k old new file h = inl (ap (λ t. t.1) (ok-injective h))
  tests_passed false true e n k old new file h = absurd (err_not_ok h)
  tests_passed false false e n k old new file h = inr (ap (λ t. t.1) (ok-injective h))

  pub write_rows-Follows :
      (batch : List (Row N)) (old new : File N) (n : ℕ)
      → write_rows batch old ≡ ok (n, new)
      → Follows old new
  write_rows-Follows batch old new n h =
      elim (tests_passed _ _ _ n _ old new _ (sym (write_rows-table batch old) ∙ h)) [
        | inl e ↦ inl e
        | inr e ↦ inr (omega (arith, ap (λ f. f.version) e))
      ]

  finish_delete-Follows :
      (p : Row N → Bool) (old new : File N) (n : ℕ)
      → finish_delete (delete_where p old.rows) old ≡ (n, new)
      → Follows old new
  finish_delete-Follows p old new n h = elim (Bool-cases (length (keep p old.rows) == 0)) [
    | inl t ↦
        let kept = none_kept p old.rows (==→eq (length (keep p old.rows)) 0 t) in
        inl (
          ap (λ rows. record { rows = rows; version = old.version }) (sym kept)
          ∙ ap (λ u. u.1) (rw t at h))
    | inr f ↦ let g = ap (λ t. t.1.version) h in inr (ground (arith, f, g))
  ]

  pub delete-Follows :
      (to_sqlite : Json N → Store (Row N → Bool)) (ids : Option (List String))
      (flt : Option (Json N)) (old new : File N) (n : ℕ)
      → delete to_sqlite ids flt old ≡ ok (n, new)
      → Follows old new
  unfolding delete
  delete-Follows to_sqlite none none old new n h = absurd (err_not_ok h)
  delete-Follows to_sqlite (some ids) (some flt) old new n h = absurd (err_not_ok h)
  delete-Follows to_sqlite (some ids) none old new n h =
      finish_delete-Follows (id_in ids) old new n
        (ok-injective (sym (delete-ids to_sqlite ids old) ∙ h))
  delete-Follows to_sqlite none (some flt) old new n h = elim (Store-cases (to_sqlite flt)) [
    | inl (p, e) ↦ finish_delete-Follows p old new n (ok-injective (rw e at h))
    | inr (x, e) ↦ absurd (err_not_ok (rw e at h))
  ]
