-- ===== src/Vectors/QdrantStore/Delete/Effect.antt =====
-- What a deletion by filter leaves on the server.
use Prim.Native.Nat.{Ordering}
use text.Mathlib.Text.{◌==◌ as str_eq}
use text.Mathlib.TextEquality.{eq_iff}
use py_runner.Prelude.{
  ℕ, ◌<◌, ◌≡◌, refl, sym, ap, ◌∙◌, String, Bool, true, false, not, ◌||◌, Bool-cases, inl, inr,
  Option, none, some, List, [], ◌∷◌, ◌++◌, map, keep, length, All, ◌==◌, ==→eq, arith,
}
use py_runner.Filters.Json.{Json}
use py_runner.Filters.Grammar.{Result}
use py_runner.Filters.Qdrant.{Node, QdrantFilter, to_qdrant}
use py_runner.Filters.Qdrant.Server.{Server}
use py_runner.Vectors.Points.{ok}
use py_runner.Vectors.Slices.{length-keep, keep_same, none_kept}
use py_runner.Vectors.LocalStore.{among}
use py_runner.Vectors.LocalStore.Chunks.{
  concat, concat-chunks_up_to, among-append, str_eq_sym, NoTwice,
}
use py_runner.Vectors.QdrantStore.{Raw}
use py_runner.Vectors.QdrantStore.Queries.{Points, selects}
use py_runner.Vectors.QdrantStore.Queries.Recheck.{
  passes, passing, none_pass, exact_pass, exact_same, superset_pass,
}
use py_runner.Vectors.QdrantStore.Scan.Pages.{scan-from, matching-passing}
use py_runner.Vectors.QdrantStore.Delete.{
  id_batch, Deletion, points, filter, delete_exact, uuids_of, id_chunks, delete_ids,
  delete_matching, delete,
}

-- What Qdrant documents of a deletion.
pub record Deletes (N : Type 0) (num_cmp : N → N → Option Ordering) (q : Server N num_cmp)
    : Type 0 where
  pub after : Deletion N → List (Raw N) → List (Raw N)
  pub points_law :
      (uuids : List String) (xs : List (Raw N))
      → after (points uuids) xs ≡ keep (λ raw. not (among uuids raw.uuid)) xs
  pub filter_law :
      (f : Option (Node N)) (xs : List (Raw N))
      → after (filter f) xs ≡ keep (λ raw. not (selects q f raw)) xs

module _ {N : Type 0} {num_cmp : N → N → Option Ordering} {q : Server N num_cmp}
    (deletes : Deletes N num_cmp q) where
  -- the points after requests, one after the other
  unfoldable pub after_all : List (Deletion N) → List (Raw N) → List (Raw N)
  after_all [] xs = xs
  after_all (d ∷ more) xs = after_all more (deletes.after d xs)

  keep_twice :
      (c d : List String) (xs : List (Raw N))
      → keep (λ raw. not (among d raw.uuid)) (keep (λ raw. not (among c raw.uuid)) xs)
        ≡ keep (λ raw. not (among (c ++ d) raw.uuid)) xs
  keep_twice c d [] = refl
  keep_twice c d (raw ∷ rest) = ground (arith, among-append c d raw.uuid, keep_twice c d rest)

  keep_all : (xs : List (Raw N)) → xs ≡ keep (λ raw. not (among [] raw.uuid)) xs
  keep_all [] = refl
  keep_all (raw ∷ rest) = ap (λ t. raw ∷ t) (keep_all rest)

  after_all-points :
      (cs : List (List String)) (xs : List (Raw N))
      → after_all (map points cs) xs ≡ keep (λ raw. not (among (concat cs) raw.uuid)) xs
  unfolding after_all
  after_all-points [] xs = keep_all xs
  after_all-points (c ∷ cs) xs =
      after_all-points cs (deletes.after (points c) xs)
      ∙ ap (keep (λ raw. not (among (concat cs) raw.uuid))) (deletes.points_law c xs)
      ∙ keep_twice c (concat cs) xs

  after_all-delete_ids :
      (uuids : List String) (xs : List (Raw N))
      → after_all (delete_ids uuids) xs ≡ keep (λ raw. not (among uuids raw.uuid)) xs
  after_all-delete_ids uuids xs =
      after_all-points (id_chunks uuids) xs
      ∙ ap (λ us. keep (λ raw. not (among us raw.uuid)) xs)
          (concat-chunks_up_to (length uuids) id_batch uuids (omega arith) (omega arith))

left_same_on :
    {A : Type 0} (p s : A → Bool) (xs : List A)
    → All (λ x. p x ≡ s x) xs
    → keep (λ x. not (p x)) xs ≡ keep (λ x. not (s x)) xs
left_same_on p s [] h = refl
left_same_on p s (x ∷ xs) h = ground (arith, h.0, left_same_on p s xs h.1)

or_false : (a b : Bool) → (a || b) ≡ false → (a ≡ false) × (b ≡ false)
or_false a b h = (ground arith, ground arith)

module _ {N : Type 0} (p : Raw N → Bool) where
  among-keep :
      (xs : List (Raw N)) (z : String)
      → among (uuids_of xs) z ≡ false
      → among (uuids_of (keep p xs)) z ≡ false
  among-keep [] z h = refl
  among-keep (x ∷ xs) z h = ground (arith, h, among-keep xs z)

  -- a point with another id is not touched by whether `x` is kept
  other :
      (x : Raw N) (xs : List (Raw N)) (z : String)
      → str_eq z x.uuid ≡ false
      → among (uuids_of (keep p (x ∷ xs))) z ≡ among (uuids_of (keep p xs)) z
  other x xs z h = ground (arith, h)

  others :
      (x : Raw N) (xs ys : List (Raw N))
      → among (uuids_of ys) x.uuid ≡ false
      → All (λ raw. among (uuids_of (keep p xs)) raw.uuid ≡ p raw) ys
      → All (λ raw. among (uuids_of (keep p (x ∷ xs))) raw.uuid ≡ p raw) ys
  others x xs [] h below = tt
  others x xs (y ∷ ys) h below =
      let (head, tail) = or_false (str_eq x.uuid y.uuid) (among (uuids_of ys) x.uuid) h in
      (other x xs y.uuid (str_eq_sym y.uuid x.uuid ∙ head) ∙ below.0, others x xs ys tail below.1)

  -- with ids that are all different, an id of a kept point is the id of no other
  among-kept :
      (xs : List (Raw N))
      → NoTwice (uuids_of xs)
      → All (λ raw. among (uuids_of (keep p xs)) raw.uuid ≡ p raw) xs
  among-kept [] h = tt
  among-kept (x ∷ xs) h = (
    elim (Bool-cases (p x)) [
      | inl t ↦ rw t (rw ((eq_iff x.uuid x.uuid).1 refl) refl)
      | inr f ↦ rw f (among-keep xs x.uuid h.0)
    ],
    others x xs xs h.0 (among-kept xs h.1),
  )

-- the points that do not match
abbrev pub failing : {N : Type 0} → (N → N → Option Ordering) → Json N → List (Raw N) → List (Raw N)
failing num_cmp flt xs = keep (λ raw. not (passes num_cmp flt raw)) xs

module _ {N : Type 0} (num_cmp : N → N → Option Ordering) (q : Server N num_cmp)
    (server : Points N num_cmp q) (deletes : Deletes N num_cmp q) (flt : Json N)
    (r : QdrantFilter N) (given : to_qdrant flt ≡ Result.ok r) where
  after_exact :
      r.matches_nothing ≡ false
      → r.exact ≡ true
      → (delete_exact (server.count r.filter) r.filter).0
          ≡ length (passing num_cmp flt server.stored)
        × (after_all deletes (delete_exact (server.count r.filter) r.filter).1 server.stored
            ≡ failing num_cmp flt server.stored)
  unfolding after_all
  after_exact n x =
      let counted =
        server.count_law r.filter
        ∙ ap length (exact_pass num_cmp q flt r given n x server.stored) in
      (
        counted,
        elim (Bool-cases (server.count r.filter == 0)) [
          | inl t ↦
              let none_pass = sym counted ∙ ==→eq (server.count r.filter) 0 t in
              rw t (sym (none_kept (passes num_cmp flt) server.stored none_pass))
          | inr f ↦ rw f (
              deletes.filter_law r.filter server.stored
              ∙ sym (
                  keep_same (λ raw. not (passes num_cmp flt raw))
                    (λ raw. not (selects q r.filter raw)) server.stored
                    (λ raw. ap not (exact_same num_cmp q flt r given n x raw))))
        ],
      )

  fewer : (fuel : ℕ) → length server.stored < fuel → length (server.from r.filter none) < fuel
  fewer fuel enough =
      rw (server.from_start r.filter)
        (omega (arith, enough, length-keep (selects q r.filter) server.stored))

  -- the matching points of a scan are those of the server
  scanned :
      r.matches_nothing ≡ false
      → passing num_cmp flt (server.from r.filter none) ≡ passing num_cmp flt server.stored
  scanned n =
      ap (passing num_cmp flt) (server.from_start r.filter)
      ∙ superset_pass num_cmp q flt r given n server.stored

  -- A deletion by filter removes exactly the points that match, and returns their number: the server
  -- does it where the filter is exact, and otherwise it is sent the ids of the points that the
  -- re-check found, in chunks. The ids are all different, and the fuel is above the number of points.
  pub delete-failing :
      (retrieve : List String → List (Raw N)) (uuid5 : String → String) (fuel : ℕ)
      → NoTwice (uuids_of server.stored)
      → length server.stored < fuel
      → (sent : List (Deletion N)) × (delete num_cmp q server retrieve uuid5 fuel none (some flt)
          ≡ ok (some (length (passing num_cmp flt server.stored), sent)))
        × (after_all deletes sent server.stored ≡ failing num_cmp flt server.stored)
  unfolding delete after_all
  delete-failing retrieve uuid5 fuel different enough = elim (Bool-cases r.matches_nothing) [
    | inl m ↦
        let nothing = none_pass num_cmp q flt r given m server.stored in
        (
          [],
          rw (delete_matching, given, m) (ap (λ k. ok (some (k, []))) (sym (ap length nothing))),
          sym (none_kept (passes num_cmp flt) server.stored (ap length nothing)),
        )
    | inr n ↦ elim (Bool-cases r.exact) [
      | inl x ↦
          let (counted, left) = after_exact n x in
          let sent = (delete_exact (server.count r.filter) r.filter).1 in
          (sent, rw (delete_matching, given, n, x) (ap (λ k. ok (some (k, sent))) counted), left)
      | inr i ↦ (
        delete_ids (uuids_of (passing num_cmp flt server.stored)),
        rw (delete_matching, given, n, i)
            (rw
              (
                scan-from server fuel r.filter none (fewer fuel enough),
                matching-passing server flt r given (server.from r.filter none),
                scanned n,
              )
              refl),
        after_all-delete_ids deletes (uuids_of (passing num_cmp flt server.stored)) server.stored
            ∙ left_same_on _ (passes num_cmp flt) server.stored
                (among-kept (passes num_cmp flt) server.stored different),
      )
    ]
  ]
