-- ===== src/Vectors/QdrantStore/Scan/Pages.antt =====
-- A scan gives the points from its cursor on, and a page of `scroll` the matching ones among them.
use Prim.Native.Nat.{Ordering}
use py_runner.Prelude.{
  ℕ, zero, suc, ◌+◌, ◌<◌, ◌≡◌, refl, ap, ◌∙◌, true, false, Bool-cases, inl, inr, Option, none, some,
  List, [], ◌∷◌, length, ◌==◌, arith,
}
use py_runner.Filters.Json.{Json}
use py_runner.Filters.Grammar.{Result}
use py_runner.Filters.Qdrant.{Node, QdrantFilter, to_qdrant}
use py_runner.Filters.Qdrant.Server.{Server}
use py_runner.Vectors.Points.{ok}
use py_runner.Vectors.Slices.{
  take, drop, take_nil, drop_nil, take-drop, length-drop, Option-cases, take_all, length-keep,
}
use py_runner.Vectors.QdrantStore.{Raw}
use py_runner.Vectors.QdrantStore.Queries.{Points, selects}
use py_runner.Vectors.QdrantStore.Queries.Recheck.{
  passes, passing, recheck-decided, none_pass, exact_pass, superset_pass,
}
use py_runner.Vectors.QdrantStore.Scan.{scan_batch, matching, scan, count, fill}

module _ {N : Type 0} {num_cmp : N → N → Option Ordering} {q : Server N num_cmp}
    (server : Points N num_cmp q) where
  -- page by page, a scan gives every point from its cursor on
  pub scan-from :
      (fuel : ℕ) (f : Option (Node N)) (c : Option server.Cursor)
      → length (server.from f c) < fuel
      → scan num_cmp q server fuel f c ≡ some (server.from f c)
  unfolding scan
  scan-from zero f c enough = absurd (omega arith)
  scan-from (suc fuel) f c enough = elim (Option-cases (server.scroll f c scan_batch).1) [
    | inl e ↦
        rw (scan, e)
          (ap some (
            server.page_law f c scan_batch
            ∙ take_all scan_batch (server.from f c) (server.last_law f c scan_batch e)))
    | inr (next, e) ↦
        let (more, rest) = server.next_law f c scan_batch next e in
        let fewer : length (server.from f (some next)) < fuel =
          rw rest (omega (arith, enough, more, length-drop scan_batch (server.from f c))) in
        rw (scan, e, scan-from fuel f (some next) fewer, server.page_law f c scan_batch, rest)
          (ap some (take-drop scan_batch (server.from f c)))
  ]

  module _ (flt : Json N) (r : QdrantFilter N) (given : to_qdrant flt ≡ Result.ok r) where
    pub matching-passing :
        (xs : List (Raw N)) → matching num_cmp flt xs ≡ ok (passing num_cmp flt xs)
    unfolding matching
    matching-passing [] = refl
    matching-passing (raw ∷ rest) =
        rw (recheck-decided num_cmp flt r raw given, matching-passing rest) refl

    -- `count` gives the number of points that match: whether the server counts, or a scan is
    -- re-checked, which with fuel above the number of points never runs out.
    pub count-passing :
        (fuel : ℕ)
        → length server.stored < fuel
        → count num_cmp q server fuel flt ≡ ok (some (length (passing num_cmp flt server.stored)))
    unfolding count
    count-passing fuel enough = rw given (elim (Bool-cases r.matches_nothing) [
      | inl m ↦ rw (m, none_pass num_cmp q flt r given m server.stored) refl
      | inr n ↦ elim (Bool-cases r.exact) [
        | inl x ↦
            rw (n, x, server.count_law r.filter, exact_pass num_cmp q flt r given n x server.stored)
              refl
        | inr i ↦
            let fuel_left : length (server.from r.filter none) < fuel =
              rw (server.from_start r.filter)
                (omega (arith, enough, length-keep (selects q r.filter) server.stored)) in
            rw
              (
                n,
                i,
                scan-from fuel r.filter none fuel_left,
                matching-passing (server.from r.filter none),
                server.from_start r.filter,
                superset_pass num_cmp q flt r given n server.stored,
              )
              refl
      ]
    ])

    abbrev pub next_at : List (Raw N) → Option server.Cursor
    next_at [] = none
    next_at (raw ∷ rest) = some (server.at raw.uuid)

    pub fill-passing :
        (room limit taken : ℕ) (xs : List (Raw N))
        → limit ≡ taken + room
        → fill num_cmp q server flt limit taken xs
          ≡ ok (take room (passing num_cmp flt xs), next_at (drop room (passing num_cmp flt xs)))
    unfolding fill
    fill-passing room limit taken [] h = rw (take_nil room, drop_nil room) refl
    fill-passing zero limit taken (raw ∷ rest) h = elim (Bool-cases (passes num_cmp flt raw)) [
      | inr f ↦
          rw (recheck-decided num_cmp flt r raw given, f) (fill-passing zero limit taken rest h)
      | inl t ↦
          let full : (taken == limit) ≡ true = ground arith in
          rw (recheck-decided num_cmp flt r raw given, t, full) refl
    ]
    fill-passing (suc room) limit taken (raw ∷ rest) h =
        elim (Bool-cases (passes num_cmp flt raw)) [
          | inr f ↦
              rw (recheck-decided num_cmp flt r raw given, f)
                (fill-passing (suc room) limit taken rest h)
          | inl t ↦
              let free : (taken == limit) ≡ false = ground arith in
              let more = fill-passing room limit (taken + 1) rest (omega (arith, h)) in
              rw (recheck-decided num_cmp flt r raw given, t, free, more) refl
        ]
