-- ===== src/Vectors/QdrantStore/Scan/Cursors.antt =====
-- The cursor of a page of `scroll`: what follows the page, and that something does.
use Prim.Native.Nat.{Ordering}
use py_runner.Prelude.{
  ℕ, ℤ, ◌<◌, ◌≤◌, ◌≡◌, refl, sym, ap, ◌∙◌, Bool, true, false, Bool-cases, inl, inr, Option, none,
  some, List, [], ◌∷◌, map, length, arith,
}
use py_runner.Filters.Json.{Json}
use py_runner.Filters.Grammar.{Result}
use py_runner.Filters.Qdrant.{QdrantFilter, to_qdrant}
use py_runner.Filters.Qdrant.Server.{Server}
use py_runner.Vectors.Points.{Store, ok, Numbers}
use py_runner.Vectors.Slices.{take, drop, take_nil, length-drop, locate}
use py_runner.Vectors.QdrantStore.{Raw, decode}
use py_runner.Vectors.QdrantStore.Queries.{Points, clamp}
use py_runner.Vectors.QdrantStore.Queries.Recheck.{passes, passing, none_pass, exact_pass}
use py_runner.Vectors.QdrantStore.Scan.{scroll_raw, scroll}
use py_runner.Vectors.QdrantStore.Scan.Pages.{scan-from, next_at, fill-passing}

module _ {N : Type 0} {num_cmp : N → N → Option Ordering} {q : Server N num_cmp}
    (server : Points N num_cmp q) (flt : Json N) (r : QdrantFilter N) where
  -- the matching points from a cursor on
  abbrev pub ahead : Option server.Cursor → List (Raw N)
  ahead c = passing num_cmp flt (server.from r.filter c)

  -- What a next cursor promises after `limit` of the matching points from `c` on: none is left, or
  -- some are and it stands before them.
  pub Follows : ℕ → Option server.Cursor → Option server.Cursor → Type 0
  Follows limit c none = length (ahead c) ≤ limit
  Follows limit c (some next) =
      (limit < length (ahead c)) × (ahead (some next) ≡ drop limit (ahead c))

  module _ (given : to_qdrant flt ≡ Result.ok r) (limit : ℕ) (c : Option server.Cursor) where
    next_at-Follows :
        (ys : List (Raw N))
        → drop limit (ahead c) ≡ ys
        → Follows limit c (next_at server flt r given ys)
    unfolding Follows
    next_at-Follows [] h = omega (arith, length-drop limit (ahead c), ap length h)
    next_at-Follows (raw ∷ rest) h =
        let (m, tail, at_m, kept) =
          locate (passes num_cmp flt) (server.from r.filter c) limit raw rest h in
        (
          omega (arith, length-drop limit (ahead c), ap length h),
          ap (passing num_cmp flt) (server.at_law r.filter c m raw tail at_m) ∙ kept ∙ sym h,
        )

    ahead_exact :
        r.matches_nothing ≡ false
        → r.exact ≡ true
        → (d : Option server.Cursor) → ahead d ≡ server.from r.filter d
    ahead_exact n x d =
        sym (exact_pass num_cmp q flt r given n x (server.from r.filter d))
        ∙ server.from_law r.filter d

    server-Follows :
        r.matches_nothing ≡ false
        → r.exact ≡ true
        → (next : Option server.Cursor) → (server.scroll r.filter c limit).1 ≡ next
        → Follows limit c next
    unfolding Follows
    server-Follows n x none h = rw (ahead_exact n x c) (server.last_law r.filter c limit h)
    server-Follows n x (some next) h =
        rw (ahead_exact n x c, ahead_exact n x (some next))
          (server.next_law r.filter c limit next h)

  -- A page of raw points with its next cursor, as `scroll` promises them.
  IsPage : ℕ → Option server.Cursor → Store (Option (List (Raw N) × Option server.Cursor)) → Type 0
  IsPage limit c found =
      (next : Option server.Cursor) × (found ≡ ok (some (take limit (ahead c), next)))
      × Follows limit c next

  scroll_raw-IsPage :
      (fuel : ℕ) (c : Option server.Cursor) (limit : ℤ)
      → to_qdrant flt ≡ Result.ok r
      → length (server.from r.filter c) < fuel
      → IsPage (clamp limit) c (scroll_raw num_cmp q server fuel c limit flt)
  unfolding IsPage scroll_raw Follows
  scroll_raw-IsPage fuel c limit given enough = elim (Bool-cases r.matches_nothing) [
    | inl m ↦
        let nothing : ahead c ≡ [] = none_pass num_cmp q flt r given m (server.from r.filter c) in
        (
          none,
          rw (given, m, nothing) (ap (λ xs. ok (some (xs, none))) (sym (take_nil (clamp limit)))),
          rw nothing (omega arith),
        )
    | inr n ↦ elim (Bool-cases r.exact) [
      | inl x ↦
          let page = server.scroll r.filter c (clamp limit) in
          (
            page.1,
            rw (given, n, x)
                (ap (λ xs. ok (some (xs, page.1)))
                  (server.page_law r.filter c (clamp limit)
                    ∙ ap (take (clamp limit)) (sym (ahead_exact given (clamp limit) c n x c)))),
            server-Follows given (clamp limit) c n x page.1 refl,
          )
      | inr i ↦ (
        next_at server flt r given (drop (clamp limit) (ahead c)),
        rw
            (
              given,
              n,
              i,
              scan-from server fuel r.filter c enough,
              fill-passing server flt r given (clamp limit) (clamp limit) 0 (server.from r.filter c)
                  (omega arith),
            )
            refl,
        next_at-Follows given (clamp limit) c (drop (clamp limit) (ahead c)) refl,
      )
    ]
  ]

  -- A page of `scroll` has the first matching points from its cursor on, as many as the clamped
  -- limit, decoded; a next cursor comes only if more of them follow, and stands before the first of
  -- these. This holds of an exact filter and of a re-checked one, whose scan has fuel enough.
  pub scroll-ahead :
      (numbers : Numbers N) (fuel : ℕ) (c : Option server.Cursor) (limit : ℤ)
      (include_vectors : Bool)
      → to_qdrant flt ≡ Result.ok r
      → length (server.from r.filter c) < fuel
      → (next : Option server.Cursor) × (scroll num_cmp q server numbers fuel c limit flt
            include_vectors
          ≡ ok (some (map (decode numbers include_vectors) (take (clamp limit) (ahead c)), next)))
        × Follows (clamp limit) c next
  unfolding scroll IsPage
  scroll-ahead numbers fuel c limit include_vectors given enough =
      let (next, found, follows) = scroll_raw-IsPage fuel c limit given enough in
      (next, rw found refl, follows)
