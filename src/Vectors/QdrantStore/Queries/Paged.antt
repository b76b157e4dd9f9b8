-- ===== src/Vectors/QdrantStore/Queries/Paged.antt =====
-- The hits of a search on any server, whose ranking may be approximate.
use Prim.Native.Nat.{Ordering}
use py_runner.Prelude.{
  ℕ, zero, suc, ℤ, ◌+◌, ◌-◌, ◌<◌, ◌≤◌, ◌≡◌, refl, sym, ap, ◌∙◌, Bool, Bool-cases, inl, inr, Option,
  some, List, [], ◌++◌, map, length, ltb, ◌==◌, ==→eq, if◌then◌else◌, arith,
}
use py_runner.Filters.Json.{Json}
use py_runner.Filters.Grammar.{Result}
use py_runner.Filters.Qdrant.{Node, QdrantFilter, to_qdrant}
use py_runner.Filters.Qdrant.Server.{Server}
use py_runner.Vectors.Points.{ok, ◌>>=◌, Numbers, check_vector}
use py_runner.Vectors.Slices.{take_nil, take, take-append, take_all, keep-append}
use py_runner.Vectors.QdrantStore.{Raw}
use py_runner.Vectors.QdrantStore.Queries.{
  Points, clamp, page_size, search_pages, search_checked, search, hit,
}
use py_runner.Vectors.QdrantStore.Queries.Recheck.{
  passes, passing, found, collect-found, exact_pass,
}
use py_runner.Vectors.QdrantStore.Queries.Search.{append_nil, clamp_pos, page_size_pos, store_cong}

module _ {N : Type 0} (num_cmp : N → N → Option Ordering) (q : Server N num_cmp)
    (server : Points N num_cmp q) where
  -- the server's pages of a query, one after the other, up to the first that is not full
  abbrev pub pages : ℕ → List N → Option (Node N) → ℕ → ℕ → List (Raw N)
  pages zero v f page offset = []
  pages (suc fuel) v f page offset =
      let batch = server.query v f page offset in
      let more = pages fuel v f page (offset + page) in
      if ltb (length batch) page then batch else batch ++ more

  -- What the server hands out for a query: one answer with `k` points if its filter is exact,
  -- otherwise pages.
  abbrev pub handed : ℕ → List N → QdrantFilter N → ℕ → List (Raw N)
  handed fuel v r k =
      if r.matches_nothing
      then []
      else if r.exact
      then server.query v r.filter k 0
      else pages fuel v r.filter (page_size k) 0

module _ {N : Type 0} (num_cmp : N → N → Option Ordering) (q : Server N num_cmp)
    (server : Points N num_cmp q) (v : List N) (flt : Json N) (r : QdrantFilter N)
    (given : to_qdrant flt ≡ Result.ok r) where
  -- the best of a batch and of what follows it
  take_both :
      (left : ℕ) (batch more : List (Raw N))
      → take left (passing num_cmp flt (batch ++ more))
        ≡ take left (passing num_cmp flt batch)
          ++ take (left - length (passing num_cmp flt batch)) (passing num_cmp flt more)
  take_both left batch more =
      ap (take left) (keep-append (passes num_cmp flt) batch more)
      ∙ take-append left (passing num_cmp flt batch) (passing num_cmp flt more)

  take_first :
      (left : ℕ) (batch more : List (Raw N))
      → left - length (passing num_cmp flt batch) ≡ 0
      → take left (passing num_cmp flt (batch ++ more)) ≡ take left (passing num_cmp flt batch)
  take_first left batch more h =
      take_both left batch more ∙ rw h (append_nil (take left (passing num_cmp flt batch)))

  search_pages-passing :
      (fuel page offset left : ℕ)
      → 1 ≤ page
      → 1 ≤ left
      → length server.stored - offset < fuel
      → search_pages num_cmp q server fuel v r.filter flt page offset left
        ≡ ok (
            some (
              take left (passing num_cmp flt (pages num_cmp q server fuel v r.filter page offset))))
  unfolding search_pages found
  search_pages-passing zero page offset left pp lp enough = absurd (omega arith)
  search_pages-passing (suc fuel) page offset left pp lp enough =
      let batch = server.query v r.filter page offset in
      let here = passing num_cmp flt batch in
      let more = pages num_cmp q server fuel v r.filter page (offset + page) in
      rw (collect-found num_cmp flt r given left (server.query v r.filter page offset) lp)
        (elim (Bool-cases (ltb (length batch) page)) [
          | inl short ↦ elim (Bool-cases (left - length here == 0)) [
            | inl t ↦ rw (t, short) refl
            | inr f ↦ rw (f, short) refl
          ]
          | inr long ↦ elim (Bool-cases (left - length here == 0)) [
            | inl t ↦
                rw (t, long)
                  (ap (λ ys. ok (some ys))
                    (sym (take_first left batch more (==→eq (left - length here) 0 t))))
            | inr f ↦
                let size = server.query_size v r.filter page offset in
                let full : page ≤ length batch = ground (arith, long) in
                let rest =
                  search_pages-passing fuel page (offset + page) (left - length here) pp
                    (ground (arith, f)) (omega (arith, full, size.1, enough, pp)) in
                rw (f, long, rest) (ap (λ ys. ok (some ys)) (sym (take_both left batch more)))
          ]
        ])

  search_checked-passing :
      (fuel : ℕ) (k : ℤ)
      → length server.stored < fuel
      → search_checked num_cmp q server fuel v k flt
        ≡ ok (
            some
              (take (clamp k) (passing num_cmp flt (handed num_cmp q server fuel v r (clamp k)))))
  unfolding search_checked
  search_checked-passing fuel k enough = rw given (elim (Bool-cases r.matches_nothing) [
    | inl m ↦ rw m (ap (λ ys. ok (some ys)) (sym (take_nil (clamp k))))
    | inr n ↦ elim (Bool-cases r.exact) [
      | inr i ↦
          rw (n, i)
            (search_pages-passing fuel (page_size (clamp k)) 0 (clamp k) (page_size_pos (clamp k))
              (clamp_pos k) (omega (arith, enough)))
      | inl x ↦
          let answer = server.query v r.filter (clamp k) 0 in
          let all_pass : answer ≡ passing num_cmp flt answer =
            sym (server.query_selects v r.filter (clamp k) 0)
            ∙ exact_pass num_cmp q flt r given n x answer in
          rw (n, x)
            (ap (λ ys. ok (some ys))
              (sym (take_all (clamp k) answer (server.query_size v r.filter (clamp k) 0).0)
                ∙ ap (take (clamp k)) all_pass))
    ]
  ])

module _ {N : Type 0} (num_cmp : N → N → Option Ordering) (q : Server N num_cmp)
    (server : Points N num_cmp q) where
  -- A search with a filter that compiles gives, once the query vector is checked, the first `k` points
  -- that match, `k` clamped, of those that the server hands out for the query, in its order: of one
  -- answer if its filter is exact, and otherwise of its pages up to the first that is not full. The
  -- server's ranking may be approximate; with fuel above the number of points the search never runs out.
  pub search-passing :
      (numbers : Numbers N) (fuel dim : ℕ) (euclid : Bool) (vector : Json N) (k : ℤ) (flt : Json N)
      (r : QdrantFilter N)
      → to_qdrant flt ≡ Result.ok r
      → length server.stored < fuel
      → search num_cmp q server numbers fuel dim euclid vector k flt ≡ (
          check_vector numbers dim vector >>= λ v. ok (
            some (
              map (hit numbers euclid) (
                take
                  (clamp k)
                  (passing num_cmp flt (handed num_cmp q server fuel v r (clamp k)))))))
  unfolding search
  search-passing numbers fuel dim euclid vector k flt r given enough =
      store_cong (check_vector numbers dim vector) _ _
        (λ v. rw (search_checked-passing num_cmp q server v flt r given fuel k enough) refl)
