-- ===== src/Vectors/QdrantStore/Queries/Search.antt =====
-- On a server that ranks exactly, the hits of a search are the best matching points, page by page or
-- not.
use Prim.Native.Nat.{Ordering}
use py_runner.Prelude.{
  ℕ, zero, suc, ℤ, pos, negsuc, ◌+◌, ◌-◌, ◌<◌, ◌≤◌, ◌≡◌, refl, sym, ap, ◌∙◌, Bool, Bool-cases, inl,
  inr, Option, some, List, [], ◌∷◌, ◌++◌, map, keep, length, ltb, ◌==◌, ==→eq, arith,
}
use py_runner.Filters.Json.{Json}
use py_runner.Filters.Grammar.{Result}
use py_runner.Filters.Qdrant.{Node, QdrantFilter, to_qdrant}
use py_runner.Filters.Qdrant.Server.{Server}
use py_runner.Vectors.Points.{Store, ok, err, ◌>>=◌, Numbers, check_vector}
use py_runner.Vectors.Slices.{
  take_nil, take, drop, take-append, take_all, keep-append, take-drop, drop-drop, length-take_lt,
  full_page, length-keep,
}
use py_runner.Vectors.QdrantStore.{Raw}
use py_runner.Vectors.QdrantStore.Queries.{
  Points, selects, clamp, page_size, search_pages, search_checked, search, hit,
}
use py_runner.Vectors.QdrantStore.Queries.Recheck.{
  passes, passing, found, collect-found, none_pass, exact_pass, superset_pass,
}

pub append_nil : {A : Type 0} (xs : List A) → xs ++ [] ≡ xs
append_nil [] = refl
append_nil (x ∷ xs) = ap (λ t. x ∷ t) (append_nil xs)

module _ {A : Type 0} (p : A → Bool) where
  -- a page of a list, then the rest
  page_keep : (page : ℕ) (xs : List A) → keep p xs ≡ keep p (take page xs) ++ keep p (drop page xs)
  page_keep page xs =
      ap (keep p) (sym (take-drop page xs)) ∙ keep-append p (take page xs) (drop page xs)

  module _ (page left : ℕ) (xs : List A) where
    page-on :
        take left (keep p xs)
        ≡ take left (keep p (take page xs))
          ++ take (left - length (keep p (take page xs))) (keep p (drop page xs))
    page-on =
        ap (take left) (page_keep page xs)
        ∙ take-append left (keep p (take page xs)) (keep p (drop page xs))

    page_full :
        left - length (keep p (take page xs)) ≡ 0
        → take left (keep p xs) ≡ take left (keep p (take page xs))
    page_full h = page-on ∙ rw h (append_nil (take left (keep p (take page xs))))

    page_last :
        length (take page xs) < page → take left (keep p xs) ≡ take left (keep p (take page xs))
    page_last h = rw (take_all page xs (omega (arith, length-take_lt page xs h))) refl

pub clamp_pos : (k : ℤ) → 1 ≤ clamp k
clamp_pos (pos zero) = omega arith
clamp_pos (pos (suc n)) = ground arith
clamp_pos (negsuc n) = omega arith

pub page_size_pos : (k : ℕ) → 1 ≤ page_size k
page_size_pos k = ground arith

module _ {N : Type 0} (num_cmp : N → N → Option Ordering) (flt : Json N) where
  page_next :
      (page offset left : ℕ) (xs : List (Raw N))
      → take left (passing num_cmp flt (take page (drop offset xs)))
          ++ take
              (left - length (passing num_cmp flt (take page (drop offset xs))))
              (passing num_cmp flt (drop (offset + page) xs))
        ≡ take left (passing num_cmp flt (drop offset xs))
  page_next page offset left xs =
      rw (sym (drop-drop offset page xs))
        (sym (page-on (passes num_cmp flt) page left (drop offset xs)))

-- A server that answers a query with its filtered points in the order of their scores: Qdrant scans
-- them all in a collection below its indexing threshold, and approximates in a larger one.
abbrev pub RanksExactly :
    {N : Type 0} {num_cmp : N → N → Option Ordering} (q : Server N num_cmp)
    → Points N num_cmp q
    → (List N → List (Raw N))
    → Type 0
RanksExactly {N = N} q server ranked =
    (v : List N) (f : Option (Node N)) (limit offset : ℕ)
    → server.query v f limit offset ≡ take limit (drop offset (keep (selects q f) (ranked v)))

module _ {N : Type 0} (num_cmp : N → N → Option Ordering) (q : Server N num_cmp)
    (server : Points N num_cmp q) (ranked : List N → List (Raw N))
    (exactly : RanksExactly q server ranked) (v : List N) (flt : Json N) (r : QdrantFilter N)
    (given : to_qdrant flt ≡ Result.ok r) where
  -- the server's points for the query, and those of a list that match
  abbrev superset : List (Raw N)
  superset = keep (selects q r.filter) (ranked v)

  search_pages-passing :
      (fuel page offset left : ℕ)
      → 1 ≤ page
      → 1 ≤ left
      → length (drop offset superset) < fuel
      → search_pages num_cmp q server fuel v r.filter flt page offset left
        ≡ ok (some (take left (passing num_cmp flt (drop offset superset))))
  unfolding search_pages found
  search_pages-passing zero page offset left pp lp enough = absurd (omega arith)
  search_pages-passing (suc fuel) page offset left pp lp enough =
      let xs = drop offset superset in
      let here = passing num_cmp flt (take page xs) in
      rw
        (
          exactly v r.filter page offset,
          collect-found num_cmp flt r given left (take page (drop offset superset)) lp,
        )
        (elim (Bool-cases (left - length here == 0)) [
          | inl t ↦ rw t (
              ap (λ ys. ok (some ys))
                (sym
                  (page_full (passes num_cmp flt) page left xs (==→eq (left - length here) 0 t))))
          | inr f ↦ elim (Bool-cases (ltb (length (take page xs)) page)) [
            | inl t ↦
                let short : length (take page xs) < page = ground (arith, t) in
                rw (f, t)
                  (ap (λ ys. ok (some ys))
                    (sym (page_last (passes num_cmp flt) page left xs short)))
            | inr u ↦
                let full : page ≤ length (take page xs) = ground (arith, u) in
                let more : 1 ≤ left - length here = ground (arith, f) in
                let rest =
                  search_pages-passing fuel page (offset + page) (left - length here) pp more
                    (full_page page offset fuel superset pp enough full) in
                rw (f, u, rest)
                  (ap (λ ys. ok (some ys)) (page_next num_cmp flt page offset left superset))
          ]
        ])

  search_checked-passing :
      (fuel : ℕ) (k : ℤ)
      → length (ranked v) < fuel
      → search_checked num_cmp q server fuel v k flt
        ≡ ok (some (take (clamp k) (passing num_cmp flt (ranked v))))
  unfolding search_checked
  search_checked-passing fuel k enough = rw given (elim (Bool-cases r.matches_nothing) [
    | inl m ↦
        rw (m, none_pass num_cmp q flt r given m (ranked v))
          (ap (λ ys. ok (some ys)) (sym (take_nil (clamp k))))
    | inr n ↦ elim (Bool-cases r.exact) [
      | inl x ↦
          rw (n, x, exactly v r.filter (clamp k) 0, exact_pass num_cmp q flt r given n x (ranked v))
            refl
      | inr i ↦
          rw
            (
              n,
              i,
              search_pages-passing fuel (page_size (clamp k)) 0 (clamp k) (page_size_pos (clamp k))
                  (clamp_pos k)
                  (omega (arith, enough, length-keep (selects q r.filter) (ranked v))),
              superset_pass num_cmp q flt r given n (ranked v),
            )
            refl
    ]
  ])

pub store_cong :
    {A B : Type 0} (m : Store A) (f g : A → Store B) → ((a : A) → f a ≡ g a) → (m >>= f) ≡ (m >>= g)
store_cong (ok a) f g h = h a
store_cong (err e) f g h = refl

module _ {N : Type 0} (num_cmp : N → N → Option Ordering) (q : Server N num_cmp)
    (server : Points N num_cmp q) (ranked : List N → List (Raw N))
    (exactly : RanksExactly q server ranked) where
  -- On a server that ranks exactly, a search with a filter that compiles gives, once the query vector is
  -- checked, the best `k` of the points that match, `k` clamped, in the order of the server's scores:
  -- whatever the server filter lets through that does not match, and with fuel above the number of
  -- points it never runs out.
  pub search-best :
      (numbers : Numbers N) (fuel dim : ℕ) (euclid : Bool) (vector : Json N) (k : ℤ) (flt : Json N)
      (r : QdrantFilter N)
      → to_qdrant flt ≡ Result.ok r
      → ((v : List N) → length (ranked v) < fuel)
      → search num_cmp q server numbers fuel dim euclid vector k flt ≡ (
          check_vector numbers dim vector >>= λ v.
          ok (some (map (hit numbers euclid) (take (clamp k) (passing num_cmp flt (ranked v))))))
  unfolding search
  search-best numbers fuel dim euclid vector k flt r given enough =
      store_cong (check_vector numbers dim vector) _ _ (λ v.
        rw (search_checked-passing num_cmp q server ranked exactly v flt r given fuel k (enough v))
          refl)
