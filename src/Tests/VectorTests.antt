-- ===== src/Tests/VectorTests.antt =====
-- core/vectors/qdrant_store.py at concrete points, on a server in memory.
use py_runner.Vectors.QdrantStore.Queries.Paged.{handed, search-passing}
use py_runner.Prelude.{
  keep, not, ℕ, ◌==◌, ◌≡◌, refl, pos, String, true, false, Option, none, some, List, [], ◌∷◌,
  length, map, arith,
}
use py_runner.Filters.Json.{Json, Fields, num, str, arr, obj, nil, cons, end, field}
use py_runner.Filters.Evaluate.{matches}
use py_runner.Vectors.Points.{
  Floated, number, not_number, Numbers, ok, ◌>>=◌, check_id, check_payload, check_text,
  check_vector, check_values,
}
use py_runner.Vectors.Slices.{take, length-keep}
use py_runner.Vectors.QdrantStore.{
  PointIn, a_point, Raw, encode_point, encode_rest, user_fields, decode,
}
use py_runner.Vectors.QdrantStore.RoundTrip.{decode-encode_point}
use py_runner.Vectors.QdrantStore.WellFormed.{IsVector, IsId, encode_point-IsVector}
use py_runner.Vectors.QdrantStore.Frame.{matches-user_fields}
use py_runner.Vectors.QdrantStore.Queries.{Points, selects, clamp, hit, search}
use py_runner.Vectors.QdrantStore.Queries.Recheck.{passing}
use py_runner.Vectors.QdrantStore.Scan.{count, scroll}
use py_runner.Vectors.QdrantStore.Scan.Pages.{count-passing}
use py_runner.Vectors.QdrantStore.Scan.Cursors.{Follows, ahead, scroll-ahead}
use py_runner.Vectors.LocalStore.{among}
use py_runner.Vectors.QdrantStore.Delete.{Deletion, points, filter, delete}
use py_runner.Vectors.QdrantStore.Delete.Effect.{Deletes, after_all, failing, delete-failing}
use py_runner.Tests.FilterTests.{by_size, server, python_filter, compiled, compiles}
use py_runner.Tests.VectorServer.{in_memory}

abbrev to_number : Json ℕ → Floated ℕ
to_number (num n) = number n
to_number _ = not_number

abbrev naturals : Numbers ℕ
naturals = record {
  nought = 0;
  is_zero = λ n. n == 0;
  to_float = to_number;
  is_finite = λ n. true;
  negate = λ n. n;
}

-- a stand-in for uuid5
abbrev same_id : String → String
same_id s = s

abbrev given : PointIn ℕ
given = record {
  id = str "a";
  vector = some (arr (cons (num 1) (cons (num 2) nil)));
  payload = obj (field "lang" (str "python") end);
  text = str "some text";
}

abbrev raw_given : Raw ℕ
raw_given = record {
  uuid = "a";
  vector = 1 ∷ 2 ∷ [];
  payload =
      field "lang" (str "python")
        (field "_pyrun_id" (str "a") (field "_pyrun_text" (str "some text") end));
  score = none;
}

encoded : encode_point naturals same_id 2 (a_point given) ≡ ok raw_given
unfolding encode_point encode_rest check_id check_payload check_text check_vector check_values
encoded = refl

decode-encode_point_example :
    (fs : Fields ℕ) × (check_payload naturals given.payload ≡ ok fs)
    × (decode naturals false raw_given
        ≡ record { id = given.id; payload = fs; text = given.text; vector = none })
    × (user_fields raw_given.payload ≡ fs)
decode-encode_point_example = decode-encode_point naturals same_id 2 given raw_given encoded

encode_point-IsVector_example :
    IsVector naturals 2 raw_given.vector
    × ((s : String) × (given.id ≡ str s) × (raw_given.uuid ≡ same_id s) × IsId naturals s)
encode_point-IsVector_example = encode_point-IsVector naturals same_id 2 given raw_given encoded

matches-user_fields_example :
    matches by_size raw_given.payload python_filter
    ≡ matches by_size (user_fields raw_given.payload) python_filter
matches-user_fields_example = matches-user_fields by_size raw_given.payload python_filter

abbrev stored_point : String → String → ℕ → Raw ℕ
stored_point u lang stars = record {
  uuid = u;
  vector = stars ∷ [];
  payload = field "lang" (str lang) (field "stars" (num stars) (field "_pyrun_id" (str u) end));
  score = some stars;
}

-- "c" and "d" match the filter, the server lets "b" through too
abbrev repos : List (Raw ℕ)
repos =
    stored_point "a" "go" 9
    ∷ stored_point "b" "numpy" 7
    ∷ stored_point "c" "python" 5
    ∷ stored_point "d" "pypy" 3
    ∷ []

abbrev qdrant : Points ℕ by_size server
qdrant =
    in_memory server repos
      ((refl, (refl, (refl, tt))), ((refl, (refl, tt)), ((refl, tt), (tt, tt))))

abbrev query_vector : Json ℕ
query_vector = arr (cons (num 1) nil)

search-passing_example :
    search by_size server qdrant naturals 5 1 false query_vector (pos 1) python_filter ≡ (
      check_vector naturals 1 query_vector >>= λ v. ok (
        some (
          map (hit naturals false) (
            take (clamp (pos 1)) (
              passing by_size python_filter
                (handed by_size server qdrant 5 v compiled (clamp (pos 1))))))))
search-passing_example =
    search-passing by_size server qdrant naturals 5 1 false query_vector (pos 1) python_filter
      compiled compiles (omega arith)

count-passing_example :
    count by_size server qdrant 5 python_filter
    ≡ ok (some (length (passing by_size python_filter repos)))
count-passing_example = count-passing qdrant python_filter compiled compiles 5 (omega arith)

scroll-ahead_example :
    (next : Option String) × (scroll by_size server qdrant naturals 5 none
        (pos 1)
        python_filter
        false
      ≡ ok (
          some (
            map
                (decode naturals false)
                (take (clamp (pos 1)) (ahead qdrant python_filter compiled none)),
            next,
          )))
    × Follows qdrant python_filter compiled (clamp (pos 1)) none next
scroll-ahead_example =
    scroll-ahead qdrant python_filter compiled naturals 5 none (pos 1) false compiles
      (omega (arith, length-keep (selects server compiled.filter) repos))

-- a deletion as documented
after : Deletion ℕ → List (Raw ℕ) → List (Raw ℕ)
after (points uuids) xs = keep (λ raw. not (among uuids raw.uuid)) xs
after (filter f) xs = keep (λ raw. not (selects server f raw)) xs

abbrev deletes : Deletes ℕ by_size server
unfolding after
deletes = record { after = after; points_law = λ uuids xs. refl; filter_law = λ f xs. refl }

-- `_retrieve` of points in memory
abbrev retrieve : List String → List (Raw ℕ)
retrieve uuids = keep (λ raw. among uuids raw.uuid) repos

delete-failing_example :
    (sent : List (Deletion ℕ)) × (delete by_size server qdrant retrieve same_id 5 none
        (some python_filter)
      ≡ ok (some (length (passing by_size python_filter repos), sent)))
    × (after_all deletes sent repos ≡ failing by_size python_filter repos)
delete-failing_example =
    delete-failing by_size server qdrant deletes python_filter compiled compiles retrieve same_id 5
      (refl, (refl, (refl, (refl, tt)))) (omega arith)
