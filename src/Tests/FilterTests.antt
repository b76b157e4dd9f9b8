-- ===== src/Tests/FilterTests.antt =====
-- core/vectors/filters.py at concrete filters, with a Qdrant server that keeps its documentation.
use Prim.Native.Nat.{Ordering, compare}
use py_runner.Prelude.{ℕ, ◌≡◌, refl, Bool, true, false, not, ◌&&◌, ◌||◌, Option, some, any}
use py_runner.Filters.Json.{
  Json, Fields, null, num, str, arr, obj, nil, cons, end, field, get, elements,
}
use py_runner.Filters.Grammar.{ok, validate, validate_field, validate_condition, field_re, ◌>>◌}
use py_runner.Filters.Evaluate.{
  prefix_matches, matches, ops_match, op_matches, single_matches, scalar_matches,
}
use py_runner.Filters.Evaluate.Total.{holds, matches-total}
use py_runner.Filters.Qdrant.{
  Bound, Node, Nodes, match_all, match_none, match_text, match_value, range, closed_range, is_empty,
  is_null, must, should, must_not, last, next, gte, lte, QdrantFilter, to_qdrant, q_filter, q_op,
  q_and, q_or, q_not, q_ops,
}
use py_runner.Filters.Qdrant.Server.{Server, equals, in_range, all_nodes, any_node}
use py_runner.Filters.Qdrant.Answer.{answer, to_qdrant_sound}

abbrev pub by_size : ℕ → ℕ → Option Ordering
by_size a b = some (compare a b)

abbrev is_missing : Json ℕ → Bool
is_missing null = true
is_missing _ = false

mutual
  pub accepts : Node ℕ → Fields ℕ → Bool
  accepts match_all p = true
  accepts match_none p = false
  accepts (match_text f s) p = any (λ x. prefix_matches x (str s)) (elements (get p f))
  accepts (match_value f v) p = any (λ x. equals x v) (elements (get p f))
  accepts (range f b v) p = any (λ x. in_range by_size b x v) (elements (get p f))
  accepts (closed_range f v) p =
      any (λ x. in_range by_size gte x v && in_range by_size lte x v) (elements (get p f))
  accepts (is_empty f) p = is_missing (get p f)
  accepts (is_null f) p = is_missing (get p f)
  accepts (must ns) p = accepts_all ns p
  accepts (should ns) p = accepts_any ns p
  accepts (must_not ns) p = not (accepts_any ns p)

  pub accepts_all : Nodes ℕ → Fields ℕ → Bool
  accepts_all last p = true
  accepts_all (next n ns) p = accepts n p && accepts_all ns p

  pub accepts_any : Nodes ℕ → Fields ℕ → Bool
  accepts_any last p = false
  accepts_any (next n ns) p = accepts n p || accepts_any ns p

pub all_law : (ns : Nodes ℕ) (p : Fields ℕ) → accepts_all ns p ≡ all_nodes (λ n. accepts n p) ns
unfolding accepts
all_law last p = refl
all_law (next n ns) p = rw (all_law ns p)

pub any_law : (ns : Nodes ℕ) (p : Fields ℕ) → accepts_any ns p ≡ any_node (λ n. accepts n p) ns
unfolding accepts
any_law last p = refl
any_law (next n ns) p = rw (any_law ns p)

pub missing_null : (x : Json ℕ) → is_missing x ≡ true → x ≡ null
missing_null null h = refl
missing_null _ h = cc

pub null_missing : (x : Json ℕ) → x ≡ null → is_missing x ≡ true
null_missing x h = rw h

abbrev pub server : Server ℕ by_size
unfolding accepts
server = record {
  accepts = accepts;
  must_law = all_law;
  should_law = any_law;
  must_not_law = λ ns p. rw (any_law ns p);
  value_law = λ f v p. refl;
  text_law = λ f s p h. h;
  range_law = λ f b v p. refl;
  closed_range_law = λ f v p. refl;
  empty_law = λ f p h. null_missing (get p f) h;
  null_law = λ f p h. missing_null (get p f) h;
}

-- {"lang": {"$prefix": "py"}, "must_not": [{"stars": {"$lt": 3}}]}
abbrev pub python_filter : Json ℕ
python_filter = obj (
    field "lang" (obj (field "$prefix" (str "py") end)) (
      field "must_not" (arr (cons (obj (field "stars" (obj (field "$lt" (num 3) end)) end)) nil))
        end))

abbrev repo : Fields ℕ
repo = field "lang" (str "python") (field "stars" (num 5) end)

matches-repo : matches by_size repo python_filter ≡ ok true
unfolding matches validate validate_field validate_condition field_re ops_match op_matches
    single_matches scalar_matches
matches-repo = refl

matches-total_example :
    matches by_size repo python_filter
    ≡ (validate python_filter >> ok (holds by_size repo python_filter))
matches-total_example = matches-total by_size repo python_filter

abbrev pub compiled : QdrantFilter ℕ
compiled = record {
  filter = some (
      must (
        next (match_text "lang" "py")
          (next (must_not (next (range "stars" Bound.lt (num 3)) last)) last)));
  exact = false;
  matches_nothing = false;
}

pub compiles : to_qdrant python_filter ≡ ok compiled
unfolding to_qdrant validate validate_field validate_condition q_filter q_and q_op q_or q_not q_ops
    field_re
compiles = refl

to_qdrant_sound_example :
    (matches by_size repo python_filter ≡ ok true → answer server repo compiled ≡ true)
    × (compiled.exact ≡ true
        → matches by_size repo python_filter ≡ ok (answer server repo compiled))
to_qdrant_sound_example = to_qdrant_sound server repo python_filter compiled compiles
