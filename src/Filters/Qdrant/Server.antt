-- ===== src/Filters/Qdrant/Server.antt =====
-- What core/vectors/filters.py relies on of a Qdrant server, which is not part of the repository.
use Prim.Native.Nat.{Ordering}
use Prim.Native.String.{compare}
use py_runner.Prelude.{String, ◌≡◌, Bool, true, false, not, ◌&&◌, ◌||◌, Option, none, some, any}
use py_runner.Filters.Json.{Json, Fields, null, bool, num, str, get, elements}
use py_runner.Filters.Evaluate.{bool_eq, prefix_matches}
use py_runner.Filters.Qdrant.{
  Bound, gt, gte, lt, lte, Node, Nodes, match_all, match_none, match_text, match_value, range,
  closed_range, is_empty, is_null, must, should, must_not, last, next,
}

-- one bound of a range, on the order of the stored number against the bound
abbrev pub within : Bound → Option Ordering → Bool
within b none = false
within gt (some o) = elim o [ Ordering.gt ↦ true | _ ↦ false ]
within gte (some o) = elim o [ Ordering.lt ↦ false | _ ↦ true ]
within lt (some o) = elim o [ Ordering.lt ↦ true | _ ↦ false ]
within lte (some o) = elim o [ Ordering.gt ↦ false | _ ↦ true ]

module _ {N : Type 0} where
  abbrev pub all_nodes : (Node N → Bool) → Nodes N → Bool
  all_nodes p last = true
  all_nodes p (next n ns) = p n && all_nodes p ns

  abbrev pub any_node : (Node N → Bool) → Nodes N → Bool
  any_node p last = false
  any_node p (next n ns) = p n || any_node p ns

  -- a stored value equals a keyword or a bool, types apart
  abbrev pub equals : Json N → Json N → Bool
  equals (bool a) (bool b) = bool_eq a b
  equals (str s) (str t) = elim (compare s t) [ Ordering.eq ↦ true | _ ↦ false ]
  equals _ _ = false

-- A range looks at numbers only.
abbrev pub in_range : {N : Type 0} → (N → N → Option Ordering) → Bound → Json N → Json N → Bool
in_range num_cmp b (num x) (num v) = within b (num_cmp x v)
in_range num_cmp b _ _ = false

-- A condition on a field holds if one of its elements meets it; `must`, `should` and `must_not`
-- are all, any and none. Of `text`, `is_empty` and `is_null` one direction is all that is relied on.
pub record Server (N : Type 0) (num_cmp : N → N → Option Ordering) : Type 0 where
  pub accepts : Node N → Fields N → Bool
  pub must_law :
      (ns : Nodes N) (p : Fields N) → accepts (must ns) p ≡ all_nodes (λ n. accepts n p) ns
  pub should_law :
      (ns : Nodes N) (p : Fields N) → accepts (should ns) p ≡ any_node (λ n. accepts n p) ns
  pub must_not_law :
      (ns : Nodes N) (p : Fields N) → accepts (must_not ns) p ≡ not (any_node (λ n. accepts n p) ns)
  pub value_law :
      (f : String) (v : Json N) (p : Fields N)
      → accepts (match_value f v) p ≡ any (λ x. equals x v) (elements (get p f))
  pub text_law :
      (f s : String) (p : Fields N)
      → any (λ x. prefix_matches x (str s)) (elements (get p f)) ≡ true
      → accepts (match_text f s) p ≡ true
  pub range_law :
      (f : String) (b : Bound) (v : Json N) (p : Fields N)
      → accepts (range f b v) p ≡ any (λ x. in_range num_cmp b x v) (elements (get p f))
  pub closed_range_law :
      (f : String) (v : Json N) (p : Fields N)
      → accepts (closed_range f v) p
        ≡ any (λ x. in_range num_cmp gte x v && in_range num_cmp lte x v) (elements (get p f))
  pub empty_law : (f : String) (p : Fields N) → get p f ≡ null → accepts (is_empty f) p ≡ true
  pub null_law : (f : String) (p : Fields N) → accepts (is_null f) p ≡ true → get p f ≡ null

-- A node as `to_qdrant` reads it: its two constants are never sent.
abbrev pub node_holds :
    {N : Type 0} {num_cmp : N → N → Option Ordering} → Server N num_cmp → Fields N → Node N → Bool
node_holds q p match_all = true
node_holds q p match_none = false
node_holds q p n = q.accepts n p
