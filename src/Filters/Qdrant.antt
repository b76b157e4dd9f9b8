-- ===== src/Filters/Qdrant.antt =====
-- `to_qdrant` of core/vectors/filters.py: a filter compiled to Qdrant's filter objects.
pub mod Server
mod Connectives
mod Operators
mod Sound
pub mod Answer
use text.Mathlib.Text.{◌==◌ as str_eq}
use py_runner.Prelude.{
  String, Bool, true, false, not, ◌&&◌, ◌||◌, Option, none, some, List, [], ◌∷◌, ◌++◌, map, all,
  any, keep, if◌then◌else◌,
}
use py_runner.Filters.Json.{
  Json, Items, Fields, null, bool, num, str, arr, obj, nil, cons, end, field, to_list, ops,
}
use py_runner.Filters.Grammar.{Result, ok, err, ◌>>=◌, validate}

-- the values of `_QDRANT_RANGE`
pub data Bound : Type 0 where
  gt gte lt lte : Bound

-- `_QDRANT_RANGE[op]`
abbrev pub qdrant_range : String → Bound
qdrant_range op =
    if str_eq op "$gt"
    then gt
    else if str_eq op "$gte"
    then gte
    else if str_eq op "$lt"
    then lt
    else lte

-- The objects that `to_qdrant` builds, with the constants MATCH_ALL and MATCH_NONE.
mutual
  pub data Node (N : Type 0) : Type 0 where
    match_all match_none : Node N
    -- {"key": f, "match": {"text": s}} and {"key": f, "match": {"value": v}}
    match_text : String → String → Node N
    match_value : String → Json N → Node N
    -- {"key": f, "range": {bound: arg}} and {"key": f, "range": {"gte": v, "lte": v}}
    range : String → Bound → Json N → Node N
    closed_range : String → Json N → Node N
    -- {"is_empty": {"key": f}} and {"is_null": {"key": f}}
    is_empty is_null : String → Node N
    must should must_not : Nodes N → Node N

  pub data Nodes (N : Type 0) : Type 0 where
    last : Nodes N
    next : Node N → Nodes N → Nodes N

module _ {N : Type 0} where
  -- a Python list of nodes as the value of a JSON key
  abbrev pub pack : List (Node N) → Nodes N
  pack [] = last
  pack (n ∷ ns) = next n (pack ns)

  abbrev pub is_match_all : Node N → Bool
  is_match_all match_all = true
  is_match_all _ = false

  abbrev pub is_match_none : Node N → Bool
  is_match_none match_none = true
  is_match_none _ = false

  -- `nodes[0] if len(nodes) == 1 else {key: nodes}`, with the constant for no node at all
  unfoldable pub join : Node N → (Nodes N → Node N) → List (Node N) → Node N
  join zero_nodes wrap [] = zero_nodes
  join zero_nodes wrap (n ∷ []) = n
  join zero_nodes wrap (n ∷ m ∷ rest) = wrap (pack (n ∷ m ∷ rest))

  -- `_q_and`
  unfoldable pub q_and : List (Node N) → Node N
  unfolding join
  q_and nodes =
      let nodes' = keep (λ n. not (is_match_all n)) nodes in
      if any is_match_none nodes' then match_none else join match_all must nodes'

  -- `_q_or`
  unfoldable pub q_or : List (Node N) → Node N
  unfolding join
  q_or nodes =
      let nodes' = keep (λ n. not (is_match_none n)) nodes in
      if any is_match_all nodes' then match_all else join match_none should nodes'

  -- `_q_not`
  unfoldable pub q_not : Node N → Node N
  q_not match_all = match_none
  q_not match_none = match_all
  q_not node = must_not (next node last)

  -- A part is a node with its exactness.
  abbrev pub nodes_of : List (Node N × Bool) → List (Node N)
  nodes_of parts = map (λ p. p.0) parts

  abbrev pub all_exact : List (Node N × Bool) → Bool
  all_exact parts = all (λ p. p.1) parts

  -- `_q_eq`
  unfoldable pub q_eq : String → Json N → Bool → Node N × Bool
  q_eq key null positive = (if positive then is_empty key else is_null key, false)
  q_eq key (bool b) positive = (match_value key (bool b), true)
  q_eq key (str s) positive = (match_value key (str s), true)
  q_eq key value positive = (closed_range key value, true)

  -- `[_q_eq(field, value, positive) for value in arg]`
  abbrev pub q_eqs : String → Json N → Bool → List (Node N × Bool)
  q_eqs key (arr items) positive = map (λ v. q_eq key v positive) (to_list items)
  q_eqs key _ positive = []

  -- the `$prefix` branch of `_q_op`
  unfoldable pub q_prefix : String → Json N → Bool → Node N × Bool
  q_prefix key (str s) positive =
      if str_eq s ""
      then (if positive then match_all else match_none, false)
      else if positive
      then (match_text key s, false)
      else (match_value key (str s), false)
  q_prefix key arg positive = (match_none, false)

  -- the range branches of `_q_op`
  unfoldable pub q_range : String → String → Json N → Bool → Node N × Bool
  q_range key op (str s) positive = (if positive then match_all else match_none, false)
  q_range key op arg positive = (range key (qdrant_range op) arg, true)

  -- `_q_op`
  unfoldable pub q_op : String → String → Json N → Bool → Node N × Bool
  unfolding q_eq q_prefix q_range
  q_op key op arg positive =
      if str_eq op "$in"
      then (q_or (nodes_of (q_eqs key arg positive)), all_exact (q_eqs key arg positive))
      else if str_eq op "$eq"
      then q_eq key arg positive
      else if str_eq op "$prefix"
      then q_prefix key arg positive
      else q_range key op arg positive

  -- `_q_op(key, op, arg, positive) for op, arg in _ops(value)`
  unfoldable pub q_ops : String → Bool → Fields N → List (Node N × Bool)
  q_ops key positive end = []
  q_ops key positive (field op arg rest) = q_op key op arg positive ∷ q_ops key positive rest

unfoldable mutual
  -- `_q_filter`; only dicts reach it
  pub q_filter : {N : Type 0} → Bool → Json N → Node N × Bool
  q_filter positive (obj fs) =
      let parts = q_parts positive fs in (q_and (nodes_of parts), all_exact parts)
  q_filter positive _ = (match_all, true)

  -- its loop over the items
  pub q_parts : {N : Type 0} → Bool → Fields N → List (Node N × Bool)
  q_parts positive end = []
  q_parts positive (field key (arr subs) rest) =
      (if str_eq key "must"
        then q_must positive subs
        else if str_eq key "must_not"
        then q_must_not (not positive) subs
        else q_ops key positive (ops (arr subs)))
      ++ q_parts positive rest
  q_parts positive (field key value rest) = q_ops key positive (ops value) ++ q_parts positive rest

  pub q_must : {N : Type 0} → Bool → Items N → List (Node N × Bool)
  q_must positive nil = []
  q_must positive (cons sub rest) = q_filter positive sub ∷ q_must positive rest

  -- the loop under `must_not`, at the polarity of its entries
  pub q_must_not : {N : Type 0} → Bool → Items N → List (Node N × Bool)
  q_must_not positive nil = []
  q_must_not positive (cons sub rest) =
      (q_not (q_filter positive sub).0, (q_filter positive sub).1) ∷ q_must_not positive rest

pub record QdrantFilter (N : Type 0) : Type 0 where
  pub filter : Option (Node N)
  pub exact : Bool
  pub matches_nothing : Bool

-- `set(node) <= {"must", "should", "must_not"}`
abbrev pub is_clause : {N : Type 0} → Node N → Bool
is_clause (must _) = true
is_clause (should _) = true
is_clause (must_not _) = true
is_clause _ = false

-- the end of `to_qdrant`
unfoldable pub finish : {N : Type 0} → Node N → Bool → QdrantFilter N
finish match_none exact = record { filter = none; exact = exact; matches_nothing = true }
finish match_all exact = record { filter = none; exact = exact; matches_nothing = false }
finish node exact = record {
  filter = some (if is_clause node then node else must (next node last));
  exact = exact;
  matches_nothing = false;
}

-- `to_qdrant`
unfoldable pub to_qdrant : {N : Type 0} → Json N → Result (QdrantFilter N)
unfolding finish
to_qdrant flt = validate flt >>= (λ given. elim given [
  | none ↦ ok (record { filter = none; exact = true; matches_nothing = false })
  | some fs ↦ ok (finish (q_filter true (obj fs)).0 (q_filter true (obj fs)).1)
])
