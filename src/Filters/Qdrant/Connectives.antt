-- ===== src/Filters/Qdrant/Connectives.antt =====
-- `_q_and`, `_q_or` and `_q_not` fold the constants away and keep the meaning.
use Prim.Native.Nat.{Ordering}
use py_runner.Prelude.{
  ◌≡◌, refl, sym, ◌∙◌, true, false, not, Bool-cases, inl, inr, Option, List, [], ◌∷◌, all, any,
  keep, arith,
}
use py_runner.Filters.Json.{Fields}
use py_runner.Filters.Qdrant.{
  Node, match_all, match_none, must, should, last, next, pack, is_match_all, is_match_none, join,
  q_and, q_or, q_not,
}
use py_runner.Filters.Qdrant.Server.{Server, all_nodes, any_node, node_holds}

module _ {N : Type 0} {num_cmp : N → N → Option Ordering} (q : Server N num_cmp)
    (p : Fields N) where
  -- a node that is no constant is read by the server
  sent :
      (n : Node N)
      → is_match_all n ≡ false
      → is_match_none n ≡ false
      → q.accepts n p ≡ node_holds q p n
  sent match_all a b = cc
  sent match_none a b = cc
  sent _ a b = refl

  all-pack :
      (ns : List (Node N))
      → any is_match_all ns ≡ false
      → any is_match_none ns ≡ false
      → all_nodes (λ n. q.accepts n p) (pack ns) ≡ all (node_holds q p) ns
  all-pack [] a b = refl
  all-pack (n ∷ ns) a b = ground (arith, sent n, all-pack ns)

  any-pack :
      (ns : List (Node N))
      → any is_match_all ns ≡ false
      → any is_match_none ns ≡ false
      → any_node (λ n. q.accepts n p) (pack ns) ≡ any (node_holds q p) ns
  any-pack [] a b = refl
  any-pack (n ∷ ns) a b = ground (arith, sent n, any-pack ns)

  keep-all :
      (ns : List (Node N))
      → (all (node_holds q p) (keep (λ n. not (is_match_all n)) ns) ≡ all (node_holds q p) ns)
        × (any is_match_all (keep (λ n. not (is_match_all n)) ns) ≡ false)
  keep-all [] = (refl, refl)
  keep-all (match_all ∷ ns) = keep-all ns
  keep-all (n ∷ ns) = ground (arith, keep-all ns)

  keep-none :
      (ns : List (Node N))
      → (any (node_holds q p) (keep (λ n. not (is_match_none n)) ns) ≡ any (node_holds q p) ns)
        × (any is_match_none (keep (λ n. not (is_match_none n)) ns) ≡ false)
  keep-none [] = (refl, refl)
  keep-none (match_none ∷ ns) = keep-none ns
  keep-none (n ∷ ns) = ground (arith, keep-none ns)

  -- one MATCH_NONE makes the conjunction false, one MATCH_ALL makes the disjunction true
  none_fails : (ns : List (Node N)) → any is_match_none ns ≡ true → all (node_holds q p) ns ≡ false
  none_fails [] h = cc
  none_fails (match_none ∷ ns) h = refl
  none_fails (n ∷ ns) h = ground (arith, none_fails ns)

  all_suffices : (ns : List (Node N)) → any is_match_all ns ≡ true → any (node_holds q p) ns ≡ true
  all_suffices [] h = cc
  all_suffices (match_all ∷ ns) h = refl
  all_suffices (n ∷ ns) h = ground (arith, all_suffices ns)

  join-must :
      (ns : List (Node N))
      → any is_match_all ns ≡ false
      → any is_match_none ns ≡ false
      → node_holds q p (join match_all must ns) ≡ all (node_holds q p) ns
  unfolding join
  join-must [] a b = refl
  join-must (n ∷ []) a b = ground arith
  join-must (n ∷ m ∷ ns) a b = q.must_law _ p ∙ all-pack (n ∷ m ∷ ns) a b

  join-should :
      (ns : List (Node N))
      → any is_match_all ns ≡ false
      → any is_match_none ns ≡ false
      → node_holds q p (join match_none should ns) ≡ any (node_holds q p) ns
  unfolding join
  join-should [] a b = refl
  join-should (n ∷ []) a b = ground arith
  join-should (n ∷ m ∷ ns) a b = q.should_law _ p ∙ any-pack (n ∷ m ∷ ns) a b

  pub node_holds-q_and : (ns : List (Node N)) → node_holds q p (q_and ns) ≡ all (node_holds q p) ns
  unfolding q_and
  node_holds-q_and ns =
      let kept = keep (λ n. not (is_match_all n)) ns in
      let (same, no_all) = keep-all ns in
      elim (Bool-cases (any is_match_none kept)) [
        | inl fails ↦ rw fails (sym (none_fails kept fails) ∙ same)
        | inr fine ↦ rw fine (join-must kept no_all fine ∙ same)
      ]

  pub node_holds-q_or : (ns : List (Node N)) → node_holds q p (q_or ns) ≡ any (node_holds q p) ns
  unfolding q_or
  node_holds-q_or ns =
      let kept = keep (λ n. not (is_match_none n)) ns in
      let (same, no_none) = keep-none ns in
      elim (Bool-cases (any is_match_all kept)) [
        | inl passes ↦ rw passes (sym (all_suffices kept passes) ∙ same)
        | inr undecided ↦ rw undecided (join-should kept undecided no_none ∙ same)
      ]

  pub node_holds-q_not : (n : Node N) → node_holds q p (q_not n) ≡ not (node_holds q p n)
  unfolding q_not
  node_holds-q_not match_all = refl
  node_holds-q_not match_none = refl
  node_holds-q_not n = ground (arith, q.must_not_law (next n last) p)
