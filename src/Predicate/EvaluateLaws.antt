-- ===== src/Predicate/EvaluateLaws.antt =====
-- query.go: what `evaluateTextPredicate` computes for each kind of predicate.
use wasitter.Node.{Node}
use wasitter.Predicate.Evaluate.{compare_text, evaluate_pairs, all_nodes, some_node, evaluate}
use wasitter.Predicate.Extract.{TextPredicate}
use wasitter.Predicate.Steps.{predicate_semantics}
use wasitter.Prelude.{
  ℕ, suc, Bool, true, false, List, [], ◌∷◌, ◌≡◌, ◌≢◌, ◌↔◌, refl, arith, map, ◌==◌, Bytes,
  bytes_eq_iff, length, codes, All,
}

suc_eq_zero : (n : ℕ) → (suc n == 0) ≡ false
suc_eq_zero n = ground arith

-- Of two equally long lists, each item differs from its partner.
abbrev pub Differ : List Bytes → List Bytes → Type 0
Differ [] [] = Unit
Differ (x ∷ xs) (y ∷ ys) = (x ≢ y) × Differ xs ys
Differ _ _ = ⊥

module _ {Regex : Type 0} (match_regexp : Regex → Bytes → Bool) (text_of : Node → Bytes) where
  pairs_eq :
      (nodes other : List Node)
      → (evaluate_pairs match_regexp text_of true true nodes other ≡ true)
        ↔ (map text_of nodes ≡ map text_of other)
  unfolding evaluate_pairs
  pairs_eq [] [] = ground arith
  pairs_eq [] (o ∷ other) = ground arith
  pairs_eq (n ∷ nodes) [] = ground arith
  pairs_eq (n ∷ nodes) (o ∷ other) =
      ground (arith, bytes_eq_iff (text_of n) (text_of o), pairs_eq nodes other)

  pairs-Differ :
      (nodes other : List Node)
      → (evaluate_pairs match_regexp text_of false true nodes other ≡ true)
        ↔ Differ (map text_of nodes) (map text_of other)
  unfolding evaluate_pairs
  pairs-Differ [] [] = ground arith
  pairs-Differ [] (o ∷ other) = ground arith
  pairs-Differ (n ∷ nodes) [] = ground arith
  pairs-Differ (n ∷ nodes) (o ∷ other) =
      ground (arith, bytes_eq_iff (text_of n) (text_of o), pairs-Differ nodes other)

  -- With another capture, `#eq?` holds exactly if the two captures have the same texts in the same
  -- order: as many nodes, and each one's text that of its partner.
  pub evaluate-eq_capture :
      (p : TextPredicate Regex) (nodes other : List Node)
      → (length p.other_capture == 0) ≡ false
      → p.op ≡ codes "eq?"
      → (evaluate match_regexp text_of p nodes other ≡ true)
        ↔ (map text_of nodes ≡ map text_of other)
  unfolding evaluate predicate_semantics
  evaluate-eq_capture p nodes other h e = rw (h, e) (pairs_eq nodes other)

  -- With another capture, `#not-eq?` holds exactly if the two captures have as many nodes as each
  -- other and the text of each node differs from its partner's.
  pub evaluate-not_eq_capture :
      (p : TextPredicate Regex) (nodes other : List Node)
      → (length p.other_capture == 0) ≡ false
      → p.op ≡ codes "not-eq?"
      → (evaluate match_regexp text_of p nodes other ≡ true)
        ↔ Differ (map text_of nodes) (map text_of other)
  unfolding evaluate predicate_semantics
  evaluate-not_eq_capture p nodes other h e = rw (h, e) (pairs-Differ nodes other)

  pub some_node-true :
      (p : TextPredicate Regex) (positive : Bool) (nodes : List Node)
      → some_node match_regexp text_of p positive nodes ≡ true
  unfolding some_node
  some_node-true p positive [] = refl
  some_node-true p positive (n ∷ nodes) = ground (arith, some_node-true p positive nodes)

  -- A predicate on one capture that is not for all nodes, such as `#any-eq? @a "x"` or
  -- `#any-match? @a "x"`, holds of every list of nodes, whatever their texts: it never filters.
  pub evaluate-some_node :
      (p : TextPredicate Regex) (nodes other : List Node)
      → (length p.other_capture == 0) ≡ true
      → (predicate_semantics p.op).1 ≡ false
      → evaluate match_regexp text_of p nodes other ≡ true
  unfolding evaluate
  evaluate-some_node p nodes other h e =
      rw (h, e) (ground (arith, some_node-true p (predicate_semantics p.op).0 nodes))

  all_nodes_iff :
      (p : TextPredicate Regex) (positive : Bool) (nodes : List Node)
      → (all_nodes match_regexp text_of p positive nodes ≡ true)
        ↔ All (λ (n : Node). compare_text match_regexp p (text_of n) ≡ positive) nodes
  unfolding all_nodes
  all_nodes_iff p positive [] = (λ _. tt, λ _. refl)
  all_nodes_iff p true (n ∷ nodes) = ground (arith, all_nodes_iff p true nodes)
  all_nodes_iff p false (n ∷ nodes) = ground (arith, all_nodes_iff p false nodes)

  -- A predicate on one capture that is for all nodes holds exactly if every node's text passes the
  -- test of its operator, or fails it where the operator is negative.
  pub evaluate-All :
      (p : TextPredicate Regex) (nodes other : List Node)
      → (length p.other_capture == 0) ≡ true
      → (predicate_semantics p.op).1 ≡ true
      → (evaluate match_regexp text_of p nodes other ≡ true)
        ↔ All
            (λ (n : Node). compare_text match_regexp p (text_of n) ≡ (predicate_semantics p.op).0)
            nodes
  unfolding evaluate all_nodes
  evaluate-All p [] other h e = rw h (λ _. tt, λ _. refl)
  evaluate-All p (n ∷ nodes) other h e =
      rw (h, suc_eq_zero (length nodes), e)
        (all_nodes_iff p (predicate_semantics p.op).0 (n ∷ nodes))
