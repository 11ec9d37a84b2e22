-- ===== src/Predicate/RetainedLaws.antt =====
-- query.go: `satisfies` computes what `satisfiesWithTextBuffer` does where each node's text is the
-- one that the tree retains.
use wasitter.Node.{Node}
use wasitter.Predicate.Evaluate.{
  QueryCapture, contains_text, compare_text, pair_loop, evaluate_pairs, all_nodes, some_node,
  evaluate, captured, other_captured, satisfies_all,
}
use wasitter.Predicate.Extract.{TextPredicate}
use wasitter.Predicate.Retained.{
  node_is_value, compare_node, node_pairs, every_node, any_node, evaluate_text_predicate, gathered,
  satisfies,
}
use wasitter.Predicate.Steps.{predicate_semantics}
use wasitter.Prelude.{
  ℕ, Bool, none, some, List, [], ◌∷◌, ◌≡◌, refl, arith, ◌==◌, Bytes, length, Bool-cases, inl, inr,
}

abbrev pub retained : Node → Bytes
retained n = n.text

node_is_value-contains_text :
    (values : List Bytes) (n : Node) → node_is_value values n ≡ contains_text values n.text
unfolding node_is_value contains_text
node_is_value-contains_text [] n = refl
node_is_value-contains_text (v ∷ values) n = ground (arith, node_is_value-contains_text values n)

module _ {Regex : Type 0} (match_regexp : Regex → Bytes → Bool) where
  compare_node-compare_text :
      (p : TextPredicate Regex) (n : Node)
      → compare_node match_regexp p n ≡ compare_text match_regexp p n.text
  unfolding compare_node compare_text
  compare_node-compare_text p n = rw (node_is_value-contains_text p.values n) refl

  node_pairs-evaluate_pairs :
      (positive match_all : Bool) (nodes other : List Node) (equal : Bool)
      → node_pairs match_regexp positive match_all equal nodes other
        ≡ elim (pair_loop match_regexp retained positive match_all nodes other) [
          | some result ↦ result
          | none ↦ equal
        ]
  unfolding node_pairs pair_loop
  node_pairs-evaluate_pairs positive match_all [] other equal = refl
  node_pairs-evaluate_pairs positive match_all (n ∷ nodes) [] equal = refl
  node_pairs-evaluate_pairs positive match_all (n ∷ nodes) (o ∷ other) equal =
      ground (arith, node_pairs-evaluate_pairs positive match_all nodes other equal)

  every_node-all_nodes :
      (p : TextPredicate Regex) (positive : Bool) (nodes : List Node)
      → every_node match_regexp p positive nodes ≡ all_nodes match_regexp retained p positive nodes
  unfolding every_node all_nodes
  every_node-all_nodes p positive [] = refl
  every_node-all_nodes p positive (n ∷ nodes) =
      rw (compare_node-compare_text p n, every_node-all_nodes p positive nodes) refl

  any_node-some_node :
      (p : TextPredicate Regex) (positive : Bool) (nodes : List Node)
      → any_node match_regexp p positive nodes ≡ some_node match_regexp retained p positive nodes
  unfolding any_node some_node
  any_node-some_node p positive [] = refl
  any_node-some_node p positive (n ∷ nodes) =
      rw (compare_node-compare_text p n, any_node-some_node p positive nodes) refl

  evaluate_text_predicate-evaluate :
      (p : TextPredicate Regex) (nodes other : List Node)
      → evaluate_text_predicate match_regexp p nodes other
        ≡ evaluate match_regexp retained p nodes other
  unfolding evaluate_text_predicate evaluate evaluate_pairs
  evaluate_text_predicate-evaluate p nodes other =
      let (positive, match_all) = predicate_semantics p.op in
      rw
        (
          node_pairs-evaluate_pairs positive match_all nodes other (length nodes == length other),
          every_node-all_nodes p positive nodes,
          any_node-some_node p positive nodes,
        )
        refl

  module _ (capture_name : ℕ → Bytes) where
    gathered-nodes :
        (p : TextPredicate Regex) (captures : List QueryCapture)
        → (gathered match_regexp capture_name p captures).0
          ≡ captured capture_name p.capture captures
    unfolding gathered captured
    gathered-nodes p [] = refl
    gathered-nodes p (c ∷ captures) = rw (gathered-nodes p captures) refl

    gathered-other :
        (p : TextPredicate Regex) (captures : List QueryCapture)
        → (gathered match_regexp capture_name p captures).1
          ≡ other_captured capture_name p.other_capture captures
    unfolding gathered other_captured captured
    gathered-other p [] = elim (Bool-cases (length p.other_capture == 0)) [
      | inl e ↦ rw e refl
      | inr e ↦ rw e refl
    ]
    gathered-other p (c ∷ captures) = elim (Bool-cases (length p.other_capture == 0)) [
      | inl e ↦ rw (e, gathered-other p captures, e) refl
      | inr e ↦ rw (e, gathered-other p captures, e) refl
    ]

    pub satisfies-satisfies_all :
        (predicates : List (TextPredicate Regex)) (captures : List QueryCapture)
        → satisfies match_regexp capture_name predicates captures
          ≡ satisfies_all match_regexp retained capture_name predicates captures
    unfolding satisfies satisfies_all
    satisfies-satisfies_all [] captures = refl
    satisfies-satisfies_all (p ∷ predicates) captures =
        rw
          (
            gathered-nodes p captures,
            gathered-other p captures,
            evaluate_text_predicate-evaluate p (captured capture_name p.capture captures)
                (other_captured capture_name p.other_capture captures),
            satisfies-satisfies_all predicates captures,
          )
          refl
