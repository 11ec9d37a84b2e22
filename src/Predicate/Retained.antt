-- ===== src/Predicate/Retained.antt =====
-- query.go: whether a match satisfies its text predicates, on the texts that the tree retains
-- (`evaluateTextPredicate`, `satisfies`), and `satisfiesWithText`, which chooses between these and
-- the buffer. `match_regexp` is `MatchString` of a `Regex`.
use wasitter.Node.{Node}
use wasitter.Predicate.Evaluate.{QueryCapture, bool_eq, satisfies_with_text_buffer}
use wasitter.Predicate.Extract.{TextPredicate}
use wasitter.Predicate.Steps.{predicate_semantics}
use wasitter.Prelude.{
  ℕ, Bool, true, false, not, ◌&&◌, none, some, List, [], ◌∷◌, ◌==◌, if◌then◌else◌, Bytes, bytes_eq,
  length, codes, contains,
}

-- The loop of the closure `compare` over the values.
unfoldable pub node_is_value : List Bytes → Node → Bool
node_is_value [] n = false
node_is_value (v ∷ values) n = if bytes_eq n.text v then true else node_is_value values n

module _ {Regex : Type 0} (match_regexp : Regex → Bytes → Bool) where
  -- The closure `compare` on a node.
  unfoldable pub compare_node : TextPredicate Regex → Node → Bool
  unfolding contains node_is_value
  compare_node p n =
      if contains (codes "any-of?") p.op
      then node_is_value p.values n
      else elim p.regex [ some re ↦ match_regexp re n.text | none ↦ bytes_eq n.text p.value ]

  -- The loop over `paired` captures, with the return behind it; `equal` is whether there are as many
  -- of each.
  unfoldable pub node_pairs : Bool → Bool → Bool → List Node → List Node → Bool
  unfolding bytes_eq
  node_pairs positive match_all equal (n ∷ nodes) (o ∷ other) =
      let condition = bool_eq (bytes_eq n.text o.text) positive in
      let rest = node_pairs positive match_all equal nodes other in
      if not match_all && condition
      then true
      else if match_all && not condition
      then false
      else rest
  node_pairs positive match_all equal _ _ = equal

  unfoldable pub every_node : TextPredicate Regex → Bool → List Node → Bool
  unfolding compare_node
  every_node p positive [] = true
  every_node p positive (n ∷ nodes) =
      let rest = every_node p positive nodes in
      if not (bool_eq (compare_node p n) positive) then false else rest

  -- The last loop, and the return behind it.
  unfoldable pub any_node : TextPredicate Regex → Bool → List Node → Bool
  unfolding compare_node
  any_node p positive [] = true
  any_node p positive (n ∷ nodes) =
      let rest = any_node p positive nodes in
      if bool_eq (compare_node p n) positive then true else rest

  unfoldable pub evaluate_text_predicate : TextPredicate Regex → List Node → List Node → Bool
  unfolding node_pairs every_node any_node
  evaluate_text_predicate p nodes other =
      let (positive, match_all) = predicate_semantics p.op in
      if not (length p.other_capture == 0)
      then node_pairs positive match_all (length nodes == length other) nodes other
      else if length nodes == 0
      then true
      else if match_all
      then every_node p positive nodes
      else any_node p positive nodes

  module _ (capture_name : ℕ → Bytes) where
    -- The loop over the captures of a match: the nodes of the one name and of the other.
    unfoldable pub gathered : TextPredicate Regex → List QueryCapture → List Node × List Node
    unfolding bytes_eq
    gathered p [] = ([], [])
    gathered p (c ∷ captures) =
        let name = capture_name c.index in
        let (nodes, other) = gathered p captures in
        (
          if bytes_eq name p.capture then c.node ∷ nodes else nodes,
          if not (length p.other_capture == 0) && bytes_eq name p.other_capture
              then c.node ∷ other
              else other,
        )

    unfoldable pub satisfies : List (TextPredicate Regex) → List QueryCapture → Bool
    unfolding evaluate_text_predicate gathered
    satisfies [] captures = true
    satisfies (p ∷ predicates) captures =
        let (nodes, other) = gathered p captures in
        let rest = satisfies predicates captures in
        if not (evaluate_text_predicate p nodes other) then false else rest

    unfoldable pub satisfies_with_text :
        List (TextPredicate Regex) → List QueryCapture → Bytes → Bool
    unfolding satisfies satisfies_with_text_buffer
    satisfies_with_text predicates captures text =
        if length text == 0
        then satisfies predicates captures
        else satisfies_with_text_buffer match_regexp capture_name predicates captures text
