-- ===== src/Predicate/Evaluate.antt =====
-- query.go: whether a match satisfies its text predicates, where a buffer has the texts of nodes
-- (`evaluateTextPredicateBytes`, `satisfiesWithTextBuffer`). `text_of` is `nodeTextBytes` with the
-- buffer, and `match_regexp` is `MatchString` of a `Regex`.
use wasitter.Node.{Node, node_text_bytes}
use wasitter.Predicate.Extract.{TextPredicate}
use wasitter.Predicate.Steps.{predicate_semantics}
use wasitter.Prelude.{
  ℕ, Bool, true, false, not, ◌&&◌, ◌||◌, Option, none, some, List, [], ◌∷◌, ◌==◌, if◌then◌else◌,
  Bytes, bytes_eq, length, codes, contains,
}

-- `==` on Booleans.
abbrev pub bool_eq : Bool → Bool → Bool
bool_eq true b = b
bool_eq false b = not b

pub record QueryCapture : Type 0 where
  pub node : Node
  pub index : ℕ

unfoldable pub contains_text : List Bytes → Bytes → Bool
contains_text [] value = false
contains_text (v ∷ values) value = bytes_eq value v || contains_text values value

-- The nodes that are captured under a name.
unfoldable pub captured : (ℕ → Bytes) → Bytes → List QueryCapture → List Node
captured capture_name name [] = []
captured capture_name name (c ∷ captures) =
    let rest = captured capture_name name captures in
    if bytes_eq (capture_name c.index) name then c.node ∷ rest else rest

unfoldable pub other_captured : (ℕ → Bytes) → Bytes → List QueryCapture → List Node
unfolding captured
other_captured capture_name name captures =
    if length name == 0 then [] else captured capture_name name captures

module _ {Regex : Type 0} (match_regexp : Regex → Bytes → Bool) where
  -- The closure `compare` on a node's text.
  unfoldable pub compare_text : TextPredicate Regex → Bytes → Bool
  unfolding contains contains_text
  compare_text p value =
      if contains (codes "any-of?") p.op
      then contains_text p.values value
      else elim p.regex [ some re ↦ match_regexp re value | none ↦ bytes_eq value p.value ]

  module _ (text_of : Node → Bytes) where
    -- The loop over corresponding captures; `none` where it ends without a return.
    unfoldable pub pair_loop : Bool → Bool → List Node → List Node → Option Bool
    pair_loop positive match_all (n ∷ nodes) (o ∷ other) =
        let condition = bool_eq (bytes_eq (text_of n) (text_of o)) positive in
        let rest = pair_loop positive match_all nodes other in
        if not match_all && condition
        then some true
        else if match_all && not condition
        then some false
        else rest
    pair_loop positive match_all _ _ = none

    unfoldable pub evaluate_pairs : Bool → Bool → List Node → List Node → Bool
    unfolding pair_loop
    evaluate_pairs positive match_all nodes other =
        elim (pair_loop positive match_all nodes other) [
          | some result ↦ result
          | none ↦ length nodes == length other
        ]

    unfoldable pub all_nodes : TextPredicate Regex → Bool → List Node → Bool
    all_nodes p positive [] = true
    all_nodes p positive (n ∷ nodes) =
        if not (bool_eq (compare_text p (text_of n)) positive)
        then false
        else all_nodes p positive nodes

    -- The last loop and the return behind it, which is true as well.
    unfoldable pub some_node : TextPredicate Regex → Bool → List Node → Bool
    some_node p positive [] = true
    some_node p positive (n ∷ nodes) =
        if bool_eq (compare_text p (text_of n)) positive then true else some_node p positive nodes

    unfoldable pub evaluate : TextPredicate Regex → List Node → List Node → Bool
    unfolding evaluate_pairs all_nodes some_node
    evaluate p nodes other =
        let semantics = predicate_semantics p.op in
        if not (length p.other_capture == 0)
        then evaluate_pairs semantics.0 semantics.1 nodes other
        else if length nodes == 0
        then true
        else if semantics.1
        then all_nodes p semantics.0 nodes
        else some_node p semantics.0 nodes

    unfoldable pub satisfies_all :
        (ℕ → Bytes) → List (TextPredicate Regex) → List QueryCapture → Bool
    satisfies_all capture_name [] captures = true
    satisfies_all capture_name (p ∷ predicates) captures =
        if not (
          evaluate p (captured capture_name p.capture captures)
            (other_captured capture_name p.other_capture captures))
        then false
        else satisfies_all capture_name predicates captures

  unfoldable pub evaluate_text_predicate_bytes :
      TextPredicate Regex → List Node → List Node → Bytes → Bool
  evaluate_text_predicate_bytes p nodes other text =
      evaluate (λ (n : Node). node_text_bytes n text) p nodes other

  unfoldable pub satisfies_with_text_buffer :
      (ℕ → Bytes) → List (TextPredicate Regex) → List QueryCapture → Bytes → Bool
  satisfies_with_text_buffer capture_name predicates captures text =
      satisfies_all (λ (n : Node). node_text_bytes n text) capture_name predicates captures

-- `predicatesForMatch`: a match's own predicates, if it has a list of them, or its pattern's.
unfoldable pub predicates_for_match :
    {Regex : Type 0}
    → (ℕ → List (TextPredicate Regex))
    → Option (List (TextPredicate Regex))
    → ℕ
    → List (TextPredicate Regex)
predicates_for_match for_pattern (some predicates) pattern_index = predicates
predicates_for_match for_pattern none pattern_index = for_pattern pattern_index
