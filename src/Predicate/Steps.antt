-- ===== src/Predicate/Steps.antt =====
-- query.go: the steps of query predicates, how a step list is cut into predicates, and the
-- operators of the built-in ones (`predicateSemantics` and the `switch` labels).
use wasitter.Prelude.{
  ℕ, Bool, true, false, not, ◌||◌, List, [], ◌∷◌, ◌++◌, if◌then◌else◌, Bytes, bytes_eq, codes,
  has_prefix, trim_prefix,
}

-- `QueryPredicateStepType`, a byte: `other` stands for the values above 2.
pub data StepType : Type 0 where
  done capture string : StepType
  other : ℕ → StepType

pub record Step : Type 0 where
  pub type : StepType
  pub value_id : ℕ

abbrev pub is_done : StepType → Bool
is_done done = true
is_done _ = false

abbrev pub is_capture : StepType → Bool
is_capture capture = true
is_capture _ = false

abbrev pub is_string : StepType → Bool
is_string string = true
is_string _ = false

-- The loop over `i <= len(steps)`: `part` is `steps[start:i]`.
unfoldable pub cut : List Step → List Step → List (List Step)
cut part [] = part ∷ []
cut part (s ∷ steps) =
    let next = cut [] steps in
    let grown = cut (part ++ s ∷ []) steps in if is_done s.type then part ∷ next else grown

unfoldable pub parts : List Step → List (List Step)
unfolding cut
parts = cut []

unfoldable pub is_eq_operator : Bytes → Bool
unfolding bytes_eq
is_eq_operator op =
    bytes_eq op (codes "eq?")
    || bytes_eq op (codes "not-eq?")
    || bytes_eq op (codes "any-eq?")
    || bytes_eq op (codes "any-not-eq?")

unfoldable pub is_match_operator : Bytes → Bool
unfolding bytes_eq
is_match_operator op =
    bytes_eq op (codes "match?")
    || bytes_eq op (codes "not-match?")
    || bytes_eq op (codes "any-match?")
    || bytes_eq op (codes "any-not-match?")

unfoldable pub is_any_of_operator : Bytes → Bool
unfolding bytes_eq
is_any_of_operator op = bytes_eq op (codes "any-of?") || bytes_eq op (codes "not-any-of?")

unfoldable pub is_property_operator : Bytes → Bool
unfolding bytes_eq
is_property_operator op =
    bytes_eq op (codes "set!") || bytes_eq op (codes "is?") || bytes_eq op (codes "is-not?")

unfoldable pub is_text_predicate_operator : Bytes → Bool
is_text_predicate_operator op = is_eq_operator op || is_match_operator op || is_any_of_operator op

-- `isFallbackValidatedPredicateOperator`
unfoldable pub is_fallback_validated_predicate_operator : Bytes → Bool
is_fallback_validated_predicate_operator op =
    is_text_predicate_operator op || is_property_operator op

-- Whether the relation is positive, and whether all nodes must satisfy it.
unfoldable pub predicate_semantics : Bytes → Bool × Bool
unfolding bytes_eq has_prefix trim_prefix
predicate_semantics op =
    let base = trim_prefix (codes "any-") op in
    (
      not (has_prefix (codes "not-") base),
      not (has_prefix (codes "any-") op)
          || has_prefix (codes "any-of?") op
          || bytes_eq op (codes "not-any-of?"),
    )
