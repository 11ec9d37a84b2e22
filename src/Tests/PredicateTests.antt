-- ===== src/Tests/PredicateTests.antt =====
-- Runs of the predicates of queries: their validation and the lists of them.
use wasitter.Predicate.Agreement.{
  public_property_from_steps-property_validation_message, is_some, is_none,
}
use wasitter.Predicate.Collect.{public_predicates_from_steps, text_predicates_from_steps}
use wasitter.Predicate.Complete.{public_predicates_from_steps_total, total, live_parts}
use wasitter.Predicate.Extract.{public_property_from_steps}
use wasitter.Predicate.Steps.{
  Step, done, capture, string, parts, is_eq_operator, is_match_operator, is_any_of_operator,
  is_property_operator,
}
use wasitter.Predicate.Validate.{
  validate_parts, validate_part, property_validation_message, eq_first,
}
use wasitter.Prelude.{
  ℕ, true, Option, none, some, List, [], ◌∷◌, ◌≡◌, refl, codes, Bytes, get_elem?, length,
}

abbrev word : Option Bytes → Bytes
word none = []
word (some w) = w

-- The string table of a query.
abbrev strings : ℕ → Bytes
strings id = word (
    get_elem?
      (codes "eq?"
        ∷ codes "match?"
        ∷ codes "any-of?"
        ∷ codes "set!"
        ∷ codes "custom"
        ∷ codes "x"
        ∷ codes "y"
        ∷ [])
      id)

abbrev names : ℕ → Bytes
names id = word (get_elem? (codes "a" ∷ codes "b" ∷ []) id)

-- A pattern stands for itself, and matches a text that contains it.
abbrev compile_literal : Bytes → Option Bytes
compile_literal = some

abbrev str : ℕ → Step
str id = record { type = string; value_id = id }

abbrev cap : ℕ → Step
cap id = record { type = capture; value_id = id }

abbrev end : Step
end = record { type = done; value_id = 0 }

-- (#eq? @a @b) (#match? @a "x") (#any-of? @b "x" "y") (#set! x y) (#custom @a)
abbrev steps : List Step
steps =
    str 0
    ∷ cap 0
    ∷ cap 1
    ∷ end
    ∷ str 1
    ∷ cap 0
    ∷ str 5
    ∷ end
    ∷ str 2
    ∷ cap 1
    ∷ str 5
    ∷ str 6
    ∷ end
    ∷ str 3
    ∷ str 5
    ∷ str 6
    ∷ end
    ∷ str 4
    ∷ cap 0
    ∷ end
    ∷ []

valid_steps : validate_parts strings names (λ (b : Bytes). true) (parts steps) ≡ none
unfolding validate_parts parts validate_part is_eq_operator is_match_operator is_any_of_operator
    is_property_operator
valid_steps = refl

swapped_steps :
    validate_parts strings names (λ (b : Bytes). true) (parts (str 0 ∷ str 5 ∷ cap 0 ∷ end ∷ []))
    ≡ some (eq_first (codes "x"))
unfolding validate_parts parts validate_part is_eq_operator
swapped_steps = refl

public_property_from_steps-property_validation_message_example :
    is_some (public_property_from_steps strings (str 5 ∷ str 6 ∷ []))
    ≡ is_none (property_validation_message strings names (codes "set!") (str 5 ∷ str 6 ∷ []))
public_property_from_steps-property_validation_message_example =
    public_property_from_steps-property_validation_message strings names (codes "set!")
      (str 5 ∷ str 6 ∷ [])

public_predicates_from_steps_total_example :
    (total (public_predicates_from_steps strings compile_literal steps)
      ≡ live_parts strings (parts steps))
    × (length (text_predicates_from_steps strings compile_literal names steps)
        ≡ length (public_predicates_from_steps strings compile_literal steps).texts)
public_predicates_from_steps_total_example =
    public_predicates_from_steps_total strings names compile_literal steps valid_steps
