-- ===== src/Tests/FallbackTests.antt =====
-- Runs of the predicates in a query's text.
use wasitter.Fallback.Agreement.{all_nil, all_cons, validate_fallback_predicate-validate_operator}
use wasitter.Fallback.Kept.{written_predicates, count_written, is_test}
use wasitter.Fallback.Metadata.{capture_id_from, fallback_property_from_tokens}
use wasitter.Fallback.MetadataLaws.{
  stand_nil, stand_cons, fallback_property_from_tokens-public_property_from_steps,
}
use wasitter.Fallback.Scan.{
  refused, capture_fault, lexical, fault_place, scan_text_predicate_end,
  scan_fallback_predicate_groups, validate_fallback_predicates,
}
use wasitter.Fallback.ScanBounds.{IsDecided, validate_fallback_predicates-IsDecided}
use wasitter.Fallback.Tokens.{Token}
use wasitter.Fallback.Validate.{validate_fallback_predicate}
use wasitter.Predicate.Agreement.{is_none}
use wasitter.Predicate.Evaluate.{contains_text}
use wasitter.Predicate.Extract.{public_property_from_steps}
use wasitter.Predicate.Steps.{
  Step, capture, string, is_fallback_validated_predicate_operator, is_text_predicate_operator,
  is_eq_operator, is_match_operator, is_any_of_operator, is_property_operator,
}
use wasitter.Predicate.Validate.{validate_operator}
use wasitter.Prelude.{
  ℕ, Bool, true, false, ◌==◌, if◌then◌else◌, Option, none, some, ◌≡◌, refl, List, [], ◌∷◌, Bytes,
  bytes_eq, codes, length,
}

-- An `unquote` that takes the quotes off.
abbrev without_last : Bytes → Bytes
without_last [] = []
without_last (c ∷ []) = []
without_last (c ∷ d ∷ cs) = c ∷ without_last (d ∷ cs)

abbrev strip : Bytes → Option Bytes
strip [] = none
strip (c ∷ cs) = some (without_last cs)

abbrev any : Bytes → Bool
any b = true

abbrev names : List Bytes
names = codes "x" ∷ []

abbrev source : Bytes
source = codes "(a) @x (#set! \"k\" v) ; )\n(#is? @x l) (#eq? @x z) (#foo! z @x)"

unknown_capture :
    validate_fallback_predicates strip any (codes "(#is? @x @yy)") names
    ≡ refused (capture_fault (codes "yy") 10)
unfolding validate_fallback_predicates is_fallback_validated_predicate_operator
    is_text_predicate_operator is_eq_operator is_match_operator is_any_of_operator
    is_property_operator
unknown_capture = refl

-- An error of a capture has its offset, one of the arguments only the row.
capture_place :
    fault_place (codes "a\n(#is? @yy)") (capture_fault (codes "yy") 9)
    ≡ record { row = 1; column = 7; offset = 9 }
unfolding fault_place
capture_place = refl

arguments_place :
    fault_place (codes "a\n(#is? ?)") (lexical (codes "is?") 3)
    ≡ record { row = 1; column = 0; offset = 0 }
unfolding fault_place
arguments_place = refl

four_groups : length (scan_fallback_predicate_groups strip source) ≡ 4
unfolding scan_fallback_predicate_groups
four_groups = refl

validate_fallback_predicates-IsDecided_example :
    IsDecided (length source) (validate_fallback_predicates strip any source names)
validate_fallback_predicates-IsDecided_example =
    validate_fallback_predicates-IsDecided strip any source names

written : count_written is_test (written_predicates source) ≡ 1
unfolding written_predicates bytes_eq scan_text_predicate_end
written = refl

abbrev x_token : Token
x_token = record { text = codes "x"; captured = true; quoted = false; offset = 0 }

abbrev k_token : Token
k_token = record { text = codes "k"; captured = false; quoted = true; offset = 3 }

abbrev key_and_value : List Token
key_and_value = x_token ∷ k_token ∷ []

abbrev x_step : Step
x_step = record { type = capture; value_id = 0 }

abbrev k_step : Step
k_step = record { type = string; value_id = 5 }

abbrev steps : List Step
steps = x_step ∷ k_step ∷ []

abbrev string_value : ℕ → Bytes
string_value n = if n == 5 then codes "k" else []

abbrev capture_name : ℕ → Bytes
capture_name n = codes "x"

validate_fallback_predicate-validate_operator_example :
    is_none (validate_fallback_predicate any names (codes "match?") key_and_value)
    ≡ is_none (validate_operator string_value capture_name any (codes "match?") steps)
unfolding contains_text bytes_eq
validate_fallback_predicate-validate_operator_example =
    validate_fallback_predicate-validate_operator string_value capture_name any names
      (codes "match?") key_and_value steps
      (all_cons {t = x_token} {s = x_step} (refl, refl, refl)
        (all_cons {t = k_token} {s = k_step} (refl, refl, refl) all_nil))
      (refl, (refl, tt))

fallback_property_from_tokens-public_property_from_steps_example :
    fallback_property_from_tokens (capture_id_from 0 names) key_and_value
    ≡ public_property_from_steps string_value steps
unfolding capture_id_from
fallback_property_from_tokens-public_property_from_steps_example =
    fallback_property_from_tokens-public_property_from_steps (capture_id_from 0 names) string_value
      key_and_value steps
      (stand_cons {t = x_token} {s = x_step} (refl, refl, refl, refl)
        (stand_cons {t = k_token} {s = k_step} (refl, refl, refl, refl) stand_nil))
