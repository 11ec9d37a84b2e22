-- ===== src/Fallback/Validate.antt =====
-- query.go: `validateFallbackPredicate`, the check of one predicate's arguments. An error is what the
-- Go code formats into its message; `compiles` says whether `regexp.Compile` succeeds.
use wasitter.Fallback.Tokens.{Token}
use wasitter.Predicate.Evaluate.{contains_text}
use wasitter.Predicate.Steps.{
  is_eq_operator, is_match_operator, is_any_of_operator, is_property_operator,
}
use wasitter.Predicate.Validate.{
  Fault, eq_arguments, eq_first, eq_second, match_arguments, match_first, match_second,
  invalid_regex, any_of_arguments, any_of_first, any_of_literal, property_arguments, second_capture,
  third_argument, property_invalid, missing_key,
}
use wasitter.Prelude.{
  ℕ, Bool, true, false, not, ◌&&◌, ◌||◌, Option, none, some, List, [], ◌∷◌, ltb, ◌==◌,
  if◌then◌else◌, Bytes, length,
}

-- A capture that the query does not declare, with its name's place, or a fault of the arguments.
pub data TokenFault : Type 0 where
  undeclared : Bytes → ℕ → TokenFault
  bad_arguments : Fault → TokenFault

unfoldable pub fallback_predicate_token_description : Token → Bytes
fallback_predicate_token_description t = if t.captured then b'@' ∷ t.text else t.text

unfoldable pub fallback_eq : List Token → Option Fault
unfolding fallback_predicate_token_description
fallback_eq (a ∷ b ∷ []) =
    if not a.captured
    then some (eq_first (fallback_predicate_token_description a))
    else if not b.captured && not b.quoted
    then some (eq_second (fallback_predicate_token_description b))
    else none
fallback_eq tokens = some (eq_arguments (length tokens))

unfoldable pub fallback_match : (Bytes → Bool) → List Token → Option Fault
unfolding fallback_predicate_token_description
fallback_match compiles (a ∷ b ∷ []) =
    if not a.captured
    then some (match_first (fallback_predicate_token_description a))
    else if not b.quoted
    then some (match_second (fallback_predicate_token_description b))
    else if not (compiles b.text)
    then some (invalid_regex b.text)
    else none
fallback_match compiles tokens = some (match_arguments (length tokens))

unfoldable pub fallback_literals : List Token → Option Fault
unfolding fallback_predicate_token_description
fallback_literals [] = none
fallback_literals (t ∷ tokens) =
    if not t.quoted
    then some (any_of_literal (fallback_predicate_token_description t))
    else fallback_literals tokens

unfoldable pub fallback_any_of : List Token → Option Fault
unfolding fallback_literals
fallback_any_of [] = some (any_of_arguments 0)
fallback_any_of (a ∷ tokens) =
    if not a.captured
    then some (any_of_first (fallback_predicate_token_description a))
    else fallback_literals tokens

-- The loop over the arguments of a property; the flags are `captureSeen`, `keySeen`, `valueSeen`.
unfoldable pub fallback_property_loop : Bytes → Bool → Bool → Bool → List Token → Option Fault
fallback_property_loop op captured keyed valued [] =
    if not keyed then some (missing_key op) else none
fallback_property_loop op captured keyed valued (t ∷ tokens) =
    let behind_capture = fallback_property_loop op true keyed valued tokens in
    let behind_key = fallback_property_loop op captured true valued tokens in
    let behind_value = fallback_property_loop op captured keyed true tokens in
    if t.captured
    then (if captured then some (second_capture op t.text) else behind_capture)
    else if not t.quoted
    then some (property_invalid op)
    else if not keyed
    then behind_key
    else if not valued
    then behind_value
    else some (third_argument op t.text)

unfoldable pub fallback_property : Bytes → List Token → Option Fault
unfolding fallback_property_loop
fallback_property op tokens =
    if length tokens == 0 || ltb 3 (length tokens)
    then some (property_arguments op (length tokens))
    else fallback_property_loop op false false false tokens

unfoldable pub fallback_operator : (Bytes → Bool) → Bytes → List Token → Option Fault
unfolding fallback_eq fallback_match fallback_any_of fallback_property
fallback_operator compiles op tokens =
    if is_eq_operator op
    then fallback_eq tokens
    else if is_match_operator op
    then fallback_match compiles tokens
    else if is_any_of_operator op
    then fallback_any_of tokens
    else if is_property_operator op
    then fallback_property op tokens
    else none

-- The first capture that is not declared.
unfoldable pub undeclared_token : List Bytes → List Token → Option Token
unfolding contains_text
undeclared_token declared [] = none
undeclared_token declared (t ∷ tokens) =
    if t.captured && not (contains_text declared t.text)
    then some t
    else undeclared_token declared tokens

abbrev pub to_token_fault : Option Fault → Option TokenFault
to_token_fault none = none
to_token_fault (some f) = some (bad_arguments f)

unfoldable pub validate_fallback_predicate :
    (Bytes → Bool) → List Bytes → Bytes → List Token → Option TokenFault
unfolding undeclared_token fallback_operator
validate_fallback_predicate compiles declared op tokens = elim (undeclared_token declared tokens) [
  | some t ↦ some (undeclared t.text t.offset)
  | none ↦ to_token_fault (fallback_operator compiles op tokens)
]
