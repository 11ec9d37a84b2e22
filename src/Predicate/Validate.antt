-- ===== src/Predicate/Validate.antt =====
-- query.go: `validateNativePredicates` with its helpers. An error is a `Fault`, which holds what
-- the Go code formats into the message. `string_value` and `capture_name` are the query's tables,
-- which the guest keeps; `compiles` says whether `regexp.Compile` succeeds.
use wasitter.Diagnostic.{source_position}
use wasitter.Predicate.Steps.{
  Step, StepType, capture, string, is_capture, is_string, parts, is_eq_operator, is_match_operator,
  is_any_of_operator, is_property_operator,
}
use wasitter.Prelude.{
  ℕ, suc, Bool, true, false, not, ◌&&◌, ◌||◌, Option, none, some, List, [], ◌∷◌, ◌++◌, ltb, ◌==◌,
  if◌then◌else◌, Bytes, length, codes,
}

pub data Fault : Type 0 where
  no_function_name : Bytes → Fault
  eq_arguments : ℕ → Fault
  eq_first eq_second : Bytes → Fault
  match_arguments : ℕ → Fault
  match_first match_second : Bytes → Fault
  invalid_regex : Bytes → Fault
  any_of_arguments : ℕ → Fault
  any_of_first any_of_literal : Bytes → Fault
  property_arguments : Bytes → ℕ → Fault
  second_capture third_argument : Bytes → Bytes → Fault
  property_invalid missing_key : Bytes → Fault

module _ (string_value capture_name : ℕ → Bytes) where
  unfoldable pub describe_type : StepType → ℕ → Bytes
  describe_type capture id = b'@' ∷ capture_name id
  describe_type string id = string_value id
  describe_type _ id = codes "<unknown>"

  unfoldable pub describe_predicate_step : Step → Bytes
  unfolding describe_type
  describe_predicate_step step = describe_type step.type step.value_id

  unfoldable pub predicate_literal : Step → Bytes
  unfolding describe_predicate_step
  predicate_literal step =
      if is_string step.type then string_value step.value_id else describe_predicate_step step

  -- The description of a step that is no literal, with its kind.
  unfoldable pub described_argument : Step → Bytes
  unfolding describe_predicate_step
  described_argument step =
      if is_capture step.type
      then codes "capture " ++ describe_predicate_step step
      else describe_predicate_step step

  -- The loop of `propertyValidationMessage`; the flags are `captureSeen`, `keySeen`, `valueSeen`.
  unfoldable pub property_loop : Bytes → Bool → Bool → Bool → List Step → Option Fault
  property_loop op captured keyed valued [] = if not keyed then some (missing_key op) else none
  property_loop op captured keyed valued (s ∷ steps) = elim s.type [
    | capture ↦
        if captured
        then some (second_capture op (capture_name s.value_id))
        else property_loop op true keyed valued steps
    | string ↦
        if not keyed
        then property_loop op captured true valued steps
        else if not valued
        then property_loop op captured keyed true steps
        else some (third_argument op (string_value s.value_id))
    | _ ↦ some (property_invalid op)
  ]

  unfoldable pub property_validation_message : Bytes → List Step → Option Fault
  unfolding property_loop
  property_validation_message op steps =
      if length steps == 0 || ltb 3 (length steps)
      then some (property_arguments op (length steps))
      else property_loop op false false false steps

  module _ (compiles : Bytes → Bool) where
    unfoldable pub validate_eq : List Step → Option Fault
    unfolding describe_predicate_step predicate_literal
    validate_eq (a ∷ b ∷ []) =
        if not (is_capture a.type)
        then some (eq_first (predicate_literal a))
        else if not (is_capture b.type) && not (is_string b.type)
        then some (eq_second (describe_predicate_step b))
        else none
    validate_eq args = some (eq_arguments (length args))

    unfoldable pub validate_match : List Step → Option Fault
    unfolding described_argument predicate_literal
    validate_match (a ∷ b ∷ []) =
        if not (is_capture a.type)
        then some (match_first (predicate_literal a))
        else if not (is_string b.type)
        then some (match_second (described_argument b))
        else if not (compiles (string_value b.value_id))
        then some (invalid_regex (string_value b.value_id))
        else none
    validate_match args = some (match_arguments (length args))

    unfoldable pub literal_loop : List Step → Option Fault
    unfolding described_argument
    literal_loop [] = none
    literal_loop (s ∷ steps) =
        if not (is_string s.type)
        then some (any_of_literal (described_argument s))
        else literal_loop steps

    unfoldable pub validate_any_of : List Step → Option Fault
    unfolding literal_loop predicate_literal
    validate_any_of [] = some (any_of_arguments 0)
    validate_any_of (a ∷ args) =
        if not (is_capture a.type)
        then some (any_of_first (predicate_literal a))
        else literal_loop args

    -- `len(part) < 2 || len(part) > 4` counts the operator too.
    unfoldable pub validate_property : Bytes → List Step → Option Fault
    unfolding property_validation_message
    validate_property op args =
        if ltb (length args) 1 || ltb 3 (length args)
        then some (property_arguments op (length args))
        else property_validation_message op args

    unfoldable pub validate_operator : Bytes → List Step → Option Fault
    unfolding validate_eq validate_match validate_any_of validate_property
    validate_operator op args =
        if is_eq_operator op
        then validate_eq args
        else if is_match_operator op
        then validate_match args
        else if is_any_of_operator op
        then validate_any_of args
        else if is_property_operator op
        then validate_property op args
        else none

    unfoldable pub validate_part : List Step → Option Fault
    unfolding validate_operator describe_predicate_step
    validate_part [] = none
    validate_part (s ∷ args) =
        if not (is_string s.type)
        then some (no_function_name (describe_predicate_step s))
        else validate_operator (string_value s.value_id) args

    unfoldable pub validate_parts : List (List Step) → Option Fault
    validate_parts [] = none
    validate_parts (p ∷ ps) = elim (validate_part p) [ some f ↦ some f | none ↦ validate_parts ps ]

-- What `PredicateSteps` gives for a pattern: its steps, an unsupported export, or another error.
pub data PatternSteps : Type 0 where
  steps_of : List Step → PatternSteps
  unsupported failed : PatternSteps

-- The `QueryError` of `predicateValidationError`; its column and offset are 0.
pub record PredicateError : Type 0 where
  pub fault : Fault
  pub row : ℕ

pub data Validation : Type 0 where
  valid : Validation
  invalid : PredicateError → Validation
  steps_error : Validation

module _ (string_value capture_name : ℕ → Bytes) (compiles : Bytes → Bool) (source : Bytes)
    (start_byte_for_pattern : ℕ → ℕ) where
  unfoldable pub predicate_validation_error : ℕ → Fault → PredicateError
  predicate_validation_error pattern fault = record {
    fault = fault;
    row = (source_position source (start_byte_for_pattern pattern)).0;
  }

  -- The loop over the patterns, from `pattern` on.
  unfoldable pub validate_native_predicates : ℕ → List PatternSteps → Validation
  unfolding predicate_validation_error
  validate_native_predicates pattern [] = valid
  validate_native_predicates pattern (unsupported ∷ rest) = valid
  validate_native_predicates pattern (failed ∷ rest) = steps_error
  validate_native_predicates pattern (steps_of steps ∷ rest) =
      elim (validate_parts string_value capture_name compiles (parts steps)) [
        | some f ↦ invalid (predicate_validation_error pattern f)
        | none ↦ validate_native_predicates (suc pattern) rest
      ]
