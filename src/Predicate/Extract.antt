-- ===== src/Predicate/Extract.antt =====
-- query.go: the predicates that the host evaluates (`textPredicatesFromSteps`) and those that it
-- shows to callers (`publicPredicatesFromSteps`, `publicPropertyFromSteps`). `Regex` is
-- `*regexp.Regexp`, and `compile` is `regexp.Compile`, `none` standing for its error.
use wasitter.Predicate.Steps.{
  Step, StepType, capture, string, is_capture, is_string, is_eq_operator, is_match_operator,
  is_any_of_operator, predicate_semantics,
}
use wasitter.Prelude.{
  ℕ, Bool, true, false, not, ◌&&◌, ◌||◌, Option, none, some, List, [], ◌∷◌, ◌++◌, map, ltb, ◌==◌,
  if◌then◌else◌, Bytes, length,
}

pub record QueryProperty : Type 0 where
  pub key : Bytes
  pub value : Option Bytes
  pub capture_id : Option ℕ

pub record PropertyPredicate : Type 0 where
  pub property : QueryProperty
  pub positive : Bool

-- One of the two fields of `QueryPredicateArg` is set.
pub data QueryPredicateArg : Type 0 where
  capture_arg : ℕ → QueryPredicateArg
  string_arg : Bytes → QueryPredicateArg

pub record QueryPredicate : Type 0 where
  pub operator : Bytes
  pub args : List QueryPredicateArg

-- `Type` and `Value` of `TextPredicateCapture` together.
pub data TextValue (Regex : Type 0) : Type 0 where
  eq_capture : ℕ → TextValue Regex
  eq_string : Bytes → TextValue Regex
  match_string : Regex → TextValue Regex
  any_string : List Bytes → TextValue Regex

pub record TextPredicateCapture (Regex : Type 0) : Type 0 where
  pub value : TextValue Regex
  pub capture_id : ℕ
  pub positive : Bool
  pub match_all_nodes : Bool

-- An empty `other_capture` means that there is none.
pub record TextPredicate (Regex : Type 0) : Type 0 where
  pub op : Bytes
  pub capture : Bytes
  pub other_capture : Bytes
  pub value : Bytes
  pub values : List Bytes
  pub regex : Option Regex

module _ (string_value : ℕ → Bytes) where
  abbrev pub all_strings : List Step → Bool
  all_strings [] = true
  all_strings (s ∷ steps) = is_string s.type && all_strings steps

  -- The values of `any-of?`; a step that is no string empties them.
  unfoldable pub any_of_values : List Step → List Bytes
  any_of_values steps =
      if all_strings steps then map (λ (s : Step). string_value s.value_id) steps else []

  -- The loop of `publicPropertyFromSteps`, from a property and `keySet`.
  unfoldable pub property_from : QueryProperty → Bool → List Step → Option (QueryProperty × Bool)
  property_from p keyed [] = some (p, keyed)
  property_from p keyed (s ∷ steps) = elim s.type [
    | capture ↦ elim p.capture_id [
      | some _ ↦ none
      | none ↦ property_from (record p { capture_id = some s.value_id }) keyed steps
    ]
    | string ↦
        if not keyed
        then property_from (record p { key = string_value s.value_id }) true steps
        else elim p.value [
          | none ↦ property_from (record p { value = some (string_value s.value_id) }) keyed steps
          | some _ ↦ none
        ]
    | _ ↦ none
  ]

  abbrev no_property : QueryProperty
  no_property = record { key = []; value = none; capture_id = none }

  -- `none` where the Go function returns false.
  unfoldable pub public_property_from_steps : List Step → Option QueryProperty
  unfolding property_from
  public_property_from_steps steps =
      if length steps == 0 || ltb 3 (length steps)
      then none
      else elim (property_from no_property false steps) [
        | none ↦ none
        | some (p, keyed) ↦ if keyed then some p else none
      ]

  unfoldable pub predicate_arg : StepType → ℕ → List QueryPredicateArg
  predicate_arg capture id = capture_arg id ∷ []
  predicate_arg string id = string_arg (string_value id) ∷ []
  predicate_arg _ id = []

  unfoldable pub predicate_args : List Step → List QueryPredicateArg
  unfolding predicate_arg
  predicate_args [] = []
  predicate_args (s ∷ steps) = predicate_arg s.type s.value_id ++ predicate_args steps

  module _ {Regex : Type 0} (compile : Bytes → Option Regex) where
    unfoldable pub public_eq_value : List Step → Option (TextValue Regex)
    public_eq_value (b ∷ []) =
        if is_capture b.type
        then some (eq_capture b.value_id)
        else if is_string b.type
        then some (eq_string (string_value b.value_id))
        else none
    public_eq_value _ = none

    unfoldable pub public_match_value : List Step → Option (TextValue Regex)
    public_match_value (b ∷ []) =
        if is_string b.type
        then elim (compile (string_value b.value_id)) [
          | none ↦ none
          | some re ↦ some (match_string re)
        ]
        else none
    public_match_value _ = none

    -- The value of a text predicate from the steps behind its capture. Where there are too few
    -- of them for `minPartLen`, there is none either.
    unfoldable pub public_text_value : Bytes → List Step → Option (TextValue Regex)
    unfolding public_eq_value public_match_value any_of_values
    public_text_value op rest =
        if is_eq_operator op
        then public_eq_value rest
        else if is_match_operator op
        then public_match_value rest
        else some (any_string (any_of_values rest))

    unfoldable pub public_text : Bytes → List Step → Option (TextPredicateCapture Regex)
    unfolding public_text_value
    public_text op [] = none
    public_text op (a ∷ rest) =
        if not (is_capture a.type) then none else elim (public_text_value op rest) [
          | none ↦ none
          | some v ↦ some (record {
            value = v;
            capture_id = a.value_id;
            positive = (predicate_semantics op).0;
            match_all_nodes = (predicate_semantics op).1;
          })
        ]

    -- The other capture, or the value, of an `eq?` predicate.
    unfoldable pub text_eq :
        (ℕ → Bytes) → TextPredicate Regex → List Step → Option (TextPredicate Regex)
    text_eq capture_name p (b ∷ []) =
        if is_capture b.type
        then some (record p { other_capture = capture_name b.value_id })
        else if is_string b.type
        then some (record p { value = string_value b.value_id })
        else none
    text_eq capture_name p _ = none

    unfoldable pub text_match : TextPredicate Regex → List Step → Option (TextPredicate Regex)
    text_match p (b ∷ []) =
        if is_string b.type
        then elim (compile (string_value b.value_id)) [
          | none ↦ none
          | some re ↦ some (record p { value = string_value b.value_id; regex = some re })
        ]
        else none
    text_match p _ = none

    unfoldable pub text_predicate_of_part : (ℕ → Bytes) → List Step → Option (TextPredicate Regex)
    unfolding text_eq text_match any_of_values
    text_predicate_of_part capture_name (s ∷ a ∷ rest) =
        let op = string_value s.value_id in
        let p : TextPredicate Regex = record {
          op = op;
          capture = capture_name a.value_id;
          other_capture = [];
          value = [];
          values = [];
          regex = none;
        } in
        if not (is_string s.type) || length op == 0 || not (is_capture a.type)
        then none
        else if is_eq_operator op
        then text_eq capture_name p rest
        else if is_match_operator op
        then text_match p rest
        else if is_any_of_operator op
        then some (record p { values = any_of_values rest })
        else none
    text_predicate_of_part capture_name _ = none
