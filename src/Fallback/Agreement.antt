-- ===== src/Fallback/Agreement.antt =====
-- query.go: `validateFallbackPredicate`, which checks a predicate in a query's text, beside
-- `validateNativePredicates`, which checks the steps that the guest makes of it.
use wasitter.Fallback.Tokens.{Token}
use wasitter.Fallback.Validate.{
  fallback_eq, fallback_match, fallback_literals, fallback_any_of, fallback_property_loop,
  fallback_property, fallback_operator, undeclared_token, validate_fallback_predicate,
}
use wasitter.Predicate.Agreement.{is_none}
use wasitter.Predicate.Evaluate.{contains_text}
use wasitter.Predicate.Steps.{Step, capture, string}
use wasitter.Predicate.Validate.{
  validate_eq, validate_match, literal_loop, validate_any_of, property_loop,
  property_validation_message, validate_property, validate_operator,
}
use wasitter.Prelude.{
  ℕ, suc, Bool, true, false, not, ◌||◌, ◌≡◌, refl, ap, arith, none, List, [], ◌∷◌, if◌then◌else◌,
  Bytes, length, All,
}

module _ (string_value capture_name : ℕ → Bytes) (compiles : Bytes → Bool) where
  -- A token and the step that the guest makes of it.
  abbrev pub Denotes : Token → Step → Type 0
  Denotes t s =
      (t.quoted ≡ not t.captured)
      × (s.type ≡ (if t.captured then capture else string))
      × ((if t.captured then capture_name s.value_id else string_value s.value_id) ≡ t.text)

  pub data AllDenote : List Token → List Step → Type 0 where
    all_nil : AllDenote [] []
    all_cons :
        {t : Token} {s : Step} {tokens : List Token} {steps : List Step}
        → Denotes t s
        → AllDenote tokens steps
        → AllDenote (t ∷ tokens) (s ∷ steps)

  length-AllDenote :
      {tokens : List Token} {steps : List Step}
      → AllDenote tokens steps
      → length tokens ≡ length steps
  length-AllDenote all_nil = refl
  length-AllDenote (all_cons d h) = ap suc (length-AllDenote h)

  fallback_literals-literal_loop :
      {tokens : List Token} {steps : List Step}
      → AllDenote tokens steps
      → is_none (fallback_literals tokens)
        ≡ is_none (literal_loop string_value capture_name compiles steps)
  unfolding fallback_literals literal_loop
  fallback_literals-literal_loop all_nil = refl
  fallback_literals-literal_loop (all_cons d h) = ground (arith, fallback_literals-literal_loop h)

  fallback_property_loop-property_loop :
      (op : Bytes) (captured keyed valued : Bool) {tokens : List Token} {steps : List Step}
      → AllDenote tokens steps
      → is_none (fallback_property_loop op captured keyed valued tokens)
        ≡ is_none (property_loop string_value capture_name op captured keyed valued steps)
  unfolding fallback_property_loop property_loop
  fallback_property_loop-property_loop op captured keyed valued all_nil = ground arith
  fallback_property_loop-property_loop op captured keyed valued (all_cons d h) = ground (
    arith,
    fallback_property_loop-property_loop op true keyed valued h,
    fallback_property_loop-property_loop op captured true valued h,
    fallback_property_loop-property_loop op captured keyed true h,
  )

  fallback_property-validate_property :
      (op : Bytes) {tokens : List Token} {steps : List Step}
      → AllDenote tokens steps
      → is_none (fallback_property op tokens)
        ≡ is_none (validate_property string_value capture_name compiles op steps)
  unfolding fallback_property validate_property property_validation_message
  fallback_property-validate_property op h =
      ground
        (arith, length-AllDenote h, fallback_property_loop-property_loop op false false false h)

  fallback_any_of-validate_any_of :
      {tokens : List Token} {steps : List Step}
      → AllDenote tokens steps
      → is_none (fallback_any_of tokens)
        ≡ is_none (validate_any_of string_value capture_name compiles steps)
  unfolding fallback_any_of validate_any_of
  fallback_any_of-validate_any_of all_nil = refl
  fallback_any_of-validate_any_of (all_cons d h) = ground (arith, fallback_literals-literal_loop h)

  fallback_eq-validate_eq :
      {tokens : List Token} {steps : List Step}
      → AllDenote tokens steps
      → is_none (fallback_eq tokens)
        ≡ is_none (validate_eq string_value capture_name compiles steps)
  unfolding fallback_eq validate_eq
  fallback_eq-validate_eq all_nil = refl
  fallback_eq-validate_eq (all_cons d all_nil) = refl
  fallback_eq-validate_eq (all_cons d (all_cons e all_nil)) = ground arith
  fallback_eq-validate_eq (all_cons d (all_cons e (all_cons f h))) = refl

  fallback_match-validate_match :
      {tokens : List Token} {steps : List Step}
      → AllDenote tokens steps
      → is_none (fallback_match compiles tokens)
        ≡ is_none (validate_match string_value capture_name compiles steps)
  unfolding fallback_match validate_match
  fallback_match-validate_match all_nil = refl
  fallback_match-validate_match (all_cons d all_nil) = refl
  fallback_match-validate_match (all_cons d (all_cons e all_nil)) = ground arith
  fallback_match-validate_match (all_cons d (all_cons e (all_cons f h))) = refl

  -- The captures of the tokens are declared.
  abbrev pub AllDeclared : List Bytes → List Token → Type 0
  AllDeclared declared =
      All (λ (t : Token). (not t.captured || contains_text declared t.text) ≡ true)

  undeclared_token-AllDeclared :
      (declared : List Bytes) (tokens : List Token)
      → AllDeclared declared tokens
      → undeclared_token declared tokens ≡ none
  unfolding undeclared_token
  undeclared_token-AllDeclared declared [] h = refl
  undeclared_token-AllDeclared declared (t ∷ tokens) h =
      ground (arith, undeclared_token-AllDeclared declared tokens h.1)

  -- A predicate whose captures are declared is accepted in the text exactly if its steps are: for each
  -- operator, whatever patterns regexp.Compile accepts.
  pub validate_fallback_predicate-validate_operator :
      (declared : List Bytes) (op : Bytes) (tokens : List Token) (steps : List Step)
      → AllDenote tokens steps
      → AllDeclared declared tokens
      → is_none (validate_fallback_predicate compiles declared op tokens)
        ≡ is_none (validate_operator string_value capture_name compiles op steps)
  unfolding validate_fallback_predicate validate_operator fallback_operator
  validate_fallback_predicate-validate_operator declared op tokens steps h known = ground (
    arith,
    undeclared_token-AllDeclared declared tokens known,
    fallback_eq-validate_eq h,
    fallback_match-validate_match h,
    fallback_any_of-validate_any_of h,
    fallback_property-validate_property op h,
  )
