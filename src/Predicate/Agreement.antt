-- ===== src/Predicate/Agreement.antt =====
-- query.go: what `validateNativePredicates` accepts of one predicate, and what is made of it.
use wasitter.Predicate.Collect.{PublicPart, nothing, text, public_part}
use wasitter.Predicate.Extract.{
  QueryProperty, property_from, public_property_from_steps, public_text, text_predicate_of_part,
}
use wasitter.Predicate.Steps.{Step, is_string, is_property_operator, is_text_predicate_operator}
use wasitter.Predicate.Validate.{
  property_loop, property_validation_message, validate_operator, validate_part,
}
use wasitter.Prelude.{
  ℕ, Bool, true, false, Option, none, some, List, [], ◌∷◌, ◌≡◌, refl, arith, ◌==◌, if◌then◌else◌,
  Bytes, length,
}

abbrev pub is_some {ℓ} : {A : Type ℓ} → Option A → Bool
is_some none = false
is_some (some _) = true

abbrev pub is_none {ℓ} : {A : Type ℓ} → Option A → Bool
is_none none = true
is_none (some _) = false

-- `regexp.Compile` succeeds.
abbrev pub compiles : {Regex : Type 0} → (Bytes → Option Regex) → Bytes → Bool
compiles compile re = is_some (compile re)

-- A part is counted if its operator is not the empty string.
abbrev pub live : (ℕ → Bytes) → List Step → ℕ
live string_value [] = 0
live string_value (s ∷ args) = if length (string_value s.value_id) == 0 then 0 else 1

-- Whether the property loop ends with its key set.
abbrev pub keyed_in : Option (QueryProperty × Bool) → Bool
keyed_in none = false
keyed_in (some (p, keyed)) = keyed

-- 1 for a part that adds to a result.
abbrev pub part_count {ℓ} : {A : Type ℓ} → Option A → ℕ
part_count none = 0
part_count (some _) = 1

abbrev pub public_count : {Regex : Type 0} → PublicPart Regex → ℕ
public_count nothing = 0
public_count _ = 1

abbrev pub public_text_count : {Regex : Type 0} → PublicPart Regex → ℕ
public_text_count (text _) = 1
public_text_count _ = 0

module _ (string_value capture_name : ℕ → Bytes) where
  -- The two loops over a property's arguments pass the same lists.
  property_from-property_loop :
      (op : Bytes) (p : QueryProperty) (keyed : Bool) (steps : List Step)
      → is_none (
          property_loop string_value capture_name op
            (is_some p.capture_id)
            keyed
            (is_some p.value)
            steps)
        ≡ keyed_in (property_from string_value p keyed steps)
  unfolding property_loop property_from
  property_from-property_loop op p true [] = refl
  property_from-property_loop op p false [] = refl
  property_from-property_loop op p keyed (s ∷ steps) = ground (
    arith,
    property_from-property_loop op (record p { capture_id = some s.value_id }) keyed steps,
    property_from-property_loop op (record p { key = string_value s.value_id }) true steps,
    property_from-property_loop op (record p { value = some (string_value s.value_id) }) keyed
        steps,
  )

  -- `publicPropertyFromSteps` succeeds exactly on the argument lists that
  -- `propertyValidationMessage` accepts.
  pub public_property_from_steps-property_validation_message :
      (op : Bytes) (steps : List Step)
      → is_some (public_property_from_steps string_value steps)
        ≡ is_none (property_validation_message string_value capture_name op steps)
  unfolding public_property_from_steps property_validation_message
  public_property_from_steps-property_validation_message op steps = ground (
    arith,
    property_from-property_loop op (record { key = []; value = none; capture_id = none }) false
        steps,
  )

  module _ {Regex : Type 0} (compile : Bytes → Option Regex) where
    public_text-validate :
        (op : Bytes) (args : List Step)
        → is_text_predicate_operator op ≡ true
        → validate_operator string_value capture_name (compiles compile) op args ≡ none
        → is_some (public_text string_value compile op args) ≡ true
    unfolding is_text_predicate_operator validate_operator public_text
    public_text-validate op [] t v = ground arith
    public_text-validate op (a ∷ []) t v = ground arith
    public_text-validate op (a ∷ b ∷ []) t v = ground arith
    public_text-validate op (a ∷ b ∷ c ∷ rest) t v = ground arith

    text_predicate_of_part-validate :
        (s : Step) (args : List Step)
        → is_string s.type ≡ true
        → (length (string_value s.value_id) == 0) ≡ false
        → is_text_predicate_operator (string_value s.value_id) ≡ true
        → validate_operator string_value capture_name
            (compiles compile)
            (string_value s.value_id)
            args
          ≡ none
        → is_some (text_predicate_of_part string_value compile capture_name (s ∷ args)) ≡ true
    unfolding is_text_predicate_operator validate_operator text_predicate_of_part
    text_predicate_of_part-validate s [] h n t v = ground arith
    text_predicate_of_part-validate s (a ∷ []) h n t v = ground arith
    text_predicate_of_part-validate s (a ∷ b ∷ []) h n t v = ground arith
    text_predicate_of_part-validate s (a ∷ b ∷ c ∷ rest) h n t v = ground arith

    -- An operator that is no text operator gives no text predicate.
    text_predicate_of_part-other :
        (s : Step) (args : List Step)
        → is_text_predicate_operator (string_value s.value_id) ≡ false
        → text_predicate_of_part string_value compile capture_name (s ∷ args) ≡ none
    unfolding is_text_predicate_operator text_predicate_of_part
    text_predicate_of_part-other s [] t = refl
    text_predicate_of_part-other s (a ∷ rest) t = ground arith

    text_predicate_of_part-empty :
        (s : Step) (args : List Step)
        → (length (string_value s.value_id) == 0) ≡ true
        → text_predicate_of_part string_value compile capture_name (s ∷ args) ≡ none
    unfolding text_predicate_of_part
    text_predicate_of_part-empty s [] t = refl
    text_predicate_of_part-empty s (a ∷ rest) t = ground arith

    validate_part_inv :
        (s : Step) (args : List Step)
        → validate_part string_value capture_name (compiles compile) (s ∷ args) ≡ none
        → (is_string s.type ≡ true)
          × (validate_operator string_value capture_name
                (compiles compile)
                (string_value s.value_id)
                args
              ≡ none)
    unfolding validate_part
    validate_part_inv s args v = ground arith

    property_args_valid :
        (op : Bytes) (args : List Step)
        → is_text_predicate_operator op ≡ false
        → is_property_operator op ≡ true
        → validate_operator string_value capture_name (compiles compile) op args ≡ none
        → is_none (property_validation_message string_value capture_name op args) ≡ true
    unfolding is_text_predicate_operator validate_operator
    property_args_valid op args t p v = ground arith

    pub public_part-live :
        (part : List Step)
        → validate_part string_value capture_name (compiles compile) part ≡ none
        → public_count (public_part string_value compile part) ≡ live string_value part
    unfolding public_part
    public_part-live [] v = refl
    public_part-live (s ∷ args) v =
        let op = string_value s.value_id in
        let (h, w) = validate_part_inv s args v in
        ground (
          arith,
          public_text-validate op args,
          property_args_valid op args,
          public_property_from_steps-property_validation_message op args,
        )

    pub public_part-text :
        (part : List Step)
        → validate_part string_value capture_name (compiles compile) part ≡ none
        → public_text_count (public_part string_value compile part)
          ≡ part_count (text_predicate_of_part string_value compile capture_name part)
    unfolding public_part
    public_part-text [] v = unfold text_predicate_of_part in refl
    public_part-text (s ∷ args) v =
        let op = string_value s.value_id in
        let (h, w) = validate_part_inv s args v in
        ground (
          arith,
          public_text-validate op args,
          text_predicate_of_part-validate s args h,
          text_predicate_of_part-other s args,
          text_predicate_of_part-empty s args,
        )
