-- ===== src/Fallback/MetadataLaws.antt =====
-- query.go: what `fallbackPropertyFromTokens` makes of the arguments of a property, beside
-- `publicPropertyFromSteps` and `validateFallbackPredicate`.
use wasitter.Fallback.Metadata.{
  fallback_property_from, fallback_property_from_tokens, empty_property,
}
use wasitter.Fallback.Tokens.{Token}
use wasitter.Predicate.Extract.{QueryProperty, property_from, public_property_from_steps}
use wasitter.Predicate.Steps.{Step, capture, string}
use wasitter.Prelude.{
  ℕ, suc, Bool, true, false, not, ◌≡◌, refl, ap, arith, Option, some, List, [], ◌∷◌, if◌then◌else◌,
  Bytes, length,
}

module _ (capture_ids : Bytes → Option ℕ) (string_value : ℕ → Bytes) where
  -- A token and the step that the guest makes of it: a capture by its number, or a string.
  abbrev pub Stands : Token → Step → Type 0
  Stands t s =
      (t.quoted ≡ not t.captured)
      × (s.type ≡ (if t.captured then capture else string))
      × ((if t.captured then capture_ids t.text else some s.value_id) ≡ some s.value_id)
      × ((if t.captured then t.text else string_value s.value_id) ≡ t.text)

  pub data AllStand : List Token → List Step → Type 0 where
    stand_nil : AllStand [] []
    stand_cons :
        {t : Token} {s : Step} {tokens : List Token} {steps : List Step}
        → Stands t s
        → AllStand tokens steps
        → AllStand (t ∷ tokens) (s ∷ steps)

  length-AllStand :
      {tokens : List Token} {steps : List Step}
      → AllStand tokens steps
      → length tokens ≡ length steps
  length-AllStand stand_nil = refl
  length-AllStand (stand_cons d h) = ap suc (length-AllStand h)

  fallback_property_from-property_from :
      (p : QueryProperty) (keyed : Bool) {tokens : List Token} {steps : List Step}
      → AllStand tokens steps
      → fallback_property_from capture_ids p keyed tokens ≡ property_from string_value p keyed steps
  unfolding fallback_property_from property_from
  fallback_property_from-property_from p keyed stand_nil = refl
  fallback_property_from-property_from p keyed {tokens = t ∷ tokens} {steps = s ∷ steps}
        (stand_cons d h) =
      ground (
        arith,
        fallback_property_from-property_from (record p { capture_id = some s.value_id }) keyed h,
        fallback_property_from-property_from (record p { key = t.text }) true h,
        fallback_property_from-property_from (record p { value = some t.text }) keyed h,
      )

  -- Of arguments in a text and of the steps that stand for them, the same property is made, or none
  -- of either.
  pub fallback_property_from_tokens-public_property_from_steps :
      (tokens : List Token) (steps : List Step)
      → AllStand tokens steps
      → fallback_property_from_tokens capture_ids tokens
        ≡ public_property_from_steps string_value steps
  unfolding fallback_property_from_tokens public_property_from_steps
  fallback_property_from_tokens-public_property_from_steps tokens steps h =
      rw (length-AllStand h, fallback_property_from-property_from empty_property false h) refl
