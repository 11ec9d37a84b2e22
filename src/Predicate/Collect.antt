-- ===== src/Predicate/Collect.antt =====
-- query.go: the loops of `textPredicatesFromSteps` and `publicPredicatesFromSteps` over the parts
-- of a step list.
use wasitter.Predicate.Extract.{
  QueryProperty, PropertyPredicate, QueryPredicate, TextPredicateCapture, TextPredicate,
  public_property_from_steps, predicate_args, public_text, text_predicate_of_part,
}
use wasitter.Predicate.Steps.{
  Step, is_string, parts, is_text_predicate_operator, is_property_operator,
}
use wasitter.Prelude.{
  ℕ, not, ◌||◌, Option, none, some, List, [], ◌∷◌, ◌++◌, ◌==◌, if◌then◌else◌, Bytes, bytes_eq,
  length, codes,
}

-- What one part of the steps adds to the four results.
pub data PublicPart (Regex : Type 0) : Type 0 where
  nothing : PublicPart Regex
  text : TextPredicateCapture Regex → PublicPart Regex
  property : PropertyPredicate → PublicPart Regex
  setting : QueryProperty → PublicPart Regex
  general : QueryPredicate → PublicPart Regex

pub record PublicPredicates (Regex : Type 0) : Type 0 where
  pub texts : List (TextPredicateCapture Regex)
  pub properties : List PropertyPredicate
  pub settings : List QueryProperty
  pub generals : List QueryPredicate

module _ {Regex : Type 0} where
  unfoldable pub append_part : PublicPart Regex → PublicPredicates Regex → PublicPredicates Regex
  append_part nothing r = r
  append_part (text t) r = record r { texts = r.texts ++ t ∷ [] }
  append_part (property p) r = record r { properties = r.properties ++ p ∷ [] }
  append_part (setting p) r = record r { settings = r.settings ++ p ∷ [] }
  append_part (general q) r = record r { generals = r.generals ++ q ∷ [] }

  abbrev pub no_predicates : PublicPredicates Regex
  no_predicates = record { texts = []; properties = []; settings = []; generals = [] }

module _ {Regex : Type 0} (string_value : ℕ → Bytes) (compile : Bytes → Option Regex) where
  unfoldable pub property_part : Bytes → List Step → PublicPart Regex
  property_part op args = elim (public_property_from_steps string_value args) [
    | none ↦ nothing
    | some p ↦
        if bytes_eq op (codes "set!")
        then setting p
        else property (record { property = p; positive = bytes_eq op (codes "is?") })
  ]

  unfoldable pub text_part : Bytes → List Step → PublicPart Regex
  text_part op args = elim (public_text string_value compile op args) [
    | none ↦ nothing
    | some t ↦ text t
  ]

  unfoldable pub public_part : List Step → PublicPart Regex
  unfolding property_part text_part
  public_part [] = nothing
  public_part (s ∷ args) =
      let op = string_value s.value_id in
      if not (is_string s.type) || length op == 0
      then nothing
      else if is_text_predicate_operator op
      then text_part op args
      else if is_property_operator op
      then property_part op args
      else general (record { operator = op; args = predicate_args string_value args })

  unfoldable pub public_loop : PublicPredicates Regex → List (List Step) → PublicPredicates Regex
  public_loop r [] = r
  public_loop r (p ∷ ps) = public_loop (append_part (public_part p) r) ps

  -- An empty part adds nothing, so it does not matter whether one ends the list.
  unfoldable pub public_predicates_from_steps : List Step → PublicPredicates Regex
  public_predicates_from_steps steps = public_loop no_predicates (parts steps)

  unfoldable pub text_loop : (ℕ → Bytes) → List (List Step) → List (TextPredicate Regex)
  text_loop capture_name [] = []
  text_loop capture_name (p ∷ ps) =
      elim (text_predicate_of_part string_value compile capture_name p) [
        | none ↦ text_loop capture_name ps
        | some t ↦ t ∷ text_loop capture_name ps
      ]

  unfoldable pub text_predicates_from_steps : (ℕ → Bytes) → List Step → List (TextPredicate Regex)
  text_predicates_from_steps capture_name steps = text_loop capture_name (parts steps)
