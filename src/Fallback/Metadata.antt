-- ===== src/Fallback/Metadata.antt =====
-- query.go: `fallbackPropertyFromTokens` and the loop of `fallbackMetadataFromSource`, which show the
-- predicates in a query's text to callers. The text predicates come from another scan, which is not
-- modelled.
use wasitter.Fallback.Scan.{Group, scan_fallback_predicate_groups}
use wasitter.Fallback.Tokens.{Token}
use wasitter.Predicate.Extract.{
  QueryProperty, PropertyPredicate, QueryPredicateArg, capture_arg, string_arg, QueryPredicate,
}
use wasitter.Predicate.Steps.{is_text_predicate_operator, is_property_operator}
use wasitter.Prelude.{
  ℕ, suc, Bool, true, false, not, ◌||◌, Option, none, some, List, [], ◌∷◌, ltb, ◌==◌, if◌then◌else◌,
  Bytes, bytes_eq, codes, length,
}

-- `captureIDs[name]`: of names that are listed twice, the last place counts.
unfoldable pub capture_id_from : ℕ → List Bytes → Bytes → Option ℕ
unfolding bytes_eq
capture_id_from i [] name = none
capture_id_from i (n ∷ names) name = elim (capture_id_from (suc i) names name) [
  | some id ↦ some id
  | none ↦ if bytes_eq name n then some i else none
]

abbrev pub empty_property : QueryProperty
empty_property = record { key = []; value = none; capture_id = none }

-- The results but for the text predicates.
pub record Metadata : Type 0 where
  pub properties : List PropertyPredicate
  pub settings : List QueryProperty
  pub generals : List QueryPredicate

unfoldable pub add_property : Bytes → Option QueryProperty → Metadata → Metadata
unfolding bytes_eq
add_property op none m = m
add_property op (some p) m =
    if bytes_eq op (codes "set!") then record m { settings = p ∷ m.settings } else record m {
      properties = record { property = p; positive = bytes_eq op (codes "is?") } ∷ m.properties;
    }

module _ (capture_ids : Bytes → Option ℕ) where
  -- The loop, from a property and `keySet`.
  unfoldable pub fallback_property_from :
      QueryProperty → Bool → List Token → Option (QueryProperty × Bool)
  fallback_property_from p keyed [] = some (p, keyed)
  fallback_property_from p keyed (t ∷ tokens) =
      if t.captured
      then elim (capture_ids t.text) [
        | none ↦ none
        | some id ↦ elim p.capture_id [
          | some _ ↦ none
          | none ↦ fallback_property_from (record p { capture_id = some id }) keyed tokens
        ]
      ]
      else if not t.quoted
      then none
      else if not keyed
      then fallback_property_from (record p { key = t.text }) true tokens
      else elim p.value [
        | none ↦ fallback_property_from (record p { value = some t.text }) keyed tokens
        | some _ ↦ none
      ]

  -- `none` where the Go function returns false.
  unfoldable pub fallback_property_from_tokens : List Token → Option QueryProperty
  unfolding fallback_property_from
  fallback_property_from_tokens tokens =
      if length tokens == 0 || ltb 3 (length tokens)
      then none
      else elim (fallback_property_from empty_property false tokens) [
        | none ↦ none
        | some (p, keyed) ↦ if keyed then some p else none
      ]

  abbrev add_capture : Option ℕ → List QueryPredicateArg → List QueryPredicateArg
  add_capture none args = args
  add_capture (some id) args = capture_arg id ∷ args

  unfoldable pub fallback_args : List Token → List QueryPredicateArg
  fallback_args [] = []
  fallback_args (t ∷ tokens) =
      let args = fallback_args tokens in
      if t.captured
      then add_capture (capture_ids t.text) args
      else if t.quoted
      then string_arg t.text ∷ args
      else args

  -- The loop; each list is built from the front, where the Go loop appends to it.
  unfoldable pub metadata_loop : List Group → Metadata
  unfolding fallback_property_from_tokens add_property fallback_args
  metadata_loop [] = record { properties = []; settings = []; generals = [] }
  metadata_loop (g ∷ groups) =
      let m = metadata_loop groups in
      if is_text_predicate_operator g.operator
      then m
      else if is_property_operator g.operator
      then add_property g.operator (fallback_property_from_tokens g.tokens) m
      else record m {
        generals = record { operator = g.operator; args = fallback_args g.tokens } ∷ m.generals;
      }

unfoldable pub fallback_metadata_from_source :
    (Bytes → Option Bytes) → Bytes → List Bytes → Metadata
unfolding metadata_loop scan_fallback_predicate_groups capture_id_from
fallback_metadata_from_source unquote source capture_names =
    metadata_loop (capture_id_from 0 capture_names) (scan_fallback_predicate_groups unquote source)
