-- ===== src/Fallback/Complete.antt =====
-- query.go: the groups of a text that `validateFallbackPredicates` accepts.
use wasitter.Fallback.Metadata.{
  capture_id_from, fallback_property_from, fallback_property_from_tokens, empty_property,
}
use wasitter.Fallback.Scan.{
  Item, operator, go_on, item_at, scan_text_predicate_end, behind_end, between, add_group, Group,
  Scanned, accepted, groups_item, groups_loop, validate_group, validate_item, validate_loop,
}
use wasitter.Fallback.Tokens.{Token, fallback_predicate_tokens}
use wasitter.Fallback.Validate.{
  undeclared_token, fallback_property_loop, fallback_property, fallback_operator,
  validate_fallback_predicate,
}
use wasitter.Lexer.{At, whitespace_from}
use wasitter.Predicate.Agreement.{is_none, is_some, keyed_in}
use wasitter.Predicate.Evaluate.{contains_text}
use wasitter.Predicate.Extract.{QueryProperty}
use wasitter.Predicate.Steps.{
  is_text_predicate_operator, is_property_operator, is_fallback_validated_predicate_operator,
}
use wasitter.Prelude.{
  ℕ, zero, suc, Bool, true, false, not, ◌||◌, ◌≡◌, refl, arith, Option, none, some, List, [], ◌∷◌,
  leb, Bytes, All, Bool-cases, inl, inr, Option-cases,
}

capture_id_from-contains_text :
    (i : ℕ) (names : List Bytes) (name : Bytes)
    → contains_text names name ≡ true
    → is_some (capture_id_from i names name) ≡ true
unfolding capture_id_from contains_text
capture_id_from-contains_text i [] name h = ground arith
capture_id_from-contains_text i (n ∷ names) name h =
    ground (arith, capture_id_from-contains_text (suc i) names name)

module _ (names : List Bytes) where
  undeclared_token-rest :
      (t : Token) (tokens : List Token)
      → undeclared_token names (t ∷ tokens) ≡ none
      → undeclared_token names tokens ≡ none
  unfolding undeclared_token
  undeclared_token-rest t tokens h = ground arith

  undeclared_token-known :
      (t : Token) (tokens : List Token)
      → undeclared_token names (t ∷ tokens) ≡ none
      → (not t.captured || contains_text names t.text) ≡ true
  unfolding undeclared_token
  undeclared_token-known t tokens h = ground arith

  fallback_property_from-fallback_property_loop :
      (op : Bytes) (p : QueryProperty) (keyed : Bool) (tokens : List Token)
      → undeclared_token names tokens ≡ none
      → is_none (fallback_property_loop op (is_some p.capture_id) keyed (is_some p.value) tokens)
        ≡ keyed_in (fallback_property_from (capture_id_from 0 names) p keyed tokens)
  unfolding fallback_property_loop fallback_property_from undeclared_token
  fallback_property_from-fallback_property_loop op p true [] h = refl
  fallback_property_from-fallback_property_loop op p false [] h = refl
  fallback_property_from-fallback_property_loop op p keyed (t ∷ tokens) h =
      let rest = undeclared_token-rest t tokens h in
      let known = undeclared_token-known t tokens h in
      elim (Option-cases (capture_id_from 0 names t.text)) [
        | inl e ↦ ground (
          arith,
          capture_id_from-contains_text 0 names t.text,
          fallback_property_from-fallback_property_loop op (record p { key = t.text }) true tokens
              rest,
          fallback_property_from-fallback_property_loop op (record p { value = some t.text }) keyed
              tokens rest,
        )
        | inr (id, e) ↦ ground (
          arith,
          fallback_property_from-fallback_property_loop op (record p { capture_id = some id }) keyed
              tokens rest,
          fallback_property_from-fallback_property_loop op (record p { key = t.text }) true tokens
              rest,
          fallback_property_from-fallback_property_loop op (record p { value = some t.text }) keyed
              tokens rest,
        )
      ]

  fallback_property_from_tokens-fallback_property :
      (op : Bytes) (tokens : List Token)
      → undeclared_token names tokens ≡ none
      → is_some (fallback_property_from_tokens (capture_id_from 0 names) tokens)
        ≡ is_none (fallback_property op tokens)
  unfolding fallback_property_from_tokens fallback_property
  fallback_property_from_tokens-fallback_property op tokens h =
      ground (arith, fallback_property_from-fallback_property_loop op empty_property false tokens h)

  -- The check of one predicate finds nothing.
  abbrev pub IsSound : (Bytes → Bool) → Group → Type 0
  IsSound compiles g =
      (not (is_fallback_validated_predicate_operator g.operator)
        || is_none (validate_fallback_predicate compiles names g.operator g.tokens))
      ≡ true

  module _ (unquote : Bytes → Option Bytes) (compiles : Bytes → Bool) (size : ℕ) where
    validate_group-behind :
        (offset : ℕ) (op : Bytes) (base end : At) (behind : Scanned)
        → validate_group unquote compiles names size offset op base end behind ≡ accepted
        → behind ≡ accepted
    unfolding validate_group
    validate_group-behind offset op base end behind e =
        elim (Option-cases (fallback_predicate_tokens unquote (between base end))) [
          | inl t ↦ ground arith
          | inr (ts, t) ↦ elim (Option-cases (validate_fallback_predicate compiles names op ts)) [
            | inl v ↦ ground arith
            | inr (f, v) ↦ ground arith
          ]
        ]

    validate_group-IsSound :
        (offset : ℕ) (op : Bytes) (base end : At) (behind : Scanned) (ts : List Token)
        → validate_group unquote compiles names size offset op base end behind ≡ accepted
        → fallback_predicate_tokens unquote (between base end) ≡ some ts
        → IsSound compiles (record { operator = op; tokens = ts })
    unfolding validate_group
    validate_group-IsSound offset op base end behind ts e t =
        elim (Option-cases (validate_fallback_predicate compiles names op ts)) [
          | inl v ↦ ground arith
          | inr (f, v) ↦ ground arith
        ]

    add_group-IsSound :
        (op : Bytes) (tokens : Option (List Token)) (groups : List Group)
        → ((ts : List Token)
            → tokens ≡ some ts
            → IsSound compiles (record { operator = op; tokens = ts }))
        → All (IsSound compiles) groups
        → All (IsSound compiles) (add_group op tokens groups)
    add_group-IsSound op none groups h k = k
    add_group-IsSound op (some ts) groups h k = (h ts refl, k)

    groups_item-IsSound :
        (groups : At → List Group) (scanned : At → Scanned) (pos : ℕ) (item : Item)
        → ((q : At) → scanned q ≡ accepted → All (IsSound compiles) (groups q))
        → validate_item unquote compiles names size scanned pos item ≡ accepted
        → All (IsSound compiles) (groups_item unquote groups item)
    unfolding groups_item validate_item validate_group
    groups_item-IsSound groups scanned pos (go_on q) h e = h q e
    groups_item-IsSound groups scanned pos (operator op behind) h e =
        let end = scan_text_predicate_end behind in
        let base = whitespace_from behind.pos behind.rest in
        let rest =
          h (behind_end end) (validate_group-behind pos op base end (scanned (behind_end end)) e) in
        elim (Bool-cases (leb base.pos end.pos)) [
          | inl r ↦ rw r (
              add_group-IsSound op (fallback_predicate_tokens unquote (between base end))
                (groups (behind_end end))
                (λ ts. validate_group-IsSound pos op base end (scanned (behind_end end)) ts e) rest)
          | inr r ↦ rw r rest
        ]

    pub groups_loop-IsSound :
        (fuel pos : ℕ) (rest : Bytes)
        → validate_loop unquote compiles names size fuel pos rest ≡ accepted
        → All (IsSound compiles) (groups_loop unquote fuel pos rest)
    unfolding groups_loop validate_loop
    groups_loop-IsSound zero pos rest e = tt
    groups_loop-IsSound (suc fuel) pos [] e = tt
    groups_loop-IsSound (suc fuel) pos (c ∷ cs) e =
        groups_item-IsSound (λ (q : At). groups_loop unquote fuel q.pos q.rest)
          (λ (q : At). validate_loop unquote compiles names size fuel q.pos q.rest) pos
          (item_at pos c cs) (λ q. groups_loop-IsSound fuel q.pos q.rest) e

  pub IsSound-property :
      (compiles : Bytes → Bool) (g : Group)
      → IsSound compiles g
      → is_text_predicate_operator g.operator ≡ false
      → is_property_operator g.operator ≡ true
      → is_some (fallback_property_from_tokens (capture_id_from 0 names) g.tokens) ≡ true
  unfolding is_fallback_validated_predicate_operator validate_fallback_predicate fallback_operator
      is_text_predicate_operator
  IsSound-property compiles g h t k = elim (Option-cases (undeclared_token names g.tokens)) [
    | inl u ↦ ground (arith, fallback_property_from_tokens-fallback_property g.operator g.tokens u)
    | inr (x, u) ↦ ground arith
  ]
