-- ===== src/Fallback/Scan.antt =====
-- query.go: `scanTextPredicateEnd`, `scanFallbackPredicateGroups` and `validateFallbackPredicates`,
-- which go through a query's text. Each loop runs on fuel, a unit for a byte; a slice whose end lies
-- before its start, at which Go panics, is a result of its own.
use wasitter.Diagnostic.{source_position}
use wasitter.Fallback.Tokens.{Token, fallback_predicate_tokens}
use wasitter.Fallback.Validate.{TokenFault, undeclared, bad_arguments, validate_fallback_predicate}
use wasitter.Lexer.{At, at, quoted_from, comment_from, whitespace_from, operator_at}
use wasitter.Predicate.Steps.{is_fallback_validated_predicate_operator}
use wasitter.Prelude.{
  ℕ, zero, suc, ◌+◌, ◌-◌, min, Bool, false, not, ◌||◌, Option, none, some, List, [], ◌∷◌, ltb, leb,
  ◌==◌, if◌then◌else◌, Bytes, length, take, drop,
}

-- The place of the closing parenthesis, or the end of the text; from a depth of parentheses.
unfoldable pub end_loop : ℕ → ℕ → ℕ → Bytes → At
unfolding quoted_from comment_from
end_loop zero depth pos rest = at pos rest
end_loop (suc fuel) depth pos [] = at pos []
end_loop (suc fuel) depth pos (c ∷ cs) =
    let quoted = quoted_from false (suc pos) cs in
    let comment = comment_from pos (c ∷ cs) in
    let behind_quoted = end_loop fuel depth quoted.pos quoted.rest in
    let behind_comment = end_loop fuel depth comment.pos comment.rest in
    let deeper = end_loop fuel (depth + 1) (suc pos) cs in
    let higher = end_loop fuel (depth - 1) (suc pos) cs in
    let next = end_loop fuel depth (suc pos) cs in
    if c == b'"'
    then behind_quoted
    else if c == b';'
    then behind_comment
    else if c == b'('
    then deeper
    else if c == b')'
    then (if depth == 0 then at pos (c ∷ cs) else higher)
    else next

unfoldable pub scan_text_predicate_end : At → At
unfolding end_loop
scan_text_predicate_end q = end_loop (suc (length q.rest)) 0 q.pos q.rest

-- What a scan finds at a place: an operator with the place behind it, or where to go on.
pub data Item : Type 0 where
  operator : Bytes → At → Item
  go_on : At → Item

unfoldable pub item_at : ℕ → ℕ → Bytes → Item
unfolding quoted_from comment_from operator_at
item_at pos c cs =
    let (op, behind, ok) = operator_at pos (c ∷ cs) in
    if c == b'"'
    then go_on (quoted_from false (suc pos) cs)
    else if c == b';'
    then go_on (comment_from pos (c ∷ cs))
    else if not (c == b'#' || c == b'.') || not ok
    then go_on (at (suc pos) cs)
    else operator op (at behind (drop (behind - pos) (c ∷ cs)))

-- Behind the closing parenthesis, where there is one.
abbrev pub behind_end : At → At
behind_end q = elim q.rest [ [] ↦ q | c ∷ cs ↦ at (suc q.pos) cs ]

-- `source[base:end]`
abbrev pub between : At → At → Bytes
between base end = take (end.pos - base.pos) base.rest

-- `fallbackPredicateGroup`
pub record Group : Type 0 where
  pub operator : Bytes
  pub tokens : List Token

abbrev pub add_group : Bytes → Option (List Token) → List Group → List Group
add_group op none groups = groups
add_group op (some tokens) groups = record { operator = op; tokens = tokens } ∷ groups

-- Why a text is refused, with the offset that the error is made from: a capture that is not
-- declared, at the offset behind its `@`, or a fault of the predicate at the offset of its operator;
-- `lexical` is the message of arguments that are no tokens.
pub data PredicateFault : Type 0 where
  capture_fault : Bytes → ℕ → PredicateFault
  argument_fault : TokenFault → ℕ → PredicateFault
  lexical : Bytes → ℕ → PredicateFault

-- Where the `QueryError` of a fault points.
pub record FaultPlace : Type 0 where
  pub row : ℕ
  pub column : ℕ
  pub offset : ℕ

-- An error of `fallbackPredicateError` has the row of the predicate, and 0 for the column and the
-- offset.
unfoldable pub fault_place : Bytes → PredicateFault → FaultPlace
unfolding source_position
fault_place source (capture_fault name offset) =
    let (row, column) = source_position source offset in
    record { row = row; column = column; offset = offset }
fault_place source (argument_fault f offset) = record {
  row = (source_position source offset).0;
  column = 0;
  offset = 0;
}
fault_place source (lexical op offset) = record {
  row = (source_position source offset).0;
  column = 0;
  offset = 0;
}

pub data Scanned : Type 0 where
  accepted out_of_range out_of_fuel : Scanned
  refused : PredicateFault → Scanned

-- The error of a fault of the predicate at `offset`, with its arguments from `base` on, in a text of
-- `size` bytes.
abbrev pub predicate_fault : ℕ → ℕ → ℕ → TokenFault → PredicateFault
predicate_fault size offset base (undeclared name place) =
    capture_fault name (min (base + place + 1) size)
predicate_fault size offset base (bad_arguments f) = argument_fault (bad_arguments f) offset

module _ (unquote : Bytes → Option Bytes) where
  -- One item; `rec` is the loop from a place on.
  unfoldable pub groups_item : (At → List Group) → Item → List Group
  unfolding scan_text_predicate_end whitespace_from fallback_predicate_tokens
  groups_item rec (go_on q) = rec q
  groups_item rec (operator op behind) =
      let end = scan_text_predicate_end behind in
      let base = whitespace_from behind.pos behind.rest in
      let groups = rec (behind_end end) in
      if leb base.pos end.pos
      then add_group op (fallback_predicate_tokens unquote (between base end)) groups
      else groups

  unfoldable pub groups_loop : ℕ → ℕ → Bytes → List Group
  unfolding item_at groups_item
  groups_loop zero pos rest = []
  groups_loop (suc fuel) pos [] = []
  groups_loop (suc fuel) pos (c ∷ cs) =
      groups_item (λ q. groups_loop fuel q.pos q.rest) (item_at pos c cs)

  unfoldable pub scan_fallback_predicate_groups : Bytes → List Group
  unfolding groups_loop
  scan_fallback_predicate_groups source = groups_loop (suc (length source)) 0 source

  module _ (compiles : Bytes → Bool) (declared : List Bytes) (size : ℕ) where
    -- One predicate, with what comes behind it.
    unfoldable pub validate_group : ℕ → Bytes → At → At → Scanned → Scanned
    unfolding fallback_predicate_tokens validate_fallback_predicate
    validate_group offset op base end behind =
        if not (is_fallback_validated_predicate_operator op)
        then behind
        else if ltb end.pos base.pos
        then out_of_range
        else elim (fallback_predicate_tokens unquote (between base end)) [
          | none ↦ refused (lexical op offset)
          | some tokens ↦ elim (validate_fallback_predicate compiles declared op tokens) [
            | some f ↦ refused (predicate_fault size offset base.pos f)
            | none ↦ behind
          ]
        ]

    unfoldable pub validate_item : (At → Scanned) → ℕ → Item → Scanned
    unfolding scan_text_predicate_end whitespace_from validate_group
    validate_item rec pos (go_on q) = rec q
    validate_item rec pos (operator op behind) =
        let end = scan_text_predicate_end behind in
        validate_group pos op (whitespace_from behind.pos behind.rest) end (rec (behind_end end))

    unfoldable pub validate_loop : ℕ → ℕ → Bytes → Scanned
    unfolding item_at validate_item
    validate_loop zero pos rest = out_of_fuel
    validate_loop (suc fuel) pos [] = accepted
    validate_loop (suc fuel) pos (c ∷ cs) =
        validate_item (λ q. validate_loop fuel q.pos q.rest) pos (item_at pos c cs)

  unfoldable pub validate_fallback_predicates : (Bytes → Bool) → Bytes → List Bytes → Scanned
  unfolding validate_loop
  validate_fallback_predicates compiles source declared =
      validate_loop compiles declared (length source) (suc (length source)) 0 source
