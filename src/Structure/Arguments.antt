-- ===== src/Structure/Arguments.antt =====
-- query_fallback_validate.go: what a step of the structural parser returns, quoted literals
-- (`parseQuoted`) and predicates (`parsePredicate`), and `decodeQueryString` of query.go.
use wasitter.Prelude.{
  ℕ, zero, suc, ◌+◌, ◌-◌, Bool, false, not, ◌&&◌, ◌||◌, Option, none, some, [], ◌∷◌, leb, ltb, ◌==◌,
  if◌then◌else◌, Bytes, length, take, drop,
}
use wasitter.Lexer.{At, at, is_query_ident_start_byte, ident_from, space_from, skip_query_quoted_at}

pub data Outcome : Type 0 where
  ok : At → Outcome
  err : ℕ → Outcome
  out_of_fuel : Outcome

abbrev pub Rec : Type 0
Rec = ℕ → Bytes → Outcome

-- `if err := ...; err != nil { return err }`, and on from where the first step stopped.
infixl 5 ◌>>◌
abbrev pub ◌>>◌ : Outcome → Rec → Outcome
ok q >> next = next q.pos q.rest
err e >> next = err e
out_of_fuel >> next = out_of_fuel

-- A parser step run where `skipSpace` stops.
abbrev pub spaced : Rec → ℕ → Bytes → Outcome
spaced step pos rest = let p = space_from false pos rest in step p.pos p.rest

-- A byte that starts an identifier must stand here, or the error is at `start`; then
-- `scanIdentifier`, and on from behind the identifier.
unfoldable pub identifier_then : Rec → ℕ → Rec
unfolding ident_from
identifier_then next start pos [] = err start
identifier_then next start pos (c ∷ cs) =
    let q = ident_from (suc pos) cs in
    if not (is_query_ident_start_byte c) then err start else next q.pos q.rest

-- `x[len(x)-1] == b`
unfoldable pub last_is : ℕ → Bytes → Bool
last_is b [] = false
last_is b (c ∷ []) = c == b
last_is b (_ ∷ d ∷ cs) = last_is b (d ∷ cs)

abbrev pub word_missing : Bytes
word_missing = b'M' ∷ b'I' ∷ b'S' ∷ b'S' ∷ b'I' ∷ b'N' ∷ b'G' ∷ []

-- `unquote` is `strconv.Unquote`, `none` standing for its error.
module _ (unquote : Bytes → Option Bytes) where
  unfoldable pub decode_query_string : Bytes → Option Bytes
  unfolding last_is
  decode_query_string [] = none
  decode_query_string (c ∷ cs) =
      if ltb (length (c ∷ cs)) 2 || not (c == b'"') || not (last_is b'"' (c ∷ cs))
      then none
      else unquote (c ∷ cs)

  -- `parseQuoted`; `none` is the result false.
  unfoldable pub parse_quoted : ℕ → Bytes → Option At
  unfolding decode_query_string skip_query_quoted_at
  parse_quoted pos [] = none
  parse_quoted pos (c ∷ cs) =
      let end = pos + length (c ∷ cs) in
      let next = skip_query_quoted_at pos (c ∷ cs) in
      let size = next - pos in
      if not (c == b'"')
      then none
      else if leb next pos
          || ltb end next
          || next == end && (end == 0 || not (last_is b'"' (c ∷ cs)))
      then none
      else elim (decode_query_string (take size (c ∷ cs))) [
        | none ↦ none
        | some _ ↦ some (at next (drop size (c ∷ cs)))
      ]

  unfoldable pub quoted_or_error : ℕ → Bytes → Outcome
  unfolding parse_quoted
  quoted_or_error pos rest = elim (parse_quoted pos rest) [ none ↦ err pos | some q ↦ ok q ]

  -- One argument of a predicate, or its closing parenthesis.
  unfoldable pub predicate_at : Rec → Rec
  unfolding quoted_or_error identifier_then
  predicate_at again pos [] = err pos
  predicate_at again pos (c ∷ cs) =
      if c == b')'
      then ok (at (suc pos) cs)
      else if c == b'@'
      then identifier_then again pos (suc pos) cs
      else if c == b'"'
      then quoted_or_error pos (c ∷ cs) >> again
      else identifier_then again pos pos (c ∷ cs)

  unfoldable pub predicate_loop : ℕ → Rec
  unfolding predicate_at
  predicate_loop zero pos rest = out_of_fuel
  predicate_loop (suc fuel) pos rest = spaced (predicate_at (predicate_loop fuel)) pos rest

  -- `parsePredicate`, on the bytes behind `#` or `.`, which stands at `start`.
  unfoldable pub parse_predicate : Rec
  unfolding predicate_loop
  parse_predicate start rest =
      identifier_then (predicate_loop (suc (length rest))) (start + 1) (suc start) rest
