-- ===== src/Fallback/Tokens.antt =====
-- query.go: `fallbackPredicateTokens`, the arguments of a predicate in a query's text. `unquote` is
-- `strconv.Unquote`, `none` standing for its error.
use wasitter.Lexer.{
  At, at, is_space, is_query_ident_start_byte, ident_from, skip_query_quoted_at, capture_token_at,
}
use wasitter.Prelude.{
  ℕ, zero, suc, ◌+◌, ◌-◌, Bool, true, false, not, ◌&&◌, ◌||◌, Option, none, some, List, [], ◌∷◌,
  ltb, leb, ◌==◌, if◌then◌else◌, Bytes, length, take, drop,
}
use wasitter.Structure.Arguments.{last_is, decode_query_string}

-- `fallbackPredicateToken`; `captured` is its field `capture`.
pub record Token : Type 0 where
  pub text : Bytes
  pub captured : Bool
  pub quoted : Bool
  pub offset : ℕ

-- The loop over blanks and comments; the flag says that the inner loop, over a comment, is running.
unfoldable pub blank_from : Bool → ℕ → Bytes → At
unfolding is_space
blank_from comment pos [] = at pos []
blank_from comment pos (c ∷ cs) =
    let more = blank_from (if comment then not (c == b'\n') else c == b';') (suc pos) cs in
    if comment || is_space c || c == b';' then more else at pos (c ∷ cs)

-- A token and the place behind it.
pub record Read : Type 0 where
  pub token : Token
  pub behind : At

-- The first `size` bytes, read as a token.
abbrev read_token : Bytes → Bool → Bool → ℕ → ℕ → Bytes → Read
read_token text captured quoted pos size rest = record {
  token = record { text = text; captured = captured; quoted = quoted; offset = pos };
  behind = at (pos + size) (drop size rest);
}

unfoldable pub capture_at : ℕ → Bytes → Option Read
unfolding capture_token_at
capture_at pos rest =
    let (name, next) = capture_token_at pos rest in
    if length name == 0 then none else some (read_token name true false pos (next - pos) rest)

unfoldable pub ident_at : ℕ → Bytes → Option Read
unfolding ident_from is_query_ident_start_byte
ident_at pos [] = none
ident_at pos (c ∷ cs) =
    let size = (ident_from (suc pos) cs).pos - pos in
    if not (is_query_ident_start_byte c)
    then none
    else some (read_token (take size (c ∷ cs)) false true pos size (c ∷ cs))

module _ (unquote : Bytes → Option Bytes) where
  unfoldable pub quoted_at : ℕ → Bytes → Option Read
  unfolding skip_query_quoted_at decode_query_string last_is
  quoted_at pos rest =
      let next = skip_query_quoted_at pos rest in
      let end = pos + length rest in
      if leb next pos || ltb end next || next == end && (end == 0 || not (last_is b'"' rest))
      then none
      else elim (decode_query_string unquote (take (next - pos) rest)) [
        | none ↦ none
        | some value ↦ some (read_token value false true pos (next - pos) rest)
      ]

  unfoldable pub token_at : ℕ → Bytes → Option Read
  unfolding capture_at quoted_at ident_at
  token_at pos [] = none
  token_at pos (c ∷ cs) =
      if c == b'@'
      then capture_at pos (c ∷ cs)
      else if c == b'"'
      then quoted_at pos (c ∷ cs)
      else ident_at pos (c ∷ cs)

  abbrev pub then_token : Token → Option (List Token) → Option (List Token)
  then_token t none = none
  then_token t (some tokens) = some (t ∷ tokens)

  -- The outer loop; `none` is the result false, and also the end of the fuel.
  unfoldable pub tokens_loop : ℕ → At → Option (List Token)
  unfolding blank_from token_at
  tokens_loop zero q = none
  tokens_loop (suc fuel) q =
      let start = blank_from false q.pos q.rest in
      if length start.rest == 0 then some [] else elim (token_at start.pos start.rest) [
        | none ↦ none
        | some r ↦ then_token r.token (tokens_loop fuel r.behind)
      ]

  -- Each round passes over a byte.
  unfoldable pub fallback_predicate_tokens : Bytes → Option (List Token)
  unfolding tokens_loop
  fallback_predicate_tokens tail = tokens_loop (suc (length tail)) (at 0 tail)
