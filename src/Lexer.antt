-- ===== src/Lexer.antt =====
-- query.go: the byte scanners of the query language (lines 2674-2707, 2978-2994 and 3554-3627).
-- A place in a source text is its offset and the bytes from there on, so the Go test
-- `i < len(source)` is a match on those bytes and `source[i]` is their head.
pub mod Bounds
use wasitter.Prelude.{
  ℕ, suc, ◌+◌, ◌-◌, Bool, true, false, not, ◌&&◌, ◌||◌, [], ◌∷◌, leb, ◌==◌, if◌then◌else◌, Bytes,
  drop, take,
}

pub record At : Type 0 where
  pub pos : ℕ
  pub rest : Bytes

abbrev pub at : ℕ → Bytes → At
at pos rest = record { pos = pos; rest = rest }

abbrev within : ℕ → ℕ → ℕ → Bool
within lo hi c = leb lo c && leb c hi

unfoldable pub is_query_ident_start_byte : ℕ → Bool
is_query_ident_start_byte c =
    within b'a' b'z' c || within b'A' b'Z' c || within b'0' b'9' c || c == b'_' || c == b'-'

unfoldable pub is_query_ident_continue_byte : ℕ → Bool
unfolding is_query_ident_start_byte
is_query_ident_continue_byte c = is_query_ident_start_byte c || c == b'.' || c == b'?' || c == b'!'

-- `for offset < len(source) && source[offset] != '\n' { offset++ }`
unfoldable pub comment_from : ℕ → Bytes → At
comment_from pos [] = at pos []
comment_from pos (c ∷ cs) =
    let more = comment_from (suc pos) cs in if c == b'\n' then at pos (c ∷ cs) else more

unfoldable pub skip_query_comment : Bytes → ℕ → ℕ
unfolding comment_from
skip_query_comment source offset = (comment_from offset (drop offset source)).pos

-- The loop of `skipQueryQuoted`, behind the opening quote; the flag is `escaped`.
unfoldable pub quoted_from : Bool → ℕ → Bytes → At
quoted_from escaped pos [] = at pos []
quoted_from escaped pos (c ∷ cs) =
    let more = quoted_from (c == b'\\' && not escaped) (suc pos) cs in
    if c == b'"' && not escaped then at (suc pos) cs else more

unfoldable pub skip_query_quoted_at : ℕ → Bytes → ℕ
unfolding quoted_from
skip_query_quoted_at offset [] = offset + 1
skip_query_quoted_at offset (c ∷ cs) =
    if c == b'"' then (quoted_from false (suc offset) cs).pos else offset + 1

unfoldable pub skip_query_quoted : Bytes → ℕ → ℕ
unfolding skip_query_quoted_at
skip_query_quoted source offset = skip_query_quoted_at offset (drop offset source)

-- `for position < len(source) && isQueryIdentContinueByte(source[position]) { position++ }`
unfoldable pub ident_from : ℕ → Bytes → At
unfolding is_query_ident_continue_byte
ident_from pos [] = at pos []
ident_from pos (c ∷ cs) =
    let more = ident_from (suc pos) cs in
    if is_query_ident_continue_byte c then more else at pos (c ∷ cs)

unfoldable pub is_space : ℕ → Bool
is_space c = c == b' ' || c == b'\t' || c == b'\r' || c == b'\n'

unfoldable pub whitespace_from : ℕ → Bytes → At
unfolding is_space
whitespace_from pos [] = at pos []
whitespace_from pos (c ∷ cs) =
    let more = whitespace_from (suc pos) cs in if is_space c then more else at pos (c ∷ cs)

unfoldable pub skip_query_whitespace : Bytes → ℕ → ℕ
unfolding whitespace_from
skip_query_whitespace source offset = (whitespace_from offset (drop offset source)).pos

-- Spaces, commas and comments. The flag says that the inner loop, over a comment, is running; at
-- the newline that ends a comment the outer loop is back, and takes it for a space.
unfoldable pub space_from : Bool → ℕ → Bytes → At
unfolding is_space
space_from comment pos [] = at pos []
space_from comment pos (c ∷ cs) =
    let more = space_from (if comment then not (c == b'\n') else c == b';') (suc pos) cs in
    if comment || is_space c || c == b',' || c == b';' then more else at pos (c ∷ cs)

unfoldable pub skip_fallback_space : Bytes → ℕ → ℕ → ℕ
unfolding space_from
skip_fallback_space source i end = (space_from false i (drop i (take end source))).pos

-- The name and the offset behind it; the offset is the token's own where there is no name.
unfoldable pub capture_token_at : ℕ → Bytes → Bytes × ℕ
unfolding ident_from
capture_token_at pos (a ∷ c ∷ cs) =
    let next = (ident_from (pos + 2) cs).pos in
    if a == b'@' && is_query_ident_start_byte c
    then (take (next - (pos + 1)) (c ∷ cs), next)
    else ([], pos)
capture_token_at pos _ = ([], pos)

unfoldable pub fallback_capture_token : Bytes → ℕ → ℕ → Bytes × ℕ
unfolding capture_token_at
fallback_capture_token source at end = capture_token_at at (drop at (take end source))

-- `scanTextPredicateOperator`: the operator, the offset behind it, and whether there is one.
unfoldable pub operator_at : ℕ → Bytes → Bytes × ℕ × Bool
unfolding ident_from
operator_at pos [] = ([], pos, false)
operator_at pos (h ∷ []) = if h == b'#' || h == b'.' then ([], pos + 1, false) else ([], pos, false)
operator_at pos (h ∷ c ∷ cs) =
    let next = (ident_from (pos + 2) cs).pos in
    if not (h == b'#' || h == b'.')
    then ([], pos, false)
    else if not (is_query_ident_start_byte c)
    then ([], pos + 1, false)
    else (take (next - (pos + 1)) (c ∷ cs), next, true)

unfoldable pub scan_text_predicate_operator : Bytes → ℕ → Bytes × ℕ × Bool
unfolding operator_at
scan_text_predicate_operator source offset = operator_at offset (drop offset source)
