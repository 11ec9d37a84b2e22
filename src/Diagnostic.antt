-- ===== src/Diagnostic.antt =====
-- query.go: the positions and messages of query errors (`sourcePosition`, `fallbackSyntaxError`).
pub mod Position
use wasitter.Prelude.{
  ℕ, zero, suc, ◌+◌, ◌-◌, Bool, true, false, Option, none, some, [], ◌∷◌, ◌++◌, ltb, ◌==◌,
  if◌then◌else◌, Bytes, length, take, drop,
}

pub data QueryErrorKind : Type 0 where
  kind_syntax kind_predicate : QueryErrorKind

pub record QueryError : Type 0 where
  pub message : Bytes
  pub offset : ℕ
  pub row : ℕ
  pub column : ℕ
  pub kind : QueryErrorKind

-- The loop of `sourcePosition` over the bytes before the offset.
unfoldable pub position_loop : ℕ → ℕ → Bytes → ℕ × ℕ
position_loop row column [] = (row, column)
position_loop row column (c ∷ cs) =
    let newline = c == b'\n' in
    position_loop (if newline then row + 1 else row) (if newline then 0 else column + 1) cs

unfoldable pub source_position : Bytes → ℕ → ℕ × ℕ
unfolding position_loop
source_position source offset =
    position_loop 0 0 (take (if ltb (length source) offset then length source else offset) source)

-- `strings.LastIndexByte(s, '\n') + 1`: the offset behind the last newline, 0 if there is none.
-- `start` is that of the bytes read so far, `i` their number.
unfoldable pub line_start_loop : ℕ → ℕ → Bytes → ℕ
line_start_loop start i [] = start
line_start_loop start i (c ∷ cs) = line_start_loop (if c == b'\n' then i + 1 else start) (i + 1) cs

-- `strings.IndexByte(s, '\n')`, or the length of `s` where there is no newline.
unfoldable pub line_length : Bytes → ℕ
line_length [] = 0
line_length (c ∷ cs) = if c == b'\n' then 0 else suc (line_length cs)

-- `strings.Repeat(" ", n)`
unfoldable pub spaces : ℕ → Bytes
spaces zero = []
spaces (suc n) = b' ' ∷ spaces n

abbrev unexpected_eof : Bytes
unexpected_eof =
    b'U' ∷ b'n' ∷ b'e' ∷ b'x' ∷ b'p' ∷ b'e' ∷ b'c' ∷ b't' ∷ b'e' ∷ b'd' ∷ b' ' ∷ b'E' ∷ b'O' ∷ b'F'
    ∷ []

abbrev pub message_of : Bytes → ℕ → Bytes
message_of [] indent = unexpected_eof
message_of (c ∷ cs) indent = (c ∷ cs) ++ (b'\n' ∷ (spaces indent ++ (b'^' ∷ [])))

-- The line of `source` that holds `offset`.
unfoldable pub line_at : Bytes → ℕ → Bytes
unfolding line_start_loop line_length
line_at source offset =
    let line_start = line_start_loop 0 0 (take offset source) in
    let line_end = line_length (drop offset source) in
    take (offset + line_end - line_start) (drop line_start source)

unfoldable pub fallback_syntax_error : Bytes → ℕ → QueryError
unfolding source_position line_at line_start_loop spaces
fallback_syntax_error source offset =
    let at = if ltb (length source) offset then length source else offset in
    let (row, column) = source_position source at in
    record {
      message = message_of (line_at source at) (at - line_start_loop 0 0 (take at source));
      offset = at;
      row = row;
      column = column;
      kind = kind_syntax;
    }
