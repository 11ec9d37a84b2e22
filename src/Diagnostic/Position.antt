-- ===== src/Diagnostic/Position.antt =====
-- query.go: where a query error points.
use wasitter.Prelude.{
  ℕ, zero, suc, ◌+◌, ◌-◌, ◌≤◌, [], ◌∷◌, ◌≡◌, refl, ap, arith, ltb, ◌==◌, if◌then◌else◌, Bytes,
  length, take,
}
use wasitter.Diagnostic.{
  position_loop, source_position, line_start_loop, line_at, message_of, kind_syntax,
  fallback_syntax_error,
}

-- How often a byte occurs.
abbrev pub count : ℕ → Bytes → ℕ
count b [] = 0
count b (c ∷ cs) = (if c == b then 1 else 0) + count b cs

position_loop-row :
    (row column : ℕ) (cs : Bytes) → (position_loop row column cs).0 ≡ row + count b'\n' cs
unfolding position_loop
position_loop-row row column [] = omega arith
position_loop-row row column (c ∷ cs) = ground (
  arith,
  position_loop-row (if c == b'\n' then row + 1 else row) (if c == b'\n' then 0 else column + 1) cs,
)

-- The column counts from the line's start, at every point of the two loops.
position_loop-column :
    (row column start i : ℕ) (cs : Bytes)
    → start + column ≡ i
    → line_start_loop start i cs + (position_loop row column cs).1 ≡ i + length cs
unfolding position_loop line_start_loop
position_loop-column row column start i [] e = omega arith
position_loop-column row column start i (c ∷ cs) e = ground (
  arith,
  position_loop-column (if c == b'\n' then row + 1 else row) (if c == b'\n' then 0 else column + 1)
      (if c == b'\n' then i + 1 else start) (i + 1) cs,
)

length-take-le : (n : ℕ) (xs : Bytes) → n ≤ length xs → length (take n xs) ≡ n
length-take-le zero xs h = refl
length-take-le (suc n) [] h = absurd (omega arith)
length-take-le (suc n) (x ∷ xs) h = omega (arith, length-take-le n xs)

-- The parts of the error at an offset, each against its own description.
pub record PointsAt (source : Bytes) (offset : ℕ) : Type 0 where
  pub offset_is : (fallback_syntax_error source offset).offset ≡ offset
  pub row_is : (fallback_syntax_error source offset).row ≡ count b'\n' (take offset source)
  pub column_is :
      line_start_loop 0 0 (take offset source) + (fallback_syntax_error source offset).column
      ≡ offset
  pub message_is :
      (fallback_syntax_error source offset).message
      ≡ message_of (line_at source offset) (fallback_syntax_error source offset).column

clamped : (n offset : ℕ) → offset ≤ n → (if ltb n offset then n else offset) ≡ offset
clamped n offset h = ground arith

-- The error at an offset of the text, with the clamps gone.
error_at :
    (source : Bytes) (offset : ℕ)
    → offset ≤ length source
    → fallback_syntax_error source offset ≡ record {
      message =
          message_of (line_at source offset) (offset - line_start_loop 0 0 (take offset source));
      offset = offset;
      row = (position_loop 0 0 (take offset source)).0;
      column = (position_loop 0 0 (take offset source)).1;
      kind = kind_syntax;
    }
unfolding fallback_syntax_error source_position
error_at source offset h = simp (clamped (length source) offset h)

-- At an offset of the text, a syntax error reports that offset; its row is the number of newlines
-- before it; its column is the distance from the start of its line; and its message is the line
-- with a caret under that column, or `Unexpected EOF` where the line is empty.
pub fallback_syntax_error-PointsAt :
    (source : Bytes) (offset : ℕ) → offset ≤ length source → PointsAt source offset
fallback_syntax_error-PointsAt source offset h =
    let e = error_at source offset h in
    let size = length-take-le offset source h in
    let row = position_loop-row 0 0 (take offset source) in
    let column = position_loop-column 0 0 0 0 (take offset source) (omega arith) in
    record {
      offset_is = rw e;
      row_is = rw e (omega (arith, row));
      column_is = rw e (omega (arith, column, size));
      message_is = rw e (ap (message_of (line_at source offset)) (omega (arith, column, size)));
    }
