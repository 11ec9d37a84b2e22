-- ===== src/QueryCursor/Options.antt =====
-- query.go: the setters and getters of a `QueryCursor`. `was_closed` is the first test of `closed`,
-- before the lock is taken; `c` is the cursor under its lock. A setter without an error ignores what
-- the guest answers, so that its two tests of `closed` come to one.
use wasitter.Node.{Point, before, same, after, compare_point}
use wasitter.Prelude.{
  ℕ, Bool, true, false, ◌&&◌, ◌||◌, Option, none, some, List, [], ◌∷◌, ltb, ◌==◌, if◌then◌else◌,
}
use wasitter.QueryCursor.State.{
  Cursor, CursorError, closed, invalid_byte_range, invalid_point_range, call_failed, range_rejected,
  Result,
}

-- What the guest answers where the cursor has a handle and a runtime.
pub data Answer : Type 0 where
  no_guest unsupported failed : Answer
  answered : List ℕ → Answer

abbrev pub max_u32 : ℕ
max_u32 = 4294967295

abbrev with_byte_range : ℕ → ℕ → Cursor → Cursor
with_byte_range start end c = record c {
  limits = record c.limits { byte_start = start; byte_end = end; byte_range_set = true };
}

abbrev with_point_range : Point → Point → Cursor → Cursor
with_point_range start end c = record c {
  limits = record c.limits { point_start = start; point_end = end; point_range_set = true };
}

unfoldable pub unbounded_byte : ℕ → ℕ
unbounded_byte end = if end == 0 then max_u32 else end

unfoldable pub unbounded_point : Point → Point
unbounded_point end =
    if end.row == 0 && end.column == 0 then record { row = max_u32; column = max_u32 } else end

-- `comparePoint(start, end) > 0`
unfoldable pub is_after : Point → Point → Bool
unfolding compare_point
is_after start end = elim (compare_point start end) [ before ↦ false | same ↦ false | after ↦ true ]

unfoldable pub set_byte_range : Cursor → ℕ → ℕ → Cursor
unfolding unbounded_byte
set_byte_range c start end =
    if c.is_closed || ltb (unbounded_byte end) start
    then c
    else with_byte_range start (unbounded_byte end) c

unfoldable pub set_point_range : Cursor → Point → Point → Cursor
unfolding unbounded_point is_after
set_point_range c start end =
    if c.is_closed || is_after start (unbounded_point end)
    then c
    else with_point_range start (unbounded_point end) c

-- The error of a range setter behind its call.
unfoldable pub range_error : Answer → Option CursorError
range_error no_guest = none
range_error unsupported = none
range_error failed = some call_failed
range_error (answered []) = none
range_error (answered (r ∷ _)) = if r == 0 then some range_rejected else none

unfoldable pub set_byte_range_e : Bool → Answer → Cursor → ℕ → ℕ → Result
unfolding unbounded_byte range_error
set_byte_range_e was_closed answer c start end =
    if was_closed
    then record { cursor = c; error = some closed }
    else if ltb (unbounded_byte end) start
    then record { cursor = c; error = some invalid_byte_range }
    else if c.is_closed
    then record { cursor = c; error = some closed }
    else record {
      cursor = with_byte_range start (unbounded_byte end) c;
      error = range_error answer;
    }

unfoldable pub set_point_range_e : Bool → Answer → Cursor → Point → Point → Result
unfolding unbounded_point is_after range_error
set_point_range_e was_closed answer c start end =
    if was_closed
    then record { cursor = c; error = some closed }
    else if is_after start (unbounded_point end)
    then record { cursor = c; error = some invalid_point_range }
    else if c.is_closed
    then record { cursor = c; error = some closed }
    else record {
      cursor = with_point_range start (unbounded_point end) c;
      error = range_error answer;
    }

unfoldable pub set_match_limit : Cursor → ℕ → Cursor
set_match_limit c limit =
    if c.is_closed then c else record c { match_limit = limit; match_limit_set = true }

unfoldable pub limit_error : Answer → Option CursorError
limit_error no_guest = none
limit_error unsupported = none
limit_error failed = some call_failed
limit_error (answered _) = none

unfoldable pub set_match_limit_e : Bool → Answer → Cursor → ℕ → Result
unfolding limit_error
set_match_limit_e was_closed answer c limit =
    if was_closed || c.is_closed then record { cursor = c; error = some closed } else record {
      cursor = record c { match_limit = limit; match_limit_set = true };
      error = limit_error answer;
    }

-- `checkedU32` of the first result, where there is one.
unfoldable pub first_u32 : Answer → Option ℕ
first_u32 (answered (r ∷ _)) = if ltb max_u32 r then none else some r
first_u32 _ = none

unfoldable pub match_limit : Answer → Cursor → ℕ
unfolding first_u32
match_limit answer c =
    if c.is_closed then 0 else elim (first_u32 answer) [ some v ↦ v | none ↦ c.match_limit ]

unfoldable pub set_timeout_micros : Cursor → ℕ → Cursor
set_timeout_micros c timeout =
    if c.is_closed then c else record c { timeout_micros = timeout; timeout_set = true }

abbrev first_result : Answer → ℕ → ℕ
first_result (answered (r ∷ _)) kept = r
first_result _ kept = kept

unfoldable pub timeout_micros : Answer → Cursor → ℕ
timeout_micros answer c = if c.is_closed then 0 else first_result answer c.timeout_micros

unfoldable pub set_max_start_depth : Cursor → ℕ → Cursor
set_max_start_depth c depth =
    if c.is_closed
    then c
    else record c { limits = record c.limits { max_depth = depth; max_depth_set = true } }

unfoldable pub clear_max_start_depth : Cursor → Cursor
unfolding set_max_start_depth
clear_max_start_depth c = set_max_start_depth c max_u32
