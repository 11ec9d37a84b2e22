-- ===== src/Tests/RangeTests.antt =====
-- Runs of the range limits of a query cursor.
use wasitter.Node.{Node, Point}
use wasitter.Predicate.Evaluate.{QueryCapture}
use wasitter.Prelude.{
  ℕ, true, false, Bool, List, [], ◌∷◌, ◌≡◌, refl, arith, ◌↔◌, ◌≤◌, ◌<◌, ◌==◌, ◌&&◌,
}
use wasitter.Range.Filter.{
  Limits, QueryMatch, fallback_match_allowed, fallback_capture_allowed, filter_fallback_matches,
}
use wasitter.Range.Laws.{node_intersects_byte_range_iff, fallback_match_allowed-capture}
use wasitter.Range.Overlap.{
  range_end, node_intersects_byte_range, node_intersects_capture_byte_range,
}

abbrev point : ℕ → ℕ → Point
point row column = record { row = row; column = column }

abbrev node_at : ℕ → ℕ → Node
node_at start end = record {
  is_null = false;
  start_byte = start;
  end_byte = end;
  start_point = point 0 start;
  end_point = point 0 end;
  text = [];
}

abbrev same_place : Node → Node → Bool
same_place a b = a.start_byte == b.start_byte && a.end_byte == b.end_byte

abbrev no_ancestors : Node → List Node
no_ancestors n = []

abbrev bytes_4_to_8 : Limits
bytes_4_to_8 = record {
  byte_range_set = true;
  byte_start = 4;
  byte_end = 8;
  point_range_set = false;
  point_start = point 0 0;
  point_end = point 0 0;
  max_depth_set = false;
  max_depth = 0;
  root = node_at 0 20;
}

abbrev capture_at : ℕ → ℕ → QueryCapture
capture_at start end = record { node = node_at start end; index = 0 }

abbrev two_captures : QueryMatch
two_captures = record {
  id = 0;
  pattern_index = 0;
  captures = capture_at 1 3 ∷ capture_at 5 6 ∷ [];
  root = node_at 1 3;
  anchor = node_at 1 3;
}

abbrev outside : QueryMatch
outside = record {
  id = 1;
  pattern_index = 0;
  captures = capture_at 1 3 ∷ [];
  root = node_at 1 3;
  anchor = node_at 1 3;
}

keeps_one :
    filter_fallback_matches same_place no_ancestors bytes_4_to_8 (two_captures ∷ outside ∷ [])
    ≡ two_captures ∷ []
unfolding filter_fallback_matches fallback_match_allowed node_intersects_byte_range
keeps_one = refl

-- At the start of the range, an empty node is in reach of a match and not of a capture.
empty_match : node_intersects_byte_range (node_at 4 4) 4 8 ≡ true
unfolding node_intersects_byte_range
empty_match = refl

empty_capture : node_intersects_capture_byte_range (node_at 4 4) 4 8 ≡ false
unfolding node_intersects_capture_byte_range
empty_capture = refl

node_intersects_byte_range_iff_example :
    (node_intersects_byte_range (node_at 5 7) 6 0 ≡ true)
    ↔ ((b : ℕ) × (5 ≤ b) × (b < 7) × (6 ≤ b) × (b < range_end 0))
node_intersects_byte_range_iff_example =
    node_intersects_byte_range_iff (node_at 5 7) 6 0 refl (omega arith) (omega arith)

fallback_match_allowed-capture_example :
    fallback_match_allowed same_place no_ancestors bytes_4_to_8 two_captures ≡ true
unfolding fallback_capture_allowed node_intersects_capture_byte_range
fallback_match_allowed-capture_example =
    fallback_match_allowed-capture same_place no_ancestors bytes_4_to_8 two_captures
      (capture_at 1 3 ∷ []) [] (capture_at 5 6) refl refl refl
