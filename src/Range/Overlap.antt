-- ===== src/Range/Overlap.antt =====
-- query.go: the four tests of a node against a byte range or a point range.
use wasitter.Node.{Point, Comparison, before, after, compare_point, Node}
use wasitter.Prelude.{ℕ, Bool, true, false, not, ◌&&◌, ltb, leb, ◌==◌, if◌then◌else◌}

-- `^uint32(0)`
abbrev pub max_uint32 : ℕ
max_uint32 = 4294967295

-- An end of 0 stands for no end.
abbrev pub range_end : ℕ → ℕ
range_end end = if end == 0 then max_uint32 else end

abbrev pub point_eq : Point → Point → Bool
point_eq a b = a.row == b.row && a.column == b.column

abbrev pub point_range_end : Point → Point
point_range_end end =
    if end.row == 0 && end.column == 0
    then record { row = max_uint32; column = max_uint32 }
    else end

abbrev pub is_before : Comparison → Bool
is_before before = true
is_before _ = false

abbrev pub is_after : Comparison → Bool
is_after after = true
is_after _ = false

unfoldable pub node_intersects_byte_range : Node → ℕ → ℕ → Bool
node_intersects_byte_range node start end =
    let stop = range_end end in
    if node.is_null
    then false
    else if node.start_byte == node.end_byte
    then leb start node.start_byte && ltb node.start_byte stop
    else ltb node.start_byte stop && ltb start node.end_byte

unfoldable pub node_intersects_point_range : Node → Point → Point → Bool
unfolding compare_point
node_intersects_point_range node start end =
    let stop = point_range_end end in
    let starts_before = is_before (compare_point node.start_point stop) in
    if node.is_null
    then false
    else if point_eq node.start_point node.end_point
    then not (is_before (compare_point node.start_point start)) && starts_before
    else starts_before && is_after (compare_point node.end_point start)

unfoldable pub node_intersects_capture_byte_range : Node → ℕ → ℕ → Bool
node_intersects_capture_byte_range node start end =
    let stop = range_end end in
    if node.is_null
    then false
    else if node.start_byte == node.end_byte
    then ltb start node.start_byte && ltb node.start_byte stop
    else ltb node.start_byte stop && ltb start node.end_byte

unfoldable pub node_intersects_capture_point_range : Node → Point → Point → Bool
unfolding compare_point
node_intersects_capture_point_range node start end =
    let stop = point_range_end end in
    let starts_before = is_before (compare_point node.start_point stop) in
    if node.is_null
    then false
    else if point_eq node.start_point node.end_point
    then is_after (compare_point node.start_point start) && starts_before
    else starts_before && is_after (compare_point node.end_point start)
