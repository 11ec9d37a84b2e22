-- ===== src/Range/Filter.antt =====
-- query.go: `filterFallbackMatches` and the two tests behind it, of a match and of a capture.
use wasitter.Node.{Point, Node}
use wasitter.Predicate.Evaluate.{QueryCapture}
use wasitter.Prelude.{
  ℕ, ◌+◌, ◌%◌, ◌^◌, Bool, true, false, not, ◌&&◌, ◌||◌, Option, none, some, List, [], ◌∷◌, leb,
  if◌then◌else◌,
}
use wasitter.Range.Overlap.{
  node_intersects_byte_range, node_intersects_point_range, node_intersects_capture_byte_range,
  node_intersects_capture_point_range,
}

-- The limits of a `QueryCursor`, with the node that the query runs on.
pub record Limits : Type 0 where
  pub byte_range_set : Bool
  pub byte_start : ℕ
  pub byte_end : ℕ
  pub point_range_set : Bool
  pub point_start : Point
  pub point_end : Point
  pub max_depth_set : Bool
  pub max_depth : ℕ
  pub root : Node

-- The fields of a `QueryMatch` that a cursor reads.
pub record QueryMatch : Type 0 where
  pub id : ℕ
  pub pattern_index : ℕ
  pub captures : List QueryCapture
  pub root : Node
  pub anchor : Node

-- `equal` is `Node.Equal`; `ancestors` are the nodes that `Node.Parent` gives, one from the other,
-- up to the null node.
module _ (equal : Node → Node → Bool) (ancestors : Node → List Node) where
  unfoldable pub depth_loop : Node → ℕ → List Node → Option ℕ
  depth_loop root depth [] = none
  depth_loop root depth (n ∷ nodes) =
      if equal n root then some depth else depth_loop root ((depth + 1) % 2 ^ 32) nodes

  -- `none` where the second result is false.
  unfoldable pub node_depth_from_root : Node → Node → Option ℕ
  unfolding depth_loop
  node_depth_from_root node root =
      if node.is_null || root.is_null then none else depth_loop root 0 (node ∷ ancestors node)

  unfoldable pub depth_allowed : Limits → Node → Bool
  unfolding node_depth_from_root
  depth_allowed c node = elim (node_depth_from_root node c.root) [
    | none ↦ false
    | some d ↦ leb d c.max_depth
  ]

  -- Some capture's node passes the test.
  unfoldable pub any_capture : (Node → Bool) → List QueryCapture → Bool
  any_capture test [] = false
  any_capture test (c ∷ captures) = if test c.node then true else any_capture test captures

  abbrev pub match_anchor : Limits → QueryMatch → Node
  match_anchor c m =
      let first = if m.anchor.is_null then m.root else m.anchor in
      if first.is_null then c.root else first

  abbrev no_limit : Limits → Bool
  no_limit c = not c.byte_range_set && not c.point_range_set && not c.max_depth_set

  -- A match with no capture.
  unfoldable pub anchor_allowed : Limits → Node → Bool
  unfolding depth_allowed
  anchor_allowed c anchor =
      if c.byte_range_set && not (node_intersects_byte_range anchor c.byte_start c.byte_end)
      then false
      else if c.point_range_set
          && not (node_intersects_point_range anchor c.point_start c.point_end)
      then false
      else if c.max_depth_set
      then depth_allowed c anchor
      else true

  -- `!anchor.IsNull() && ... || some capture`
  abbrev pub intersects : (Node → Bool) → Node → List QueryCapture → Bool
  intersects test anchor captures = not anchor.is_null && test anchor || any_capture test captures

  unfoldable pub captures_allowed : Limits → Node → List QueryCapture → Bool
  unfolding any_capture depth_allowed
  captures_allowed c anchor captures =
      if c.byte_range_set
        && not (
            intersects (λ (n : Node). node_intersects_byte_range n c.byte_start c.byte_end) anchor
              captures)
      then false
      else if c.point_range_set
          && not (
              intersects (λ (n : Node). node_intersects_point_range n c.point_start c.point_end)
                anchor captures)
      then false
      else if c.max_depth_set && not (not anchor.is_null && depth_allowed c anchor)
      then false
      else true

  abbrev pub anchored_allowed : Limits → Node → List QueryCapture → Bool
  anchored_allowed c anchor [] = anchor_allowed c anchor
  anchored_allowed c anchor (x ∷ captures) = captures_allowed c anchor (x ∷ captures)

  unfoldable pub fallback_match_allowed : Limits → QueryMatch → Bool
  unfolding anchor_allowed captures_allowed
  fallback_match_allowed c m =
      if no_limit c then true else anchored_allowed c (match_anchor c m) m.captures

  unfoldable pub fallback_capture_allowed : Limits → QueryCapture → Bool
  unfolding depth_allowed
  fallback_capture_allowed c x =
      if x.node.is_null
      then false
      else if c.byte_range_set
          && not (node_intersects_capture_byte_range x.node c.byte_start c.byte_end)
      then false
      else if c.point_range_set
          && not (node_intersects_capture_point_range x.node c.point_start c.point_end)
      then false
      else if c.max_depth_set && not (depth_allowed c x.node)
      then false
      else true

  unfoldable pub filter_allowed : Limits → List QueryMatch → List QueryMatch
  filter_allowed c [] = []
  filter_allowed c (m ∷ matches) =
      let rest = filter_allowed c matches in if fallback_match_allowed c m then m ∷ rest else rest

  unfoldable pub filter_fallback_matches : Limits → List QueryMatch → List QueryMatch
  unfolding filter_allowed
  filter_fallback_matches c matches = if no_limit c then matches else filter_allowed c matches
