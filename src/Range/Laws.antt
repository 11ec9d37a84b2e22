-- ===== src/Range/Laws.antt =====
-- query.go: the range limits of a query cursor, on nodes, captures and matches.
use wasitter.Node.{Point, Node}
use wasitter.Predicate.Evaluate.{QueryCapture}
use wasitter.Prelude.{
  ℕ, ◌≤◌, ◌<◌, ◌≡◌, ◌↔◌, refl, arith, Bool, true, false, List, [], ◌∷◌, ◌++◌, leb, if◌then◌else◌,
}
use wasitter.Range.Overlap.{
  range_end, node_intersects_byte_range, node_intersects_point_range,
  node_intersects_capture_byte_range, node_intersects_capture_point_range,
}
use wasitter.Range.Filter.{
  Limits, QueryMatch, any_capture, match_anchor, anchored_allowed, captures_allowed,
  fallback_match_allowed, fallback_capture_allowed,
}

capture_byte_range_stricter :
    (node : Node) (start end : ℕ)
    → node_intersects_capture_byte_range node start end ≡ true
    → node_intersects_byte_range node start end ≡ true
unfolding node_intersects_capture_byte_range node_intersects_byte_range
capture_byte_range_stricter node start end h = ground arith

capture_point_range_stricter :
    (node : Node) (start end : Point)
    → node_intersects_capture_point_range node start end ≡ true
    → node_intersects_point_range node start end ≡ true
unfolding node_intersects_capture_point_range node_intersects_point_range
capture_point_range_stricter node start end h = ground arith

-- A node that covers bytes passes the byte test exactly if it covers a byte of the range.
pub node_intersects_byte_range_iff :
    (node : Node) (start end : ℕ)
    → node.is_null ≡ false
    → node.start_byte < node.end_byte
    → start < range_end end
    → (node_intersects_byte_range node start end ≡ true)
      ↔ ((b : ℕ) × (node.start_byte ≤ b) × (b < node.end_byte) × (start ≤ b) × (b < range_end end))
unfolding node_intersects_byte_range
node_intersects_byte_range_iff node start end live wide open_range = (
  λ h. (
    if leb start node.start_byte then node.start_byte else start,
    ground arith,
    ground arith,
    ground arith,
    ground arith,
  ),
  λ (b, p, q, r, s). ground arith,
)

module _ (equal : Node → Node → Bool) (ancestors : Node → List Node) where
  any_capture_at :
      (test : Node → Bool) (front back : List QueryCapture) (x : QueryCapture)
      → test x.node ≡ true
      → any_capture equal ancestors test (front ++ (x ∷ back)) ≡ true
  unfolding any_capture
  any_capture_at test [] back x h = ground arith
  any_capture_at test (y ∷ front) back x h = ground (arith, any_capture_at test front back x h)

  anchored_allowed_some :
      (c : Limits) (anchor : Node) (front back : List QueryCapture) (x : QueryCapture)
      → anchored_allowed equal ancestors c anchor (front ++ (x ∷ back))
        ≡ captures_allowed equal ancestors c anchor (front ++ (x ∷ back))
  anchored_allowed_some c anchor [] back x = refl
  anchored_allowed_some c anchor (y ∷ front) back x = refl

  -- Without a depth limit, a match is kept whenever one of its captures is: what the stricter test
  -- of a capture lets through, the test of its match lets through.
  pub fallback_match_allowed-capture :
      (c : Limits) (m : QueryMatch) (front back : List QueryCapture) (x : QueryCapture)
      → c.max_depth_set ≡ false
      → m.captures ≡ front ++ (x ∷ back)
      → fallback_capture_allowed equal ancestors c x ≡ true
      → fallback_match_allowed equal ancestors c m ≡ true
  unfolding fallback_match_allowed fallback_capture_allowed
  fallback_match_allowed-capture c m front back x d e h =
      rw (e, anchored_allowed_some c (match_anchor equal ancestors c m) front back x)
        (ground (
          arith,
          any_capture_at (λ (n : Node). node_intersects_byte_range n c.byte_start c.byte_end) front
              back x,
          any_capture_at (λ (n : Node). node_intersects_point_range n c.point_start c.point_end)
              front back x,
          capture_byte_range_stricter x.node c.byte_start c.byte_end,
          capture_point_range_stricter x.node c.point_start c.point_end,
        ))
