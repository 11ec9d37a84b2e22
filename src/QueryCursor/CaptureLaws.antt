-- ===== src/QueryCursor/CaptureLaws.antt =====
-- query.go: what `NextCapture` returns, call after call, on a `QueryCursor` that
-- is not changed in between.
use wasitter.Node.{Node}
use wasitter.Prelude.{
  ℕ, zero, suc, Bool, false, not, ◌&&◌, ◌≡◌, none, some, List, [], ◌∷◌, ◌++◌, if◌then◌else◌,
}
use wasitter.QueryCursor.State.{QueuedCapture, Cursor}
use wasitter.QueryCursor.Stream.{
  is_removed, Drawn, flatten, draw_queued, or_else, capture_loop, next_capture,
}
use wasitter.Range.Filter.{Limits, QueryMatch, fallback_capture_allowed}

module _ (equal : Node → Node → Bool) (ancestors : Node → List Node)
    (satisfies : QueryMatch → Bool) where
  -- The captures of the queue that the limits allow.
  unfoldable pub allowed_captures : Limits → List QueuedCapture → List QueuedCapture
  allowed_captures limits [] = []
  allowed_captures limits (q ∷ queue) =
      let rest = allowed_captures limits queue in
      if fallback_capture_allowed equal ancestors limits q.capture then q ∷ rest else rest

  -- The captures of the matches that are not removed and satisfy their predicates.
  unfoldable pub match_captures : Limits → List ℕ → List QueryMatch → List QueuedCapture
  unfolding flatten
  match_captures limits removed [] = []
  match_captures limits removed (m ∷ matches) =
      let rest = match_captures limits removed matches in
      if not (is_removed removed m.id) && satisfies m
      then flatten equal ancestors satisfies limits m 0 m.captures ++ rest
      else rest

  abbrev of_drawn : Limits → List ℕ → Drawn → List QueuedCapture
  of_drawn limits removed drawn = elim drawn.found [
    | none ↦ []
    | some q ↦ q ∷ (allowed_captures limits drawn.queue ++ match_captures limits removed drawn.rest)
  ]

  -- What is left to draw of a cursor.
  unfoldable pub captures_left : Cursor → List QueuedCapture
  unfolding allowed_captures match_captures
  captures_left c = allowed_captures c.limits c.queue ++ match_captures c.limits c.removed c.matches

  -- What `NextCapture` returns, until it returns nothing.
  unfoldable pub drain_captures : ℕ → Cursor → List QueuedCapture
  unfolding next_capture
  drain_captures zero c = []
  drain_captures (suc fuel) c =
      let next = next_capture equal ancestors satisfies false c in
      elim next.found [ none ↦ [] | some q ↦ q ∷ drain_captures fuel next.cursor ]

  module _ (c : Cursor) (live : c.is_closed ≡ false) where
    abbrev drawn : Drawn
    drawn =
        or_else equal ancestors satisfies
          (draw_queued equal ancestors satisfies c.limits c.queue c.matches)
          (capture_loop equal ancestors satisfies c.limits c.removed c.matches)
