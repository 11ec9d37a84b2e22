-- ===== src/QueryCursor/Stream.antt =====
-- query.go: `Exec`, `NextMatch`, `NextCapture`, `RemoveMatchE` and `Close` of a `QueryCursor` without
-- a handle in the guest. `satisfies` is `satisfiesQueryMatchLocked`, and `stopped` is what the stored
-- progress callback asks for (`runStoredProgress`).
use wasitter.Node.{Node}
use wasitter.Predicate.Evaluate.{QueryCapture}
use wasitter.Prelude.{
  ℕ, ◌+◌, ◌%◌, Bool, true, false, not, ◌||◌, Option, none, some, List, [], ◌∷◌, ◌==◌, if◌then◌else◌,
}
use wasitter.QueryCursor.State.{
  QueuedCapture, Cursor, CursorError, closed, unsupported_query, invalid_node, other_runtime,
  Result, no_node,
}
use wasitter.Range.Filter.{
  Limits, QueryMatch, fallback_match_allowed, fallback_capture_allowed, filter_fallback_matches,
}

unfoldable pub is_removed : List ℕ → ℕ → Bool
is_removed [] id = false
is_removed (r ∷ removed) id = r == id || is_removed removed id

-- What `Exec` is given: the query, the node, and the matches that `matchesFallback` finds there.
-- `query_open` is the first test of the query and `query_stays` the one under its lock.
pub record Execution : Type 0 where
  pub has_query : Bool
  pub query_open : Option CursorError
  pub node : Node
  pub same_runtime : Bool
  pub query_stays : Bool
  pub tree_open : Option CursorError
  pub found : List QueryMatch

-- The matches, with the node of the execution as their root.
unfoldable pub rooted_at : Node → List QueryMatch → List QueryMatch
rooted_at root [] = []
rooted_at root (m ∷ matches) = record m { root = root } ∷ rooted_at root matches

-- The cursor behind an `Exec` that fails in the middle.
abbrev without_query : Cursor → Cursor
without_query c = record c {
  limits = record c.limits { root = no_node };
  matches = [];
  queue = [];
  retains_tree = false;
}

unfoldable pub without_match : ℕ → List QueuedCapture → List QueuedCapture
without_match id [] = []
without_match id (q ∷ queue) =
    let rest = without_match id queue in if not (q.match_id == id) then q ∷ rest else rest

-- `tree_open` is the result of the tree's `ensureOpen`.
unfoldable pub remove_match_e : Bool → Option CursorError → Cursor → ℕ → Result
unfolding without_match
remove_match_e was_closed tree_open c id =
    if was_closed || c.is_closed
    then record { cursor = c; error = some closed }
    else elim tree_open [
      | some e ↦ record { cursor = c; error = some e }
      | none ↦ record {
        cursor = record c { removed = id ∷ c.removed; queue = without_match id c.queue };
        error = none;
      }
    ]

unfoldable pub close : Cursor → Cursor
close c = if c.is_closed then c else record c {
  is_closed = true;
  limits = record c.limits { root = no_node };
  matches = [];
  removed = [];
  queue = [];
  retains_tree = false;
  last_id = 0;
  last_pattern = 0;
  last_ordinal = 0;
  last_valid = false;
}

-- A match, where there is one, and the matches behind it.
pub record Taken : Type 0 where
  pub found : Option QueryMatch
  pub rest : List QueryMatch

-- A capture, where there is one, and the captures and matches behind it.
pub record Drawn : Type 0 where
  pub found : Option QueuedCapture
  pub queue : List QueuedCapture
  pub rest : List QueryMatch

pub record Matched : Type 0 where
  pub cursor : Cursor
  pub found : Option QueryMatch

pub record Captured : Type 0 where
  pub cursor : Cursor
  pub found : Option QueuedCapture

module _ (equal : Node → Node → Bool) (ancestors : Node → List Node)
    (satisfies : QueryMatch → Bool) where
  unfoldable pub exec : Cursor → Execution → Result
  unfolding filter_fallback_matches rooted_at
  exec c x =
      if c.is_closed
      then record { cursor = c; error = some closed }
      else if not x.has_query
      then record { cursor = c; error = some unsupported_query }
      else elim x.query_open [
        | some e ↦ record { cursor = c; error = some e }
        | none ↦
            if x.node.is_null
            then record { cursor = c; error = some invalid_node }
            else if not x.same_runtime
            then record { cursor = c; error = some other_runtime }
            else if not x.query_stays
            then record { cursor = record c { retains_tree = false }; error = some closed }
            else elim x.tree_open [
              | some e ↦ record { cursor = without_query c; error = some e }
              | none ↦
                  let limits = record c.limits { root = x.node } in
                  record {
                    cursor = record c {
                      limits = limits;
                      matches =
                          rooted_at x.node (filter_fallback_matches equal ancestors limits x.found);
                      removed = [];
                      queue = [];
                      retains_tree = true;
                      last_id = 0;
                      last_pattern = 0;
                      last_ordinal = 0;
                      last_valid = false;
                    };
                    error = none;
                  }
            ]
      ]

  unfoldable pub match_loop : Limits → List ℕ → List QueryMatch → Taken
  unfolding is_removed fallback_match_allowed
  match_loop limits removed [] = record { found = none; rest = [] }
  match_loop limits removed (m ∷ matches) =
      let next = match_loop limits removed matches in
      if is_removed removed m.id
      then next
      else if not (fallback_match_allowed equal ancestors limits m)
      then next
      else if not (satisfies m)
      then next
      else record { found = some m; rest = matches }

  abbrev pub keeps_on : Option QueryMatch → Bool → Bool
  keeps_on none b = false
  keeps_on (some m) b = b

  unfoldable pub next_match : Bool → Cursor → Matched
  unfolding match_loop
  next_match stopped c =
      let taken = match_loop c.limits c.removed c.matches in
      if c.is_closed
      then record { cursor = c; found = none }
      else if stopped
      then record { cursor = record c { retains_tree = false }; found = none }
      else record {
        cursor = record c {
          matches = taken.rest;
          retains_tree = keeps_on taken.found c.retains_tree;
        };
        found = taken.found;
      }

  -- The captures of a match that go into the queue, from an ordinal on.
  unfoldable pub flatten : Limits → QueryMatch → ℕ → List QueryCapture → List QueuedCapture
  unfolding fallback_capture_allowed
  flatten limits m ordinal [] = []
  flatten limits m ordinal (x ∷ captures) =
      let rest = flatten limits m (ordinal + 1) captures in
      if not (fallback_capture_allowed equal ancestors limits x)
      then rest
      else record {
        capture = x;
        match_id = m.id;
        pattern_index = m.pattern_index;
        ordinal = ordinal % 4294967296;
      }
        ∷ rest

  -- The first capture of the queue that the limits allow; the others before it are dropped.
  unfoldable pub draw_queued : Limits → List QueuedCapture → List QueryMatch → Drawn
  unfolding fallback_capture_allowed
  draw_queued limits [] matches = record { found = none; queue = []; rest = matches }
  draw_queued limits (q ∷ queue) matches =
      let next = draw_queued limits queue matches in
      if not (fallback_capture_allowed equal ancestors limits q.capture)
      then next
      else record { found = some q; queue = queue; rest = matches }

  abbrev pub or_else : Drawn → Drawn → Drawn
  or_else drawn next = elim drawn.found [ none ↦ next | some q ↦ drawn ]

  -- The loop, entered with an empty queue.
  unfoldable pub capture_loop : Limits → List ℕ → List QueryMatch → Drawn
  unfolding is_removed flatten draw_queued
  capture_loop limits removed [] = record { found = none; queue = []; rest = [] }
  capture_loop limits removed (m ∷ matches) =
      let next = capture_loop limits removed matches in
      if is_removed removed m.id
      then next
      else if not (satisfies m)
      then next
      else or_else (draw_queued limits (flatten limits m 0 m.captures) matches) next

  abbrev pub with_last : Option QueuedCapture → Cursor → Cursor
  with_last none c = record c { retains_tree = false }
  with_last (some q) c = record c {
    last_id = q.match_id;
    last_pattern = q.pattern_index;
    last_ordinal = q.ordinal;
    last_valid = true;
  }

  unfoldable pub next_capture : Bool → Cursor → Captured
  unfolding draw_queued capture_loop
  next_capture stopped c =
      let drawn =
        or_else (draw_queued c.limits c.queue c.matches)
          (capture_loop c.limits c.removed c.matches) in
      if c.is_closed
      then record { cursor = c; found = none }
      else if stopped
      then record { cursor = record c { retains_tree = false }; found = none }
      else record {
        cursor = with_last drawn.found (record c { matches = drawn.rest; queue = drawn.queue });
        found = drawn.found;
      }
