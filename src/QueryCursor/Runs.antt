-- ===== src/QueryCursor/Runs.antt =====
-- query.go: runs of calls of a `QueryCursor`, and what they return.
use wasitter.Node.{Node, Point}
use wasitter.Prelude.{ℕ, Bool, false, Option, none, some, List, [], ◌∷◌, ◌++◌}
use wasitter.QueryCursor.Options.{
  Answer, set_byte_range_e, set_point_range_e, set_match_limit, set_timeout_micros,
  set_max_start_depth,
}
use wasitter.QueryCursor.State.{QueuedCapture, Cursor, CursorError}
use wasitter.QueryCursor.Stream.{Execution, remove_match_e, close, exec, next_match, next_capture}
use wasitter.Range.Filter.{QueryMatch}

pub data Call : Type 0 where
  bytes_call : Answer → ℕ → ℕ → Call
  points_call : Answer → Point → Point → Call
  limit_call timeout_call depth_call : ℕ → Call
  match_call capture_call : Bool → Call
  remove_call : Option CursorError → ℕ → Call
  exec_call : Execution → Call
  close_call : Call

abbrev pub id_of_match : Option QueryMatch → List ℕ
id_of_match none = []
id_of_match (some m) = m.id ∷ []

abbrev pub id_of_capture : Option QueuedCapture → List ℕ
id_of_capture none = []
id_of_capture (some q) = q.match_id ∷ []

module _ (equal : Node → Node → Bool) (ancestors : Node → List Node)
    (satisfies : QueryMatch → Bool) where
  -- The cursor behind a call.
  unfoldable pub step : Cursor → Call → Cursor
  unfolding set_byte_range_e set_point_range_e set_match_limit set_timeout_micros
      set_max_start_depth next_match next_capture remove_match_e exec close
  step c (bytes_call answer start end) = (set_byte_range_e false answer c start end).cursor
  step c (points_call answer start end) = (set_point_range_e false answer c start end).cursor
  step c (limit_call n) = set_match_limit c n
  step c (timeout_call n) = set_timeout_micros c n
  step c (depth_call n) = set_max_start_depth c n
  step c (match_call stopped) = (next_match equal ancestors satisfies stopped c).cursor
  step c (capture_call stopped) = (next_capture equal ancestors satisfies stopped c).cursor
  step c (remove_call tree_open id) = (remove_match_e false tree_open c id).cursor
  step c (exec_call x) = (exec equal ancestors satisfies c x).cursor
  step c close_call = close c

  -- The matches that a call returns, by their numbers.
  unfoldable pub returned : Cursor → Call → List ℕ
  unfolding next_match next_capture
  returned c (match_call stopped) =
      id_of_match (next_match equal ancestors satisfies stopped c).found
  returned c (capture_call stopped) =
      id_of_capture (next_capture equal ancestors satisfies stopped c).found
  returned c _ = []

  unfoldable pub run : Cursor → List Call → Cursor
  unfolding step
  run c [] = c
  run c (call ∷ calls) = run (step c call) calls

  unfoldable pub all_returned : Cursor → List Call → List ℕ
  unfolding step returned
  all_returned c [] = []
  all_returned c (call ∷ calls) = returned c call ++ all_returned (step c call) calls
