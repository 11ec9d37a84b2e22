-- ===== src/Tests/CursorTests.antt =====
-- Runs of a query cursor over three matches.
use wasitter.Node.{Node, Point}
use wasitter.Predicate.Evaluate.{QueryCapture}
use wasitter.Prelude.{ℕ, Bool, true, false, none, ◌&&◌, ◌==◌, ◌+◌, ◌≡◌, refl, arith, List, [], ◌∷◌}
use wasitter.QueryCursor.Clean.{IsValid}
use wasitter.QueryCursor.Invariant.{run-IsValid}
use wasitter.QueryCursor.MatchLaws.{visible_matches, drain_matches, drain_matches_lem}
use wasitter.QueryCursor.OptionLaws.{setters_agree}
use wasitter.QueryCursor.Options.{
  no_guest, set_byte_range, set_byte_range_e, set_match_limit, set_match_limit_e, set_point_range,
  set_point_range_e,
}
use wasitter.QueryCursor.Removal.{AllDiffer, remove_match_e-returned}
use wasitter.QueryCursor.Runs.{
  Call, bytes_call, match_call, capture_call, remove_call, exec_call, close_call, run, all_returned,
}
use wasitter.QueryCursor.State.{Cursor, no_node}
use wasitter.QueryCursor.Stream.{is_removed, Execution, remove_match_e}
use wasitter.Range.Overlap.{node_intersects_capture_byte_range}
use wasitter.Range.Filter.{QueryMatch, fallback_match_allowed}

abbrev point : ℕ → ℕ → Point
point r c = record { row = r; column = c }

abbrev node_at : ℕ → ℕ → Node
node_at start end = record {
  is_null = false;
  start_byte = start;
  end_byte = end;
  start_point = point 0 start;
  end_point = point 0 end;
  text = [];
}

abbrev same_place : Node → Node → Bool
same_place m n = m.start_byte == n.start_byte && m.end_byte == n.end_byte

abbrev no_ancestors : Node → List Node
no_ancestors n = []

abbrev always : QueryMatch → Bool
always m = true

abbrev capture_at : ℕ → ℕ → QueryCapture
capture_at start end = record { node = node_at start end; index = 0 }

abbrev match_at : ℕ → ℕ → ℕ → QueryMatch
match_at n start end = record {
  id = n;
  pattern_index = 0;
  captures = capture_at start end ∷ capture_at (start + 1) end ∷ [];
  root = node_at start end;
  anchor = node_at start end;
}

abbrev three : List QueryMatch
three = match_at 7 1 3 ∷ match_at 8 4 6 ∷ match_at 9 8 10 ∷ []

-- As `NewQueryCursor` makes it.
abbrev fresh : Cursor
fresh = record {
  is_closed = false;
  limits = record {
    byte_range_set = false;
    byte_start = 0;
    byte_end = 0;
    point_range_set = false;
    point_start = point 0 0;
    point_end = point 0 0;
    max_depth_set = false;
    max_depth = 0;
    root = no_node;
  };
  match_limit = 4294967295;
  match_limit_set = false;
  timeout_micros = 0;
  timeout_set = false;
  matches = [];
  removed = [];
  queue = [];
  retains_tree = false;
  last_id = 0;
  last_pattern = 0;
  last_ordinal = 0;
  last_valid = false;
}

abbrev execution : Execution
execution = record {
  has_query = true;
  query_open = none;
  node = node_at 0 20;
  same_runtime = true;
  query_stays = true;
  tree_open = none;
  found = three;
}

-- A range that is set behind the execution keeps the first match away; match 8 is removed while its
-- second capture waits.
abbrev calls : List Call
calls =
    exec_call execution
    ∷ bytes_call no_guest 3 0
    ∷ capture_call false
    ∷ remove_call none 8
    ∷ capture_call false
    ∷ match_call false
    ∷ close_call
    ∷ capture_call false
    ∷ []

calls_return : all_returned same_place no_ancestors always fresh calls ≡ 8 ∷ 9 ∷ []
unfolding all_returned node_intersects_capture_byte_range
calls_return = refl

fresh-IsValid : IsValid fresh
fresh-IsValid = (refl, tt, refl)

run-IsValid_example : IsValid (run same_place no_ancestors always fresh calls)
run-IsValid_example = run-IsValid same_place no_ancestors always fresh calls fresh-IsValid

abbrev running : Cursor
running = record fresh {
  matches = three;
  removed = 8 ∷ [];
  limits = record fresh.limits { root = node_at 0 20 };
}

drain_matches_lem_example :
    drain_matches same_place no_ancestors always 4 running
    ≡ visible_matches same_place no_ancestors always running.limits running.removed running.matches
unfolding visible_matches is_removed fallback_match_allowed
drain_matches_lem_example =
    drain_matches_lem same_place no_ancestors always 4 running refl (omega arith)

remove_match_e-returned_example : AllDiffer 9 (
    all_returned same_place no_ancestors always
      (remove_match_e false none running 9).cursor
      (match_call false ∷ capture_call false ∷ []))
remove_match_e-returned_example =
    remove_match_e-returned same_place no_ancestors always running 9
      (match_call false ∷ capture_call false ∷ []) (refl, tt, refl) (refl, (refl, tt))

setters_agree_example :
    ((set_byte_range_e false no_guest fresh 5 0).cursor ≡ set_byte_range fresh 5 0)
    × ((set_point_range_e false no_guest fresh (point 1 0) (point 0 4)).cursor
        ≡ set_point_range fresh (point 1 0) (point 0 4))
    × ((set_match_limit_e false no_guest fresh 3).cursor ≡ set_match_limit fresh 3)
setters_agree_example = setters_agree false no_guest fresh 5 0 3 (point 1 0) (point 0 4) refl
