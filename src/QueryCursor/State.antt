-- ===== src/QueryCursor/State.antt =====
-- query.go: what a `QueryCursor` keeps, and the errors of its methods. The matches are those from
-- `index` on.
use wasitter.Node.{Node}
use wasitter.Predicate.Evaluate.{QueryCapture}
use wasitter.Prelude.{ℕ, Bool, true, Option, List, []}
use wasitter.Range.Filter.{Limits, QueryMatch}

-- `queuedQueryCapture`
pub record QueuedCapture : Type 0 where
  pub capture : QueryCapture
  pub match_id : ℕ
  pub pattern_index : ℕ
  pub ordinal : ℕ

pub record Cursor : Type 0 where
  pub is_closed : Bool
  pub limits : Limits
  pub match_limit : ℕ
  pub match_limit_set : Bool
  pub timeout_micros : ℕ
  pub timeout_set : Bool
  pub matches : List QueryMatch
  pub removed : List ℕ
  pub queue : List QueuedCapture
  -- `treeLifeUnlock != nil`
  pub retains_tree : Bool
  pub last_id : ℕ
  pub last_pattern : ℕ
  pub last_ordinal : ℕ
  pub last_valid : Bool

pub data CursorError : Type 0 where
  closed unsupported_query invalid_node other_runtime invalid_byte_range invalid_point_range :
      CursorError
  call_failed range_rejected query_unusable tree_unusable : CursorError

pub record Result : Type 0 where
  pub cursor : Cursor
  pub error : Option CursorError

abbrev pub no_node : Node
no_node = record {
  is_null = true;
  start_byte = 0;
  end_byte = 0;
  start_point = record { row = 0; column = 0 };
  end_point = record { row = 0; column = 0 };
  text = [];
}
