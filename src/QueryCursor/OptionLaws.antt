-- ===== src/QueryCursor/OptionLaws.antt =====
-- query.go: the setters of a `QueryCursor` with and without an error.
use wasitter.Node.{Point}
use wasitter.Prelude.{ℕ, Bool, false, not, ◌&&◌, ◌≡◌, arith}
use wasitter.QueryCursor.Options.{
  Answer, set_byte_range, set_byte_range_e, set_point_range, set_point_range_e, set_match_limit,
  set_match_limit_e,
}
use wasitter.QueryCursor.State.{Cursor}

-- Where a cursor that was closed before the lock is still closed under it, each setter that returns
-- an error leaves the cursor that its counterpart without one leaves, whatever the guest answers.
pub setters_agree :
    (was_closed : Bool) (answer : Answer) (c : Cursor) (start end limit : ℕ) (first last : Point)
    → (was_closed && not c.is_closed) ≡ false
    → ((set_byte_range_e was_closed answer c start end).cursor ≡ set_byte_range c start end)
      × ((set_point_range_e was_closed answer c first last).cursor ≡ set_point_range c first last)
      × ((set_match_limit_e was_closed answer c limit).cursor ≡ set_match_limit c limit)
unfolding set_byte_range set_byte_range_e set_point_range set_point_range_e set_match_limit
    set_match_limit_e
setters_agree was_closed answer c start end limit first last live =
    (ground arith, ground arith, ground arith)
