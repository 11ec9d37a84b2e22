-- ===== src/QueryCursor/Invariant.antt =====
-- query.go: what stays true of a `QueryCursor` through its calls.
use wasitter.Node.{Node, Point}
use wasitter.Prelude.{
  ℕ, Bool, true, false, ◌≡◌, sym, subst, arith, Option, List, [], ◌∷◌, Bool-cases, inl, inr,
}
use wasitter.QueryCursor.Options.{
  Answer, set_byte_range_e, set_point_range_e, set_match_limit, set_timeout_micros,
  set_max_start_depth,
}
use wasitter.QueryCursor.State.{Cursor, CursorError}
use wasitter.QueryCursor.Stream.{
  is_removed, Execution, remove_match_e, close, exec, Drawn, next_match, next_capture, with_last,
}
use wasitter.QueryCursor.Runs.{
  Call, bytes_call, points_call, limit_call, timeout_call, depth_call, match_call, capture_call,
  remove_call, exec_call, close_call, step, run,
}
use wasitter.QueryCursor.Clean.{
  IsClean, IsValid, first_drawn, IsClean-first_drawn, NotRemoved-without_match,
}
use wasitter.Range.Filter.{QueryMatch}

module _ (equal : Node → Node → Bool) (ancestors : Node → List Node)
    (satisfies : QueryMatch → Bool) where
  with_last-IsValid :
      (c : Cursor) (drawn : Drawn)
      → IsValid c
      → c.is_closed ≡ false
      → IsClean c.removed drawn
      → IsValid (
          with_last equal ancestors satisfies drawn.found
            (record c { matches = drawn.rest; queue = drawn.queue }))
  with_last-IsValid c drawn (ranges, queue, idle) live clean = ground arith

  next_capture-IsValid :
      (c : Cursor) (stopped : Bool)
      → IsValid c
      → IsValid (next_capture equal ancestors satisfies stopped c).cursor
  unfolding next_capture
  next_capture-IsValid c true (ranges, queue, idle) = ground arith
  next_capture-IsValid c false (ranges, queue, idle) =
      let drawn = first_drawn equal ancestors satisfies c in
      elim (Bool-cases c.is_closed) [
        | inl e ↦ ground arith
        | inr e ↦
            let shape : (next_capture equal ancestors satisfies false c).cursor
                ≡ with_last equal ancestors satisfies drawn.found
                    (record c { matches = drawn.rest; queue = drawn.queue }) =
              ground arith in
            subst IsValid (sym shape) (
              with_last-IsValid c drawn (ranges, queue, idle) e
                (IsClean-first_drawn equal ancestors satisfies c queue))
      ]

  close-IsValid : (c : Cursor) → IsValid c → IsValid (close c)
  unfolding close is_removed
  close-IsValid c (ranges, queue, idle) = ground arith

  set_byte_range_e-IsValid :
      (c : Cursor) (answer : Answer) (start end : ℕ)
      → IsValid c
      → IsValid (set_byte_range_e false answer c start end).cursor
  unfolding set_byte_range_e
  set_byte_range_e-IsValid c answer start end (ranges, queue, idle) = ground arith

  set_point_range_e-IsValid :
      (c : Cursor) (answer : Answer) (start end : Point)
      → IsValid c
      → IsValid (set_point_range_e false answer c start end).cursor
  unfolding set_point_range_e
  set_point_range_e-IsValid c answer start end (ranges, queue, idle) = ground arith

  next_match-IsValid :
      (c : Cursor) (stopped : Bool)
      → IsValid c
      → IsValid (next_match equal ancestors satisfies stopped c).cursor
  unfolding next_match
  next_match-IsValid c stopped (ranges, queue, idle) = ground arith

  pub remove_match_e-IsValid :
      (c : Cursor) (tree_open : Option CursorError) (id : ℕ)
      → IsValid c
      → IsValid (remove_match_e false tree_open c id).cursor
  unfolding remove_match_e
  remove_match_e-IsValid c tree_open id (ranges, queue, idle) =
      ground (arith, NotRemoved-without_match equal ancestors satisfies id c.removed c.queue queue)

  exec-IsValid :
      (c : Cursor) (x : Execution) → IsValid c → IsValid (exec equal ancestors satisfies c x).cursor
  unfolding exec
  exec-IsValid c x (ranges, queue, idle) = ground arith

  pub step-IsValid :
      (c : Cursor) (call : Call) → IsValid c → IsValid (step equal ancestors satisfies c call)
  unfolding step set_match_limit set_timeout_micros set_max_start_depth
  step-IsValid c (bytes_call answer start end) h = set_byte_range_e-IsValid c answer start end h
  step-IsValid c (points_call answer start end) h = set_point_range_e-IsValid c answer start end h
  step-IsValid c (limit_call n) h = ground arith
  step-IsValid c (timeout_call n) h = ground arith
  step-IsValid c (depth_call n) h = ground arith
  step-IsValid c (match_call stopped) h = next_match-IsValid c stopped h
  step-IsValid c (capture_call stopped) h = next_capture-IsValid c stopped h
  step-IsValid c (remove_call tree_open id) h = remove_match_e-IsValid c tree_open id h
  step-IsValid c (exec_call x) h = exec-IsValid c x h
  step-IsValid c close_call h = close-IsValid c h

  -- Through any calls: both ranges stay in order where they are set, no capture waits of a match that
  -- was removed, and a closed cursor has no match and no capture left and holds no tree.
  pub run-IsValid :
      (c : Cursor) (calls : List Call) → IsValid c → IsValid (run equal ancestors satisfies c calls)
  unfolding run
  run-IsValid c [] h = h
  run-IsValid c (call ∷ calls) h =
      run-IsValid (step equal ancestors satisfies c call) calls (step-IsValid c call h)
