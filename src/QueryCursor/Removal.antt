-- ===== src/QueryCursor/Removal.antt =====
-- query.go: what a `QueryCursor` returns behind `RemoveMatchE`.
use wasitter.Node.{Node}
use wasitter.Prelude.{
  ℕ, Bool, true, false, ◌||◌, ◌≡◌, sym, subst, arith, Option, none, List, [], ◌∷◌, ◌++◌, ◌==◌, All,
  Bool-cases, inl, inr,
}
use wasitter.QueryCursor.Options.{
  set_byte_range_e, set_point_range_e, set_match_limit, set_timeout_micros, set_max_start_depth,
}
use wasitter.QueryCursor.State.{QueuedCapture, Cursor}
use wasitter.QueryCursor.Stream.{
  is_removed, remove_match_e, close, match_loop, next_match, next_capture,
}
use wasitter.QueryCursor.Runs.{
  Call, id_of_match, id_of_capture, bytes_call, points_call, limit_call, timeout_call, depth_call,
  match_call, capture_call, remove_call, exec_call, close_call, step, returned, all_returned,
}
use wasitter.QueryCursor.Invariant.{step-IsValid, remove_match_e-IsValid}
use wasitter.QueryCursor.Clean.{
  AreKept, IsValid, first_drawn, IsClean-first_drawn, AreKept-match_loop,
}
use wasitter.Range.Filter.{QueryMatch}

-- A new execution counts its matches afresh.
abbrev pub is_exec : Call → Bool
is_exec (exec_call x) = true
is_exec _ = false

-- A cursor that will not return a match again.
abbrev Withholds : ℕ → Cursor → Type 0
Withholds id c = (c.is_closed || is_removed c.removed id) ≡ true

-- None of the numbers is the one given.
abbrev pub AllDiffer : ℕ → List ℕ → Type 0
AllDiffer id = All (λ (other : ℕ). (other == id) ≡ false)

differs :
    (removed : List ℕ) (id other : ℕ)
    → is_removed removed id ≡ true
    → is_removed removed other ≡ false
    → (other == id) ≡ false
differs removed id other h k = elim (Bool-cases (other == id)) [
  | inl e ↦ let same : other ≡ id = ground arith in ground (arith, same)
  | inr e ↦ e
]

AreKept-differ :
    (removed : List ℕ) (id : ℕ) (ids : List ℕ)
    → is_removed removed id ≡ true
    → AreKept removed ids
    → AllDiffer id ids
AreKept-differ removed id [] h k = tt
AreKept-differ removed id (other ∷ ids) h k =
    (differs removed id other h k.0, AreKept-differ removed id ids h k.1)

AllDiffer-append :
    (id : ℕ) (xs ys : List ℕ) → AllDiffer id xs → AllDiffer id ys → AllDiffer id (xs ++ ys)
AllDiffer-append id [] ys h k = k
AllDiffer-append id (x ∷ xs) ys h k = (h.0, AllDiffer-append id xs ys h.1 k)

module _ (equal : Node → Node → Bool) (ancestors : Node → List Node)
    (satisfies : QueryMatch → Bool) where
  step-Withholds :
      (c : Cursor) (call : Call) (id : ℕ)
      → is_exec call ≡ false
      → Withholds id c
      → Withholds id (step equal ancestors satisfies c call)
  unfolding step set_byte_range_e set_point_range_e set_match_limit set_timeout_micros
      set_max_start_depth next_match next_capture remove_match_e close is_removed
  step-Withholds c (bytes_call answer start end) id e h = ground arith
  step-Withholds c (points_call answer start end) id e h = ground arith
  step-Withholds c (limit_call n) id e h = ground arith
  step-Withholds c (timeout_call n) id e h = ground arith
  step-Withholds c (depth_call n) id e h = ground arith
  step-Withholds c (match_call stopped) id e h = ground arith
  step-Withholds c (capture_call stopped) id e h = ground arith
  step-Withholds c (remove_call tree_open other) id e h = ground arith
  step-Withholds c (exec_call x) id e h = ground arith
  step-Withholds c close_call id e h = ground arith

  next_match-Withholds :
      (c : Cursor) (stopped : Bool) (id : ℕ)
      → Withholds id c
      → AllDiffer id (id_of_match (next_match equal ancestors satisfies stopped c).found)
  unfolding next_match
  next_match-Withholds c stopped id h =
      let kept = AreKept-match_loop equal ancestors satisfies c.limits c.removed c.matches in
      let found = (match_loop equal ancestors satisfies c.limits c.removed c.matches).found in
      ground (arith, AreKept-differ c.removed id (id_of_match found))

  next_capture-Withholds :
      (c : Cursor) (stopped : Bool) (id : ℕ)
      → IsValid c
      → Withholds id c
      → AllDiffer id (id_of_capture (next_capture equal ancestors satisfies stopped c).found)
  unfolding next_capture
  next_capture-Withholds c true id valid h = ground arith
  next_capture-Withholds c false id (ranges, queue, idle) h =
      let drawn = first_drawn equal ancestors satisfies c in
      let kept = (IsClean-first_drawn equal ancestors satisfies c queue).0 in
      elim (Bool-cases c.is_closed) [
        | inl e ↦ ground arith
        | inr e ↦
            let shape : (next_capture equal ancestors satisfies false c).found ≡ drawn.found =
              ground arith in
            let removed : is_removed c.removed id ≡ true = ground arith in
            subst (λ (found : Option QueuedCapture). AllDiffer id (id_of_capture found)) (sym shape)
              (AreKept-differ c.removed id (id_of_capture drawn.found) removed kept)
      ]

  returned-Withholds :
      (c : Cursor) (call : Call) (id : ℕ)
      → IsValid c
      → Withholds id c
      → AllDiffer id (returned equal ancestors satisfies c call)
  unfolding returned next_match next_capture
  returned-Withholds c (match_call stopped) id valid h = next_match-Withholds c stopped id h
  returned-Withholds c (capture_call stopped) id valid h =
      next_capture-Withholds c stopped id valid h
  returned-Withholds c (bytes_call answer start end) id valid h = tt
  returned-Withholds c (points_call answer start end) id valid h = tt
  returned-Withholds c (limit_call n) id valid h = tt
  returned-Withholds c (timeout_call n) id valid h = tt
  returned-Withholds c (depth_call n) id valid h = tt
  returned-Withholds c (remove_call tree_open other) id valid h = tt
  returned-Withholds c (exec_call x) id valid h = tt
  returned-Withholds c close_call id valid h = tt

  all_returned-Withholds :
      (c : Cursor) (calls : List Call) (id : ℕ)
      → IsValid c
      → All (λ (call : Call). is_exec call ≡ false) calls
      → Withholds id c
      → AllDiffer id (all_returned equal ancestors satisfies c calls)
  unfolding all_returned
  all_returned-Withholds c [] id valid same h = tt
  all_returned-Withholds c (call ∷ calls) id valid same h =
      AllDiffer-append id (returned equal ancestors satisfies c call)
        (all_returned equal ancestors satisfies (step equal ancestors satisfies c call) calls)
        (returned-Withholds c call id valid h)
        (all_returned-Withholds (step equal ancestors satisfies c call) calls id
          (step-IsValid equal ancestors satisfies c call valid) same.1
          (step-Withholds c call id same.0 h))

  -- Once a match is removed from a valid cursor whose tree is open, no call but a new execution makes
  -- `NextMatch` or `NextCapture` return the match or a capture of it.
  pub remove_match_e-returned :
      (c : Cursor) (id : ℕ) (calls : List Call)
      → IsValid c
      → All (λ (call : Call). is_exec call ≡ false) calls
      → AllDiffer id
          (all_returned equal ancestors satisfies (remove_match_e false none c id).cursor calls)
  unfolding remove_match_e is_removed
  remove_match_e-returned c id calls valid same =
      let removed : Withholds id (remove_match_e false none c id).cursor = ground arith in
      all_returned-Withholds (remove_match_e false none c id).cursor calls id
        (remove_match_e-IsValid equal ancestors satisfies c none id valid) same removed
