-- ===== src/QueryCursor/Clean.antt =====
-- query.go: captures and matches of a `QueryCursor` that are not removed.
use wasitter.Node.{Node}
use wasitter.Predicate.Evaluate.{QueryCapture}
use wasitter.Prelude.{
  ℕ, ◌+◌, Bool, true, false, not, ◌&&◌, ◌||◌, ◌≡◌, refl, sym, subst, arith, List, [], ◌∷◌, leb, All,
  Bool-cases, inl, inr, Option-cases,
}
use wasitter.QueryCursor.Options.{is_after}
use wasitter.QueryCursor.State.{QueuedCapture, Cursor}
use wasitter.QueryCursor.Stream.{
  is_removed, without_match, Drawn, match_loop, flatten, draw_queued, or_else, capture_loop,
}
use wasitter.QueryCursor.Runs.{id_of_match, id_of_capture}
use wasitter.Range.Filter.{Limits, QueryMatch, fallback_capture_allowed}

-- Both ranges are in order, no capture waits of a match that is removed, and a closed cursor has
-- nothing left and holds no tree.
abbrev pub in_order : Limits → Bool
in_order l =
    (not l.byte_range_set || leb l.byte_start l.byte_end)
    && (not l.point_range_set || not (is_after l.point_start l.point_end))

abbrev pub is_idle : Cursor → Bool
is_idle c = elim c.matches [
  | m ∷ ms ↦ false
  | [] ↦ elim c.queue [ q ∷ qs ↦ false | [] ↦ not c.retains_tree ]
]

abbrev pub NotRemoved : List ℕ → List QueuedCapture → Type 0
NotRemoved removed = All (λ (q : QueuedCapture). is_removed removed q.match_id ≡ false)

abbrev pub AreKept : List ℕ → List ℕ → Type 0
AreKept removed = All (λ (id : ℕ). is_removed removed id ≡ false)

-- Neither a capture that is found nor one behind it is of a match that is removed.
abbrev pub IsClean : List ℕ → Drawn → Type 0
IsClean removed drawn = AreKept removed (id_of_capture drawn.found) × NotRemoved removed drawn.queue

abbrev pub IsValid : Cursor → Type 0
IsValid c =
    (in_order c.limits ≡ true)
    × NotRemoved c.removed c.queue
    × ((not c.is_closed || is_idle c) ≡ true)

module _ (equal : Node → Node → Bool) (ancestors : Node → List Node)
    (satisfies : QueryMatch → Bool) where
  pub NotRemoved-draw_queued :
      (limits : Limits) (removed : List ℕ) (queue : List QueuedCapture) (matches : List QueryMatch)
      → NotRemoved removed queue
      → IsClean removed (draw_queued equal ancestors satisfies limits queue matches)
  unfolding draw_queued
  NotRemoved-draw_queued limits removed [] matches h = (tt, tt)
  NotRemoved-draw_queued limits removed (q ∷ queue) matches h =
      let rest = NotRemoved-draw_queued limits removed queue matches h.1 in
      elim (Bool-cases (fallback_capture_allowed equal ancestors limits q.capture)) [
        | inl e ↦ rw e ((h.0, tt), h.1)
        | inr e ↦ rw e rest
      ]

  NotRemoved-flatten :
      (limits : Limits) (removed : List ℕ) (m : QueryMatch) (ordinal : ℕ)
      (captures : List QueryCapture)
      → is_removed removed m.id ≡ false
      → NotRemoved removed (flatten equal ancestors satisfies limits m ordinal captures)
  unfolding flatten
  NotRemoved-flatten limits removed m ordinal [] h = tt
  NotRemoved-flatten limits removed m ordinal (x ∷ captures) h =
      let rest = NotRemoved-flatten limits removed m (ordinal + 1) captures h in
      elim (Bool-cases (fallback_capture_allowed equal ancestors limits x)) [
        | inl e ↦ rw e (h, rest)
        | inr e ↦ rw e rest
      ]

  pub IsClean-or_else :
      (removed : List ℕ) (drawn next : Drawn)
      → IsClean removed drawn
      → IsClean removed next
      → IsClean removed (or_else equal ancestors satisfies drawn next)
  IsClean-or_else removed drawn next h k = elim (Option-cases drawn.found) [
    | inl e ↦ rw e k
    | inr (q, e) ↦
        let same : or_else equal ancestors satisfies drawn next ≡ drawn = rw e refl in
        subst (IsClean removed) (sym same) h
  ]

  pub IsClean-capture_loop :
      (limits : Limits) (removed : List ℕ) (matches : List QueryMatch)
      → IsClean removed (capture_loop equal ancestors satisfies limits removed matches)
  unfolding capture_loop
  IsClean-capture_loop limits removed [] = (tt, tt)
  IsClean-capture_loop limits removed (m ∷ matches) =
      let rest = IsClean-capture_loop limits removed matches in
      let captures = flatten equal ancestors satisfies limits m 0 m.captures in
      elim (Bool-cases (is_removed removed m.id)) [
        | inl e ↦ rw e rest
        | inr e ↦ elim (Bool-cases (satisfies m)) [
          | inl s ↦
              rw (e, s)
                (IsClean-or_else removed
                  (draw_queued equal ancestors satisfies limits captures matches)
                  (capture_loop equal ancestors satisfies limits removed matches)
                  (NotRemoved-draw_queued limits removed captures matches
                    (NotRemoved-flatten limits removed m 0 m.captures e))
                  rest)
          | inr s ↦ rw (e, s) rest
        ]
      ]

  -- What `NextCapture` draws from an open cursor.
  abbrev pub first_drawn : Cursor → Drawn
  first_drawn c =
      or_else equal ancestors satisfies
        (draw_queued equal ancestors satisfies c.limits c.queue c.matches)
        (capture_loop equal ancestors satisfies c.limits c.removed c.matches)

  pub IsClean-first_drawn :
      (c : Cursor) → NotRemoved c.removed c.queue → IsClean c.removed (first_drawn c)
  IsClean-first_drawn c queue =
      IsClean-or_else c.removed (draw_queued equal ancestors satisfies c.limits c.queue c.matches)
        (capture_loop equal ancestors satisfies c.limits c.removed c.matches)
        (NotRemoved-draw_queued c.limits c.removed c.queue c.matches queue)
        (IsClean-capture_loop c.limits c.removed c.matches)

  pub AreKept-match_loop :
      (limits : Limits) (removed : List ℕ) (matches : List QueryMatch)
      → AreKept removed
          (id_of_match (match_loop equal ancestors satisfies limits removed matches).found)
  unfolding match_loop
  AreKept-match_loop limits removed [] = tt
  AreKept-match_loop limits removed (m ∷ matches) =
      ground (arith, AreKept-match_loop limits removed matches)

  pub NotRemoved-without_match :
      (id : ℕ) (removed : List ℕ) (queue : List QueuedCapture)
      → NotRemoved removed queue
      → NotRemoved (id ∷ removed) (without_match id queue)
  unfolding without_match is_removed
  NotRemoved-without_match id removed [] h = tt
  NotRemoved-without_match id removed (q ∷ queue) h =
      ground (arith, NotRemoved-without_match id removed queue h.1)
