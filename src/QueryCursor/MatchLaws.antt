-- ===== src/QueryCursor/MatchLaws.antt =====
-- query.go: what `NextMatch` returns, call after call, on a `QueryCursor` that
-- is not changed in between.
use wasitter.Node.{Node}
use wasitter.Prelude.{
  ℕ, zero, suc, ◌<◌, Bool, false, not, ◌&&◌, ◌≡◌, refl, sym, ap, ◌∙◌, arith, none, some, List, [],
  ◌∷◌, if◌then◌else◌, length, inl, inr, Option-cases,
}
use wasitter.QueryCursor.State.{Cursor}
use wasitter.QueryCursor.Stream.{is_removed, Taken, match_loop, next_match}
use wasitter.Range.Filter.{Limits, QueryMatch, fallback_match_allowed}

module _ (equal : Node → Node → Bool) (ancestors : Node → List Node)
    (satisfies : QueryMatch → Bool) where
  -- The matches that are not removed, lie within the limits and satisfy their predicates.
  unfoldable pub visible_matches : Limits → List ℕ → List QueryMatch → List QueryMatch
  visible_matches limits removed [] = []
  visible_matches limits removed (m ∷ matches) =
      let rest = visible_matches limits removed matches in
      if not (is_removed removed m.id)
        && fallback_match_allowed equal ancestors limits m
        && satisfies m
      then m ∷ rest
      else rest

  -- What `NextMatch` returns, until it returns nothing.
  unfoldable pub drain_matches : ℕ → Cursor → List QueryMatch
  unfolding next_match
  drain_matches zero c = []
  drain_matches (suc fuel) c =
      let next = next_match equal ancestors satisfies false c in
      elim next.found [ none ↦ [] | some m ↦ m ∷ drain_matches fuel next.cursor ]

  abbrev of_taken : Limits → List ℕ → Taken → List QueryMatch
  of_taken limits removed taken = elim taken.found [
    | none ↦ []
    | some m ↦ m ∷ visible_matches limits removed taken.rest
  ]

  match_loop-visible_matches :
      (limits : Limits) (removed : List ℕ) (matches : List QueryMatch)
      → visible_matches limits removed matches
        ≡ of_taken limits removed (match_loop equal ancestors satisfies limits removed matches)
  unfolding visible_matches match_loop
  match_loop-visible_matches limits removed [] = refl
  match_loop-visible_matches limits removed (m ∷ matches) =
      ground (arith, match_loop-visible_matches limits removed matches)

  drain_matches-end :
      (fuel : ℕ) (c : Cursor)
      → (next_match equal ancestors satisfies false c).found ≡ none
      → drain_matches (suc fuel) c ≡ []
  unfolding drain_matches
  drain_matches-end fuel c e = rw (drain_matches, e) refl

  drain_matches-cons :
      (fuel : ℕ) (c : Cursor) (m : QueryMatch)
      → (next_match equal ancestors satisfies false c).found ≡ some m
      → drain_matches (suc fuel) c
        ≡ m ∷ drain_matches fuel (next_match equal ancestors satisfies false c).cursor
  unfolding drain_matches
  drain_matches-cons fuel c m e = rw (drain_matches, e) refl

  -- The cursor is open, and its limits stay.
  module _ (c : Cursor) (live : c.is_closed ≡ false) where
    abbrev taken : Taken
    taken = match_loop equal ancestors satisfies c.limits c.removed c.matches

    next_match-found : (next_match equal ancestors satisfies false c).found ≡ taken.found
    unfolding next_match
    next_match-found = ground arith

    next_match-visible :
        (behind : Cursor)
        → behind ≡ (next_match equal ancestors satisfies false c).cursor
        → (behind.is_closed ≡ false)
          × (visible_matches behind.limits behind.removed behind.matches
              ≡ visible_matches c.limits c.removed taken.rest)
    unfolding next_match
    next_match-visible behind e = ground arith

  pub drain_matches_lem :
      (fuel : ℕ) (c : Cursor)
      → c.is_closed ≡ false
      → length (visible_matches c.limits c.removed c.matches) < fuel
      → drain_matches fuel c ≡ visible_matches c.limits c.removed c.matches
  drain_matches_lem zero c live h = elim h [ ]
  drain_matches_lem (suc fuel) c live h =
      let step = match_loop-visible_matches c.limits c.removed c.matches in
      let next = next_match equal ancestors satisfies false c in
      let (still, same) = next_match-visible c live next.cursor refl in
      elim (Option-cases (taken c live).found) [
        | inl e ↦ drain_matches-end fuel c (next_match-found c live ∙ e) ∙ sym (rw (step, e) refl)
        | inr (m, e) ↦
            let shown : visible_matches c.limits c.removed c.matches
                ≡ m ∷ visible_matches next.cursor.limits next.cursor.removed next.cursor.matches =
              rw (step, e, same) refl in
            drain_matches-cons fuel c m (next_match-found c live ∙ e)
            ∙ ap (λ (l : List QueryMatch). m ∷ l)
                (drain_matches_lem fuel next.cursor still
                  (omega (arith, h, ap (length {A = QueryMatch}) shown)))
            ∙ sym shown
      ]
