-- ===== src/Matches/Captures.antt =====
-- query_iter.go: the captures of a list of matches as a sequence of captures, read to its end.
use wasitter.Matches.Laws.{
  drain, count, kept, total-count, drain-kept, is_removed_match, in_stream, next_match_of-search,
  next_capture_of-search,
}
use wasitter.Matches.{
  CollectedMatch, CollectedCapture, next_match_of, of_removed, next_capture_of, shown_match,
}
use wasitter.Node.{Node}
use wasitter.Predicate.Evaluate.{QueryCapture}
use wasitter.Prelude.{
  ℕ, ◌+◌, ◌<◌, Bool, true, false, some, List, [], ◌∷◌, ◌++◌, ◌≡◌, refl, ap, arith, length, leb, map,
  Bool-cases, inl, inr, ◌∙◌,
}
use wasitter.Range.Filter.{QueryMatch}

abbrev pub has_stream : CollectedMatch → Bool
has_stream m = m.has_stream

-- The captures of a match from the place `i` on, as they stand in a sequence of captures.
abbrev captures_from : CollectedMatch → ℕ → List QueryCapture → List CollectedCapture
captures_from m i [] = []
captures_from m i (c ∷ cs) =
    record {
      capture = c;
      has_stream = m.has_stream;
      match_of = some m;
      match_id = m.shown.id;
      pattern = m.shown.pattern_index;
      ordinal = i;
    }
    ∷ captures_from m (i + 1) cs

abbrev pub all_captures : List CollectedMatch → List CollectedCapture
all_captures [] = []
all_captures (m ∷ ms) = captures_from m 0 m.shown.captures ++ all_captures ms

-- A match with each place of its captures.
abbrev places_from : QueryMatch → ℕ → List QueryCapture → List (QueryMatch × ℕ)
places_from m i [] = []
places_from m i (c ∷ cs) = (m, i) ∷ places_from m (i + 1) cs

abbrev pub all_places : List CollectedMatch → List (QueryMatch × ℕ)
all_places [] = []
all_places (m ∷ ms) = places_from m.shown 0 m.shown.captures ++ all_places ms

module _ (removed : ℕ → Bool) where
  kept-captures_from :
      (m : CollectedMatch) (i : ℕ) (cs : List QueryCapture) (rest : List CollectedCapture)
      → is_removed_match removed m ≡ false
      → kept (of_removed removed) (captures_from m i cs ++ rest)
        ≡ captures_from m i cs ++ kept (of_removed removed) rest
  kept-captures_from m i [] rest h = refl
  kept-captures_from m i (c ∷ cs) rest h = rw (h, kept-captures_from m (i + 1) cs rest h) refl

  kept-removed_captures :
      (m : CollectedMatch) (i : ℕ) (cs : List QueryCapture) (rest : List CollectedCapture)
      → is_removed_match removed m ≡ true
      → kept (of_removed removed) (captures_from m i cs ++ rest) ≡ kept (of_removed removed) rest
  kept-removed_captures m i [] rest h = refl
  kept-removed_captures m i (c ∷ cs) rest h = rw (h, kept-removed_captures m (i + 1) cs rest h) refl

  kept-all_captures :
      (ms : List CollectedMatch)
      → kept (of_removed removed) (all_captures ms)
        ≡ all_captures (kept (is_removed_match removed) ms)
  kept-all_captures [] = refl
  kept-all_captures (m ∷ ms) = elim (Bool-cases (is_removed_match removed m)) [
    | inl e ↦
        kept-removed_captures m 0 m.shown.captures (all_captures ms) e
        ∙ kept-all_captures ms
        ∙ rw e refl
    | inr e ↦
        kept-captures_from m 0 m.shown.captures (all_captures ms) e
        ∙ ap (λ (cs : List CollectedCapture). captures_from m 0 m.shown.captures ++ cs)
            (kept-all_captures ms)
        ∙ rw e refl
  ]

module _ (zero_node : Node) where
  shown_match-captures_from :
      (m : CollectedMatch) (i : ℕ) (cs : List QueryCapture) (rest : List CollectedCapture)
      → i + length cs ≡ length m.shown.captures
      → map (shown_match zero_node) (captures_from m i cs ++ rest)
        ≡ places_from m.shown i cs ++ map (shown_match zero_node) rest
  unfolding shown_match
  shown_match-captures_from m i [] rest h = refl
  shown_match-captures_from m i (c ∷ cs) rest h =
      let inside : leb (length m.shown.captures) i ≡ false = ground (arith, h) in
      rw (inside, shown_match-captures_from m (i + 1) cs rest (omega (arith, h))) refl

  shown_match-all_captures :
      (ms : List CollectedMatch) → map (shown_match zero_node) (all_captures ms) ≡ all_places ms
  shown_match-all_captures [] = refl
  shown_match-all_captures (m ∷ ms) =
      shown_match-captures_from m 0 m.shown.captures (all_captures ms) (omega arith)
      ∙ ap (λ (ps : List (QueryMatch × ℕ)). places_from m.shown 0 m.shown.captures ++ ps)
          (shown_match-all_captures ms)

-- With more fuel than there are values, and where the count of consumed values stays a uint64, the
-- calls of `Next` on a sequence of matches return those that are not removed, in order, and count
-- every value of the stream; and the calls of `Next` on the captures of all the matches return
-- each of the matches that are not removed once for each of its captures, with the capture's place
-- in it.
pub drain_captures-drain_matches :
    (removed : ℕ → Bool) (zero_node : Node) (ms : List CollectedMatch) (fuel fuel' consumed : ℕ)
    → length ms < fuel
    → length (all_captures ms) < fuel'
    → consumed + count has_stream ms < 18446744073709551616
    → consumed + count in_stream (all_captures ms) < 18446744073709551616
    → (drain (next_match_of removed) fuel consumed ms
        ≡ (kept (is_removed_match removed) ms, consumed + count has_stream ms))
      × (map
            (shown_match zero_node)
            (drain (next_capture_of removed) fuel' consumed (all_captures ms)).0
          ≡ all_places (drain (next_match_of removed) fuel consumed ms).0)
      × ((drain (next_capture_of removed) fuel' consumed (all_captures ms)).1
          ≡ consumed + count in_stream (all_captures ms))
drain_captures-drain_matches removed zero_node ms fuel fuel' consumed h h' b b' =
    let matches =
      drain-kept (is_removed_match removed) has_stream (next_match_of removed)
        (next_match_of-search removed) fuel consumed ms h in
    let streamed = total-count (is_removed_match removed) has_stream consumed ms b in
    let captures =
      drain-kept (of_removed removed) in_stream (next_capture_of removed)
        (next_capture_of-search removed) fuel' consumed (all_captures ms) h' in
    let counted = total-count (of_removed removed) in_stream consumed (all_captures ms) b' in
    rw (matches, captures)
      (
        ap (λ (n : ℕ). (kept (is_removed_match removed) ms, n)) streamed,
        ap (map (shown_match zero_node)) (kept-all_captures removed ms)
            ∙ shown_match-all_captures zero_node (kept (is_removed_match removed) ms),
        counted,
      )
