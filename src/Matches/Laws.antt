-- ===== src/Matches/Laws.antt =====
-- query_iter.go: what repeated calls of `Next` give, of matches and of their captures.
use wasitter.Matches.{
  CollectedMatch, CollectedCapture, Next, consumed_one, consumed_if, next_match_of, of_removed,
  consumed_capture, next_capture_of,
}
use wasitter.Prelude.{
  ℕ, zero, suc, ◌+◌, ◌<◌, Bool, false, ◌&&◌, ◌||◌, none, some, List, [], ◌∷◌, if◌then◌else◌, ◌≡◌,
  refl, sym, ap, arith, length, Bool-cases, Option-cases, inl, inr, ◌∙◌,
}

module _ {A : Type 0} (next : ℕ → List A → Next A) where
  abbrev after_next : (ℕ → List A → List A × ℕ) → Next A → List A × ℕ
  after_next again n = elim n.found [
    | none ↦ ([], n.consumed)
    | some x ↦ (x ∷ (again n.consumed n.rest).0, (again n.consumed n.rest).1)
  ]

  -- All that the calls return until one returns nothing, and how many values were consumed then.
  unfoldable pub drain : (fuel consumed : ℕ) → List A → List A × ℕ
  drain zero consumed xs = ([], consumed)
  drain (suc fuel) consumed xs = after_next (drain fuel) (next consumed xs)

abbrev pub count : {A : Type 0} → (A → Bool) → List A → ℕ
count test [] = 0
count test (x ∷ xs) = let rest = count test xs in if test x then suc rest else rest

abbrev pub kept : {A : Type 0} → (A → Bool) → List A → List A
kept skipped [] = []
kept skipped (x ∷ xs) = let rest = kept skipped xs in if skipped x then rest else x ∷ rest

-- Both loops pass over what is skipped, and count what they pass and find of the stream.
module _ {A : Type 0} (skipped in_stream : A → Bool) where
  unfoldable pub search : ℕ → List A → Next A
  search consumed [] = record { found = none; rest = []; consumed = consumed }
  search consumed (x ∷ xs) =
      let counted = consumed_if (in_stream x) consumed in
      let later = search counted xs in
      if skipped x then later else record { found = some x; rest = xs; consumed = counted }

  abbrev pub total : ℕ → List A → ℕ
  total consumed [] = consumed
  total consumed (x ∷ xs) = total (consumed_if (in_stream x) consumed) xs

  pub total-count :
      (consumed : ℕ) (xs : List A)
      → consumed + count in_stream xs < 18446744073709551616
      → total consumed xs ≡ consumed + count in_stream xs
  unfolding consumed_one
  total-count consumed [] h = omega arith
  total-count consumed (x ∷ xs) h = elim (Bool-cases (in_stream x)) [
    | inl e ↦ ground (arith, total-count (consumed + 1) xs)
    | inr e ↦ ground (arith, total-count consumed xs)
  ]

  module _ (next : ℕ → List A → Next A)
      (same : (consumed : ℕ) (xs : List A) → next consumed xs ≡ search consumed xs) where
    pub drain-kept :
        (fuel consumed : ℕ) (xs : List A)
        → length xs < fuel
        → drain next fuel consumed xs ≡ (kept skipped xs, total consumed xs)
    unfolding drain search
    drain-kept zero consumed xs h = absurd (omega (arith, h))
    drain-kept (suc fuel) consumed [] h = ap (after_next next (drain next fuel)) (same consumed [])
    drain-kept (suc fuel) consumed (x ∷ xs) h =
        let counted = consumed_if (in_stream x) consumed in
        elim (Bool-cases (skipped x)) [
          | inl e ↦
              let step : next consumed (x ∷ xs) ≡ next counted xs =
                same consumed (x ∷ xs) ∙ rw e (sym (same counted xs)) in
              ap (after_next next (drain next fuel)) step
              ∙ drain-kept (suc fuel) counted xs (omega (arith, h))
              ∙ rw e refl
          | inr e ↦
              let step : next consumed (x ∷ xs)
                  ≡ record { found = some x; rest = xs; consumed = counted } =
                same consumed (x ∷ xs) ∙ rw e refl in
              ap (after_next next (drain next fuel)) step
              ∙ ap (λ (r : List A × ℕ). (x ∷ r.0, r.1))
                  (drain-kept fuel counted xs (omega (arith, h)))
              ∙ rw e refl
        ]

abbrev pub in_stream : CollectedCapture → Bool
in_stream c = c.has_stream || elim c.match_of [ some m ↦ m.has_stream | none ↦ false ]

consumed_capture-in_stream :
    (consumed : ℕ) (c : CollectedCapture)
    → consumed_capture consumed c ≡ consumed_if (in_stream c) consumed
consumed_capture-in_stream consumed c = elim (Bool-cases c.has_stream) [
  | inl e ↦ rw e refl
  | inr e ↦ elim (Option-cases c.match_of) [
    | inl none_there ↦ rw (e, none_there) refl
    | inr (m, there) ↦ rw (e, there) refl
  ]
]

module _ (removed : ℕ → Bool) where
  abbrev pub is_removed_match : CollectedMatch → Bool
  is_removed_match m = m.has_cursor && removed m.shown.id

  pub next_match_of-search :
      (consumed : ℕ) (ms : List CollectedMatch)
      → next_match_of removed consumed ms
        ≡ search is_removed_match (λ (m : CollectedMatch). m.has_stream) consumed ms
  unfolding next_match_of search
  next_match_of-search consumed [] = refl
  next_match_of-search consumed (m ∷ ms) =
      rw (next_match_of-search (consumed_if m.has_stream consumed) ms) refl

  pub next_capture_of-search :
      (consumed : ℕ) (cs : List CollectedCapture)
      → next_capture_of removed consumed cs ≡ search (of_removed removed) in_stream consumed cs
  unfolding next_capture_of search
  next_capture_of-search consumed [] = refl
  next_capture_of-search consumed (c ∷ cs) =
      rw
        (
          consumed_capture-in_stream consumed c,
          next_capture_of-search (consumed_if (in_stream c) consumed) cs,
        )
        refl
