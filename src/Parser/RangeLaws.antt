-- ===== src/Parser/RangeLaws.antt =====
-- parser.go: what `SetIncludedRanges` accepts, and what it leaves behind.
use wasitter.Parser.IncludedRanges.{
  Parser, Guest, bad_range_from, kept_ranges, Outcome, done, refused, accept, call_guest,
  write_ranges, set_encoded, set_included_ranges,
}
use wasitter.Prelude.{
  ℕ, ◌+◌, ◌≤◌, ◌<◌, ◌≡◌, ◌↔◌, inl, inr, refl, arith, none, List, [], ◌∷◌, Bytes, All, Bool-cases,
}
use wasitter.Wire.{ByteRange}

-- Every range ends at or behind its start, and starts at or behind the end of every earlier one.
abbrev pub AreOrdered : List ByteRange → Type 0
AreOrdered [] = Unit
AreOrdered (r ∷ rs) =
    (r.start_byte ≤ r.end_byte)
    × All (λ (s : ByteRange). r.end_byte ≤ s.start_byte) rs
    × AreOrdered rs

-- The same from a bound on.
abbrev OrderedFrom : ℕ → List ByteRange → Type 0
OrderedFrom bound rs = All (λ (s : ByteRange). bound ≤ s.start_byte) rs × AreOrdered rs

All-weaken :
    (a b : ℕ) (rs : List ByteRange)
    → a ≤ b
    → All (λ (s : ByteRange). b ≤ s.start_byte) rs
    → All (λ (s : ByteRange). a ≤ s.start_byte) rs
All-weaken a b [] h all = tt
All-weaken a b (r ∷ rs) h all = (omega arith, All-weaken a b rs h all.1)

bad_range_from-OrderedFrom :
    (i bound : ℕ) (rs : List ByteRange)
    → 0 < i
    → (bad_range_from i bound rs ≡ none) ↔ OrderedFrom bound rs
unfolding bad_range_from
bad_range_from-OrderedFrom i bound [] h = (λ _. (tt, tt), λ _. refl)
bad_range_from-OrderedFrom i bound (r ∷ rs) h =
    let rest = bad_range_from-OrderedFrom (i + 1) r.end_byte rs (omega arith) in
    (λ e. ground (arith, rest, All-weaken bound r.end_byte rs), λ o. ground (arith, rest))

bad_range_from-AreOrdered : (rs : List ByteRange) → (bad_range_from 0 0 rs ≡ none) ↔ AreOrdered rs
unfolding bad_range_from
bad_range_from-AreOrdered [] = (λ _. tt, λ _. refl)
bad_range_from-AreOrdered (r ∷ rs) =
    let rest = bad_range_from-OrderedFrom 1 r.end_byte rs (omega arith) in
    (λ e. ground (arith, rest), λ o. ground (arith, rest))

-- What holds behind a call: the parser as it was with an error, or the ranges asked for, which are
-- in order.
abbrev pub IsSound : Parser → List ByteRange → Outcome → Type 0
IsSound p rs (refused e q) = q ≡ p
IsSound p rs (done q) = AreOrdered rs × (q ≡ record p { included_ranges = kept_ranges rs })

module _ (g : Guest) (p : Parser) (rs : List ByteRange) (ordered : AreOrdered rs) where
  accept-IsSound : IsSound p rs (accept g p rs)
  unfolding accept
  accept-IsSound = elim (Bool-cases g.is_closed_after) [
    | inl e ↦ rw e refl
    | inr e ↦ rw e (ordered, refl)
  ]

  call_guest-IsSound : (ptr : ℕ) → IsSound p rs (call_guest g p rs ptr)
  unfolding call_guest
  call_guest-IsSound ptr = ground (arith, accept-IsSound)

  write_ranges-IsSound : (b : Bytes) → IsSound p rs (write_ranges g p rs b)
  unfolding write_ranges
  write_ranges-IsSound [] = call_guest-IsSound 0
  write_ranges-IsSound (b ∷ bs) = ground (arith, λ (ptr : ℕ). call_guest-IsSound ptr)

  set_encoded-IsSound : (b : Bytes) → IsSound p rs (set_encoded g p rs b)
  unfolding set_encoded
  set_encoded-IsSound b = ground (arith, accept-IsSound, write_ranges-IsSound b)

-- Whatever the guest answers, `SetIncludedRanges` either returns an error and leaves the parser as
-- it was, or the ranges are in order, each behind all earlier ones, and are the parser's from then
-- on, the whole document standing for an empty list.
pub set_included_ranges-IsSound :
    (g : Guest) (before p : Parser) (rs : List ByteRange)
    → IsSound p rs (set_included_ranges g before p rs)
unfolding set_included_ranges
set_included_ranges-IsSound g before p rs = ground (arith, bad_range_from-AreOrdered rs)
