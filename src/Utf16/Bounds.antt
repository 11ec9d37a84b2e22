-- ===== src/Utf16/Bounds.antt =====
-- node.go: the unit range of any source, well-formed or not, lies within it.
use wasitter.Prelude.{
  ℕ, ◌+◌, ◌-◌, ◌≤◌, ◌||◌, Option, none, some, List, [], ◌∷◌, ltb, leb, if_cases, arith, length, All,
  Option-cases, inl, inr,
}
use wasitter.Utf16.{
  max_byte, Boundary, boundary, cons_boundary, unit_or, paired, advance, step_to, boundary_loop,
  last_byte, last_before, find_start, or_0, find_end, unit_range, range_of,
  utf16_unit_range_for_utf8_bytes,
}

abbrev AreWithin : ℕ → List Boundary → Type 0
AreWithin whole = All (λ b. b.unit_offset ≤ whole)

abbrev Within : ℕ → Option (List Boundary) → Type 0
Within whole none = Unit
Within whole (some bs) = AreWithin whole bs

cons_boundary-Within :
    (whole : ℕ) (b : Boundary) (o : Option (List Boundary))
    → b.unit_offset ≤ whole
    → Within whole o
    → Within whole (cons_boundary b o)
cons_boundary-Within whole b none h w = tt
cons_boundary-Within whole b (some bs) h w = (h, w)

module _ (decode : List ℕ → List ℕ) (rune_length : ℕ → ℕ) (whole : ℕ) where
  step_to-Within :
      (byte unit width units : ℕ) (o : Option (List Boundary))
      → unit + units ≤ whole
      → Within whole o
      → Within whole (step_to decode rune_length byte unit width units o)
  step_to-Within byte unit width units o h w =
      if_cases (Within whole) (ltb (max_byte - byte) width) (λ _. tt)
        λ _. cons_boundary-Within whole (boundary (byte + width) (unit + units)) o h w

  advance-Within :
      (byte unit width : ℕ) (o : Option ℕ) (single : Option (List Boundary))
      (double : ℕ → Option (List Boundary))
      → unit + 2 ≤ whole
      → Within whole single
      → ((d : ℕ) → Within whole (double d))
      → Within whole (advance decode rune_length byte unit o width single double)
  unfolding advance
  advance-Within byte unit width none single double h s d =
      step_to-Within byte unit width 1 single (omega arith) s
  advance-Within byte unit width (some r) single double h s d =
      step_to-Within byte unit (rune_length r) 2 (double r) h (d r)

  boundary_loop-Within :
      (byte unit : ℕ) (source : List ℕ)
      → unit + length source ≤ whole
      → Within whole (boundary_loop decode rune_length byte unit source)
  unfolding boundary_loop
  boundary_loop-Within byte unit [] h = tt
  boundary_loop-Within byte unit (a ∷ []) h =
      step_to-Within byte unit (rune_length (unit_or a (decode (a ∷ [])))) 1 (some []) (omega arith)
        tt
  boundary_loop-Within byte unit (a ∷ b ∷ source) h =
      let width = rune_length (unit_or a (decode (a ∷ []))) in
      advance-Within byte unit width (paired decode rune_length a b)
        (boundary_loop decode rune_length (byte + width) (unit + 1) (b ∷ source))
        (λ d. boundary_loop decode rune_length (byte + rune_length d) (unit + 2) source)
        (omega arith) (boundary_loop-Within (byte + width) (unit + 1) (b ∷ source) (omega arith))
        λ d. boundary_loop-Within (byte + rune_length d) (unit + 2) source (omega arith)

find_start-bound :
    (whole target : ℕ) (bs : List Boundary)
    → AreWithin whole bs
    → find_start whole target bs ≤ whole
unfolding find_start
find_start-bound whole target [] w = omega arith
find_start-bound whole target (b ∷ bs) (h, w) =
    let rest = find_start-bound whole target bs w in
    if_cases (λ u. u ≤ whole) (leb target b.byte_offset) (λ _. h) λ _. rest

last_before-bound :
    (whole target : ℕ) (bs : List Boundary)
    → AreWithin whole bs
    → or_0 (last_before target bs) ≤ whole
unfolding last_before
last_before-bound whole target [] w = omega arith
last_before-bound whole target (b ∷ bs) (h, w) =
    let rest = last_before-bound whole target bs w in
    elim (Option-cases (last_before target bs)) [
      | inr (u, e) ↦ rw e (rw e at rest)
      | inl e ↦
          rw e (if_cases (λ o. or_0 o ≤ whole) (leb b.byte_offset target) (λ _. h) λ _. omega arith)
    ]

-- A range of units from one place to a later one, both in the source.
abbrev pub IsSlice : ℕ → Option (ℕ × ℕ) → Type 0
IsSlice whole none = Unit
IsSlice whole (some (start, end)) = (start ≤ end) × (end ≤ whole)

unit_range-IsSlice :
    (whole start_byte end_byte : ℕ) (bs : List Boundary)
    → AreWithin whole bs
    → IsSlice whole (unit_range whole start_byte end_byte bs)
unfolding unit_range find_end
unit_range-IsSlice whole start_byte end_byte bs w =
    let start = find_start-bound whole start_byte bs w in
    let end = last_before-bound whole end_byte bs w in
    let past = ltb (last_byte 0 bs) start_byte || ltb (last_byte 0 bs) end_byte in
    let crossed = ltb (or_0 (last_before end_byte bs)) (find_start whole start_byte bs) in
    if_cases (IsSlice whole) past (λ _. tt)
      λ _.
        if_cases (λ e. (find_start whole start_byte bs ≤ e) × (e ≤ whole)) crossed
          (λ _. (omega arith, start)) λ c. (ground (arith, c), end)

range_of-IsSlice :
    (whole start_byte end_byte : ℕ) (o : Option (List Boundary))
    → Within whole o
    → IsSlice whole (range_of whole start_byte end_byte o)
unfolding range_of
range_of-IsSlice whole start_byte end_byte none w = tt
range_of-IsSlice whole start_byte end_byte (some bs) w =
    unit_range-IsSlice whole start_byte end_byte (boundary 0 0 ∷ bs) (omega arith, w)

-- For every source, well-formed or not, every utf16.Decode and all byte offsets, the unit range is
-- none or a slice of the source: its start is not behind its end, nor its end behind the source's.
pub utf16_unit_range_for_utf8_bytes-IsSlice :
    (decode : List ℕ → List ℕ) (rune_length : ℕ → ℕ) (source : List ℕ) (start_byte end_byte : ℕ)
    → IsSlice
        (length source)
        (utf16_unit_range_for_utf8_bytes decode rune_length source start_byte end_byte)
unfolding utf16_unit_range_for_utf8_bytes
utf16_unit_range_for_utf8_bytes-IsSlice decode rune_length source start_byte end_byte =
    range_of-IsSlice (length source) start_byte end_byte
      (boundary_loop decode rune_length 0 0 source)
      (boundary_loop-Within decode rune_length (length source) 0 0 source (omega arith))
