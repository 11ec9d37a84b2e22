-- ===== src/Utf16/Covered.antt =====
-- node.go: the units that a node covers, by its byte offsets.
use mathlib.Core.List.{append_assoc}
use wasitter.Node.{Node}
use wasitter.Prelude.{
  ℕ, ◌+◌, ◌-◌, ◌≤◌, ◌<◌, false, ◌||◌, some, List, [], ◌∷◌, ◌++◌, ltb, ◌==◌, if_cases, ◌≡◌, refl,
  arith, length, take, drop, sym, ap, ◌∙◌, All, length-append, drop-append,
}
use wasitter.Utf16.Laws.{
  CodePoint, units, IsDecoded, bytes, marks, bytes-append, last_before-bytes, find_start-bytes,
  last_byte-marks, boundary_loop-marks,
}
use wasitter.Utf16.{
  max_byte, boundary, last_byte, find_start, or_0, find_end, unit_range, range_of, slice_of,
  utf16_unit_range_for_utf8_bytes, utf16_text,
}

units-append : (ps qs : List CodePoint) → units (ps ++ qs) ≡ units ps ++ units qs
units-append [] qs = refl
units-append (p ∷ ps) qs = rw (units-append ps qs, append_assoc) refl

take-length : (xs ys : List ℕ) → take (length xs) (xs ++ ys) ≡ xs
take-length [] ys = refl
take-length (x ∷ xs) ys = ap (◌∷◌ x) (take-length xs ys)

nil_of_length : (xs : List ℕ) → length xs ≡ 0 → xs ≡ []
nil_of_length [] e = refl
nil_of_length (x ∷ xs) e = absurd (omega (arith, e))

module _ (rune_length : ℕ → ℕ) (positive : (r : ℕ) → 0 < rune_length r) where
  find_end-bytes :
      (ps qs : List CodePoint)
      → find_end (bytes rune_length ps) (boundary 0 0 ∷ marks rune_length 0 0 (ps ++ qs))
        ≡ length (units ps)
  unfolding find_end
  find_end-bytes ps qs =
      let at = last_before-bytes rune_length positive 0 0 ps qs in
      let zero_more : 0 + bytes rune_length ps ≡ bytes rune_length ps = omega arith in
      ap or_0 (rw zero_more at at) ∙ omega arith

  start-bytes :
      (whole : ℕ) (ps qs : List CodePoint)
      → find_start whole (bytes rune_length ps) (boundary 0 0 ∷ marks rune_length 0 0 (ps ++ qs))
        ≡ length (units ps)
  start-bytes whole ps qs =
      let all = boundary 0 0 ∷ marks rune_length 0 0 (ps ++ qs) in
      let zero_more : bytes rune_length ps ≡ 0 + bytes rune_length ps = omega arith in
      ap (λ t. find_start whole t all) zero_more
      ∙ (find_start-bytes rune_length positive whole 0 0 ps qs ∙ omega arith)

  -- The range of the code points `inside`.
  unit_range-bytes :
      (whole : ℕ) (before inside after : List CodePoint)
      → unit_range whole
          (bytes rune_length before)
          (bytes rune_length (before ++ inside))
          (boundary 0 0 ∷ marks rune_length 0 0 ((before ++ inside) ++ after))
        ≡ some (length (units before), length (units (before ++ inside)))
  unfolding unit_range
  unit_range-bytes whole before inside after =
      let start = rw (← append_assoc) at (start-bytes whole before (inside ++ after)) in
      let end = find_end-bytes (before ++ inside) after in
      let last = last_byte-marks rune_length 0 0 ((before ++ inside) ++ after) in
      let b = bytes-append rune_length before inside in
      let c = bytes-append rune_length (before ++ inside) after in
      let u = length-append (units before) (units inside) in
      let joined = ap (λ (xs : List ℕ). length xs) (units-append before inside) in
      let fits : (ltb (last_byte 0 (marks rune_length 0 0 ((before ++ inside) ++ after)))
              (bytes rune_length before)
            || ltb (last_byte 0 (marks rune_length 0 0 ((before ++ inside) ++ after)))
                (bytes rune_length (before ++ inside)))
          ≡ false =
        ground (arith, last, b, c) in
      let ordered : ltb (length (units (before ++ inside))) (length (units before)) ≡ false =
        ground (arith, u, joined) in
      rw (fits, start, end, ordered) refl

slice-middle :
    (xs ys zs : List ℕ)
    → take (length (xs ++ ys) - length xs) (drop (length xs) (xs ++ (ys ++ zs))) ≡ ys
slice-middle xs ys zs =
    let count : length (xs ++ ys) - length xs ≡ length ys = omega (arith, length-append xs ys) in
    rw (count, drop-append xs (ys ++ zs)) (take-length ys zs)

-- Where the source is well-formed UTF-16 of less than 2 ^ 32 UTF-8 bytes, and utf16.Decode and the
-- UTF-8 lengths of code points agree with it, a node whose byte offsets are those around some of
-- its code points covers exactly their units.
pub utf16_text-units :
    (decode : List ℕ → List ℕ) (rune_length : ℕ → ℕ) (n : Node)
    (before inside after : List CodePoint)
    → ((r : ℕ) → 0 < rune_length r)
    → All (IsDecoded decode) ((before ++ inside) ++ after)
    → bytes rune_length ((before ++ inside) ++ after) ≤ max_byte
    → n.is_null ≡ false
    → n.start_byte ≡ bytes rune_length before
    → n.end_byte ≡ bytes rune_length (before ++ inside)
    → utf16_text decode rune_length n (units ((before ++ inside) ++ after)) ≡ units inside
unfolding utf16_text utf16_unit_range_for_utf8_bytes range_of slice_of
utf16_text-units decode rune_length n before inside after positive decoded small live start end =
    let loop =
      boundary_loop-marks decode rune_length 0 0 ((before ++ inside) ++ after) decoded
        (omega (arith, small)) in
    let source = units ((before ++ inside) ++ after) in
    let range = unit_range-bytes rune_length positive (length source) before inside after in
    let split : source ≡ units before ++ (units inside ++ units after) =
      rw (units-append (before ++ inside) after, units-append before inside, append_assoc) refl in
    let joined = units-append before inside in
    let ordered : ltb (bytes rune_length (before ++ inside)) (bytes rune_length before) ≡ false =
      ground (arith, bytes-append rune_length before inside) in
    let sliced : take (length (units (before ++ inside)) - length (units before))
          (drop (length (units before)) source)
        ≡ units inside =
      rw (split, joined) (slice-middle (units before) (units inside) (units after)) in
    let empty : length source ≡ 0 → [] ≡ units inside = λ z. sym (
      nil_of_length (units inside) (
        omega (
          arith,
          z,
          ap (λ (xs : List ℕ). length xs) split,
          length-append (units before) (units inside ++ units after),
          length-append (units inside) (units after),
        ))) in
    rw (live, start, end, ordered, loop, range)
      (if_cases (λ xs. xs ≡ units inside) (length source == 0 || false)
        (λ e. empty (ground (arith, e))) λ _. sliced)
