-- ===== src/Utf16.antt =====
-- node.go: the UTF-16 code units that a node covers, whose offsets count UTF-8 bytes (`Utf16Text`,
-- `utf16UnitRangeForUTF8Bytes`). The parameters are utf16.Decode and, of a code point, the number of
-- its UTF-8 bytes, `len(string(r))`.
pub mod Laws
pub mod Covered
pub mod Bounds
use wasitter.Node.{Node}
use wasitter.Prelude.{
  ℕ, ◌+◌, ◌-◌, Bool, ◌&&◌, ◌||◌, not, Option, none, some, List, [], ◌∷◌, ltb, leb, ◌==◌,
  if◌then◌else◌, length, take, drop,
}

-- `^uint32(0)`
abbrev pub max_byte : ℕ
max_byte = 4294967295

-- `unicode.ReplacementChar`
abbrev pub replacement_char : ℕ
replacement_char = 65533

pub record Boundary : Type 0 where
  pub byte_offset : ℕ
  pub unit_offset : ℕ

abbrev pub boundary : ℕ → ℕ → Boundary
boundary byte unit = record { byte_offset = byte; unit_offset = unit }

abbrev pub is_high : ℕ → Bool
is_high r = leb 55296 r && leb r 56319

abbrev pub is_low : ℕ → Bool
is_low r = leb 56320 r && leb r 57343

-- The one code point of a decoded pair, unless it is the replacement character.
abbrev pub pair_of : List ℕ → Option ℕ
pair_of (d ∷ []) = if d == replacement_char then none else some d
pair_of _ = none

abbrev pub unit_or : ℕ → List ℕ → ℕ
unit_or r (d ∷ []) = d
unit_or r _ = r

abbrev pub cons_boundary : Boundary → Option (List Boundary) → Option (List Boundary)
cons_boundary b none = none
cons_boundary b (some bs) = some (b ∷ bs)

module _ (decode : List ℕ → List ℕ) (rune_length : ℕ → ℕ) where
  -- The code point of two units that are one.
  unfoldable pub paired : ℕ → ℕ → Option ℕ
  paired a b = if is_high a && is_low b then pair_of (decode (a ∷ b ∷ [])) else none

  -- Adds a boundary `width` bytes further; `none` where its offset is no uint32.
  abbrev pub step_to : ℕ → ℕ → (width units : ℕ) → Option (List Boundary) → Option (List Boundary)
  step_to byte unit width units rest =
      if ltb (max_byte - byte) width
      then none
      else cons_boundary (boundary (byte + width) (unit + units)) rest

  -- One round of the loop, by the code point of the next two units, if they are one: `width` is
  -- that of the next unit alone, `single` and `double` what follows either.
  unfoldable pub advance :
      ℕ
      → ℕ
      → Option ℕ
      → (width : ℕ) → Option (List Boundary)
      → (ℕ → Option (List Boundary))
      → Option (List Boundary)
  advance byte unit (some d) width single double = step_to byte unit (rune_length d) 2 (double d)
  advance byte unit none width single double = step_to byte unit width 1 single

  -- The loop: the boundaries behind each code point.
  unfoldable pub boundary_loop : ℕ → ℕ → List ℕ → Option (List Boundary)
  boundary_loop byte unit [] = some []
  boundary_loop byte unit (a ∷ []) =
      let width = rune_length (unit_or a (decode (a ∷ []))) in step_to byte unit width 1 (some [])
  boundary_loop byte unit (a ∷ b ∷ source) =
      let width = rune_length (unit_or a (decode (a ∷ []))) in
      let single = boundary_loop (byte + width) (unit + 1) (b ∷ source) in
      let double = λ (d : ℕ). boundary_loop (byte + rune_length d) (unit + 2) source in
      advance byte unit (paired a b) width single double

abbrev pub last_byte : ℕ → List Boundary → ℕ
last_byte byte [] = byte
last_byte byte (b ∷ bs) = last_byte b.byte_offset bs

-- `whole` is the length of the source.
unfoldable pub find_start : (whole target : ℕ) → List Boundary → ℕ
find_start whole target [] = whole
find_start whole target (b ∷ bs) =
    let rest = find_start whole target bs in
    if leb target b.byte_offset then b.unit_offset else rest

-- The last boundary that is not behind the target.
unfoldable pub last_before : ℕ → List Boundary → Option ℕ
last_before target [] = none
last_before target (b ∷ bs) = elim (last_before target bs) [
  | some u ↦ some u
  | none ↦ if leb b.byte_offset target then some b.unit_offset else none
]

abbrev pub or_0 : Option ℕ → ℕ
or_0 none = 0
or_0 (some u) = u

unfoldable pub find_end : ℕ → List Boundary → ℕ
unfolding last_before
find_end target bs = or_0 (last_before target bs)

unfoldable pub unit_range : (whole start_byte end_byte : ℕ) → List Boundary → Option (ℕ × ℕ)
unfolding find_start find_end
unit_range whole start_byte end_byte bs =
    let start = find_start whole start_byte bs in
    let end = find_end end_byte bs in
    if ltb (last_byte 0 bs) start_byte || ltb (last_byte 0 bs) end_byte
    then none
    else some (start, if ltb end start then start else end)

unfoldable pub range_of : ℕ → ℕ → ℕ → Option (List Boundary) → Option (ℕ × ℕ)
unfolding unit_range
range_of whole start_byte end_byte none = none
range_of whole start_byte end_byte (some bs) =
    unit_range whole start_byte end_byte (boundary 0 0 ∷ bs)

unfoldable pub slice_of : List ℕ → Option (ℕ × ℕ) → List ℕ
slice_of source none = []
slice_of source (some (start, end)) = take (end - start) (drop start source)

module _ (decode : List ℕ → List ℕ) (rune_length : ℕ → ℕ) where
  unfoldable pub utf16_unit_range_for_utf8_bytes : List ℕ → ℕ → ℕ → Option (ℕ × ℕ)
  unfolding boundary_loop range_of
  utf16_unit_range_for_utf8_bytes source start_byte end_byte =
      range_of (length source) start_byte end_byte (boundary_loop decode rune_length 0 0 source)

  unfoldable pub utf16_text : Node → List ℕ → List ℕ
  unfolding utf16_unit_range_for_utf8_bytes slice_of
  utf16_text n source =
      if length source == 0 || n.is_null
      then []
      else if ltb n.end_byte n.start_byte
      then []
      else slice_of source (utf16_unit_range_for_utf8_bytes source n.start_byte n.end_byte)
