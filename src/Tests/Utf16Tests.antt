-- ===== src/Tests/Utf16Tests.antt =====
-- Runs of the unit ranges of nodes, with UTF-16 decoded for one or two units.
use wasitter.Node.{Node}
use wasitter.Prelude.{
  ℕ, ◌+◌, ◌-◌, ◌*◌, ◌<◌, false, ◌&&◌, some, List, [], ◌∷◌, ltb, if◌then◌else◌, ◌≡◌, refl, arith,
}
use wasitter.Utf16.Bounds.{IsSlice, utf16_unit_range_for_utf8_bytes-IsSlice}
use wasitter.Utf16.Covered.{utf16_text-units}
use wasitter.Utf16.Laws.{single, pair}
use wasitter.Utf16.{
  is_high, is_low, boundary_loop, paired, advance, utf16_unit_range_for_utf8_bytes, utf16_text,
}

abbrev decode : List ℕ → List ℕ
decode (a ∷ []) = (if is_high a then 65533 else if is_low a then 65533 else a) ∷ []
decode (a ∷ b ∷ []) =
    if is_high a && is_low b then ((a - 55296) * 1024 + (b - 56320) + 65536) ∷ [] else a ∷ b ∷ []
decode other = other

abbrev rune_length : ℕ → ℕ
rune_length r = if ltb r 128 then 1 else if ltb r 2048 then 2 else if ltb r 65536 then 3 else 4

abbrev covering : ℕ → ℕ → Node
covering start end = record {
  is_null = false;
  start_byte = start;
  end_byte = end;
  start_point = record { row = 0; column = 0 };
  end_point = record { row = 0; column = 0 };
  text = [];
}

-- "a", "é", U+1F600 and "b".
abbrev letters : List ℕ
letters = 97 ∷ 233 ∷ 55357 ∷ 56832 ∷ 98 ∷ []

covers_pair : utf16_text decode rune_length (covering 3 7) letters ≡ 55357 ∷ 56832 ∷ []
unfolding utf16_text boundary_loop paired advance
covers_pair = refl

-- Offsets inside a code point shrink the range to whole code points.
covers_nothing : utf16_unit_range_for_utf8_bytes decode rune_length letters 4 6 ≡ some (4, 4)
unfolding utf16_unit_range_for_utf8_bytes boundary_loop paired advance
covers_nothing = refl

-- A surrogate without its other half has the three bytes of the replacement character.
lone_surrogate :
    utf16_unit_range_for_utf8_bytes decode rune_length (55357 ∷ 97 ∷ []) 3 4 ≡ some (1, 2)
unfolding utf16_unit_range_for_utf8_bytes boundary_loop paired advance
lone_surrogate = refl

rune_length-positive : (r : ℕ) → 0 < rune_length r
rune_length-positive r = ground arith

utf16_text-units_example :
    utf16_text decode rune_length (covering 1 7) letters ≡ 233 ∷ 55357 ∷ 56832 ∷ []
utf16_text-units_example =
    utf16_text-units decode rune_length (covering 1 7) (single 97 ∷ [])
      (single 233 ∷ pair 55357 56832 128512 ∷ []) (single 98 ∷ []) rune_length-positive
      ((refl, refl), ((refl, refl), ((refl, refl, omega arith, refl), ((refl, refl), tt))))
      (omega arith) refl refl refl

utf16_unit_range_for_utf8_bytes-IsSlice_example :
    IsSlice 2 (utf16_unit_range_for_utf8_bytes decode rune_length (55357 ∷ 97 ∷ []) 4 1)
utf16_unit_range_for_utf8_bytes-IsSlice_example =
    utf16_unit_range_for_utf8_bytes-IsSlice decode rune_length (55357 ∷ 97 ∷ []) 4 1
