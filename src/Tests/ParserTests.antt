-- ===== src/Tests/ParserTests.antt =====
-- Runs of the records of the guest and of the parser's host side.
use wasitter.Node.{Point}
use wasitter.Parser.IncludedRanges.{
  Parser, Guest, found, done, refused, bad_range, rejected, set_included_ranges,
}
use wasitter.Parser.Input.{collected, collect_utf8_input}
use wasitter.Parser.InputLaws.{Serves, collect_utf8_input-text}
use wasitter.Parser.RangeLaws.{IsSound, set_included_ranges-IsSound}
use wasitter.Prelude.{
  ℕ, ◌≡◌, refl, arith, true, false, some, List, [], ◌∷◌, Bytes, codes, drop, drop-append,
}
use wasitter.Wire.RoundTrip.{decode_ranges-encode_ranges}
use wasitter.Wire.{ByteRange, encode_ranges, decode_ranges}

abbrev point : ℕ → ℕ → Point
point r c = record { row = r; column = c }

abbrev range : ℕ → ℕ → ByteRange
range a b = record { start_byte = a; end_byte = b; start_point = point 0 a; end_point = point 0 b }

abbrev ranges : List ByteRange
ranges = range 2 5 ∷ range 5 4294967295 ∷ []

decode_ranges-encode_ranges_example :
    (b : Bytes) × (encode_ranges ranges ≡ some b) × (decode_ranges b 2 ≡ ranges)
decode_ranges-encode_ranges_example =
    decode_ranges-encode_ranges ranges (ground arith) (ground arith)

abbrev parser : Parser
parser = record { is_closed = false; handle = 3; included_ranges = [] }

-- A guest that writes at address 64 and answers 1.
abbrev guest : Guest
guest = record {
  has_runtime = true;
  is_open = true;
  keeps_runtime = true;
  lookup = found;
  alloc = λ n. some 64;
  write = λ ptr b. true;
  call = λ handle ptr n. some (1 ∷ []);
  is_closed_after = false;
}

abbrev refusing : Guest
refusing = record guest { call = λ handle ptr n. some (0 ∷ []) }

accepted :
    set_included_ranges guest parser parser ranges
    ≡ done (record parser { included_ranges = ranges })
unfolding set_included_ranges encode_ranges
accepted = refl

overlapping :
    set_included_ranges guest parser parser (range 2 5 ∷ range 4 6 ∷ [])
    ≡ refused (bad_range 1) parser
unfolding set_included_ranges
overlapping = refl

turned_down : set_included_ranges refusing parser parser ranges ≡ refused rejected parser
unfolding set_included_ranges encode_ranges
turned_down = refl

set_included_ranges-IsSound_example :
    IsSound parser ranges (set_included_ranges guest parser parser ranges)
set_included_ranges-IsSound_example = set_included_ranges-IsSound guest parser parser ranges

abbrev text : Bytes
text = codes "x\ny"

abbrev first_byte : Bytes → Bytes
first_byte [] = []
first_byte (c ∷ cs) = c ∷ []

-- The callback that serves the text byte by byte.
abbrev byte_by_byte : ℕ → ℕ → Point → Bytes
byte_by_byte call off p = first_byte (drop off text)

byte_by_byte-Serves : Serves byte_by_byte text
byte_by_byte-Serves call front [] e = rw (e, drop-append front []) refl
byte_by_byte-Serves call front (c ∷ left) e =
    rw (e, drop-append front (c ∷ left)) (c, [], left, refl, refl)

collect_utf8_input-text_example : collect_utf8_input byte_by_byte ≡ collected text
collect_utf8_input-text_example =
    collect_utf8_input-text byte_by_byte text byte_by_byte-Serves (omega arith)
