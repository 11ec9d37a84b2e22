-- ===== src/Wire.antt =====
-- runtime.go, parser.go and tree.go: the little-endian records that the host and the guest exchange
-- (`putU32`, `getU32`, `packPoint`, `encodeRanges`, `encodeInputEdit`, `decodeRanges`), and
-- `pointForBytes`. The writes into a fresh buffer go to one offset after the other, so a record is
-- its fields in a row. `int` is taken to have 64 bits, so that `hostInt` never fails.
pub mod RoundTrip
use wasitter.Node.{Point}
use wasitter.Prelude.{
  ℕ, zero, suc, ◌+◌, ◌*◌, ◌/◌, ◌%◌, Option, none, some, List, [], ◌∷◌, ◌++◌, ltb, ◌==◌,
  if◌then◌else◌, Bytes, length, drop,
}

-- `Range`
pub record ByteRange : Type 0 where
  pub start_byte : ℕ
  pub end_byte : ℕ
  pub start_point : Point
  pub end_point : Point

pub record InputEdit : Type 0 where
  pub start_byte : ℕ
  pub old_end_byte : ℕ
  pub new_end_byte : ℕ
  pub start_point : Point
  pub old_end_point : Point
  pub new_end_point : Point

-- The four bytes that `putU32` writes.
unfoldable pub put_u32 : ℕ → Bytes
put_u32 n = (n % 256) ∷ (n / 256 % 256) ∷ (n / 65536 % 256) ∷ (n / 16777216 % 256) ∷ []

-- The value of the first four bytes. With fewer the Go code panics.
unfoldable pub u32_at : Bytes → ℕ
u32_at (a ∷ b ∷ c ∷ d ∷ _) = a + 256 * b + 65536 * c + 16777216 * d
u32_at _ = 0

unfoldable pub get_u32 : Bytes → ℕ → ℕ
unfolding u32_at
get_u32 src off = u32_at (drop off src)

-- The two halves of a 64-bit word do not overlap, so `|` adds them.
unfoldable pub pack_point : Point → ℕ
pack_point p = p.row * 4294967296 + p.column

unfoldable pub unpack_point : ℕ → Point
unpack_point v = record { row = v / 4294967296 % 4294967296; column = v % 4294967296 }

unfoldable pub put_point : Point → Bytes
unfolding put_u32
put_point p = put_u32 p.row ++ put_u32 p.column

unfoldable pub put_range : ByteRange → Bytes
unfolding put_u32 put_point
put_range r =
    put_u32 r.start_byte ++ put_u32 r.end_byte ++ put_point r.start_point ++ put_point r.end_point

unfoldable pub put_ranges : List ByteRange → Bytes
unfolding put_range
put_ranges [] = []
put_ranges (r ∷ rs) = put_range r ++ put_ranges rs

-- The most records that wasm32 memory can hold.
abbrev pub max_ranges : ℕ
max_ranges = 4294967295 / 24

-- `none` is the error.
unfoldable pub encode_ranges : List ByteRange → Option Bytes
unfolding put_ranges
encode_ranges rs = if ltb max_ranges (length rs) then none else some (put_ranges rs)

unfoldable pub encode_input_edit : InputEdit → Bytes
unfolding put_u32 put_point
encode_input_edit e =
    put_u32 e.start_byte
    ++ (put_u32 e.old_end_byte
        ++ (put_u32 e.new_end_byte
            ++ (put_point e.start_point
                ++ (put_point e.old_end_point ++ put_point e.new_end_point))))

unfoldable pub get_point : Bytes → ℕ → Point
unfolding get_u32
get_point b off = record { row = get_u32 b off; column = get_u32 b (off + 4) }

-- The record at an offset.
unfoldable pub get_range : Bytes → ℕ → ByteRange
unfolding get_u32 get_point
get_range b off = record {
  start_byte = get_u32 b off;
  end_byte = get_u32 b (off + 4);
  start_point = get_point b (off + 8);
  end_point = get_point b (off + 16);
}

-- The loop of `decodeRanges`, with the records left and the offset of the next one.
unfoldable pub decode_loop : Bytes → ℕ → ℕ → List ByteRange
unfolding get_range
decode_loop b off zero = []
decode_loop b off (suc n) = get_range b off ∷ decode_loop b (off + 24) n

unfoldable pub decode_ranges : Bytes → ℕ → List ByteRange
unfolding decode_loop
decode_ranges b count =
    decode_loop b 0 (if ltb (length b) (count * 24) then length b / 24 else count)

-- The loop of `pointForBytes`, from a point on; the two coordinates are of type `uint32`.
unfoldable pub point_after : Point → Bytes → Point
point_after p [] = p
point_after p (c ∷ cs) =
    point_after
      (record {
        row = if c == b'\n' then (p.row + 1) % 4294967296 else p.row;
        column = if c == b'\n' then 0 else (p.column + 1) % 4294967296;
      })
      cs

unfoldable pub point_for_bytes : Bytes → Point
unfolding point_after
point_for_bytes b = point_after (record { row = 0; column = 0 }) b
