-- ===== src/Wire/RoundTrip.antt =====
-- runtime.go, parser.go and tree.go: what is read back from the records that were written.
use wasitter.Node.{Point}
use wasitter.Prelude.{
  ℕ, zero, suc, ◌+◌, ◌*◌, ◌≤◌, ◌<◌, ◌≡◌, refl, sym, ap, ◌∙◌, arith, false, some, List, [], ◌∷◌,
  ◌++◌, ltb, Bytes, length, drop, drop-append, All,
}
use wasitter.Wire.{
  ByteRange, put_u32, u32_at, get_u32, pack_point, unpack_point, put_range, put_ranges, max_ranges,
  encode_ranges, get_range, decode_loop, decode_ranges,
}

abbrev pub IsU32 : ℕ → Type 0
IsU32 n = n < 4294967296

abbrev pub FitsPoint : Point → Type 0
FitsPoint p = IsU32 p.row × IsU32 p.column

-- Every field is a `uint32`.
abbrev pub Fits : ByteRange → Type 0
Fits r = IsU32 r.start_byte × IsU32 r.end_byte × FitsPoint r.start_point × FitsPoint r.end_point

u32_at-put_u32 : (n : ℕ) (rest : Bytes) → IsU32 n → u32_at (put_u32 n ++ rest) ≡ n
unfolding u32_at put_u32
u32_at-put_u32 n rest h = omega arith

-- Points pass through one 64-bit word.
pub unpack_point-pack_point : (p : Point) → FitsPoint p → unpack_point (pack_point p) ≡ p
unfolding unpack_point pack_point
unpack_point-pack_point p h = ground arith

drop-nil : (n : ℕ) → drop {A = ℕ} n [] ≡ []
drop-nil zero = refl
drop-nil (suc n) = refl

drop-add : (m n : ℕ) (b : Bytes) → drop (m + n) b ≡ drop n (drop m b)
drop-add zero n b = let same : zero + n ≡ n = omega arith in ap (λ (j : ℕ). drop j b) same
drop-add (suc m) n [] =
    let shift : suc m + n ≡ suc (m + n) = omega arith in
    ap (λ (j : ℕ). drop {A = ℕ} j []) shift ∙ sym (drop-nil n)
drop-add (suc m) n (c ∷ b) =
    let shift : suc m + n ≡ suc (m + n) = omega arith in
    ap (λ (j : ℕ). drop j (c ∷ b)) shift ∙ drop-add m n b

-- A field behind the `k` bytes `front` of a record.
field_at :
    (n k off j : ℕ) (front back b : Bytes)
    → drop off b ≡ front ++ (put_u32 n ++ back)
    → length front ≡ k
    → j ≡ off + k
    → IsU32 n
    → get_u32 b j ≡ n
unfolding get_u32
field_at n k off j front back b e size place h =
    rw (place, drop-add off k b, e, ← size, drop-append front (put_u32 n ++ back))
      (u32_at-put_u32 n back h)

range_eq :
    (r s : ByteRange)
    → r.start_byte ≡ s.start_byte
    → r.end_byte ≡ s.end_byte
    → r.start_point.row ≡ s.start_point.row
    → r.start_point.column ≡ s.start_point.column
    → r.end_point.row ≡ s.end_point.row
    → r.end_point.column ≡ s.end_point.column
    → r ≡ s
range_eq r s a b c d e f = ground arith

get_range-put_range :
    (r : ByteRange) (b rest : Bytes) (off : ℕ)
    → Fits r
    → drop off b ≡ put_range r ++ rest
    → get_range b off ≡ r
unfolding get_range put_range
get_range-put_range r b rest off (h0, h1, (h2, h3), (h4, h5)) e =
    let p0 = put_u32 r.start_byte in
    let p1 = p0 ++ put_u32 r.end_byte in
    let p2 = p1 ++ put_u32 r.start_point.row in
    let p3 = p2 ++ put_u32 r.start_point.column in
    let p4 = p3 ++ put_u32 r.end_point.row in
    let q4 = put_u32 r.end_point.column ++ rest in
    let q3 = put_u32 r.end_point.row ++ q4 in
    let q2 = put_u32 r.start_point.column ++ q3 in
    let q1 = put_u32 r.start_point.row ++ q2 in
    let q0 = put_u32 r.end_byte ++ q1 in
    range_eq (get_range b off) r (field_at r.start_byte 0 off off [] q0 b e refl (omega arith) h0)
      (field_at r.end_byte 4 off (off + 4) p0 q1 b e refl refl h1)
      (field_at r.start_point.row 8 off (off + 8) p1 q2 b e refl refl h2)
      (field_at r.start_point.column 12 off (off + 8 + 4) p2 q3 b e refl (omega arith) h3)
      (field_at r.end_point.row 16 off (off + 16) p3 q4 b e refl refl h4)
      (field_at r.end_point.column 20 off (off + 16 + 4) p4 rest b e refl (omega arith) h5)

length-put_ranges : (rs : List ByteRange) → length (put_ranges rs) ≡ length rs * 24
unfolding put_ranges
length-put_ranges [] = omega arith
length-put_ranges (r ∷ rs) = omega (arith, length-put_ranges rs)

put_ranges-cons :
    (r : ByteRange) (rs : List ByteRange) → put_ranges (r ∷ rs) ≡ put_range r ++ put_ranges rs
unfolding put_ranges
put_ranges-cons r rs = refl

behind_range : (r : ByteRange) (rs : List ByteRange) → drop 24 (put_ranges (r ∷ rs)) ≡ put_ranges rs
unfolding put_ranges
behind_range r rs = refl

decode_loop-put_ranges :
    (rs : List ByteRange) (b : Bytes) (off : ℕ)
    → All Fits rs
    → drop off b ≡ put_ranges rs
    → decode_loop b off (length rs) ≡ rs
unfolding decode_loop
decode_loop-put_ranges [] b off h e = refl
decode_loop-put_ranges (r ∷ rs) b off h e =
    let behind : drop (off + 24) b ≡ put_ranges rs =
      drop-add off 24 b ∙ ap (drop 24) e ∙ behind_range r rs in
    cc (
      get_range-put_range r b (put_ranges rs) off h.0 (e ∙ put_ranges-cons r rs),
      decode_loop-put_ranges rs b (off + 24) h.1 behind,
    )

not_ltb : (n : ℕ) → ltb n n ≡ false
not_ltb n = ground arith

-- A list of ranges with `uint32` fields, and no more of them than wasm32 memory can hold, is
-- encoded, and is read back from the bytes and the count as it was.
pub decode_ranges-encode_ranges :
    (rs : List ByteRange)
    → All Fits rs
    → length rs ≤ max_ranges
    → (b : Bytes) × (encode_ranges rs ≡ some b) × (decode_ranges b (length rs) ≡ rs)
unfolding encode_ranges decode_ranges
decode_ranges-encode_ranges rs h size = (
  put_ranges rs,
  ground arith,
  rw (length-put_ranges rs, not_ltb (length rs * 24))
      (decode_loop-put_ranges rs (put_ranges rs) 0 h refl),
)
