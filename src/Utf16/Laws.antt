-- ===== src/Utf16/Laws.antt =====
-- node.go: the units that a node covers are those of the code points that it covers.
use wasitter.Prelude.{
  ℕ, ◌+◌, ◌≤◌, ◌<◌, ◌≢◌, true, false, none, some, List, [], ◌∷◌, ◌++◌, leb, ◌==◌, if◌then◌else◌,
  ◌≡◌, refl, arith, length, sym, ap, ◌∙◌, All, length-append,
}
use wasitter.Utf16.{
  max_byte, replacement_char, Boundary, boundary, is_high, is_low, cons_boundary, paired, advance,
  step_to, boundary_loop, last_byte, find_start, last_before,
}

-- A code point in UTF-16: one unit, or a pair of surrogates that stands for `code`.
pub data CodePoint : Type 0 where
  single : (unit : ℕ) → CodePoint
  pair : (high low code : ℕ) → CodePoint

abbrev pub units_of : CodePoint → List ℕ
units_of (single u) = u ∷ []
units_of (pair h l d) = h ∷ l ∷ []

abbrev pub code_of : CodePoint → ℕ
code_of (single u) = u
code_of (pair h l d) = d

abbrev pub units : List CodePoint → List ℕ
units [] = []
units (p ∷ ps) = units_of p ++ units ps

-- What utf16.Decode makes of the code point: itself.
abbrev pub IsDecoded : (List ℕ → List ℕ) → CodePoint → Type 0
IsDecoded decode (single u) = (is_high u ≡ false) × (decode (u ∷ []) ≡ u ∷ [])
IsDecoded decode (pair h l d) =
    (is_high h ≡ true) × (is_low l ≡ true) × (d ≢ replacement_char) × (decode (h ∷ l ∷ []) ≡ d ∷ [])

last_before-some :
    (target u : ℕ) (b : Boundary) (bs : List Boundary)
    → last_before target bs ≡ some u
    → last_before target (b ∷ bs) ≡ some u
unfolding last_before
last_before-some target u b bs e = rw e refl

last_before-none :
    (target : ℕ) (b : Boundary) (bs : List Boundary)
    → last_before target bs ≡ none
    → last_before target (b ∷ bs) ≡ (if leb b.byte_offset target then some b.unit_offset else none)
unfolding last_before
last_before-none target b bs e = rw e refl

find_start_past :
    (whole target : ℕ) (b : Boundary) (bs : List Boundary)
    → leb target b.byte_offset ≡ false
    → find_start whole target (b ∷ bs) ≡ find_start whole target bs
unfolding find_start
find_start_past whole target b bs e = rw e refl

module _ (rune_length : ℕ → ℕ) where
  abbrev pub bytes : List CodePoint → ℕ
  bytes [] = 0
  bytes (p ∷ ps) = rune_length (code_of p) + bytes ps

  -- The boundaries behind the code points.
  abbrev pub marks : ℕ → ℕ → List CodePoint → List Boundary
  marks byte unit [] = []
  marks byte unit (p ∷ ps) =
      boundary (byte + rune_length (code_of p)) (unit + length (units_of p))
      ∷ marks (byte + rune_length (code_of p)) (unit + length (units_of p)) ps

  pub bytes-append : (ps qs : List CodePoint) → bytes (ps ++ qs) ≡ bytes ps + bytes qs
  bytes-append [] qs = omega arith
  bytes-append (p ∷ ps) qs = omega (arith, bytes-append ps qs)

  module _ (positive : (r : ℕ) → 0 < rune_length r) where
    last_before-marks :
        (target byte unit : ℕ) (ps : List CodePoint)
        → target ≤ byte
        → last_before target (marks byte unit ps) ≡ none
    unfolding last_before
    last_before-marks target byte unit [] h = refl
    last_before-marks target byte unit (p ∷ ps) h =
        let here = positive (code_of p) in
        let past : leb (byte + rune_length (code_of p)) target ≡ false = ground (arith, here) in
        rw
          (
            last_before-marks target (byte + rune_length (code_of p)) (unit + length (units_of p))
                ps (omega arith),
            past,
          )
          refl

    pub last_before-bytes :
        (byte unit : ℕ) (ps qs : List CodePoint)
        → last_before (byte + bytes ps) (boundary byte unit ∷ marks byte unit (ps ++ qs))
          ≡ some (unit + length (units ps))
    unfolding last_before
    last_before-bytes byte unit [] qs =
        let here : leb byte (byte + 0) ≡ true = ground arith in
        let none_after = last_before-marks (byte + 0) byte unit qs (omega arith) in
        let at = last_before-none (byte + 0) (boundary byte unit) (marks byte unit qs) none_after in
        at ∙ rw here (ap some (omega arith))
    last_before-bytes byte unit (p ∷ ps) qs =
        let width = rune_length (code_of p) in
        let count = length (units_of p) in
        let shift : byte + width + bytes ps ≡ byte + (width + bytes ps) = omega arith in
        let rest = rw shift at (last_before-bytes (byte + width) (unit + count) ps qs) in
        last_before-some (byte + (width + bytes ps)) (unit + count + length (units ps))
          (boundary byte unit)
          (boundary (byte + width) (unit + count) ∷ marks (byte + width) (unit + count) (ps ++ qs))
          rest
        ∙ ap some (omega (arith, length-append (units_of p) (units ps)))

    pub find_start-bytes :
        (whole byte unit : ℕ) (ps qs : List CodePoint)
        → find_start whole (byte + bytes ps) (boundary byte unit ∷ marks byte unit (ps ++ qs))
          ≡ unit + length (units ps)
    unfolding find_start
    find_start-bytes whole byte unit [] qs =
        let here : leb (byte + 0) byte ≡ true = ground arith in rw here (omega arith)
    find_start-bytes whole byte unit (p ∷ ps) qs =
        let width = rune_length (code_of p) in
        let z = positive (code_of p) in
        let later : leb (byte + (width + bytes ps)) byte ≡ false = ground (arith, z) in
        let shift : byte + width + bytes ps ≡ byte + (width + bytes ps) = omega arith in
        let count = length (units_of p) in
        let rest_of =
          boundary (byte + width) (unit + count) ∷ marks (byte + width) (unit + count) (ps ++ qs) in
        let moved = ap (λ t. find_start whole t rest_of) (sym shift) in
        let rest = find_start-bytes whole (byte + width) (unit + count) ps qs in
        find_start_past whole (byte + (width + bytes ps)) (boundary byte unit) rest_of later
        ∙ (moved ∙ rest ∙ omega (arith, length-append (units_of p) (units ps)))

  pub last_byte-marks :
      (byte unit : ℕ) (ps : List CodePoint) → last_byte byte (marks byte unit ps) ≡ byte + bytes ps
  last_byte-marks byte unit [] = omega arith
  last_byte-marks byte unit (p ∷ ps) =
      omega
        (arith, last_byte-marks (byte + rune_length (code_of p)) (unit + length (units_of p)) ps)

module _ (decode : List ℕ → List ℕ) (rune_length : ℕ → ℕ) where
  step_to-fits :
      (byte unit width count : ℕ) (bs : List Boundary)
      → byte + width ≤ max_byte
      → step_to decode rune_length byte unit width count (some bs)
        ≡ some (boundary (byte + width) (unit + count) ∷ bs)
  step_to-fits byte unit width count bs h = ground arith

  paired-single : (a b : ℕ) → is_high a ≡ false → paired decode rune_length a b ≡ none
  unfolding paired
  paired-single a b high = rw high refl

  paired-pair : (a b d : ℕ) → IsDecoded decode (pair a b d) → paired decode rune_length a b ≡ some d
  unfolding paired
  paired-pair a b d (high, low, n, e) =
      let differs : (d == replacement_char) ≡ false = ground (arith, n) in
      rw (high, low, e, differs) refl

  loop_of_single :
      (byte unit a : ℕ) (source : List ℕ) (bs : List Boundary)
      → is_high a ≡ false
      → decode (a ∷ []) ≡ a ∷ []
      → byte + rune_length a ≤ max_byte
      → boundary_loop decode rune_length (byte + rune_length a) (unit + 1) source ≡ some bs
      → boundary_loop decode rune_length byte unit (a ∷ source)
        ≡ some (boundary (byte + rune_length a) (unit + 1) ∷ bs)
  unfolding boundary_loop advance
  loop_of_single byte unit a [] bs high d h rest = rw d (
      step_to-fits byte unit (rune_length a) 1 [] h
      ∙ ap (cons_boundary (boundary (byte + rune_length a) (unit + 1))) rest)
  loop_of_single byte unit a (b ∷ source) bs high d h rest =
      rw (paired-single a b high, d, rest) (step_to-fits byte unit (rune_length a) 1 bs h)

  loop_of_pair :
      (byte unit a b d : ℕ) (source : List ℕ) (bs : List Boundary)
      → IsDecoded decode (pair a b d)
      → byte + rune_length d ≤ max_byte
      → boundary_loop decode rune_length (byte + rune_length d) (unit + 2) source ≡ some bs
      → boundary_loop decode rune_length byte unit (a ∷ b ∷ source)
        ≡ some (boundary (byte + rune_length d) (unit + 2) ∷ bs)
  unfolding boundary_loop advance
  loop_of_pair byte unit a b d source bs p h rest =
      rw (paired-pair a b d p, rest) (step_to-fits byte unit (rune_length d) 2 bs h)

  -- The loop on well-formed UTF-16.
  pub boundary_loop-marks :
      (byte unit : ℕ) (ps : List CodePoint)
      → All (IsDecoded decode) ps
      → byte + bytes rune_length ps ≤ max_byte
      → boundary_loop decode rune_length byte unit (units ps)
        ≡ some (marks rune_length byte unit ps)
  unfolding boundary_loop
  boundary_loop-marks byte unit [] w h = refl
  boundary_loop-marks byte unit (single u ∷ ps) ((high, d), w) h =
      loop_of_single byte unit u (units ps) (marks rune_length (byte + rune_length u) (unit + 1) ps)
        high d (omega arith)
        (boundary_loop-marks (byte + rune_length u) (unit + 1) ps w (omega arith))
  boundary_loop-marks byte unit (pair a b d ∷ ps) (p, w) h =
      loop_of_pair byte unit a b d (units ps)
        (marks rune_length (byte + rune_length d) (unit + 2) ps) p (omega arith)
        (boundary_loop-marks (byte + rune_length d) (unit + 2) ps w (omega arith))
