-- ===== src/Parser/InputLaws.antt =====
-- parser.go: what `collectUTF8Input` collects from a callback that serves a text.
use mathlib.Core.List.{append_assoc, append-nil}
use wasitter.Node.{Point}
use wasitter.Parser.Input.{collected, max_calls, collect_loop, collect_utf8_input}
use wasitter.Prelude.{
  ℕ, zero, suc, ◌+◌, ◌%◌, ◌≤◌, ◌<◌, ◌≡◌, refl, sym, ap, ◌∙◌, arith, [], ◌∷◌, ◌++◌, false, ltb, ◌==◌,
  if◌then◌else◌, Bytes, length, length-append,
}
use wasitter.Wire.{point_after, point_for_bytes}

point_after-append :
    (p : Point) (xs ys : Bytes) → point_after p (xs ++ ys) ≡ point_after (point_after p xs) ys
unfolding point_after
point_after-append p [] ys = refl
point_after-append p (x ∷ xs) ys =
    point_after-append
      (record {
        row = if x == b'\n' then (p.row + 1) % 4294967296 else p.row;
        column = if x == b'\n' then 0 else (p.column + 1) % 4294967296;
      })
      xs ys

point_for_bytes-append :
    (xs ys : Bytes) → point_for_bytes (xs ++ ys) ≡ point_after (point_for_bytes xs) ys
unfolding point_for_bytes
point_for_bytes-append xs ys = point_after-append (record { row = 0; column = 0 }) xs ys

-- What is read is the start of what is left, and not empty before the end.
abbrev pub IsChunk : Bytes → Bytes → Type 0
IsChunk [] chunk = chunk ≡ []
IsChunk (c ∷ left) chunk =
    (d : ℕ) × (ds : Bytes) × (rest : Bytes) × (chunk ≡ d ∷ ds) × (c ∷ left ≡ chunk ++ rest)

module _ (read : ℕ → ℕ → Point → Bytes) (text : Bytes) where
  -- Asked at the end of what it has served, with the offset and the point there, the callback goes
  -- on. What it does at any other offset or point is left open.
  abbrev pub Serves : Type 0
  Serves =
      (call : ℕ) (front left : Bytes)
      → text ≡ front ++ left
      → IsChunk left (read call (length front) (point_for_bytes front))

  offset_same :
      (front left : Bytes)
      → length text ≤ 4294967295
      → text ≡ front ++ left
      → length front % 4294967296 ≡ length front
  offset_same front left small e = omega (arith, length-append front left, ap (length {A = ℕ}) e)

  not_too_long :
      (front chunk rest : Bytes)
      → length text ≤ 4294967295
      → text ≡ front ++ (chunk ++ rest)
      → ltb 4294967295 (length front + length chunk) ≡ false
  not_too_long front chunk rest small e =
      let size : length text ≡ length front + (length chunk + length rest) =
        ap (length {A = ℕ}) e
        ∙ omega (arith, length-append front (chunk ++ rest), length-append chunk rest) in
      ground (arith, size)

  collect_loop-text :
      (rounds call : ℕ) (front left : Bytes)
      → Serves
      → length text ≤ 4294967295
      → text ≡ front ++ left
      → length left < rounds
      → collect_loop read rounds call front (point_for_bytes front) ≡ collected text
  unfolding collect_loop
  collect_loop-text zero call front left serves small e h = elim h [ ]
  collect_loop-text (suc rounds) call front [] serves small e h =
      rw (offset_same front [] small e, serves call front [] e, collect_loop)
        (ap collected (sym (append-nil front) ∙ sym e))
  collect_loop-text (suc rounds) call front (c ∷ left) serves small e h =
      let (d, ds, rest, read_is, split) = serves call front (c ∷ left) e in
      let parts : c ∷ left ≡ d ∷ (ds ++ rest) = split ∙ ap (λ (b : Bytes). b ++ rest) read_is in
      let whole : text ≡ front ++ (d ∷ (ds ++ rest)) = e ∙ ap (◌++◌ front) parts in
      let sizes : length (c ∷ left) ≡ length (d ∷ ds) + length rest =
        ap (length {A = ℕ}) parts ∙ length-append (d ∷ ds) rest in
      rw
        (
          offset_same front (c ∷ left) small e,
          read_is,
          collect_loop,
          not_too_long front (d ∷ ds) rest small whole,
          ← point_for_bytes-append front (d ∷ ds),
        )
        (collect_loop-text rounds (call + 1) (front ++ d ∷ ds) rest serves small
          (whole ∙ sym (append_assoc front (d ∷ ds) rest)) (omega (arith, sizes)))

-- Where a callback serves a text of fewer than 2 ^ 20 bytes, piece by piece, the text is collected.
-- The callback has only to answer rightly at the places that it has come to: it is called with
-- their offset and with the point that `pointForBytes` gives for the text up to there.
pub collect_utf8_input-text :
    (read : ℕ → ℕ → Point → Bytes) (text : Bytes)
    → Serves read text
    → length text < max_calls
    → collect_utf8_input read ≡ collected text
unfolding collect_utf8_input point_for_bytes
collect_utf8_input-text read text serves small =
    collect_loop-text read text max_calls 0 [] text serves (omega arith) refl small
