-- ===== src/Structure/Bounds.antt =====
-- query_fallback_validate.go: the offsets at which the steps of the structural parser end, report
-- errors and run on fuel.
use wasitter.Prelude.{
  ℕ, zero, suc, ◌+◌, ◌-◌, ◌≤◌, ◌<◌, not, Option, [], ◌∷◌, ◌≡◌, arith, ◌==◌, if◌then◌else◌, Bool,
  true, Bytes, length, length-drop, false,
}
use wasitter.Lexer.{at, is_query_ident_start_byte, ident_from, space_from, skip_query_quoted_at}
use wasitter.Lexer.Bounds.{ident_from-Ahead, space_from-Ahead}
use wasitter.Structure.Arguments.{
  Outcome, ok, err, out_of_fuel, ◌>>◌, Rec, spaced, identifier_then, parse_quoted, quoted_or_error,
  predicate_at, predicate_loop, parse_predicate,
}

-- In a text that ends at `total`, a step stops with fewer than `bound` bytes left, or reports an
-- offset of the text.
abbrev pub Ends : ℕ → ℕ → Outcome → Type 0
Ends total bound (ok q) = (q.pos + length q.rest ≡ total) × (length q.rest < bound)
Ends total bound (err e) = e ≤ total
Ends total bound out_of_fuel = ⊥

pub record Within (total bound : ℕ) (r : Outcome) : Type 0 where
  pub ends : Ends total bound r

-- `step` is within its text wherever fewer than `start` bytes are left; with `slack` 0 it consumes
-- a byte at least, with `slack` 1 it may consume none.
abbrev pub Steps : ℕ → ℕ → ℕ → Rec → Type 0
Steps total start slack step =
    (pos : ℕ) (rest : Bytes)
    → pos + length rest ≡ total
    → length rest < start
    → Within total (slack + length rest) (step pos rest)

module _ (total : ℕ) where
  Ends-weaken : {low high : ℕ} (r : Outcome) → low ≤ high → Ends total low r → Ends total high r
  Ends-weaken (ok q) le h = (h.0, omega arith)
  Ends-weaken (err e) le h = h
  Ends-weaken out_of_fuel le h = h

  pub Within-weaken :
      {low high : ℕ} {r : Outcome} → low ≤ high → Within total low r → Within total high r
  Within-weaken {r = r} le h = record { ends = Ends-weaken r le h.ends }

  Ends->> :
      {low : ℕ} (r : Outcome) {next : Rec}
      → Ends total low r
      → Steps total low 1 next
      → Ends total low (r >> next)
  Ends->> (ok q) {next} h n =
      Ends-weaken (next q.pos q.rest) (omega arith) (n q.pos q.rest h.0 h.1).ends
  Ends->> (err e) h n = h
  Ends->> out_of_fuel h n = h

  pub Within->> :
      {low : ℕ} {r : Outcome} {next : Rec}
      → Within total low r
      → Steps total low 1 next
      → Within total low (r >> next)
  Within->> {r = r} h n = record { ends = Ends->> r h.ends n }

  pub Within-err : {e : ℕ} (bound : ℕ) → e ≤ total → Within total bound (err e)
  Within-err bound le = record { ends = le }

  pub Steps-spaced :
      (slack : ℕ) {start : ℕ} {step : Rec}
      → Steps total start slack step
      → Steps total start slack (spaced step)
  Steps-spaced slack s pos rest e lt =
      let q = space_from false pos rest in
      let a = space_from-Ahead false pos rest in
      Within-weaken (omega (arith, a.shorter))
        (s q.pos q.rest (omega (arith, a.total)) (omega (arith, a.shorter)))

  pub Steps-slack : {start : ℕ} {step : Rec} → Steps total start 0 step → Steps total start 1 step
  Steps-slack s pos rest e lt = Within-weaken (omega arith) (s pos rest e lt)

  pub Steps-fewer :
      (slack : ℕ) {low high : ℕ} {step : Rec}
      → low ≤ high
      → Steps total high slack step
      → Steps total low slack step
  Steps-fewer slack le s pos rest e lt = s pos rest e (omega arith)

  pub Within-if :
      {bound : ℕ} (b : Bool) {x y : Outcome}
      → Within total bound x
      → Within total bound y
      → Within total bound (if b then x else y)
  Within-if true hx hy = hx
  Within-if false hx hy = hy

  pub identifier_then-Within :
      {n : ℕ} {next : Rec} (start pos : ℕ) (rest : Bytes)
      → Steps total n 1 next
      → start ≤ total
      → pos + length rest ≡ total
      → length rest ≤ n
      → Within total (length rest) (identifier_then next start pos rest)
  unfolding identifier_then
  identifier_then-Within start pos [] h s e le = Within-err _ s
  identifier_then-Within start pos (c ∷ cs) h s e le =
      let q = ident_from (suc pos) cs in
      let a = ident_from-Ahead (suc pos) cs in
      Within-if (not (is_query_ident_start_byte c)) (Within-err _ s) (
        Within-weaken (omega (arith, a.shorter))
          (h q.pos q.rest (omega (arith, a.total)) (omega (arith, a.shorter))))

  -- A closing bracket, where the parser stops behind it.
  pub Within-close :
      (pos c : ℕ) (cs : Bytes)
      → pos + length (c ∷ cs) ≡ total
      → Within total (0 + length (c ∷ cs)) (ok (at (suc pos) cs))
  Within-close pos c cs e = record { ends = (omega arith, omega arith) }

  module _ (unquote : Bytes → Option Bytes) where
    pub quoted_or_error-Steps : (start : ℕ) → Steps total start 0 (quoted_or_error unquote)
    unfolding quoted_or_error parse_quoted
    quoted_or_error-Steps start pos [] e lt = ground arith
    quoted_or_error-Steps start pos (c ∷ cs) e lt =
        ground (arith, length-drop (skip_query_quoted_at pos (c ∷ cs) - pos) (c ∷ cs))

    predicate_at-Steps :
        {n : ℕ} {again : Rec}
        → Steps total n 1 again
        → Steps total (suc n) 0 (predicate_at unquote again)
    unfolding predicate_at
    predicate_at-Steps h pos [] e lt = Within-err _ (omega arith)
    predicate_at-Steps {n} h pos (c ∷ cs) e lt = Within-if (c == b')') (Within-close pos c cs e) (
        Within-if (c == b'@')
          (Within-weaken (omega arith)
            (identifier_then-Within pos (suc pos) cs h (omega arith) (omega arith) (omega arith)))
          (Within-if (c == b'"')
            (Within->> (quoted_or_error-Steps (suc n) pos (c ∷ cs) e lt)
              (Steps-fewer 1 (omega arith) h))
            (Within-weaken (omega arith)
              (identifier_then-Within pos pos (c ∷ cs) h (omega arith) e (omega arith)))))

    predicate_loop-Steps : (fuel : ℕ) → Steps total fuel 0 (predicate_loop unquote fuel)
    unfolding predicate_loop
    predicate_loop-Steps zero = λ pos rest e lt. absurd (omega arith)
    predicate_loop-Steps (suc fuel) =
        Steps-spaced 0 (predicate_at-Steps (Steps-slack (predicate_loop-Steps fuel)))

    -- `rest` is what stands behind the `#` or `.` at `start`.
    pub parse_predicate-Within :
        (start : ℕ) (rest : Bytes)
        → suc start + length rest ≡ total
        → Within total (suc (length rest)) (parse_predicate unquote start rest)
    unfolding parse_predicate
    parse_predicate-Within start rest e = Within-weaken (omega arith) (
        identifier_then-Within (start + 1) (suc start) rest
          (Steps-slack (predicate_loop-Steps (suc (length rest)))) (omega arith) e (omega arith))
