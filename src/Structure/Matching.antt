-- ===== src/Structure/Matching.antt =====
-- The brackets that each step of the structural parser reads: the facts that the steps share,
-- quoted literals and predicates.
use wasitter.Prelude.{
  ℕ, zero, suc, ◌+◌, ◌-◌, not, ◌||◌, Option, some, Option-cases, Bool, inl, inr, true, false, List,
  [], ◌∷◌, ◌≡◌, refl, ◌∙◌, arith, ◌==◌, if◌then◌else◌, Bytes, length, drop,
}
use wasitter.Lexer.{
  At, at, is_query_ident_start_byte, is_query_ident_continue_byte, ident_from, quoted_from,
  skip_query_quoted_at, space_from,
}
use wasitter.Lexer.Bounds.{quoted_from-Ahead, quoted_from-drop}
use wasitter.Structure.Arguments.{
  Outcome, ok, err, out_of_fuel, ◌>>◌, Rec, spaced, identifier_then, parse_quoted, quoted_or_error,
  predicate_at, predicate_loop, parse_predicate,
}
use wasitter.Structure.Brackets.{
  code, brackets, Matched, is_special, brackets_plain, ident_byte_plain, space_from-brackets,
  ident_from-brackets, quoted_from-brackets,
}

-- From `from` to where the step stops, the reader closes what `opened` puts on its stack.
abbrev Closes : (List ℕ → List ℕ) → Bytes → Outcome → Type 0
Closes opened from (ok q) =
    (st : List ℕ) → brackets code (some (opened st)) from ≡ brackets code (some st) q.rest
Closes opened from _ = Unit

pub record Balances (opened : List ℕ → List ℕ) (from : Bytes) (r : Outcome) : Type 0 where
  pub closes : Closes opened from r

abbrev pub Keeps : (List ℕ → List ℕ) → Rec → Type 0
Keeps opened step = (pos : ℕ) (rest : Bytes) → Balances opened rest (step pos rest)

abbrev pub nothing : List ℕ → List ℕ
nothing st = st

abbrev pub opened : ℕ → List ℕ → List ℕ
opened c st = c ∷ st

pub Balances-err : {f : List ℕ → List ℕ} {from : Bytes} {e : ℕ} → Balances f from (err e)
Balances-err = record { closes = tt }

pub Balances-fuel : {f : List ℕ → List ℕ} {from : Bytes} → Balances f from out_of_fuel
Balances-fuel = record { closes = tt }

Closes-from :
    (f g : List ℕ → List ℕ) (from to : Bytes) (r : Outcome)
    → ((st : List ℕ) → brackets code (some (f st)) from ≡ brackets code (some (g st)) to)
    → Closes g to r
    → Closes f from r
Closes-from f g from to (ok q) h c = λ st. h st ∙ c st
Closes-from f g from to (err e) h c = tt
Closes-from f g from to out_of_fuel h c = tt

-- What the reader has read already.
pub Balances-from :
    {f g : List ℕ → List ℕ} {from to : Bytes} {r : Outcome}
    → ((st : List ℕ) → brackets code (some (f st)) from ≡ brackets code (some (g st)) to)
    → Balances g to r
    → Balances f from r
Balances-from {f} {g} {from} {to} {r} h b = record { closes = Closes-from f g from to r h b.closes }

Closes->> :
    (f : List ℕ → List ℕ) (from : Bytes) (r : Outcome) (next : Rec)
    → Closes nothing from r
    → Keeps f next
    → Closes f from (r >> next)
Closes->> f from (ok q) next c k =
    Closes-from f f from q.rest (next q.pos q.rest) (λ st. c (f st)) (k q.pos q.rest).closes
Closes->> f from (err e) next c k = tt
Closes->> f from out_of_fuel next c k = tt

pub Balances->> :
    {f : List ℕ → List ℕ} {from : Bytes} {r : Outcome} {next : Rec}
    → Balances nothing from r
    → Keeps f next
    → Balances f from (r >> next)
Balances->> {f} {from} {r} {next} b k = record { closes = Closes->> f from r next b.closes k }

pub Keeps-spaced : (f : List ℕ → List ℕ) {step : Rec} → Keeps f step → Keeps f (spaced step)
Keeps-spaced f k pos rest =
    Balances-from (λ st. space_from-brackets false pos rest (f st))
      (k (space_from false pos rest).pos (space_from false pos rest).rest)

pub Balances-if :
    {f : List ℕ → List ℕ} {from : Bytes} (b : Bool) {x y : Outcome}
    → (b ≡ true → Balances f from x)
    → (b ≡ false → Balances f from y)
    → Balances f from (if b then x else y)
Balances-if true hx hy = hx refl
Balances-if false hx hy = hy refl

-- The step stops behind the bracket that was open.
pub Balances-close :
    (pos b c : ℕ) (cs : Bytes)
    → (b == b')' || b == b']') ≡ true
    → (c == b) ≡ true
    → Balances (opened b) (c ∷ cs) (ok (at pos cs))
unfolding brackets
Balances-close pos b c cs h e = record { closes = λ st. ground arith }

pub Balances-plain :
    (f : List ℕ → List ℕ) {c : ℕ} {cs : Bytes} {r : Outcome}
    → is_special c ≡ false
    → Balances f cs r
    → Balances f (c ∷ cs) r
Balances-plain f {c} {cs} h b = Balances-from (λ st. brackets_plain c cs h (f st)) b

start_byte_continues :
    (c : ℕ) → is_query_ident_start_byte c ≡ true → is_query_ident_continue_byte c ≡ true
unfolding is_query_ident_continue_byte
start_byte_continues c h = ground arith

-- An identifier holds no bracket.
pub ident_behind :
    (pos c : ℕ) (cs : Bytes)
    → is_query_ident_start_byte c ≡ true
    → Matched (c ∷ cs) (ident_from (suc pos) cs).rest
ident_behind pos c cs h st =
    brackets_plain c cs (ident_byte_plain c (start_byte_continues c h)) st
    ∙ ident_from-brackets (suc pos) cs st

pub identifier_then-Balances :
    (f : List ℕ → List ℕ) {next : Rec} (start pos : ℕ) (rest : Bytes)
    → Keeps f next
    → Balances f rest (identifier_then next start pos rest)
unfolding identifier_then
identifier_then-Balances f start pos [] k = Balances-err
identifier_then-Balances f start pos (c ∷ cs) k =
    Balances-if (not (is_query_ident_start_byte c)) (λ _. Balances-err)
      λ h.
        Balances-from (λ st. ident_behind pos c cs (ground arith) (f st))
          (k (ident_from (suc pos) cs).pos (ident_from (suc pos) cs).rest)

-- A quoted literal is read up to its end, whatever stands in it.
literal_behind :
    (pos c : ℕ) (cs : Bytes)
    → (c == b'"') ≡ true
    → Matched (c ∷ cs) (drop (skip_query_quoted_at pos (c ∷ cs) - pos) (c ∷ cs))
unfolding skip_query_quoted_at brackets
literal_behind pos c cs h st =
    let q = quoted_from false (suc pos) cs in
    let a = quoted_from-Ahead false (suc pos) cs in
    let size : q.pos - pos ≡ suc (q.pos - suc pos) = omega (arith, a.total, a.shorter) in
    let left : q.rest ≡ drop (q.pos - suc pos) cs =
      quoted_from-drop false (suc pos) (q.pos - suc pos) cs (omega (arith, a.total, a.shorter)) in
    ground (arith, size, left, quoted_from-brackets false (suc pos) cs st)

module _ (unquote : Bytes → Option Bytes) where
  parse_quoted-rest :
      (pos c : ℕ) (cs : Bytes) {q : At}
      → parse_quoted unquote pos (c ∷ cs) ≡ some q
      → ((c == b'"') ≡ true) × (q.rest ≡ drop (skip_query_quoted_at pos (c ∷ cs) - pos) (c ∷ cs))
  unfolding parse_quoted
  parse_quoted-rest pos c cs e = ground arith

  pub quoted_or_error-Keeps : Keeps nothing (quoted_or_error unquote)
  unfolding quoted_or_error
  quoted_or_error-Keeps pos [] = unfold parse_quoted in Balances-err
  quoted_or_error-Keeps pos (c ∷ cs) = elim (Option-cases (parse_quoted unquote pos (c ∷ cs))) [
    | inl e ↦ rw (e, quoted_or_error) Balances-err
    | inr (q, e) ↦
        let (h, left) = parse_quoted-rest pos c cs e in
        rw (e, quoted_or_error) (record { closes = rw left (literal_behind pos c cs h) })
  ]

  predicate_at-Keeps :
      {again : Rec} → Keeps (opened b')') again → Keeps (opened b')') (predicate_at unquote again)
  unfolding predicate_at is_special
  predicate_at-Keeps k pos [] = Balances-err
  predicate_at-Keeps k pos (c ∷ cs) =
      Balances-if (c == b')') (λ h. Balances-close (suc pos) b')' c cs refl h)
        λ _.
          Balances-if (c == b'@')
            (λ h.
              Balances-plain (opened b')') (ground arith)
                (identifier_then-Balances (opened b')') pos (suc pos) cs k))
            λ _.
              Balances-if (c == b'"') (λ _. Balances->> (quoted_or_error-Keeps pos (c ∷ cs)) k)
                λ _. identifier_then-Balances (opened b')') pos pos (c ∷ cs) k

  predicate_loop-Keeps : (fuel : ℕ) → Keeps (opened b')') (predicate_loop unquote fuel)
  unfolding predicate_loop
  predicate_loop-Keeps zero = λ pos rest. Balances-fuel
  predicate_loop-Keeps (suc fuel) =
      Keeps-spaced (opened b')') (predicate_at-Keeps (predicate_loop-Keeps fuel))

  pub parse_predicate-Keeps : Keeps (opened b')') (parse_predicate unquote)
  unfolding parse_predicate
  parse_predicate-Keeps start rest =
      identifier_then-Balances (opened b')') (start + 1) (suc start) rest
        (predicate_loop-Keeps (suc (length rest)))
