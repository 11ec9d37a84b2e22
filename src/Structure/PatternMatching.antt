-- ===== src/Structure/PatternMatching.antt =====
-- query_fallback_validate.go: the brackets of patterns and of whole sources.
use wasitter.Prelude.{
  ℕ, zero, suc, ◌||◌, Option, some, true, false, [], ◌∷◌, ◌≡◌, refl, ◌∙◌, arith, ◌==◌, Bytes,
  length,
}
use wasitter.Lexer.{space_from}
use wasitter.Structure.Arguments.{Outcome, ok, err, out_of_fuel, ◌>>◌, Rec}
use wasitter.Structure.Patterns.{
  suffix_at, suffix_loop, suffixes, parse_pattern, source_at, source_loop, accepted, verdict_of,
  validate_fallback_structure,
}
use wasitter.Structure.Brackets.{code, brackets, is_special, well_bracketed, space_from-brackets}
use wasitter.Structure.Matching.{
  Balances, Keeps, nothing, Balances-fuel, Balances->>, Keeps-spaced, Balances-if, Balances-plain,
  identifier_then-Balances,
}
use wasitter.Structure.NodeMatching.{Keeps-stop, atom_at-Keeps}

suffix_at-Keeps : {again : Rec} → Keeps nothing again → Keeps nothing (suffix_at again)
unfolding suffix_at is_special
suffix_at-Keeps l pos [] = Keeps-stop pos []
suffix_at-Keeps l pos (c ∷ cs) =
    Balances-if (c == b'?' || c == b'*' || c == b'+')
      (λ h. Balances-plain nothing (ground arith) (l (suc pos) cs))
      λ _.
        Balances-if (c == b'@')
          (λ h.
            Balances-plain nothing (ground arith)
              (identifier_then-Balances nothing pos (suc pos) cs l))
          (λ _. Keeps-stop pos (c ∷ cs))

suffix_loop-Keeps : (fuel : ℕ) → Keeps nothing (suffix_loop fuel)
unfolding suffix_loop
suffix_loop-Keeps zero = λ pos rest. Balances-fuel
suffix_loop-Keeps (suc fuel) = Keeps-spaced nothing (suffix_at-Keeps (suffix_loop-Keeps fuel))

module _ (unquote : Bytes → Option Bytes) where
  parse_pattern-Keeps : (fuel : ℕ) → Keeps nothing (parse_pattern unquote fuel)
  unfolding parse_pattern suffixes
  parse_pattern-Keeps zero = λ pos rest. Balances-fuel
  parse_pattern-Keeps (suc fuel) = λ pos rest.
      Balances->> (Keeps-spaced nothing (atom_at-Keeps unquote (parse_pattern-Keeps fuel)) pos rest)
        (λ p left. suffix_loop-Keeps (suc (length left)) p left)

-- Where the whole text has been read, all of it was matched.
abbrev Whole : Bytes → Outcome → Type 0
Whole from (ok q) = brackets code (some []) from ≡ true
Whole from _ = Unit

Whole-from :
    (from to : Bytes) (r : Outcome)
    → brackets code (some []) from ≡ brackets code (some []) to
    → Whole to r
    → Whole from r
Whole-from from to (ok q) e w = e ∙ w
Whole-from from to (err e') e w = tt
Whole-from from to out_of_fuel e w = tt

Whole->> :
    (from : Bytes) (r : Outcome) (next : Rec)
    → Balances nothing from r
    → ((pos : ℕ) (rest : Bytes) → Whole rest (next pos rest))
    → Whole from (r >> next)
Whole->> from (ok q) next b w =
    Whole-from from q.rest (next q.pos q.rest) (b.closes []) (w q.pos q.rest)
Whole->> from (err e) next b w = tt
Whole->> from out_of_fuel next b w = tt

verdict_of-accepted :
    (source : Bytes) (r : Outcome)
    → verdict_of source r ≡ accepted
    → Whole source r
    → brackets code (some []) source ≡ true
unfolding verdict_of
verdict_of-accepted source (ok q) e w = w
verdict_of-accepted source (err e') e w = cc
verdict_of-accepted source out_of_fuel e w = cc

module _ (unquote : Bytes → Option Bytes) where
  source_at-Whole :
      (again : Rec)
      → ((pos : ℕ) (rest : Bytes) → Whole rest (again pos rest))
      → (pos : ℕ) (rest : Bytes) → Whole rest (source_at unquote again pos rest)
  unfolding source_at brackets
  source_at-Whole again w pos [] = refl
  source_at-Whole again w pos (c ∷ cs) =
      Whole->> (c ∷ cs) (parse_pattern unquote (suc (length (c ∷ cs))) pos (c ∷ cs)) again
        (parse_pattern-Keeps unquote (suc (length (c ∷ cs))) pos (c ∷ cs)) w

  source_loop-Whole : (fuel pos : ℕ) (rest : Bytes) → Whole rest (source_loop unquote fuel pos rest)
  unfolding source_loop
  source_loop-Whole zero pos rest = tt
  source_loop-Whole (suc fuel) pos rest =
      let q = space_from false pos rest in
      Whole-from rest q.rest (source_at unquote (source_loop unquote fuel) q.pos q.rest)
        (space_from-brackets false pos rest [])
        (source_at-Whole (source_loop unquote fuel) (source_loop-Whole fuel) q.pos q.rest)

  -- A query that the structural validation accepts has matched parentheses and brackets outside
  -- its string literals and comments, whatever `strconv.Unquote` accepts.
  pub well_bracketed-validate_fallback_structure :
      (source : Bytes)
      → validate_fallback_structure unquote source ≡ accepted
      → well_bracketed source ≡ true
  unfolding validate_fallback_structure well_bracketed
  well_bracketed-validate_fallback_structure source e =
      verdict_of-accepted source _ e (source_loop-Whole (suc (length source)) 0 source)
