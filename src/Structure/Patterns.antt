-- ===== src/Structure/Patterns.antt =====
-- query_fallback_validate.go: the suffixes of a pattern, `parsePattern`, and
-- `validateFallbackStructure`.
use wasitter.Prelude.{
  ℕ, zero, suc, ◌||◌, Option, [], ◌∷◌, ◌==◌, if◌then◌else◌, Bytes, bytes_eq, length,
}
use wasitter.Diagnostic.{QueryError, fallback_syntax_error}
use wasitter.Lexer.{at, is_query_ident_start_byte, ident_from, space_from}
use wasitter.Structure.Arguments.{Outcome, ok, err, out_of_fuel, ◌>>◌, Rec, spaced, identifier_then}
use wasitter.Structure.Nodes.{atom_at}

-- One quantifier or capture behind a pattern.
unfoldable pub suffix_at : Rec → Rec
suffix_at again pos [] = ok (at pos [])
suffix_at again pos (c ∷ cs) =
    if c == b'?' || c == b'*' || c == b'+'
    then again (suc pos) cs
    else if c == b'@'
    then identifier_then again pos (suc pos) cs
    else ok (at pos (c ∷ cs))

unfoldable pub suffix_loop : ℕ → Rec
unfolding suffix_at
suffix_loop zero pos rest = out_of_fuel
suffix_loop (suc fuel) pos rest = spaced (suffix_at (suffix_loop fuel)) pos rest

unfoldable pub suffixes : Rec
unfolding suffix_loop
suffixes pos rest = suffix_loop (suc (length rest)) pos rest

-- The error that is returned, `nil` for `accepted`; `undecided` is no result of the Go code.
pub data Verdict : Type 0 where
  accepted : Verdict
  rejected : QueryError → Verdict
  undecided : Verdict

unfoldable pub verdict_of : Bytes → Outcome → Verdict
verdict_of source (ok _) = accepted
verdict_of source (err e) = rejected (fallback_syntax_error source e)
verdict_of source out_of_fuel = undecided

module _ (unquote : Bytes → Option Bytes) where
  unfoldable pub parse_pattern : ℕ → Rec
  unfolding atom_at suffixes space_from ident_from is_query_ident_start_byte bytes_eq
  parse_pattern zero pos rest = out_of_fuel
  parse_pattern (suc fuel) pos rest =
      spaced (atom_at unquote (parse_pattern fuel)) pos rest >> suffixes

  -- The loop of `validateFallbackStructure`.
  unfoldable pub source_at : Rec → Rec
  source_at again pos [] = ok (at pos [])
  source_at again pos (c ∷ cs) = parse_pattern (suc (length (c ∷ cs))) pos (c ∷ cs) >> again

  unfoldable pub source_loop : ℕ → Rec
  unfolding source_at
  source_loop zero pos rest = out_of_fuel
  source_loop (suc fuel) pos rest = spaced (source_at (source_loop fuel)) pos rest

  unfoldable pub validate_fallback_structure : Bytes → Verdict
  unfolding source_loop parse_pattern verdict_of
  validate_fallback_structure source =
      verdict_of source (source_loop (suc (length source)) 0 source)
