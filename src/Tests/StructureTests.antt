-- ===== src/Tests/StructureTests.antt =====
-- Runs of the structural validation and of its diagnostics.
use wasitter.Prelude.{codes, ◌≡◌, refl, Bytes, some, true, arith}
use wasitter.Diagnostic.Position.{PointsAt, fallback_syntax_error-PointsAt}
use wasitter.Diagnostic.{fallback_syntax_error}
use wasitter.Structure.Brackets.{well_bracketed}
use wasitter.Structure.PatternBounds.{IsDecided, validate_fallback_structure-IsDecided}
use wasitter.Structure.PatternMatching.{well_bracketed-validate_fallback_structure}
use wasitter.Structure.Patterns.{accepted, rejected, validate_fallback_structure}

-- A field, a capture, an anchor, alternatives with a string that holds a bracket, a negated field,
-- a comment with a bracket, a group and a predicate.
abbrev query : Bytes
query = codes "(pair key: (string) @k . value: [(number) \"x)\"]+ @v !f) ; (\n((a) (#eq? @k \"(\"))"

abbrev stray : Bytes
stray = codes "(pair)\n(number stray)"

accepts_query : validate_fallback_structure some query ≡ accepted
unfolding validate_fallback_structure
accepts_query = refl

rejects_stray : validate_fallback_structure some stray ≡ rejected (fallback_syntax_error stray 15)
unfolding validate_fallback_structure
rejects_stray = refl

rejects_open :
    validate_fallback_structure some (codes "(a (b)")
    ≡ rejected (fallback_syntax_error (codes "(a (b)") 6)
unfolding validate_fallback_structure
rejects_open = refl

stray_message : (fallback_syntax_error stray 15).message ≡ codes "(number stray)\n        ^"
unfolding fallback_syntax_error
stray_message = refl

validate_fallback_structure-IsDecided_example :
    IsDecided stray (validate_fallback_structure some stray)
validate_fallback_structure-IsDecided_example = validate_fallback_structure-IsDecided some stray

well_bracketed-validate_fallback_structure_example : well_bracketed query ≡ true
well_bracketed-validate_fallback_structure_example =
    well_bracketed-validate_fallback_structure some query accepts_query

fallback_syntax_error-PointsAt_example : PointsAt stray 15
fallback_syntax_error-PointsAt_example = fallback_syntax_error-PointsAt stray 15 (omega arith)
