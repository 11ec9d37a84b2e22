-- ===== src/Structure.antt =====
-- query_fallback_validate.go: `fallbackStructureParser`, which accepts or refuses the shape of a
-- query before the compatibility matcher reads it. The parser's `end` is the source's length, so
-- its state is the offset `pos` and the bytes from there to the end. The Boolean `topLevel` of
-- `parsePattern` is read only in `topLevel || !topLevel`, and is left out.
-- Loops run on fuel, which `out_of_fuel` reports.
pub mod Arguments
pub mod Nodes
pub mod Patterns
pub mod Bounds
pub mod NodeBounds
pub mod PatternBounds
pub mod Brackets
pub mod Matching
pub mod NodeMatching
pub mod PatternMatching
