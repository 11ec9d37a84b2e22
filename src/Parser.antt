-- ===== src/Parser.antt =====
-- parser.go: the parts of `Parser` that the host computes itself: its included ranges, and the
-- input that it collects from a callback.
pub mod IncludedRanges
pub mod RangeLaws
pub mod Input
pub mod InputLaws
