-- ===== src/Range.antt =====
-- query.go: the range and depth limits of a compatibility query cursor, on matches and on captures
-- (`filterFallbackMatches` to `nodeDepthFromRoot`).
pub mod Overlap
pub mod Filter
pub mod Laws
