-- ===== src/Fallback.antt =====
-- query.go: the predicates in a query's text, for guests that compile no queries.
pub mod Tokens
pub mod TokensLaws
pub mod Validate
pub mod Scan
pub mod ScanBounds
pub mod Metadata
pub mod MetadataLaws
pub mod Complete
pub mod Kept
pub mod Agreement
