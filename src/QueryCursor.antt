-- ===== src/QueryCursor.antt =====
-- query.go: `QueryCursor`, for a query whose matches the host finds.
pub mod State
pub mod Options
pub mod Stream
pub mod OptionLaws
pub mod MatchLaws
pub mod CaptureLaws
pub mod Runs
pub mod Clean
pub mod Invariant
pub mod Removal
