-- ===== src/Predicate.antt =====
-- query.go: query predicates, from the steps that the guest records to the test of a match.
pub mod Steps
pub mod Validate
pub mod Extract
pub mod Collect
pub mod Agreement
pub mod Complete
pub mod Evaluate
pub mod Retained
pub mod RetainedLaws
pub mod EvaluateLaws
pub mod AnyOfLaws
pub mod BufferLaws
