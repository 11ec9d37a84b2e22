-- ===== src/Tests.antt =====
-- Runs of the model on concrete values, and the theorems at concrete inputs.
mod StructureTests
mod RangeTests
mod IteratorTests
mod PredicateTests
mod TreeCursorTests
mod MoveTests
mod Utf16Tests
mod NavigationTests
mod SexpTests
mod CollectedTests
mod MatchTests
mod CommandTests
mod ParserTests
mod CursorTests
mod FallbackTests
mod ArchiveTests
mod RegistryTests
