-- ===== src/Archive.antt =====
-- internal/grammarbuild: the archives that grammars are built from.
pub mod Names
pub mod Extract
pub mod Registry
pub mod RegistryLaws
pub mod Below
pub mod ExtractLaws
