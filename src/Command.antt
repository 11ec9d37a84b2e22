-- ===== src/Command.antt =====
-- cmd/wasitter-build/main.go: the command line.
pub mod Args
pub mod ArgsLaws
pub mod Flags
pub mod Mount
pub mod Csv
pub mod Newlines
pub mod MountLaws
