-- ===== src/Tests/RegistryTests.antt =====
-- Runs of the checks of a registry of two grammars.
use wasitter.Archive.Registry.{
  Grammar, Registry, Pattern, found, not_found, duplicate_name, not_official, is_language_name,
  validate_registry, lookup,
}
use wasitter.Archive.RegistryLaws.{lookup-validate_registry}
use wasitter.Prelude.{
  ◌+◌, Bool, true, false, ◌&&◌, none, some, ◌≡◌, refl, arith, [], ◌∷◌, leb, ◌==◌, if◌then◌else◌,
  Bytes, codes,
}

-- Capitals of ASCII only, and blanks at the front only.
abbrev lower : Bytes → Bytes
lower [] = []
lower (c ∷ cs) = (if leb b'A' c && leb c b'Z' then c + 32 else c) ∷ lower cs

abbrev skip_blanks : Bytes → Bytes
skip_blanks [] = []
skip_blanks (c ∷ cs) = if c == b' ' then skip_blanks cs else c ∷ cs

abbrev any : Pattern → Bytes → Bool
any p b = true

abbrev never : Bytes → Bool
never b = false

abbrev grammar : Bytes → Bytes → Grammar
grammar name repository = record {
  name = name;
  repository = repository;
  tag = codes "v1.2.3";
  archive_sha256 = [];
  parser = codes "src/parser.c";
  scanner = none;
  scanners = some (codes "src/scanner.c" ∷ []);
  language_function = codes "tree_sitter_go";
  language_name = name;
  scanner_present = false;
  scanners_present = true;
}

abbrev go_row : Grammar
go_row = grammar (codes "go") (codes "tree-sitter/tree-sitter-go")

abbrev c_row : Grammar
c_row = grammar (codes "c") (codes "tree-sitter/tree-sitter-c")

abbrev registry : Registry
registry = record { version = 1; grammars = go_row ∷ c_row ∷ [] }

valid_registry : validate_registry lower skip_blanks any never registry ≡ none
unfolding validate_registry
valid_registry = refl

repeated :
    validate_registry lower skip_blanks any never
      (record { version = 1; grammars = go_row ∷ go_row ∷ [] })
    ≡ some duplicate_name
unfolding validate_registry
repeated = refl

foreign :
    validate_registry lower skip_blanks any never
      (record { version = 1; grammars = grammar (codes "go") (codes "other/go") ∷ [] })
    ≡ some not_official
unfolding validate_registry
foreign = refl

unknown : lookup lower skip_blanks any never registry (codes "rust") ≡ not_found
unfolding lookup
unknown = refl

skip_blanks-name : (name : Bytes) → is_language_name name ≡ true → skip_blanks name ≡ name
unfolding is_language_name
skip_blanks-name [] h = refl
skip_blanks-name (c ∷ cs) h = ground arith

lookup-validate_registry_example :
    lookup lower skip_blanks any never registry (codes "c") ≡ found c_row
lookup-validate_registry_example =
    lookup-validate_registry lower skip_blanks any never registry (go_row ∷ []) [] c_row
      skip_blanks-name refl valid_registry
