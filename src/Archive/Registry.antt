-- ===== src/Archive/Registry.antt =====
-- internal/grammarbuild/registry.go: `Registry.Validate`, `Grammar.Validate`, `Lookup`. `to_lower` and
-- `trim_space` are strings.ToLower and strings.TrimSpace; `matches` is MatchString of a pattern other
-- than that of language names; `has_control` asks unicode.IsControl of each character.
use wasitter.Archive.Extract.{first_part, is_seen}
use wasitter.Archive.Names.{split, contains_byte, PathError, validate_archive_path}
use wasitter.Prelude.{
  ℕ, Bool, true, false, not, ◌&&◌, ◌||◌, Option, none, some, List, [], ◌∷◌, leb, ◌==◌,
  if◌then◌else◌, Bytes, bytes_eq, codes, contains, length,
}

pub record Grammar : Type 0 where
  pub name : Bytes
  pub repository : Bytes
  pub tag : Bytes
  pub archive_sha256 : Bytes
  pub parser : Bytes
  -- `none` for nil.
  pub scanner : Option (List Bytes)
  pub scanners : Option (List Bytes)
  pub language_function : Bytes
  pub language_name : Bytes
  pub scanner_present : Bool
  pub scanners_present : Bool

pub record Registry : Type 0 where
  pub version : ℕ
  pub grammars : List Grammar

pub data Pattern : Type 0 where
  repository_pattern tag_pattern sha256_pattern c_identifier_pattern : Pattern

pub data RegistryError : Type 0 where
  unsupported_version no_grammars unsafe_name not_lowercase bad_repository not_official traversal :
      RegistryError
  bad_tag bad_digest both_scanners bad_function empty_language_name control_character
        duplicate_name :
      RegistryError
  parser_path scanner_path : PathError → RegistryError

pub data Found : Type 0 where
  found : Grammar → Found
  invalid_name not_found : Found

abbrev is_letter_or_digit : ℕ → Bool
is_letter_or_digit c =
    leb b'A' c && leb c b'Z' || leb b'a' c && leb c b'z' || leb b'0' c && leb c b'9'

unfoldable pub is_name_rest : Bytes → Bool
is_name_rest [] = true
is_name_rest (c ∷ cs) = (is_letter_or_digit c || c == b'_' || c == b'-') && is_name_rest cs

-- `languageNamePattern`
unfoldable pub is_language_name : Bytes → Bool
unfolding is_name_rest
is_language_name [] = false
is_language_name (c ∷ cs) = is_letter_or_digit c && is_name_rest cs

abbrev is_some_list : Option (List Bytes) → Bool
is_some_list none = false
is_some_list (some _) = true

abbrev or_nothing : Option (List Bytes) → List Bytes
or_nothing none = []
or_nothing (some l) = l

unfoldable pub scanner_paths : Grammar → List Bytes
scanner_paths g =
    if g.scanners_present || is_some_list g.scanners
    then or_nothing g.scanners
    else or_nothing g.scanner

-- The first scanner with a bad path.
unfoldable pub bad_scanner : List Bytes → Option PathError
unfolding validate_archive_path
bad_scanner [] = none
bad_scanner (s ∷ scanners) = elim (validate_archive_path s false) [
  | some e ↦ some e
  | none ↦ bad_scanner scanners
]

abbrev pub or_else : Option RegistryError → Option RegistryError → Option RegistryError
or_else none next = next
or_else (some e) next = some e

abbrev at_parser : Option PathError → Option RegistryError
at_parser none = none
at_parser (some e) = some (parser_path e)

abbrev at_scanner : Option PathError → Option RegistryError
at_scanner none = none
at_scanner (some e) = some (scanner_path e)

module _ (to_lower trim_space : Bytes → Bytes) (matches : Pattern → Bytes → Bool)
    (has_control : Bytes → Bool) where
  unfoldable pub validate_language_string : Bytes → Option RegistryError
  validate_language_string value =
      if length value == 0
      then some empty_language_name
      else if has_control value
      then some control_character
      else none

  -- The tests behind the archive's digest.
  unfoldable pub validate_paths : Grammar → Option RegistryError
  unfolding scanner_paths bad_scanner validate_language_string
  validate_paths g = or_else (at_parser (validate_archive_path g.parser false)) (
      if g.scanner_present && g.scanners_present
        || is_some_list g.scanner && is_some_list g.scanners
      then some both_scanners
      else or_else (at_scanner (bad_scanner (scanner_paths g))) (
          if not (matches c_identifier_pattern g.language_function)
          then some bad_function
          else validate_language_string g.language_name))

  -- The tests behind those of the name.
  unfoldable pub later_tests : Grammar → Option RegistryError
  unfolding bytes_eq split contains validate_paths
  later_tests g =
      let owner = first_part (split g.repository) in
      if not (matches repository_pattern g.repository)
      then some bad_repository
      else if not (bytes_eq owner (codes "tree-sitter"))
          && not (bytes_eq owner (codes "tree-sitter-grammars"))
      then some not_official
      else if contains (codes "..") g.repository
      then some traversal
      else if not (matches tag_pattern g.tag)
      then some bad_tag
      else if not (matches sha256_pattern g.archive_sha256)
      then some bad_digest
      else validate_paths g

  unfoldable pub validate_grammar : Grammar → Option RegistryError
  unfolding is_language_name bytes_eq later_tests
  validate_grammar g =
      if not (is_language_name g.name)
      then some unsafe_name
      else if not (bytes_eq (to_lower g.name) g.name)
      then some not_lowercase
      else later_tests g

  -- The loop over the rows, with the keys of those before.
  unfoldable pub validate_rows : List Bytes → List Grammar → Option RegistryError
  unfolding validate_grammar is_seen
  validate_rows seen [] = none
  validate_rows seen (g ∷ grammars) =
      let next = validate_rows (to_lower g.name ∷ seen) grammars in
      or_else (validate_grammar g)
        (if is_seen seen (to_lower g.name) then some duplicate_name else next)

  unfoldable pub validate_registry : Registry → Option RegistryError
  unfolding validate_rows
  validate_registry r =
      if not (r.version == 1)
      then some unsupported_version
      else if length r.grammars == 0
      then some no_grammars
      else validate_rows [] r.grammars

  unfoldable pub find : Bytes → List Grammar → Found
  unfolding bytes_eq
  find name [] = not_found
  find name (g ∷ grammars) = if bytes_eq g.name name then found g else find name grammars

  -- `strings.ContainsAny(name, "\r\n\t")`
  abbrev breaks_line : Bytes → Bool
  breaks_line name =
      contains_byte b'\r' name || contains_byte b'\n' name || contains_byte b'\t' name

  unfoldable pub lookup : Registry → Bytes → Found
  unfolding is_language_name contains_byte find
  lookup r name =
      let canonical = to_lower (trim_space name) in
      if not (is_language_name canonical) || breaks_line name
      then invalid_name
      else find canonical r.grammars
