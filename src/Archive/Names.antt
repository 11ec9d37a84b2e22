-- ===== src/Archive/Names.antt =====
-- internal/grammarbuild: the names of files in an archive (archive.go `ExtractTarGz`) and in a registry
-- row (registry.go `validateArchivePath`).
use wasitter.Prelude.{
  ℕ, Bool, true, false, not, ◌&&◌, ◌||◌, Option, none, some, List, [], ◌∷◌, ◌==◌, if◌then◌else◌,
  Bytes, bytes_eq, codes, has_prefix, length,
}

abbrev pub onto_first : ℕ → List Bytes → List Bytes
onto_first c [] = (c ∷ []) ∷ []
onto_first c (p ∷ parts) = (c ∷ p) ∷ parts

-- `strings.Split(s, "/")`
unfoldable pub split : Bytes → List Bytes
split [] = [] ∷ []
split (c ∷ cs) = let rest = split cs in if c == b'/' then [] ∷ rest else onto_first c rest

-- `strings.Contains(s, b)` and `strings.IndexByte(s, b) >= 0` for one byte.
unfoldable pub contains_byte : ℕ → Bytes → Bool
contains_byte b [] = false
contains_byte b (c ∷ cs) = c == b || contains_byte b cs

unfoldable pub is_unsafe_part : Bytes → Bool
unfolding bytes_eq
is_unsafe_part part = length part == 0 || bytes_eq part (codes ".") || bytes_eq part (codes "..")

unfoldable pub are_safe : List Bytes → Bool
unfolding is_unsafe_part
are_safe [] = true
are_safe (p ∷ parts) = not (is_unsafe_part p) && are_safe parts

pub data PathError : Type 0 where
  must_not_be_empty invalid_separator must_be_relative unsafe_component : PathError

unfoldable pub validate_archive_path : Bytes → Bool → Option PathError
unfolding contains_byte has_prefix split are_safe
validate_archive_path value allow_empty =
    if length value == 0
    then (if allow_empty then none else some must_not_be_empty)
    else if contains_byte 0 value || contains_byte b'\\' value
    then some invalid_separator
    else if has_prefix (codes "/") value
    then some must_be_relative
    else if not (are_safe (split value))
    then some unsafe_component
    else none
