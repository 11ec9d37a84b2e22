-- ===== src/Command/Args.antt =====
-- cmd/wasitter-build/main.go: `reorderGrammarArgs`, which parts the flags from the other arguments.
use wasitter.Prelude.{
  Bool, false, not, ◌&&◌, ◌||◌, List, [], ◌∷◌, ◌==◌, if◌then◌else◌, Bytes, bytes_eq, codes,
  has_prefix,
}

-- `value, _, found := strings.Cut(arg, "=")` with the argument itself where there is no `=`.
unfoldable pub before_equals : Bytes → Bytes
before_equals [] = []
before_equals (c ∷ cs) = if c == b'=' then [] else c ∷ before_equals cs

-- `strings.Contains(arg, "=")`
unfoldable pub has_equals : Bytes → Bool
has_equals [] = false
has_equals (c ∷ cs) = c == b'=' || has_equals cs

unfoldable pub is_any_of : Bytes → List Bytes → Bool
unfolding bytes_eq
is_any_of name [] = false
is_any_of name (n ∷ names) = bytes_eq name n || is_any_of name names

abbrev pub value_flags : List Bytes
value_flags =
    codes "-root"
    ∷ codes "--root"
    ∷ codes "-registry"
    ∷ codes "--registry"
    ∷ codes "-image"
    ∷ codes "--image"
    ∷ codes "-platform"
    ∷ codes "--platform"
    ∷ codes "-dockerfile"
    ∷ codes "--dockerfile"
    ∷ codes "-cc"
    ∷ codes "--cc"
    ∷ codes "-cxx"
    ∷ codes "--cxx"
    ∷ codes "-output-dir"
    ∷ codes "--output-dir"
    ∷ codes "-source-url"
    ∷ codes "--source-url"
    ∷ []

-- `valueFlags[name] && !strings.Contains(arg, "=")`
unfoldable pub wants_value : Bytes → Bool
unfolding before_equals has_equals is_any_of
wants_value arg = is_any_of (before_equals arg) value_flags && not (has_equals arg)

unfoldable pub is_end_mark : Bytes → Bool
unfolding bytes_eq
is_end_mark arg = bytes_eq arg (codes "--")

unfoldable pub is_plain : Bytes → Bool
unfolding bytes_eq has_prefix
is_plain arg = not (has_prefix (codes "-") arg) || bytes_eq arg (codes "-")

pub data Reordered : Type 0 where
  reordered : List Bytes → List Bytes → Reordered
  missing_value : Bytes → Reordered

abbrev pub with_flag : Bytes → Reordered → Reordered
with_flag arg (reordered flags positional) = reordered (arg ∷ flags) positional
with_flag arg (missing_value flag) = missing_value flag

abbrev pub with_positional : Bytes → Reordered → Reordered
with_positional arg (reordered flags positional) = reordered flags (arg ∷ positional)
with_positional arg (missing_value flag) = missing_value flag

-- The two lists are built from the front, where the Go loop appends to them. The set of Boolean
-- flags decides nothing.
unfoldable pub reorder_grammar_args : List Bytes → Reordered
unfolding wants_value is_end_mark is_plain
reorder_grammar_args [] = reordered [] []
reorder_grammar_args (arg ∷ []) =
    if is_end_mark arg
    then reordered [] []
    else if is_plain arg
    then reordered [] (arg ∷ [])
    else if wants_value arg
    then missing_value arg
    else reordered (arg ∷ []) []
reorder_grammar_args (arg ∷ value ∷ rest) =
    let next = reorder_grammar_args (value ∷ rest) in
    let behind = reorder_grammar_args rest in
    if is_end_mark arg
    then reordered [] (value ∷ rest)
    else if is_plain arg
    then with_positional arg next
    else if wants_value arg
    then with_flag arg (with_flag value behind)
    else with_flag arg next
