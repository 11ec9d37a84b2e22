-- ===== src/Structure/Nodes.antt =====
-- query_fallback_validate.go: parentheses, groups, alternatives, node patterns and the atoms of
-- `parsePattern`. `rec` is `parsePattern` on less fuel, `again` the loop's next round.
use wasitter.Prelude.{
  ℕ, zero, suc, ◌+◌, ◌-◌, not, ◌||◌, Option, [], ◌∷◌, ◌==◌, if◌then◌else◌, Bytes, bytes_eq, length,
  take,
}
use wasitter.Lexer.{at, is_query_ident_start_byte, ident_from}
use wasitter.Structure.Arguments.{
  ok, err, out_of_fuel, ◌>>◌, Rec, spaced, identifier_then, word_missing, quoted_or_error,
  parse_predicate,
}

-- What follows the `:` of a field.
unfoldable pub field_value : Rec → Rec
field_value rec pos [] = err pos
field_value rec pos (c ∷ cs) = if c == b')' || c == b']' then err pos else rec pos (c ∷ cs)

-- What follows a field's name, which starts at `start`.
unfoldable pub field_colon : Rec → ℕ → Rec
unfolding field_value
field_colon rec start pos [] = err start
field_colon rec start pos (c ∷ cs) =
    if not (c == b':') then err start else spaced (field_value rec) (suc pos) cs

-- What follows the anchor `.`.
unfoldable pub anchored : Rec → Rec
anchored rec pos [] = err pos
anchored rec pos (c ∷ cs) = if c == b')' then err pos else rec pos (c ∷ cs)

-- One element of a group, or its closing parenthesis.
unfoldable pub group_at : Rec → Rec → ℕ → Rec
unfolding anchored
group_at rec again count pos [] = err pos
group_at rec again count pos (c ∷ cs) =
    if c == b')'
    then (if count == 0 then err pos else ok (at (suc pos) cs))
    else if c == b'.'
    then spaced (anchored rec) (suc pos) cs >> again
    else rec pos (c ∷ cs) >> again

unfoldable pub group_loop : Rec → ℕ → ℕ → Rec
unfolding group_at
group_loop rec zero count pos rest = out_of_fuel
group_loop rec (suc fuel) count pos rest =
    spaced (group_at rec (group_loop rec fuel (count + 1)) count) pos rest

-- One alternative, or the closing bracket.
unfoldable pub alternative_at : Rec → Rec → ℕ → Rec
alternative_at rec again count pos [] = err pos
alternative_at rec again count pos (c ∷ cs) =
    if c == b']'
    then (if count == 0 then err pos else ok (at (suc pos) cs))
    else if c == b')'
    then err pos
    else rec pos (c ∷ cs) >> again

unfoldable pub alternative_loop : Rec → ℕ → ℕ → Rec
unfolding alternative_at
alternative_loop rec zero count pos rest = out_of_fuel
alternative_loop rec (suc fuel) count pos rest =
    spaced (alternative_at rec (alternative_loop rec fuel (count + 1)) count) pos rest

-- `parseAlternatives`, behind the opening bracket.
unfoldable pub parse_alternatives : Rec → Rec
unfolding alternative_loop
parse_alternatives rec pos rest = alternative_loop rec (suc (length rest)) 0 pos rest

-- One child of a node pattern, or its closing parenthesis.
unfoldable pub child_at : Rec → Rec → Rec
unfolding anchored field_colon
child_at rec again pos [] = err pos
child_at rec again pos (c ∷ cs) =
    if c == b')'
    then ok (at (suc pos) cs)
    else if c == b'!'
    then spaced (λ p. identifier_then again p p) (suc pos) cs
    else if c == b'.'
    then spaced (anchored rec) (suc pos) cs >> again
    else if c == b'(' || c == b'[' || c == b'"' || c == b'_' || c == b'*'
    then rec pos (c ∷ cs) >> again
    else identifier_then (λ p rest. spaced (field_colon rec pos) p rest >> again) pos pos (c ∷ cs)

unfoldable pub child_loop : Rec → ℕ → Rec
unfolding child_at
child_loop rec zero pos rest = out_of_fuel
child_loop rec (suc fuel) pos rest = spaced (child_at rec (child_loop rec fuel)) pos rest

unfoldable pub children : Rec → Rec
unfolding child_loop
children rec pos rest = child_loop rec (suc (length rest)) pos rest

-- The subtype behind a node's name; then the children.
unfoldable pub subtype_at : Rec → Rec
unfolding children
subtype_at rec pos [] = children rec pos []
subtype_at rec pos (c ∷ cs) =
    if not (c == b'/')
    then children rec pos (c ∷ cs)
    else identifier_then (spaced (children rec)) pos (suc pos) cs

module _ (unquote : Bytes → Option Bytes) where
  -- The optional argument of `MISSING`.
  unfoldable pub missing_argument : Rec
  unfolding quoted_or_error
  missing_argument pos [] = ok (at pos [])
  missing_argument pos (c ∷ cs) =
      if c == b'"'
      then quoted_or_error unquote pos (c ∷ cs)
      else if is_query_ident_start_byte c
      then ok (ident_from (suc pos) cs)
      else ok (at pos (c ∷ cs))

  -- Behind the identifier that starts at `start`, where the bytes `text` stand.
  unfoldable pub name_word : ℕ → Bytes → Rec
  unfolding missing_argument
  name_word start text pos rest =
      if bytes_eq (take (pos - start) text) word_missing
      then spaced missing_argument pos rest
      else ok (at pos rest)

  unfoldable pub node_name : Rec
  unfolding name_word
  node_name pos [] = err pos
  node_name pos (c ∷ cs) =
      if c == b'"'
      then quoted_or_error unquote pos (c ∷ cs)
      else if c == b'_' || c == b'*'
      then ok (at (suc pos) cs)
      else identifier_then (name_word pos (c ∷ cs)) pos pos (c ∷ cs)

  unfoldable pub parse_node : Rec → Rec
  unfolding node_name subtype_at
  parse_node rec pos rest = node_name pos rest >> spaced (subtype_at rec)

  -- `parseParen`, behind the opening parenthesis and the space that follows it.
  unfoldable pub paren_at : Rec → Rec
  unfolding parse_predicate group_loop parse_node
  paren_at rec pos [] = err pos
  paren_at rec pos (c ∷ cs) =
      if c == b')'
      then err pos
      else if c == b'#' || c == b'.'
      then parse_predicate unquote pos cs
      else if c == b'(' || c == b'['
      then group_loop rec (suc (length (c ∷ cs))) 0 pos (c ∷ cs)
      else parse_node rec pos (c ∷ cs)

  -- The part of `parsePattern` before the suffixes.
  unfoldable pub atom_at : Rec → Rec
  unfolding paren_at parse_alternatives quoted_or_error field_colon
  atom_at rec start [] = err start
  atom_at rec start (c ∷ cs) =
      if c == b'('
      then spaced (paren_at rec) (suc start) cs
      else if c == b'['
      then parse_alternatives rec (suc start) cs
      else if c == b'"'
      then quoted_or_error unquote start (c ∷ cs)
      else if c == b'_' || c == b'*'
      then ok (at (suc start) cs)
      else identifier_then (spaced (field_colon rec start)) start start (c ∷ cs)
