-- ===== src/Matches.antt =====
-- query_iter.go: the sequences of matches and captures that a cursor has collected (`QueryMatches.Next`,
-- `QueryCaptures.Next`, `FilterPredicates`, the keys of captures and the tests against ranges). A
-- sequence is a list, and its stream the number of values consumed; `removed` tells the ids of the
-- matches that `RemoveMatch` has removed from the cursor.
pub mod Laws
pub mod Captures
use wasitter.MatchKey.{coordinates_key}
use wasitter.Node.{Node, Point}
use wasitter.Predicate.Evaluate.{QueryCapture}
use wasitter.Prelude.{
  ℕ, zero, suc, ◌+◌, Bool, true, false, not, ◌&&◌, ◌||◌, Option, none, some, List, [], ◌∷◌, ◌++◌,
  ltb, leb, ◌==◌, if◌then◌else◌, Bytes, length,
}
use wasitter.Range.Filter.{QueryMatch}
use wasitter.Range.Overlap.{node_intersects_byte_range, node_intersects_point_range}

-- A `QueryMatch` of a sequence: the values that callers see, and whether it belongs to the stream
-- and to the cursor.
pub record CollectedMatch : Type 0 where
  pub shown : QueryMatch
  pub has_stream : Bool
  pub has_cursor : Bool

-- A `QueryCapture` of a sequence: the values that callers see, and the match it comes from.
pub record CollectedCapture : Type 0 where
  pub capture : QueryCapture
  pub has_stream : Bool
  pub match_of : Option CollectedMatch
  pub match_id : ℕ
  pub pattern : ℕ
  pub ordinal : ℕ

-- The value found, the rest of the sequence, and how many values were consumed.
pub record Next {ℓ} (A : Type ℓ) : Type ℓ where
  pub found : Option A
  pub rest : List A
  pub consumed : ℕ

-- `consumedOne`; the count is a uint64.
unfoldable pub consumed_one : ℕ → ℕ
consumed_one n = if not (n == 18446744073709551615) then n + 1 else n

abbrev pub consumed_if : Bool → ℕ → ℕ
consumed_if has_stream n = if has_stream then consumed_one n else n

-- The loop of `QueryMatches.Next`.
unfoldable pub next_match_of : (removed : ℕ → Bool) → ℕ → List CollectedMatch → Next CollectedMatch
unfolding consumed_one
next_match_of removed consumed [] = record { found = none; rest = []; consumed = consumed }
next_match_of removed consumed (m ∷ ms) =
    let counted = consumed_if m.has_stream consumed in
    let later = next_match_of removed counted ms in
    if m.has_cursor && removed m.shown.id
    then later
    else record { found = some m; rest = ms; consumed = counted }

-- A capture counts in its own stream, or else in that of its match.
abbrev pub consumed_capture : ℕ → CollectedCapture → ℕ
consumed_capture consumed c =
    if c.has_stream
    then consumed_one consumed
    else elim c.match_of [ some m ↦ consumed_if m.has_stream consumed | none ↦ consumed ]

abbrev pub of_removed : (ℕ → Bool) → CollectedCapture → Bool
of_removed removed c = elim c.match_of [
  | some m ↦ m.has_cursor && removed m.shown.id
  | none ↦ false
]

-- The loop of `QueryCaptures.Next`.
unfoldable pub next_capture_of :
    (removed : ℕ → Bool) → ℕ → List CollectedCapture → Next CollectedCapture
unfolding consumed_one
next_capture_of removed consumed [] = record { found = none; rest = []; consumed = consumed }
next_capture_of removed consumed (c ∷ cs) =
    let counted = consumed_capture consumed c in
    let later = next_capture_of removed counted cs in
    if of_removed removed c then later else record { found = some c; rest = cs; consumed = counted }

-- The zero `QueryCapture`.
abbrev pub no_capture : Node → QueryCapture
no_capture zero_node = record { node = zero_node; index = 0 }

-- A copy of the captures with `c` at the place `ordinal` behind their end.
unfoldable pub padded : Node → List QueryCapture → ℕ → QueryCapture → List QueryCapture
padded zero_node [] zero c = c ∷ []
padded zero_node [] (suc n) c = no_capture zero_node ∷ padded zero_node [] n c
padded zero_node (d ∷ ds) zero c = c ∷ []
padded zero_node (d ∷ ds) (suc n) c = d ∷ padded zero_node ds n c

-- The match and the ordinal that `QueryCaptures.Next` returns for a capture. A match of its own has
-- no root and no anchor, for which `zero_node` stands.
unfoldable pub shown_match : Node → CollectedCapture → QueryMatch × ℕ
unfolding padded
shown_match zero_node c = elim c.match_of [
  | some m ↦
      if leb (length m.shown.captures) c.ordinal
      then (
        record m.shown { captures = padded zero_node m.shown.captures c.ordinal c.capture },
        c.ordinal,
      )
      else (m.shown, c.ordinal)
  | none ↦ (
    record {
      id = c.match_id;
      pattern_index = c.pattern;
      captures = c.capture ∷ [];
      root = zero_node;
      anchor = zero_node;
    },
    0,
  )
]

-- `satisfies` is `SatisfiesTextPredicate` with the query of the cursor, where it has one.
unfoldable pub filter_predicates :
    (is_closed : Bool) (satisfies : Option (QueryMatch → Bool)) → QueryMatch → QueryMatch
filter_predicates true satisfies m = record m { captures = [] }
filter_predicates false none m = record m { captures = [] }
filter_predicates false (some satisfies) m = if satisfies m then m else record m { captures = [] }

unfoldable pub some_capture : (Node → Bool) → List QueryCapture → Bool
some_capture test [] = false
some_capture test (c ∷ captures) = test c.node || some_capture test captures

-- A match without captures goes by its root, where it has one.
unfoldable pub match_intersects : (Node → Bool) → QueryMatch → Bool
unfolding some_capture
match_intersects test m = elim m.captures [
  | [] ↦ if not m.root.is_null then test m.root else true
  | c ∷ cs ↦ some_capture test (c ∷ cs)
]

unfoldable pub query_match_intersects_byte_range : QueryMatch → ℕ → ℕ → Bool
unfolding match_intersects node_intersects_byte_range
query_match_intersects_byte_range m start end =
    match_intersects (λ n. node_intersects_byte_range n start end) m

unfoldable pub query_match_intersects_point_range : QueryMatch → Point → Point → Bool
unfolding match_intersects node_intersects_point_range
query_match_intersects_point_range m start end =
    match_intersects (λ n. node_intersects_point_range n start end) m

-- `queryCaptureSignature`
pub record QueryCaptureSignature : Type 0 where
  pub pattern : ℕ
  pub ordinal : ℕ
  pub index : ℕ
  pub place : Node

-- The place of the first capture of the match with the same index and bytes, or 0.
unfoldable pub ordinal_in : QueryCapture → ℕ → List QueryCapture → ℕ
ordinal_in c i [] = 0
ordinal_in c i (d ∷ ds) =
    let rest = ordinal_in c (i + 1) ds in
    if d.index == c.index
      && d.node.start_byte == c.node.start_byte
      && d.node.end_byte == c.node.end_byte
    then i
    else rest

unfoldable pub make_query_capture_key : CollectedCapture → QueryCaptureSignature
unfolding ordinal_in
make_query_capture_key c = elim c.match_of [
  | none ↦ record {
    pattern = c.pattern;
    ordinal = c.ordinal;
    index = c.capture.index;
    place = c.capture.node;
  }
  | some m ↦ record {
    pattern =
        if c.pattern == 0 && not (m.shown.pattern_index == 0)
        then m.shown.pattern_index
        else c.pattern;
    ordinal = if c.ordinal == 0 then ordinal_in c.capture 0 m.shown.captures else c.ordinal;
    index = c.capture.index;
    place = c.capture.node;
  }
]

-- `format` is strconv.FormatUint of base 10.
unfoldable pub query_capture_key_string : (ℕ → Bytes) → CollectedCapture → Bytes
unfolding make_query_capture_key coordinates_key
query_capture_key_string format c =
    let key = make_query_capture_key c in
    format key.pattern
    ++ b':'
      ∷ (format key.ordinal
          ++ b':' ∷ (format key.index ++ b'@' ∷ coordinates_key format key.place []))
