-- ===== src/MatchKey.antt =====
-- query_iter.go: `queryMatchKey` and `queryCaptureKeyString`, by which range setters tell matches and
-- captures apart, and `matchOffset`. `format` is strconv.FormatUint of base 10.
pub mod Laws
use wasitter.Node.{Node}
use wasitter.Predicate.Evaluate.{QueryCapture}
use wasitter.Prelude.{ℕ, List, [], ◌∷◌, ◌++◌, Bytes, length}
use wasitter.Range.Filter.{QueryMatch}

module _ (format : ℕ → Bytes) where
  -- The coordinates of a node, and what follows them.
  unfoldable pub coordinates_key : Node → Bytes → Bytes
  coordinates_key n rest =
      format n.start_byte
      ++ b'-'
        ∷ (format n.end_byte
            ++ b'['
              ∷ (format n.start_point.row
                  ++ b','
                    ∷ (format n.start_point.column
                        ++ b';'
                          ∷ (format n.end_point.row
                              ++ b',' ∷ (format n.end_point.column ++ b']' ∷ rest)))))

  -- The loop over the captures.
  unfoldable pub captures_key : List QueryCapture → Bytes
  unfolding coordinates_key
  captures_key [] = []
  captures_key (c ∷ captures) =
      b'|' ∷ (format c.index ++ b'@' ∷ coordinates_key c.node (captures_key captures))

  unfoldable pub query_match_key : QueryMatch → Bytes
  unfolding captures_key
  query_match_key m =
      format m.pattern_index ++ b':' ∷ (format (length m.captures) ++ captures_key m.captures)

unfoldable pub match_offset : List QueryCapture → ℕ
match_offset [] = 0
match_offset (c ∷ _) = c.node.start_byte
