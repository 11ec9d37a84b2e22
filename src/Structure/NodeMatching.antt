-- ===== src/Structure/NodeMatching.antt =====
-- query_fallback_validate.go: the brackets of groups, alternatives, nodes and atoms.
use wasitter.Prelude.{
  ℕ, zero, suc, ◌+◌, ◌-◌, not, ◌||◌, Option, true, [], ◌∷◌, ◌≡◌, refl, arith, ◌==◌, Bytes, bytes_eq,
  length, take,
}
use wasitter.Lexer.{at, is_query_ident_start_byte}
use wasitter.Structure.Arguments.{ok, Rec, spaced, word_missing}
use wasitter.Structure.Nodes.{
  field_value, field_colon, anchored, group_at, group_loop, alternative_at, alternative_loop,
  parse_alternatives, child_at, child_loop, children, subtype_at, missing_argument, name_word,
  node_name, parse_node, paren_at, atom_at,
}
use wasitter.Structure.Brackets.{brackets, is_special}
use wasitter.Structure.Matching.{
  Balances, Keeps, nothing, opened, Balances-err, Balances-fuel, Balances-from, Balances->>,
  Keeps-spaced, Balances-if, Balances-close, Balances-plain, identifier_then-Balances, ident_behind,
  quoted_or_error-Keeps, parse_predicate-Keeps,
}

module _ {rec : Rec} (k : Keeps nothing rec) where
  field_value-Keeps : Keeps nothing (field_value rec)
  unfolding field_value
  field_value-Keeps pos [] = Balances-err
  field_value-Keeps pos (c ∷ cs) =
      Balances-if (c == b')' || c == b']') (λ _. Balances-err) (λ _. k pos (c ∷ cs))

  field_colon-Keeps : (start : ℕ) → Keeps nothing (field_colon rec start)
  unfolding field_colon is_special
  field_colon-Keeps start pos [] = Balances-err
  field_colon-Keeps start pos (c ∷ cs) =
      Balances-if (not (c == b':')) (λ _. Balances-err)
        λ h.
          Balances-plain nothing (ground arith)
            (Keeps-spaced nothing field_value-Keeps (suc pos) cs)

  anchored-Keeps : Keeps nothing (anchored rec)
  unfolding anchored
  anchored-Keeps pos [] = Balances-err
  anchored-Keeps pos (c ∷ cs) = Balances-if (c == b')') (λ _. Balances-err) (λ _. k pos (c ∷ cs))

  -- An anchor and the element behind it.
  dot-Balances :
      (pos c : ℕ) (cs : Bytes)
      → (c == b'.') ≡ true
      → Balances nothing (c ∷ cs) (spaced (anchored rec) (suc pos) cs)
  unfolding is_special
  dot-Balances pos c cs h =
      Balances-plain nothing (ground arith) (Keeps-spaced nothing anchored-Keeps (suc pos) cs)

  group_at-Keeps :
      {again : Rec} (count : ℕ)
      → Keeps (opened b')') again
      → Keeps (opened b')') (group_at rec again count)
  unfolding group_at
  group_at-Keeps count l pos [] = Balances-err
  group_at-Keeps count l pos (c ∷ cs) =
      Balances-if (c == b')')
        (λ h.
          Balances-if (count == 0) (λ _. Balances-err)
            λ _. Balances-close (suc pos) b')' c cs refl h)
        λ _.
          Balances-if (c == b'.') (λ h. Balances->> (dot-Balances pos c cs h) l)
            λ _. Balances->> (k pos (c ∷ cs)) l

  group_loop-Keeps : (fuel count : ℕ) → Keeps (opened b')') (group_loop rec fuel count)
  unfolding group_loop
  group_loop-Keeps zero count = λ pos rest. Balances-fuel
  group_loop-Keeps (suc fuel) count =
      Keeps-spaced (opened b')') (group_at-Keeps count (group_loop-Keeps fuel (count + 1)))

  alternative_at-Keeps :
      {again : Rec} (count : ℕ)
      → Keeps (opened b']') again
      → Keeps (opened b']') (alternative_at rec again count)
  unfolding alternative_at
  alternative_at-Keeps count l pos [] = Balances-err
  alternative_at-Keeps count l pos (c ∷ cs) =
      Balances-if (c == b']')
        (λ h.
          Balances-if (count == 0) (λ _. Balances-err)
            λ _. Balances-close (suc pos) b']' c cs refl h)
        λ _. Balances-if (c == b')') (λ _. Balances-err) λ _. Balances->> (k pos (c ∷ cs)) l

  alternative_loop-Keeps : (fuel count : ℕ) → Keeps (opened b']') (alternative_loop rec fuel count)
  unfolding alternative_loop
  alternative_loop-Keeps zero count = λ pos rest. Balances-fuel
  alternative_loop-Keeps (suc fuel) count =
      Keeps-spaced (opened b']')
        (alternative_at-Keeps count (alternative_loop-Keeps fuel (count + 1)))

  child_at-Keeps :
      {again : Rec} → Keeps (opened b')') again → Keeps (opened b')') (child_at rec again)
  unfolding child_at is_special
  child_at-Keeps l pos [] = Balances-err
  child_at-Keeps l pos (c ∷ cs) =
      Balances-if (c == b')') (λ h. Balances-close (suc pos) b')' c cs refl h)
        λ _.
          Balances-if (c == b'!')
            (λ h. Balances-plain (opened b')') (ground arith) (
              Keeps-spaced (opened b')')
                (λ p rest. identifier_then-Balances (opened b')') p p rest l) (suc pos) cs))
            λ _.
              Balances-if (c == b'.') (λ h. Balances->> (dot-Balances pos c cs h) l)
                λ _.
                  Balances-if (c == b'(' || c == b'[' || c == b'"' || c == b'_' || c == b'*')
                    (λ _. Balances->> (k pos (c ∷ cs)) l)
                    λ _.
                      identifier_then-Balances (opened b')') pos pos (c ∷ cs) λ p rest.
                        Balances->> (Keeps-spaced nothing (field_colon-Keeps pos) p rest) l

  child_loop-Keeps : (fuel : ℕ) → Keeps (opened b')') (child_loop rec fuel)
  unfolding child_loop
  child_loop-Keeps zero = λ pos rest. Balances-fuel
  child_loop-Keeps (suc fuel) = Keeps-spaced (opened b')') (child_at-Keeps (child_loop-Keeps fuel))

  children-Keeps : Keeps (opened b')') (children rec)
  unfolding children
  children-Keeps pos rest = child_loop-Keeps (suc (length rest)) pos rest

  subtype_at-Keeps : Keeps (opened b')') (subtype_at rec)
  unfolding subtype_at is_special
  subtype_at-Keeps pos [] = children-Keeps pos []
  subtype_at-Keeps pos (c ∷ cs) =
      Balances-if (not (c == b'/')) (λ _. children-Keeps pos (c ∷ cs))
        λ h. Balances-plain (opened b')') (ground arith) (
          identifier_then-Balances (opened b')') pos (suc pos) cs
            (Keeps-spaced (opened b')') children-Keeps))

pub Keeps-stop : Keeps nothing (λ pos rest. ok (at pos rest))
Keeps-stop pos rest = record { closes = λ st. refl }

module _ (unquote : Bytes → Option Bytes) where
  missing_argument-Keeps : Keeps nothing (missing_argument unquote)
  unfolding missing_argument
  missing_argument-Keeps pos [] = Keeps-stop pos []
  missing_argument-Keeps pos (c ∷ cs) =
      Balances-if (c == b'"') (λ _. quoted_or_error-Keeps unquote pos (c ∷ cs))
        λ _.
          Balances-if (is_query_ident_start_byte c)
            (λ h. record { closes = λ st. ident_behind pos c cs h st })
            (λ _. Keeps-stop pos (c ∷ cs))

  name_word-Keeps : (start : ℕ) (text : Bytes) → Keeps nothing (name_word unquote start text)
  unfolding name_word
  name_word-Keeps start text pos rest =
      Balances-if (bytes_eq (take (pos - start) text) word_missing)
        (λ _. Keeps-spaced nothing missing_argument-Keeps pos rest) (λ _. Keeps-stop pos rest)

  node_name-Keeps : Keeps nothing (node_name unquote)
  unfolding node_name is_special
  node_name-Keeps pos [] = Balances-err
  node_name-Keeps pos (c ∷ cs) =
      Balances-if (c == b'"') (λ _. quoted_or_error-Keeps unquote pos (c ∷ cs))
        λ _.
          Balances-if (c == b'_' || c == b'*')
            (λ h. Balances-plain nothing (ground arith) (Keeps-stop (suc pos) cs))
            λ _. identifier_then-Balances nothing pos pos (c ∷ cs) (name_word-Keeps pos (c ∷ cs))

  module _ {rec : Rec} (k : Keeps nothing rec) where
    parse_node-Keeps : Keeps (opened b')') (parse_node unquote rec)
    unfolding parse_node
    parse_node-Keeps pos rest =
        Balances->> (node_name-Keeps pos rest) (Keeps-spaced (opened b')') (subtype_at-Keeps k))

    paren_at-Keeps : Keeps (opened b')') (paren_at unquote rec)
    unfolding paren_at is_special
    paren_at-Keeps pos [] = Balances-err
    paren_at-Keeps pos (c ∷ cs) =
        Balances-if (c == b')') (λ _. Balances-err)
          λ _.
            Balances-if (c == b'#' || c == b'.')
              (λ h.
                Balances-plain (opened b')') (ground arith) (parse_predicate-Keeps unquote pos cs))
              λ _.
                Balances-if (c == b'(' || c == b'[')
                  (λ _. group_loop-Keeps k (suc (length (c ∷ cs))) 0 pos (c ∷ cs))
                  (λ _. parse_node-Keeps pos (c ∷ cs))

    pub atom_at-Keeps : Keeps nothing (atom_at unquote rec)
    unfolding atom_at parse_alternatives is_special brackets
    atom_at-Keeps pos [] = Balances-err
    atom_at-Keeps pos (c ∷ cs) =
        Balances-if (c == b'(')
          (λ h.
            Balances-from (λ st. ground arith)
              (Keeps-spaced (opened b')') paren_at-Keeps (suc pos) cs))
          λ _.
            Balances-if (c == b'[')
              (λ h.
                Balances-from (λ st. ground arith)
                  (alternative_loop-Keeps k (suc (length cs)) 0 (suc pos) cs))
              λ _.
                Balances-if (c == b'"') (λ _. quoted_or_error-Keeps unquote pos (c ∷ cs))
                  λ _.
                    Balances-if (c == b'_' || c == b'*')
                      (λ h. Balances-plain nothing (ground arith) (Keeps-stop (suc pos) cs))
                      λ _.
                        identifier_then-Balances nothing pos pos (c ∷ cs)
                          (Keeps-spaced nothing (field_colon-Keeps k pos))
