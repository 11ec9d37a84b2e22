-- ===== src/Structure/PatternBounds.antt =====
-- query_fallback_validate.go: the bounds of atoms, suffixes, patterns and whole sources.
use wasitter.Prelude.{
  ℕ, zero, suc, ◌+◌, ◌-◌, ◌≤◌, ◌||◌, Option, [], ◌∷◌, ◌≡◌, refl, arith, ◌==◌, Bytes, bytes_eq,
  length, take,
}
use wasitter.Diagnostic.{fallback_syntax_error}
use wasitter.Lexer.{at, is_query_ident_start_byte}
use wasitter.Lexer.Bounds.{ident_from-Ahead}
use wasitter.Structure.Arguments.{Outcome, ok, err, out_of_fuel, Rec, word_missing}
use wasitter.Structure.Nodes.{
  missing_argument, name_word, node_name, parse_node, paren_at, parse_alternatives, atom_at,
}
use wasitter.Structure.Patterns.{
  suffix_at, suffix_loop, suffixes, parse_pattern, source_at, source_loop, Verdict, accepted,
  rejected, undecided, verdict_of, validate_fallback_structure,
}
use wasitter.Structure.Bounds.{
  Within, Steps, Within-weaken, Within->>, Within-err, Steps-spaced, Steps-slack, Steps-fewer,
  Within-if, identifier_then-Within, Within-close, quoted_or_error-Steps, parse_predicate-Within,
}
use wasitter.Structure.NodeBounds.{
  spaced-behind, field_colon-Steps, group_loop-Steps, alternative_loop-Steps, subtype_at-Steps,
}

module _ (total : ℕ) (unquote : Bytes → Option Bytes) where
  -- The parser stops where it stands.
  Within-here :
      (pos : ℕ) (rest : Bytes)
      → pos + length rest ≡ total
      → Within total (1 + length rest) (ok (at pos rest))
  Within-here pos rest e = record { ends = (e, omega arith) }

  missing_argument-Steps : (n : ℕ) → Steps total n 1 (missing_argument unquote)
  unfolding missing_argument
  missing_argument-Steps n pos [] e lt = Within-here pos [] e
  missing_argument-Steps n pos (c ∷ cs) e lt =
      let a = ident_from-Ahead (suc pos) cs in
      Within-if total (c == b'"')
        (Steps-slack total (quoted_or_error-Steps total unquote n) pos (c ∷ cs) e lt)
        (Within-if total (is_query_ident_start_byte c)
          (record { ends = (omega (arith, a.total), omega (arith, a.shorter)) })
          (Within-here pos (c ∷ cs) e))

  name_word-Steps : (n start : ℕ) (text : Bytes) → Steps total n 1 (name_word unquote start text)
  unfolding name_word
  name_word-Steps n start text pos rest e lt =
      Within-if total (bytes_eq (take (pos - start) text) word_missing)
        (Steps-spaced total 1 (missing_argument-Steps n) pos rest e lt) (Within-here pos rest e)

  node_name-Steps : (n : ℕ) → Steps total n 0 (node_name unquote)
  unfolding node_name
  node_name-Steps n pos [] e lt = Within-err total _ (omega arith)
  node_name-Steps n pos (c ∷ cs) e lt =
      Within-if total (c == b'"') (quoted_or_error-Steps total unquote n pos (c ∷ cs) e lt) (
        Within-if total (c == b'_' || c == b'*') (Within-close total pos c cs e) (
          Within-weaken total (omega arith) (
            identifier_then-Within total pos pos (c ∷ cs) (name_word-Steps n pos (c ∷ cs))
              (omega arith) e (omega arith))))

  parse_node-Steps :
      {n : ℕ} {rec : Rec} → Steps total n 0 rec → Steps total n 0 (parse_node unquote rec)
  unfolding parse_node
  parse_node-Steps {n} s pos rest e lt = Within->> total (node_name-Steps n pos rest e lt) (
      Steps-fewer total 1 (omega arith)
        (Steps-slack total (Steps-spaced total 0 (subtype_at-Steps total s))))

  paren_at-Steps :
      {n : ℕ} {rec : Rec} → Steps total n 0 rec → Steps total n 0 (paren_at unquote rec)
  unfolding paren_at
  paren_at-Steps s pos [] e lt = Within-err total _ (omega arith)
  paren_at-Steps s pos (c ∷ cs) e lt =
      Within-if total (c == b')') (Within-err total _ (omega arith)) (
        Within-if total (c == b'#' || c == b'.')
          (Within-weaken total (omega arith)
            (parse_predicate-Within total unquote pos cs (omega arith)))
          (Within-if total (c == b'(' || c == b'[')
            (group_loop-Steps total (suc (length (c ∷ cs))) 0 (Steps-fewer total 0 (omega arith) s)
              pos (c ∷ cs) e (omega arith))
            (parse_node-Steps s pos (c ∷ cs) e lt)))

  atom_at-Steps :
      {n : ℕ} {rec : Rec} → Steps total n 0 rec → Steps total (suc n) 0 (atom_at unquote rec)
  unfolding atom_at parse_alternatives
  atom_at-Steps s pos [] e lt = Within-err total _ (omega arith)
  atom_at-Steps {n} {rec} s pos (c ∷ cs) e lt =
      Within-if total (c == b'(') (spaced-behind total pos c cs (paren_at-Steps s) e (omega arith))
        (Within-if total (c == b'[')
          (Within-weaken total (omega arith) (
            alternative_loop-Steps total {rec = rec} (suc (length cs)) 0
              (Steps-fewer total 0 (omega arith) s) (suc pos) cs (omega arith) (omega arith)))
          (Within-if total (c == b'"')
            (quoted_or_error-Steps total unquote (suc n) pos (c ∷ cs) e lt)
            (Within-if total (c == b'_' || c == b'*') (Within-close total pos c cs e) (
              Within-weaken total (omega arith) (
                identifier_then-Within total pos pos (c ∷ cs)
                  (Steps-slack total
                    (Steps-spaced total 0 (field_colon-Steps total pos (omega arith) s)))
                  (omega arith) e (omega arith))))))

  suffix_at-Steps :
      {n : ℕ} {again : Rec} → Steps total n 1 again → Steps total (suc n) 1 (suffix_at again)
  unfolding suffix_at
  suffix_at-Steps h pos [] e lt = Within-here pos [] e
  suffix_at-Steps h pos (c ∷ cs) e lt =
      Within-if total (c == b'?' || c == b'*' || c == b'+')
        (Within-weaken total (omega arith) (h (suc pos) cs (omega arith) (omega arith)))
        (Within-if total (c == b'@')
          (Within-weaken total (omega arith) (
            identifier_then-Within total pos (suc pos) cs h (omega arith) (omega arith)
              (omega arith)))
          (Within-here pos (c ∷ cs) e))

  suffix_loop-Steps : (fuel : ℕ) → Steps total fuel 1 (suffix_loop fuel)
  unfolding suffix_loop
  suffix_loop-Steps zero = λ pos rest e lt. absurd (omega arith)
  suffix_loop-Steps (suc fuel) = Steps-spaced total 1 (suffix_at-Steps (suffix_loop-Steps fuel))

  pub parse_pattern-Steps : (fuel : ℕ) → Steps total fuel 0 (parse_pattern unquote fuel)
  unfolding parse_pattern suffixes
  parse_pattern-Steps zero = λ pos rest e lt. absurd (omega arith)
  parse_pattern-Steps (suc fuel) = λ pos rest e lt.
      Within->> total
        (Steps-spaced total 0 (atom_at-Steps (parse_pattern-Steps fuel)) pos rest e lt)
        (λ p left e' lt'. suffix_loop-Steps (suc (length left)) p left e' (omega arith))

  source_at-Steps :
      {n : ℕ} {again : Rec}
      → Steps total n 1 again
      → Steps total (suc n) 1 (source_at unquote again)
  unfolding source_at
  source_at-Steps h pos [] e lt = Within-here pos [] e
  source_at-Steps h pos (c ∷ cs) e lt = Within-weaken total (omega arith) (
      Within->> total (parse_pattern-Steps (suc (length (c ∷ cs))) pos (c ∷ cs) e (omega arith))
        (Steps-fewer total 1 (omega arith) h))

  pub source_loop-Steps : (fuel : ℕ) → Steps total fuel 1 (source_loop unquote fuel)
  unfolding source_loop
  source_loop-Steps zero = λ pos rest e lt. absurd (omega arith)
  source_loop-Steps (suc fuel) = Steps-spaced total 1 (source_at-Steps (source_loop-Steps fuel))

-- `nil`, or the syntax error at an offset of the text.
abbrev pub IsDecided : Bytes → Verdict → Type 0
IsDecided source accepted = Unit
IsDecided source (rejected q) = (e : ℕ) × (e ≤ length source) × (q ≡ fallback_syntax_error source e)
IsDecided source undecided = ⊥

verdict_of-IsDecided :
    (source : Bytes) (r : Outcome)
    → Within (length source) (1 + length source) r
    → IsDecided source (verdict_of source r)
unfolding verdict_of
verdict_of-IsDecided source (ok q) w = tt
verdict_of-IsDecided source (err e) w = (e, w.ends, refl)
verdict_of-IsDecided source out_of_fuel w = w.ends

-- For every text and every `strconv.Unquote`, the structural validation ends within its fuel: it
-- accepts, or returns the syntax error of an offset between 0 and the length of the text.
pub validate_fallback_structure-IsDecided :
    (unquote : Bytes → Option Bytes) (source : Bytes)
    → IsDecided source (validate_fallback_structure unquote source)
unfolding validate_fallback_structure
validate_fallback_structure-IsDecided unquote source = verdict_of-IsDecided source _ (
    source_loop-Steps (length source) unquote (suc (length source)) 0 source (omega arith)
      (omega arith))
