-- ===== src/Fallback/Kept.antt =====
-- query.go: the predicates that are written in a query's text, and what
-- `fallbackMetadataFromSource` shows of each kind of them.
use wasitter.Fallback.Metadata.{Metadata}
use wasitter.Fallback.Scan.{
  Item, operator, go_on, item_at, scan_text_predicate_end, behind_end, between, add_group, Group,
}
use wasitter.Fallback.Tokens.{fallback_predicate_tokens}
use wasitter.Lexer.{At, whitespace_from}
use wasitter.Predicate.Agreement.{is_some}
use wasitter.Predicate.Steps.{is_fallback_validated_predicate_operator}
use wasitter.Prelude.{
  ℕ, zero, suc, Bool, true, not, ◌&&◌, ◌||◌, ◌≡◌, Option, List, [], ◌∷◌, if◌then◌else◌, Bytes,
  bytes_eq, codes, length,
}

-- A predicate as it is written: its operator, and the text of its arguments.
pub record Written : Type 0 where
  pub operator : Bytes
  pub arguments : Bytes

abbrev written_item : (At → List Written) → Item → List Written
written_item rec (go_on q) = rec q
written_item rec (operator op behind) =
    let end = scan_text_predicate_end behind in
    record { operator = op; arguments = between (whitespace_from behind.pos behind.rest) end }
    ∷ rec (behind_end end)

unfoldable written_loop : ℕ → ℕ → Bytes → List Written
unfolding item_at
written_loop zero pos rest = []
written_loop (suc fuel) pos [] = []
written_loop (suc fuel) pos (c ∷ cs) =
    written_item (λ q. written_loop fuel q.pos q.rest) (item_at pos c cs)

-- The predicates of a text, one after the other.
unfoldable pub written_predicates : Bytes → List Written
unfolding written_loop
written_predicates source = written_loop (suc (length source)) 0 source

abbrev pub count_written : (Written → Bool) → List Written → ℕ
count_written test [] = 0
count_written test (w ∷ ws) = let rest = count_written test ws in if test w then suc rest else rest

abbrev pub is_setting : Written → Bool
is_setting w = bytes_eq w.operator (codes "set!")

abbrev pub is_test : Written → Bool
is_test w = bytes_eq w.operator (codes "is?") || bytes_eq w.operator (codes "is-not?")

-- A predicate of no operator of tree-sitter's, whose arguments are tokens.
abbrev pub is_general : (Bytes → Option Bytes) → Written → Bool
is_general unquote w =
    not (is_fallback_validated_predicate_operator w.operator)
    && is_some (fallback_predicate_tokens unquote w.arguments)

module _ (unquote : Bytes → Option Bytes) where
  abbrev tokenized : List Written → List Group
  tokenized [] = []
  tokenized (w ∷ ws) =
      add_group w.operator (fallback_predicate_tokens unquote w.arguments) (tokenized ws)

  -- Of an operator that is validated, the arguments are tokens.
  abbrev HasTokens : Written → Type 0
  HasTokens w =
      is_fallback_validated_predicate_operator w.operator ≡ true
      → is_some (fallback_predicate_tokens unquote w.arguments) ≡ true

  -- As many settings, properties and general predicates are shown as are written.
  abbrev pub ShowsAll : Metadata → List Written → Type 0
  ShowsAll m ws =
      (length m.settings ≡ count_written is_setting ws)
      × (length m.properties ≡ count_written is_test ws)
      × (length m.generals ≡ count_written (is_general unquote) ws)
