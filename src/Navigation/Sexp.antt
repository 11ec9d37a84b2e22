-- ===== src/Navigation/Sexp.antt =====
-- node.go: the S-expression of a node, and the other accessors that serve guests without them:
-- `DescendantCount` and `fieldNameForChildFallback`.
use wasitter.Iterator.{Tree, node, label_of, Forest, nil, cons}
use wasitter.Node.{Node}
use wasitter.Prelude.{
  ℕ, zero, suc, ◌+◌, Bool, true, false, not, ◌&&◌, Option, none, some, List, [], ◌∷◌, ◌++◌, ltb,
  ◌==◌, if◌then◌else◌, Bytes, length, codes,
}

-- What a node's accessors report for its S-expression, by label: `sexp` is the guest's own
-- (`none` where it has none), and `field` the field name of a child by its place, empty for none.
pub record Printed : Type 0 where
  pub facts : ℕ → Node
  pub sexp : ℕ → Option Bytes
  pub kind : ℕ → Bytes
  pub is_missing : ℕ → Bool
  pub field : ℕ → ℕ → Bytes

abbrev null_sexp : Bytes
null_sexp = codes "(NULL)"

abbrev parenthesised : Bytes → Bytes
parenthesised s = b'(' ∷ s ++ b')' ∷ []

-- `strings.Join(parts, " ")`
abbrev pub join : List Bytes → Bytes
join [] = []
join (p ∷ []) = p
join (p ∷ q ∷ ps) = p ++ b' ' ∷ join (q ∷ ps)

unfoldable pub with_field : Bytes → Bytes → Bytes
with_field field part = if length field == 0 then part else field ++ b':' ∷ b' ' ∷ part

unfoldable pub assembled : Bytes → List Bytes → Bytes
assembled kind [] = parenthesised kind
assembled kind (p ∷ ps) = parenthesised (kind ++ b' ' ∷ join (p ∷ ps))

-- `quote` is strconv.Quote.
module _ (quote : Bytes → Bytes) (a : Printed) where
  unfoldable pub kind_of : ℕ → (named : Bool) → Bytes
  kind_of label named =
      let kind = if named then a.kind label else quote (a.kind label) in
      if a.is_missing label then codes "MISSING " ++ kind else kind

  unfoldable pub leaf_sexp : ℕ → (named root : Bool) → Bytes
  unfolding kind_of
  leaf_sexp label named root =
      if not named && not (a.is_missing label) && not root
      then kind_of label named
      else parenthesised (kind_of label named)

  -- A guest's own S-expression is taken where it is not empty.
  unfoldable pub or_own : Option Bytes → Bytes → Bytes
  or_own none s = s
  or_own (some []) s = s
  or_own (some (c ∷ cs)) s = c ∷ cs

  unfoldable mutual
    pub to_s_expression_from : (root : Bool) → Tree → Bytes
    to_s_expression_from root (node label named nil) =
        if (a.facts label).is_null
        then null_sexp
        else or_own (a.sexp label) (leaf_sexp label named root)
    to_s_expression_from root (node label named (cons t f)) =
        let parts = parts_from label 0 (cons t f) in
        if (a.facts label).is_null
        then null_sexp
        else or_own (a.sexp label) (assembled (kind_of label named) parts)

    pub parts_from : (parent place : ℕ) → Forest → List Bytes
    parts_from parent place nil = []
    parts_from parent place (cons t f) =
        let part = to_s_expression_from false t in
        let rest = parts_from parent (place + 1) f in
        if (a.facts (label_of t)).is_null
        then rest
        else with_field (a.field parent place) part ∷ rest

  unfoldable pub to_s_expression : Tree → Bytes
  unfolding to_s_expression_from leaf_sexp kind_of or_own assembled with_field
  to_s_expression = to_s_expression_from true

-- The answer of a guest's count, where it can be read: `limit` is the host's largest `int`.
module _ (facts : ℕ → Node) (limit : ℕ) (answer : ℕ → Option ℕ) where
  abbrev fitted : ℕ → ℕ
  fitted v = if ltb limit v then 0 else v

  unfoldable mutual
    pub descendant_count : Tree → ℕ
    descendant_count (node label named children) =
        let below = descendant_counts 1 children in
        if (facts label).is_null
        then 0
        else elim (answer label) [ some v ↦ fitted v | none ↦ below ]

    pub descendant_counts : ℕ → Forest → ℕ
    descendant_counts count nil = count
    descendant_counts count (cons t f) = descendant_counts (count + descendant_count t) f

-- The language's field names by id, and `ChildByFieldID`: the child of a field, by its label.
module _ (field_name : ℕ → Bytes) (child_by_field_id : Tree → ℕ → Option ℕ) (parent : Tree) where
  -- The loop over `left` field ids from `id` on.
  unfoldable pub field_loop : (target left id : ℕ) → Bytes
  field_loop target zero id = []
  field_loop target (suc left) id =
      let rest = field_loop target left (id + 1) in
      if length (field_name id) == 0 then rest else elim (child_by_field_id parent id) [
        | none ↦ rest
        | some label ↦ if label == target then field_name id else rest
      ]

  -- `language` says that the node has a language and that it is valid; `field_count` is the
  -- language's. With `named_only`, places count the named children.
  unfoldable pub field_name_for_child_fallback :
      (live language : Bool) (field_count : ℕ) → Option Tree → Bytes
  unfolding field_loop
  field_name_for_child_fallback live language field_count none = []
  field_name_for_child_fallback live language field_count (some c) =
      if not (live && language)
      then []
      else field_loop (label_of c) (if ltb 65535 field_count then 65535 else field_count) 1
