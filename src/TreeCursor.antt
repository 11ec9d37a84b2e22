-- ===== src/TreeCursor.antt =====
-- cursor.go: the preorder indexes that the host's tree cursor keeps for guests without an index
-- export. The nodes are a tree of labels, on which `Node.Equal` is equality; every child has a
-- handle and a tree. Sums are in uint64 and stay below 2 ^ 33.
pub mod Counts
pub mod Paths
pub mod Ancestors
pub mod Native
pub mod Moves
pub mod Across
pub mod Descend
pub mod Located
pub mod Places
pub mod MoveLaws
pub mod Neighbours
pub mod AcrossLaws
pub mod DescendLaws
pub mod Reached
pub mod Runs
pub mod NativeLaws
use wasitter.Iterator.{Tree, node, Forest, nil, cons}
use wasitter.Prelude.{
  ℕ, zero, suc, ◌+◌, Bool, Option, none, some, List, [], ◌∷◌, ◌++◌, ltb, ◌==◌, if◌then◌else◌,
}

-- `^uint32(0)`
abbrev pub max_index : ℕ
max_index = 4294967295

-- Go's `int`.
pub data ℤ : Type 0 where
  pos negsuc : ℕ → ℤ

abbrev pub saturate : ℕ → ℕ
saturate n = if ltb max_index n then max_index else n

-- `saturatingU32Add`
unfoldable pub saturating_add : ℕ → ℕ → ℕ
saturating_add a b = if ltb max_index (a + b) then max_index else a + b

unfoldable mutual
  pub fallback_visible_subtree_count : Tree → ℕ
  fallback_visible_subtree_count (node _ _ children) = count_loop 1 children

  pub count_loop : ℕ → Forest → ℕ
  count_loop count nil = count
  count_loop count (cons t f) =
      let sum = count + fallback_visible_subtree_count t in
      let rest = count_loop sum f in if ltb max_index sum then max_index else rest

-- `Node.Child`
abbrev pub child : ℕ → Forest → Option Tree
child n nil = none
child zero (cons t f) = some t
child (suc n) (cons t f) = child n f

-- The loop over the children before the one asked for.
unfoldable pub index_loop : ℕ → ℕ → Forest → ℕ
unfolding fallback_visible_subtree_count
index_loop value zero f = value
index_loop value (suc n) nil = value
index_loop value (suc n) (cons t f) =
    let sum = value + fallback_visible_subtree_count t in
    let rest = index_loop sum n f in if ltb max_index sum then max_index else rest

unfoldable pub fallback_child_descendant_index : Tree → ℕ → ℤ → ℕ
unfolding index_loop
fallback_child_descendant_index parent parent_index (negsuc _) = parent_index
fallback_child_descendant_index (node _ _ children) parent_index (pos child_index) =
    if ltb max_index (parent_index + 1)
    then max_index
    else index_loop (parent_index + 1) child_index children

-- What `fallbackPathToNode` returns where it succeeds.
pub record NodePath : Type 0 where
  pub ancestors : List Tree
  pub indices : List ℕ
  pub index : ℕ

-- An index past the wire maximum is kept at one past it.
abbrev pub clamp : ℕ → ℕ
clamp n = if ltb max_index n then max_index + 1 else n

-- The closure `walk`, and its loop over the children from the index `next` on.
unfoldable mutual
  pub walk : ℕ → Tree → ℕ → List Tree → List ℕ → Option NodePath
  walk target (node label named children) index ancestors indices =
      let below =
        walk_children target children (clamp (index + 1))
          (ancestors ++ node label named children ∷ []) (indices ++ index ∷ []) in
      if label == target
      then some (record { ancestors = ancestors; indices = indices; index = index })
      else below

  pub walk_children : ℕ → Forest → ℕ → List Tree → List ℕ → Option NodePath
  walk_children target nil next path path_indices = none
  walk_children target (cons t f) next path path_indices =
      let first = walk target t next path path_indices in
      let rest =
        walk_children target f (clamp (next + fallback_visible_subtree_count t)) path
          path_indices in
      if ltb max_index next then none else elim first [ some r ↦ some r | none ↦ rest ]

unfoldable pub fallback_path_to_node : Tree → ℕ → Option NodePath
unfolding walk
fallback_path_to_node root target = walk target root 0 [] []
