-- ===== src/TreeCursor/Counts.antt =====
-- cursor.go: the counts of visible nodes, and the descendant indexes of children.
use wasitter.Iterator.Order.{preorder, preorder_children}
use wasitter.Iterator.{Tree, node, Forest, nil, cons}
use wasitter.Prelude.{
  ℕ, zero, suc, ◌+◌, ◌≤◌, Bool, false, Option, none, some, ◌≡◌, refl, arith, length, length-append,
  ap,
}
use wasitter.TreeCursor.{
  max_index, pos, saturate, fallback_visible_subtree_count, count_loop, index_loop,
  fallback_child_descendant_index, saturating_add, child,
}

-- How many nodes a tree, and a list of trees, has.
abbrev pub size : Tree → ℕ
size t = length (preorder false t)

abbrev pub sizes : Forest → ℕ
sizes f = length (preorder_children false f)

pub size-node : (label : ℕ) (flag : Bool) (f : Forest) → size (node label flag f) ≡ suc (sizes f)
unfolding preorder
size-node label flag f = refl

pub sizes-nil : sizes nil ≡ 0
unfolding preorder
sizes-nil = refl

pub sizes-cons : (t : Tree) (f : Forest) → sizes (cons t f) ≡ size t + sizes f
unfolding preorder
sizes-cons t f = length-append (preorder false t) (preorder_children false f)

mutual
  unfolding fallback_visible_subtree_count

  pub fallback_visible_subtree_count-size :
      (t : Tree) → fallback_visible_subtree_count t ≡ saturate (size t)
  fallback_visible_subtree_count-size (node label flag f) =
      ground (arith, count_loop-sizes 1 f, size-node label flag f)

  count_loop-sizes :
      (count : ℕ) (f : Forest) → count ≤ max_index → count_loop count f ≡ saturate (count + sizes f)
  count_loop-sizes count nil h = rw sizes-nil (ground arith)
  count_loop-sizes count (cons t f) h = ground (
    arith,
    count_loop-sizes (count + fallback_visible_subtree_count t) f,
    fallback_visible_subtree_count-size t,
    sizes-cons t f,
  )

-- The nodes of the first `n` trees.
abbrev pub sizes_before : ℕ → Forest → ℕ
sizes_before zero f = 0
sizes_before (suc n) nil = 0
sizes_before (suc n) (cons t f) = size t + sizes_before n f

index_loop-sizes_before :
    (value n : ℕ) (f : Forest)
    → value ≤ max_index
    → index_loop value n f ≡ saturate (value + sizes_before n f)
unfolding index_loop
index_loop-sizes_before value zero f h = ground arith
index_loop-sizes_before value (suc n) nil h = ground arith
index_loop-sizes_before value (suc n) (cons t f) h = ground (
  arith,
  index_loop-sizes_before (value + fallback_visible_subtree_count t) n f,
  fallback_visible_subtree_count-size t,
)

pub fallback_child_descendant_index-sizes_before :
    (label : ℕ) (flag : Bool) (f : Forest) (parent_index n : ℕ)
    → fallback_child_descendant_index (node label flag f) parent_index (pos n)
      ≡ saturate (parent_index + 1 + sizes_before n f)
unfolding fallback_child_descendant_index
fallback_child_descendant_index-sizes_before label flag f parent_index n =
    ground (arith, index_loop-sizes_before (parent_index + 1) n f)

size_of : Option Tree → ℕ
size_of none = 0
size_of (some t) = size t

sizes_before-suc :
    (n : ℕ) (f : Forest) → sizes_before (suc n) f ≡ sizes_before n f + size_of (child n f)
unfolding size_of
sizes_before-suc zero nil = refl
sizes_before-suc (suc n) nil = refl
sizes_before-suc zero (cons t f) = omega arith
sizes_before-suc (suc n) (cons t f) = omega (arith, sizes_before-suc n f)

-- Where a node has a child at place `n`, adding that child's visible subtree count to its
-- descendant index, as `GoToNextSibling` does, gives the descendant index of the place `n + 1`, for
-- every index of the parent and with saturation on either side.
pub saturating_add-fallback_child_descendant_index :
    (label : ℕ) (flag : Bool) (f : Forest) (parent_index n : ℕ) (t : Tree)
    → child n f ≡ some t
    → saturating_add
        (fallback_child_descendant_index (node label flag f) parent_index (pos n))
        (fallback_visible_subtree_count t)
      ≡ fallback_child_descendant_index (node label flag f) parent_index (pos (suc n))
unfolding saturating_add size_of
saturating_add-fallback_child_descendant_index label flag f parent_index n t e =
    rw
      (
        fallback_child_descendant_index-sizes_before label flag f parent_index n,
        fallback_child_descendant_index-sizes_before label flag f parent_index (suc n),
        fallback_visible_subtree_count-size t,
      )
      (ground (arith, sizes_before-suc n f, ap size_of e))
