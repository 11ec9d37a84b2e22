-- ===== src/TreeCursor/Paths.antt =====
-- cursor.go: the path that `fallbackPathToNode` finds, and its index.
use wasitter.Iterator.Order.{preorder, preorder_children}
use wasitter.Iterator.{Tree, node, Forest, nil, cons}
use wasitter.Prelude.{
  ℕ, suc, ◌+◌, ◌≤◌, ◌<◌, Bool, false, Option, none, some, List, [], ◌∷◌, ◌++◌, ltb, ◌==◌,
  if◌then◌else◌, ◌≡◌, refl, arith, length, Bool-cases, inl, inr, sym, ap, ◌∙◌,
}
use wasitter.TreeCursor.{
  max_index, fallback_visible_subtree_count, NodePath, clamp, walk, walk_children,
  fallback_path_to_node,
}
use wasitter.TreeCursor.Counts.{
  size, sizes, size-node, sizes-cons, fallback_visible_subtree_count-size,
}

abbrev pub index_from : ℕ → ℕ → List ℕ → Option ℕ
index_from target i [] = none
index_from target i (x ∷ xs) =
    let rest = index_from target (i + 1) xs in if x == target then some i else rest

abbrev pub index_of_path : Option NodePath → Option ℕ
index_of_path none = none
index_of_path (some p) = some p.index

abbrev or_else : Option ℕ → Option ℕ → Option ℕ
or_else none o = o
or_else (some i) o = some i

index_from-append :
    (target i : ℕ) (xs ys : List ℕ)
    → index_from target i (xs ++ ys)
      ≡ or_else (index_from target i xs) (index_from target (i + length xs) ys)
index_from-append target i [] ys = ap (λ (j : ℕ). index_from target j ys) (omega arith)
index_from-append target i (x ∷ xs) ys =
    let shift : i + 1 + length xs ≡ i + suc (length xs) = omega arith in
    elim (Bool-cases (x == target)) [
      | inl e ↦ rw e refl
      | inr e ↦ rw (e, ← shift) (index_from-append target (i + 1) xs ys)
    ]

pub size-pos : (t : Tree) → 0 < size t
size-pos (node label flag f) = omega (arith, size-node label flag f)

clamp_small : (n : ℕ) → n ≤ suc max_index → clamp n ≡ n
clamp_small n h = ground arith

-- The place behind a tree.
next_index :
    (next : ℕ) (t : Tree) (f : Forest)
    → 0 < next
    → next + sizes (cons t f) ≤ suc max_index
    → clamp (next + fallback_visible_subtree_count t) ≡ next + size t
next_index next t f z h = ground (arith, fallback_visible_subtree_count-size t, sizes-cons t f)

in_range :
    (next : ℕ) (t : Tree) (f : Forest)
    → next + sizes (cons t f) ≤ suc max_index
    → ltb max_index next ≡ false
in_range next t f h = ground (arith, sizes-cons t f, size-pos t)

index_of_path-or_else :
    (past : Bool) (first rest : Option NodePath)
    → past ≡ false
    → index_of_path (if past then none else elim first [ some r ↦ some r | none ↦ rest ])
      ≡ or_else (index_of_path first) (index_of_path rest)
index_of_path-or_else past none rest e = rw e refl
index_of_path-or_else past (some r) rest e = rw e refl

index_from-node :
    (target index label : ℕ) (flag : Bool) (f : Forest)
    → index_from target index (preorder false (node label flag f))
      ≡ index_from target index (label ∷ preorder_children false f)
unfolding preorder
index_from-node target index label flag f = refl

index_from-cons :
    (target next : ℕ) (t : Tree) (f : Forest)
    → index_from target next (preorder_children false (cons t f))
      ≡ or_else
          (index_from target next (preorder false t))
          (index_from target (next + size t) (preorder_children false f))
unfolding preorder
index_from-cons target next t f =
    index_from-append target next (preorder false t) (preorder_children false f)

index_from-nil : (target next : ℕ) → index_from target next (preorder_children false nil) ≡ none
unfolding preorder
index_from-nil target next = refl

mutual
  unfolding walk

  walk-index_from :
      (target : ℕ) (t : Tree) (index : ℕ) (ancestors : List Tree) (indices : List ℕ)
      → index + size t ≤ suc max_index
      → index_of_path (walk target t index ancestors indices)
        ≡ index_from target index (preorder false t)
  walk-index_from target (node label flag f) index ancestors indices h =
      let s = size-node label flag f in
      let e = index_from-node target index label flag f in
      let c = clamp_small (index + 1) (omega (arith, s)) in
      elim (Bool-cases (label == target)) [
        | inl b ↦ rw (e, b) refl
        | inr b ↦
            rw (e, b, c)
              (walk_children-index_from target f (index + 1) (ancestors ++ node label flag f ∷ [])
                (indices ++ index ∷ []) (omega arith) (omega (arith, s)))
      ]

  walk_children-index_from :
      (target : ℕ) (f : Forest) (next : ℕ) (path : List Tree) (path_indices : List ℕ)
      → 0 < next
      → next + sizes f ≤ suc max_index
      → index_of_path (walk_children target f next path path_indices)
        ≡ index_from target next (preorder_children false f)
  walk_children-index_from target nil next path path_indices z h = sym (index_from-nil target next)
  walk_children-index_from target (cons t f) next path path_indices z h =
      let s = sizes-cons t f in
      index_of_path-or_else (ltb max_index next) (walk target t next path path_indices)
        (walk_children target f (clamp (next + fallback_visible_subtree_count t)) path path_indices)
        (in_range next t f h)
      ∙ rw
          (
            walk-index_from target t next path path_indices (omega (arith, s)),
            next_index next t f z h,
            walk_children-index_from target f (next + size t) path path_indices (omega (arith, s))
                (omega (arith, s)),
            index_from-cons target next t f,
          )
          refl

-- In a tree of at most 2 ^ 32 nodes, `fallbackPathToNode` finds a node exactly if it is one of the
-- tree's, and the index that it returns is the node's first place in preorder, the root's being 0.
pub fallback_path_to_node-index_from :
    (root : Tree) (target : ℕ)
    → size root ≤ suc max_index
    → index_of_path (fallback_path_to_node root target) ≡ index_from target 0 (preorder false root)
unfolding fallback_path_to_node
fallback_path_to_node-index_from root target h = walk-index_from target root 0 [] [] (omega arith)
