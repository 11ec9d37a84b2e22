-- ===== src/TreeCursor/AcrossLaws.antt =====
-- cursor.go: the moves to a sibling and to the parent keep a cursor's path sound.
use wasitter.Iterator.{Tree, label_of}
use wasitter.Prelude.{
  ℕ, false, some, List, [], ◌∷◌, ◌==◌, if_cases, ◌≡◌, refl, arith, Option-cases, inl, inr, length,
  length-append,
}
use wasitter.TreeCursor.Across.{
  at_boundary, next_sibling_at, next_sibling_fallback, prev_sibling_path, prev_sibling_at,
  prev_sibling_fallback, parent_at, parent_fallback, popped_or,
}
use wasitter.TreeCursor.Ancestors.{
  TreeCursor, push_fallback_ancestor, pop_fallback_ancestor,
  pop_fallback_ancestor-push_fallback_ancestor,
}
use wasitter.TreeCursor.Located.{IsLocated, at_root, at_child}
use wasitter.TreeCursor.MoveLaws.{IsSound, Keeps}
use wasitter.TreeCursor.Moves.{Accessors, is_empty_stack, prepared}
use wasitter.TreeCursor.Native.{with_path, normalize_fallback_shadow_locked}
use wasitter.TreeCursor.Neighbours.{Describes, IsLocated-next, IsLocated-prev}
use wasitter.TreeCursor.Places.{IsCountable, IsLabelled, fallback_path_to_node-IsLocated}
use wasitter.TreeCursor.{NodePath, pos, fallback_child_descendant_index, fallback_path_to_node}

length-IsLocated :
    {root t : Tree} {ancestors : List Tree} {indices : List ℕ} {index : ℕ}
    → IsLocated root t ancestors indices index
    → length ancestors ≡ length indices
length-IsLocated at_root = refl
length-IsLocated (at_child {p} {ancestors} {indices} {index} l n t e) = omega (
  arith,
  length-IsLocated l,
  length-append ancestors (p ∷ []),
  length-append indices (index ∷ []),
)

is_empty_stack-inside : (c : TreeCursor) → at_boundary c ≡ false → is_empty_stack c.stack ≡ false
unfolding at_boundary
is_empty_stack-inside c e = ground (arith, e)

-- The path that the search finds for a node of the tree is a sound one.
pub with_path-IsSound :
    {root : Tree} {ancestors : List Tree} {indices : List ℕ} {index : ℕ} (tree_of : ℕ → Tree)
    (c : TreeCursor)
    → IsCountable root
    → IsLabelled tree_of root
    → c.root ≡ root
    → c.handle ≡ 0
    → IsLocated root c.node ancestors indices index
    → (p : NodePath) × (fallback_path_to_node c.root (label_of c.node) ≡ some p)
      × IsSound root (with_path c (some p))
unfolding with_path
with_path-IsSound {root} tree_of c small labelled same free l =
    let (p, e, there) = fallback_path_to_node-IsLocated tree_of small labelled l in
    (p, rw same e, record { same_root = same; free = free; located = there })

pub prepared-IsSound :
    {root : Tree} (tree_of : ℕ → Tree) (c : TreeCursor)
    → IsCountable root
    → IsLabelled tree_of root
    → IsSound root c
    → IsSound root (prepared c)
unfolding prepared normalize_fallback_shadow_locked
prepared-IsSound {root} tree_of c small labelled h =
    let (p, e, there) = with_path-IsSound tree_of c small labelled h.same_root h.free h.located in
    if_cases (IsSound root) (c.handle == 0)
      (λ _. if_cases (IsSound root) c.descendant_index_known (λ _. h) λ _. rw e there) λ _. h

pub next_sibling_fallback-IsSound :
    {root : Tree} (tree_of : ℕ → Tree) (a : Accessors) (c : TreeCursor)
    → Describes tree_of a root
    → IsSound root c
    → IsSound root (next_sibling_fallback a c c).1
unfolding next_sibling_fallback next_sibling_at
next_sibling_fallback-IsSound {root} tree_of a c (small, labelled, nexts, prevs) h =
    if_cases (Keeps root) (at_boundary c) (λ _. h)
      λ b. elim (Option-cases (a.next_sibling (label_of c.node))) [
        | inl e ↦ rw e h
        | inr (u, e) ↦ rw e (record {
          same_root = h.same_root;
          free = h.free;
          located = IsLocated-next a.next_sibling u nexts h.located (is_empty_stack-inside c b) e;
        })
      ]

pub prev_sibling_fallback-IsSound :
    {root : Tree} (tree_of : ℕ → Tree) (a : Accessors) (c : TreeCursor)
    → Describes tree_of a root
    → IsSound root c
    → IsSound root (prev_sibling_fallback a c).1
unfolding prev_sibling_fallback prev_sibling_at prev_sibling_path
prev_sibling_fallback-IsSound {root} tree_of a c (small, labelled, nexts, prevs) h =
    if_cases (Keeps root) (at_boundary c) (λ _. h)
      λ b. elim (Option-cases (a.prev_sibling (label_of c.node))) [
        | inl e ↦ rw e h
        | inr (u, e) ↦
            let found =
              IsLocated-prev a.prev_sibling u prevs h.located (is_empty_stack-inside c b) e in
            let (p, path, there) =
              with_path-IsSound tree_of (record c { node = u }) small labelled h.same_root h.free
                found.located in
            rw (e, path) there
      ]

popped_or-located :
    {root t : Tree} {ancestors : List Tree} {indices : List ℕ} {index : ℕ} (c : TreeCursor)
    → c.root ≡ root
    → c.handle ≡ 0
    → IsLocated root t ancestors indices index
    → is_empty_stack ancestors ≡ false
    → let d = record c {
      node = t;
      stack = ancestors;
      stack_indices = indices;
      descendant_index = index;
    } in
      IsSound root (popped_or d (pop_fallback_ancestor d))
unfolding push_fallback_ancestor
popped_or-located c same free at_root below = cc below
popped_or-located c same free (at_child {p} {ancestors} {indices} {index} l n t e) below =
    let above = record c {
      node = p;
      stack = ancestors;
      stack_indices = indices;
      descendant_index = index;
    } in
    let back =
      pop_fallback_ancestor-push_fallback_ancestor above t
        (fallback_child_descendant_index p index (pos n)) (length-IsLocated l) in
    rw back.0 (record { same_root = same; free = free; located = l })

pub parent_fallback-IsSound :
    {root : Tree} (a : Accessors) (c : TreeCursor)
    → IsSound root c
    → IsSound root (parent_fallback a c).1
unfolding parent_fallback parent_at
parent_fallback-IsSound {root} a c h =
    if_cases (Keeps root) (at_boundary c) (λ _. h)
      λ b. elim (Option-cases (a.parent (label_of c.node))) [
        | inl e ↦ rw e h
        | inr (u, e) ↦
            rw e (popped_or-located c h.same_root h.free h.located (is_empty_stack-inside c b))
      ]
