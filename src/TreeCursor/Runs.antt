-- ===== src/TreeCursor/Runs.antt =====
-- cursor.go: the moves of a cursor without guest support, one after another.
use wasitter.Iterator.Order.{preorder}
use wasitter.Iterator.{Tree, label_of, children_of}
use wasitter.Node.{Point}
use wasitter.Prelude.{
  ℕ, Bool, true, false, Option, none, some, List, [], ◌∷◌, ◌==◌, if◌then◌else◌, if_cases, ◌≡◌, refl,
  arith, sym, get_elem?, subst,
}
use wasitter.TreeCursor.Across.{
  go_to_next_sibling, next_sibling_fallback, went_to_next, go_to_prev_sibling,
  prev_sibling_fallback, go_to_parent, parent_fallback, went_to_parent, went_to_prev,
}
use wasitter.TreeCursor.AcrossLaws.{
  prepared-IsSound, next_sibling_fallback-IsSound, prev_sibling_fallback-IsSound,
  parent_fallback-IsSound,
}
use wasitter.TreeCursor.Ancestors.{TreeCursor}
use wasitter.TreeCursor.Descend.{goto_descendant_fallback}
use wasitter.TreeCursor.Reached.{goto_descendant_fallback-IsSound}
use wasitter.TreeCursor.Located.{IsLocated, at_root, whole_IsRest}
use wasitter.TreeCursor.MoveLaws.{
  IsSound, Keeps, first_child_fallback-IsSound, last_child_fallback-IsSound, first_accepted-IsSound,
}
use wasitter.TreeCursor.Moves.{
  Accessors, prepared, went_down, first_child_fallback, go_to_first_child, last_child_fallback,
  go_to_last_child, goto_first_child_for, goto_first_child_for_byte, goto_first_child_for_point,
  ends_after_byte, ends_after_point, first_accepted, went_by_index,
}
use wasitter.TreeCursor.Native.{
  Answers, Moved, unused, native_move_locked, native_move_args_locked, Reply, first_u32,
}
use wasitter.TreeCursor.Neighbours.{Describes}
use wasitter.TreeCursor.Places.{IsLocated-get_elem?}

abbrev handle_or_0 : Option ℕ → ℕ
handle_or_0 none = 0
handle_or_0 (some h) = h

abbrev begun : Tree → Option ℕ → TreeCursor
begun root handle = record {
  node = root;
  root = root;
  stack = [];
  stack_indices = [];
  descendant_index = 0;
  descendant_index_known = false;
  handle = handle_or_0 handle;
}

-- The reply is that of `tsw_cursor_new`; a malformed handle is not taken.
unfoldable pub new_tree_cursor : (live : Bool) → Reply → Tree → Option TreeCursor
unfolding first_u32
new_tree_cursor false reply root = none
new_tree_cursor true reply root = some (begun root (first_u32 reply))

pub data Move : Type 0 where
  to_first_child to_last_child to_next_sibling to_prev_sibling to_parent : Move
  to_child_for_byte : ℕ → Move
  to_child_for_point : Point → Move
  to_descendant : ℕ → Move

-- `GotoDescendant` is only its part without the guest.
unfoldable pub moved : Accessors → Answers → Move → TreeCursor → TreeCursor
unfolding go_to_first_child go_to_last_child go_to_next_sibling go_to_prev_sibling go_to_parent
    goto_first_child_for_byte goto_first_child_for_point goto_descendant_fallback
moved a g to_first_child c = (go_to_first_child true g c).1
moved a g to_last_child c = (go_to_last_child true g c).1
moved a g to_next_sibling c = (go_to_next_sibling a true g c).1
moved a g to_prev_sibling c = (go_to_prev_sibling a true g c).1
moved a g to_parent c = (go_to_parent a true g c).1
moved a g (to_child_for_byte offset) c = (goto_first_child_for_byte a offset true g c).1
moved a g (to_child_for_point point) c = (goto_first_child_for_point a point true g c).1
moved a g (to_descendant index) c = goto_descendant_fallback index (prepared c)

unfoldable pub run : Accessors → Answers → List Move → TreeCursor → TreeCursor
unfolding moved
run a g [] c = c
run a g (m ∷ ms) c = run a g ms (moved a g m c)

-- A move whose native part is of no use is its part without the guest.
without_guest :
    {A : Type 0} (P : A → Type 0) (m : Moved) (c : TreeCursor) (used : Moved → A)
    (fallback : TreeCursor → A)
    → m ≡ unused c
    → P (fallback c)
    → P (if m.used then used m else fallback m.cursor)
without_guest P m c used fallback e h =
    subst (λ (m : Moved). P (if m.used then used m else fallback m.cursor)) (sym e) h

native_move_locked-unused :
    (g : Answers) (c : TreeCursor) → c.handle ≡ 0 → native_move_locked g c ≡ unused c
unfolding native_move_locked
native_move_locked-unused g c e =
    if_cases (λ m. m ≡ unused c) (c.handle == 0) (λ _. refl) (λ b. ground (arith, b, e))

native_move_args_locked-unused :
    (g : Answers) (c : TreeCursor) → c.handle ≡ 0 → native_move_args_locked g c ≡ unused c
unfolding native_move_args_locked
native_move_args_locked-unused g c e =
    if_cases (λ m. m ≡ unused c) (c.handle == 0) (λ _. refl) (λ b. ground (arith, b, e))

abbrev KeepsPlace : Tree → Option ℕ × TreeCursor → Type 0
KeepsPlace root r = IsSound root r.1

module _ {root : Tree} (a : Accessors) (g : Answers) (c : TreeCursor)
    (h : IsSound root (prepared c)) where
  go_to_first_child-IsSound : IsSound root (go_to_first_child true g c).1
  unfolding go_to_first_child
  go_to_first_child-IsSound =
      without_guest (Keeps root) (native_move_locked g (prepared c)) (prepared c)
        (went_down (prepared c)) first_child_fallback
        (native_move_locked-unused g (prepared c) h.free)
        (first_child_fallback-IsSound (prepared c) h)

  go_to_last_child-IsSound : IsSound root (go_to_last_child true g c).1
  unfolding go_to_last_child
  go_to_last_child-IsSound =
      without_guest (Keeps root) (native_move_locked g (prepared c)) (prepared c)
        (went_down (prepared c)) last_child_fallback
        (native_move_locked-unused g (prepared c) h.free)
        (last_child_fallback-IsSound (prepared c) h)

  go_to_parent-IsSound : IsSound root (go_to_parent a true g c).1
  unfolding go_to_parent
  go_to_parent-IsSound =
      without_guest (Keeps root) (native_move_locked g (prepared c)) (prepared c) went_to_parent
        (parent_fallback a) (native_move_locked-unused g (prepared c) h.free)
        (parent_fallback-IsSound a (prepared c) h)

  goto_first_child_for-IsSound :
      (accepts : ℕ → Bool) → IsSound root (goto_first_child_for accepts true g c).1
  unfolding goto_first_child_for
  goto_first_child_for-IsSound accepts =
      without_guest (KeepsPlace root) (native_move_args_locked g (prepared c)) (prepared c)
        (went_by_index (prepared c))
        (λ (d : TreeCursor). first_accepted accepts d 0 (children_of d.node))
        (native_move_args_locked-unused g (prepared c) h.free)
        (first_accepted-IsSound accepts (prepared c) 0 (children_of (prepared c).node)
          (whole_IsRest (children_of (prepared c).node)) h)

  module _ (tree_of : ℕ → Tree) (described : Describes tree_of a root) where
    go_to_next_sibling-IsSound : IsSound root (go_to_next_sibling a true g c).1
    unfolding go_to_next_sibling
    go_to_next_sibling-IsSound =
        without_guest (Keeps root) (native_move_locked g (prepared c)) (prepared c)
          (went_to_next (prepared c)) (next_sibling_fallback a (prepared c))
          (native_move_locked-unused g (prepared c) h.free)
          (next_sibling_fallback-IsSound tree_of a (prepared c) described h)

    go_to_prev_sibling-IsSound : IsSound root (go_to_prev_sibling a true g c).1
    unfolding go_to_prev_sibling
    go_to_prev_sibling-IsSound =
        without_guest (Keeps root) (native_move_locked g (prepared c)) (prepared c) went_to_prev
          (prev_sibling_fallback a) (native_move_locked-unused g (prepared c) h.free)
          (prev_sibling_fallback-IsSound tree_of a (prepared c) described h)

    moved-IsSound : (m : Move) → IsSound root (moved a g m c)
    unfolding moved goto_first_child_for_byte goto_first_child_for_point
    moved-IsSound to_first_child = go_to_first_child-IsSound
    moved-IsSound to_last_child = go_to_last_child-IsSound
    moved-IsSound to_next_sibling = go_to_next_sibling-IsSound
    moved-IsSound to_prev_sibling = go_to_prev_sibling-IsSound
    moved-IsSound to_parent = go_to_parent-IsSound
    moved-IsSound (to_child_for_byte offset) =
        goto_first_child_for-IsSound (ends_after_byte a offset)
    moved-IsSound (to_child_for_point point) =
        goto_first_child_for-IsSound (ends_after_point a point)
    moved-IsSound (to_descendant index) =
        goto_descendant_fallback-IsSound index (prepared c) described.0 h

run-IsSound :
    {root : Tree} (tree_of : ℕ → Tree) (a : Accessors) (g : Answers) (ms : List Move)
    (c : TreeCursor)
    → Describes tree_of a root
    → IsSound root c
    → IsSound root (run a g ms c)
unfolding run
run-IsSound tree_of a g [] c described h = h
run-IsSound tree_of a g (m ∷ ms) c described h =
    run-IsSound tree_of a g ms (moved a g m c) described (
      moved-IsSound a g c (prepared-IsSound tree_of c described.0 described.1 h) tree_of described
        m)

new-IsSound :
    (root : Tree) (reply : Reply) (c : TreeCursor)
    → new_tree_cursor true reply root ≡ some c
    → c.handle ≡ 0
    → IsSound root c
unfolding new_tree_cursor
new-IsSound root reply c e free =
    let made : begun root (first_u32 reply) ≡ c = cc e in
    subst (λ (d : TreeCursor). d.handle ≡ 0 → IsSound root d) made
      (λ z. record { same_root = refl; free = z; located = at_root }) free

-- Where a tree has at most 2 ^ 32 nodes that labels tell apart, and the accessors of siblings
-- report the siblings, a cursor that is made at the tree's root without guest support stays without
-- it, and after any sequence of moves its stack and indexes are a path from the root to its node,
-- whose descendant index is the node's place in preorder.
pub run-preorder :
    (root : Tree) (tree_of : ℕ → Tree) (a : Accessors) (g : Answers) (ms : List Move)
    (reply : Reply) (c : TreeCursor)
    → Describes tree_of a root
    → new_tree_cursor true reply root ≡ some c
    → c.handle ≡ 0
    → let d = run a g ms c in
      (d.handle ≡ 0)
      × IsLocated root d.node d.stack d.stack_indices d.descendant_index
      × (get_elem? (preorder false root) d.descendant_index ≡ some (label_of d.node))
run-preorder root tree_of a g ms reply c described made free =
    let h = run-IsSound tree_of a g ms c described (new-IsSound root reply c made free) in
    (h.free, h.located, IsLocated-get_elem? described.0 h.located)
