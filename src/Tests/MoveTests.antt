-- ===== src/Tests/MoveTests.antt =====
-- Runs of the tree cursor's moves on a small tree.
use wasitter.Iterator.Order.{preorder}
use wasitter.Iterator.{Tree, node, nil, cons, label_of}
use wasitter.Node.{Point}
use wasitter.Prelude.{
  ℕ, true, false, Option, none, some, ◌≡◌, refl, arith, [], ◌∷◌, ltb, ◌==◌, if◌then◌else◌,
  get_elem?,
}
use wasitter.TreeCursor.Across.{go_to_next_sibling}
use wasitter.TreeCursor.Ancestors.{TreeCursor}
use wasitter.TreeCursor.Counts.{size}
use wasitter.TreeCursor.Descend.{goto_descendant_fallback}
use wasitter.TreeCursor.Located.{IsLocated, at_root, at_child}
use wasitter.TreeCursor.MoveLaws.{IsSound}
use wasitter.TreeCursor.Moves.{Accessors, go_to_first_child}
use wasitter.TreeCursor.Native.{Answers, failed, returned}
use wasitter.TreeCursor.NativeLaws.{plain, native, native-IsSound}
use wasitter.TreeCursor.Neighbours.{Describes}
use wasitter.TreeCursor.Reached.{goto_descendant_fallback-preorder}
use wasitter.TreeCursor.Runs.{
  to_first_child, to_next_sibling, to_prev_sibling, to_child_for_byte, to_descendant, run,
  run-preorder, new_tree_cursor,
}
use wasitter.TreeCursor.{
  fallback_child_descendant_index, fallback_path_to_node, fallback_visible_subtree_count,
}

abbrev leaf : ℕ → Tree
leaf label = node label true nil

-- 12 with the children 13 and 14; 13 has two children of its own.
abbrev tree_13 : Tree
tree_13 = node 13 true (cons (leaf 15) (cons (leaf 16) nil))

abbrev root : Tree
root = node 12 true (cons tree_13 (cons (leaf 14) nil))

abbrev tree_of : ℕ → Tree
tree_of label = if label == 12 then root else if label == 13 then tree_13 else leaf label

abbrev next_sibling_of : ℕ → Option Tree
next_sibling_of label =
    if label == 13 then some (leaf 14) else if label == 15 then some (leaf 16) else none

abbrev prev_sibling_of : ℕ → Option Tree
prev_sibling_of label =
    if label == 14 then some tree_13 else if label == 16 then some (leaf 15) else none

abbrev point : ℕ → Point
point column = record { row = 0; column = column }

-- Every node ends at its label.
abbrev accessors : Accessors
accessors = record {
  facts = λ label. record {
    is_null = false;
    start_byte = 0;
    end_byte = label;
    start_point = point 0;
    end_point = point label;
    text = [];
  };
  next_sibling = next_sibling_of;
  prev_sibling = prev_sibling_of;
  parent = λ _. some root;
}

root-Describes : Describes tree_of accessors root
unfolding preorder
root-Describes = (
  omega arith,
  (refl, ((refl, ((refl, tt), ((refl, tt), tt))), ((refl, tt), tt))),
  ((refl, (refl, tt)), (((refl, (refl, tt)), ((tt, tt), ((tt, tt), tt))), ((tt, tt), tt))),
  ((refl, (refl, tt)), (((refl, (refl, tt)), ((tt, tt), ((tt, tt), tt))), ((tt, tt), tt))),
)

-- A guest none of whose cursor functions works.
abbrev no_guest : Answers
no_guest = record {
  moved = failed;
  current_node = failed;
  current_index = failed;
  register_node = λ _. node 0 false nil;
}

-- A guest that moves to a node that cannot be registered.
abbrev null_guest : Answers
null_guest = record no_guest { moved = returned (1 ∷ []); current_node = returned (9 ∷ []) }

abbrev begun : TreeCursor
begun = record {
  node = root;
  root = root;
  stack = [];
  stack_indices = [];
  descendant_index = 0;
  descendant_index_known = false;
  handle = 0;
}

moves_down_and_across :
    run accessors no_guest (to_child_for_byte 12 ∷ to_first_child ∷ to_next_sibling ∷ []) begun
    ≡ record begun {
      node = leaf 16;
      stack = root ∷ tree_13 ∷ [];
      stack_indices = 0 ∷ 1 ∷ [];
      descendant_index = 3;
      descendant_index_known = true;
    }
unfolding run fallback_path_to_node fallback_visible_subtree_count fallback_child_descendant_index
moves_down_and_across = refl

moves_to_descendant :
    run accessors no_guest (to_descendant 4 ∷ to_prev_sibling ∷ []) begun ≡ record begun {
      node = tree_13;
      stack = root ∷ [];
      stack_indices = 0 ∷ [];
      descendant_index = 1;
      descendant_index_known = true;
    }
unfolding run fallback_path_to_node fallback_visible_subtree_count fallback_child_descendant_index
moves_to_descendant = refl

-- With guest support, the guest reports indexes of its own.
abbrev attached : TreeCursor
attached = record begun {
  node = tree_13;
  stack = root ∷ [];
  stack_indices = 0 ∷ [];
  descendant_index = 7;
  descendant_index_known = true;
  handle = 40;
}

-- Where the guest fails, a move to the first child starts from the visible index 1 of the node, and
-- a move to the next sibling, whose visible index is 4, from the guest's index.
child_after_failure : (go_to_first_child true no_guest attached).1.descendant_index ≡ 2
unfolding go_to_first_child fallback_path_to_node fallback_child_descendant_index
child_after_failure = refl

sibling_after_failure :
    (go_to_next_sibling accessors true no_guest attached).1.descendant_index ≡ 10
unfolding go_to_next_sibling fallback_path_to_node fallback_visible_subtree_count
sibling_after_failure = refl

run-preorder_example :
    let d =
      run accessors no_guest (to_first_child ∷ to_next_sibling ∷ to_prev_sibling ∷ []) begun in
    (d.handle ≡ 0)
    × IsLocated root d.node d.stack d.stack_indices d.descendant_index
    × (get_elem? (preorder false root) d.descendant_index ≡ some (label_of d.node))
unfolding new_tree_cursor
run-preorder_example =
    run-preorder root tree_of accessors no_guest
      (to_first_child ∷ to_next_sibling ∷ to_prev_sibling ∷ []) failed begun root-Describes refl
      refl

at_13 : IsLocated root tree_13 (root ∷ []) (0 ∷ []) 1
unfolding fallback_child_descendant_index
at_13 = at_child at_root 0 tree_13 refl

-- The cursor at 13 without guest support.
detached-IsSound : IsSound root (record attached { descendant_index = 1; handle = 0 })
detached-IsSound = record { same_root = refl; free = refl; located = at_13 }

goto_descendant_fallback-preorder_example :
    let d = goto_descendant_fallback 3 (record attached { descendant_index = 1; handle = 0 }) in
    (d.descendant_index ≡ (if ltb 3 (size root) then 3 else 0))
    × (get_elem? (preorder false root) d.descendant_index ≡ some (label_of d.node))
    × IsLocated root d.node d.stack d.stack_indices d.descendant_index
goto_descendant_fallback-preorder_example =
    goto_descendant_fallback-preorder root 3 (record attached { descendant_index = 1; handle = 0 })
      root-Describes.0 detached-IsSound

native-IsSound_example :
    ((native plain null_guest attached).cursor.node ≡ attached.node)
    × IsSound attached.root (native plain null_guest attached).cursor
unfolding native
native-IsSound_example =
    native-IsSound tree_of plain null_guest attached root-Describes.0 root-Describes.1 (refl, refl)
      (omega arith) (cc) at_13 refl
