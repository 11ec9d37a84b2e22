-- ===== src/Tests/TreeCursorTests.antt =====
-- Runs of the tree cursor's indexes on a small tree.
use wasitter.Iterator.Order.{preorder}
use wasitter.Iterator.{Tree, node, Forest, nil, cons}
use wasitter.Prelude.{◌-◌, true, false, none, some, ◌≡◌, refl, arith, [], ◌∷◌}
use wasitter.TreeCursor.Paths.{index_from, index_of_path, fallback_path_to_node-index_from}
use wasitter.TreeCursor.{
  pos, max_index, fallback_visible_subtree_count, fallback_child_descendant_index,
  fallback_path_to_node,
}

-- 12 with the children 13 and 14; 13 has two children of its own.
abbrev child_13 : Tree
child_13 = node 13 true (cons (node 15 true nil) (cons (node 16 true nil) nil))

abbrev children_of_12 : Forest
children_of_12 = cons child_13 (cons (node 14 true nil) nil)

abbrev root : Tree
root = node 12 true children_of_12

path_to_16 :
    fallback_path_to_node root 16
    ≡ some (record { ancestors = root ∷ child_13 ∷ []; indices = 0 ∷ 1 ∷ []; index = 3 })
unfolding fallback_path_to_node fallback_visible_subtree_count
path_to_16 = refl

no_path : fallback_path_to_node root 17 ≡ none
unfolding fallback_path_to_node fallback_visible_subtree_count
no_path = refl

saturates : fallback_child_descendant_index root (max_index - 2) (pos 1) ≡ max_index
unfolding fallback_child_descendant_index
saturates = refl

fallback_path_to_node-index_from_example :
    index_of_path (fallback_path_to_node root 14) ≡ index_from 14 0 (preorder false root)
unfolding preorder
fallback_path_to_node-index_from_example = fallback_path_to_node-index_from root 14 (omega arith)
