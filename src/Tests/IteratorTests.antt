-- ===== src/Tests/IteratorTests.antt =====
-- Runs of the iterator on a small tree.
use wasitter.Iterator.{
  Tree, node, nil, cons, dfs, bfs, other_mode, eof, unsupported_mode, walked, for_each,
  new_iterator, new_named_iterator, next, stop,
}
use wasitter.Iterator.Levels.{levels, concat, for_each-bfs-levels}
use wasitter.Iterator.Order.{preorder, opened, for_each-dfs-preorder}
use wasitter.Prelude.{true, false, ◌≡◌, refl, arith, [], ◌∷◌}

-- 1 with the children 2 and 5; 3 and the unnamed 4 are below 2, and 6 is below 4, 7 below 5.
abbrev tree : Tree
tree = node 1 true (
    cons
      (node 2 true (cons (node 3 true nil) (cons (node 4 false (cons (node 6 true nil) nil)) nil)))
      (cons (node 5 true (cons (node 7 true nil) nil)) nil))

named_dfs : for_each 9 (opened true tree dfs) ≡ walked (1 ∷ 2 ∷ 3 ∷ 5 ∷ 7 ∷ []) eof
unfolding for_each new_named_iterator
named_dfs = refl

every_bfs : for_each 9 (opened false tree bfs) ≡ walked (1 ∷ 2 ∷ 5 ∷ 3 ∷ 4 ∷ 7 ∷ 6 ∷ []) eof
unfolding for_each new_iterator
every_bfs = refl

wrong_mode : next (new_iterator true tree (other_mode 2)) ≡ stop unsupported_mode
unfolding next new_iterator
wrong_mode = refl

for_each-dfs-preorder_example : for_each 6 (opened true tree dfs) ≡ walked (preorder true tree) eof
unfolding preorder
for_each-dfs-preorder_example = for_each-dfs-preorder true tree 6 (omega arith)

for_each-bfs-levels_example :
    for_each 8 (opened false tree bfs) ≡ walked (concat (levels false tree)) eof
unfolding preorder
for_each-bfs-levels_example = for_each-bfs-levels false tree 8 (omega arith)
