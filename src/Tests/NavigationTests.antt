-- ===== src/Tests/NavigationTests.antt =====
-- Runs of the searches for the narrowest node.
use wasitter.Iterator.{Tree, node, nil, cons}
use wasitter.Navigation.Narrowed.{Narrowed}
use wasitter.Navigation.Ranges.{
  covers_bytes, descendant_fallback-Narrowed, covers_points, descendant_point_fallback-Narrowed,
}
use wasitter.Navigation.{
  descendant_fallback, descendant_point_fallback, unsupported, returned, descendant_for_byte_range,
  first_child_for_byte,
}
use wasitter.Node.{Node, Point}
use wasitter.Prelude.{
  ℕ, true, false, Option, none, some, [], ◌∷◌, ◌==◌, if◌then◌else◌, ◌≡◌, refl, arith,
}

abbrev point : ℕ → Point
point column = record { row = 3; column = column }

-- 1 spans the columns 0 to 9; its children 2 and 5 meet in 4, and those of 2, the token 3 and 4, in
-- 2.
abbrev tree_2 : Tree
tree_2 = node 2 true (cons (node 3 false nil) (cons (node 4 true nil) nil))

abbrev root : Tree
root = node 1 true (cons tree_2 (cons (node 5 true nil) nil))

abbrev start_of : ℕ → ℕ
start_of label = if label == 4 then 2 else if label == 5 then 4 else 0

abbrev end_of : ℕ → ℕ
end_of label = if label == 3 then 2 else if label == 2 then 4 else if label == 4 then 4 else 9

abbrev facts : ℕ → Node
facts label = record {
  is_null = false;
  start_byte = start_of label;
  end_byte = end_of label;
  start_point = point (start_of label);
  end_point = point (end_of label);
  text = [];
}

abbrev register_node : ℕ → Option Tree
register_node handle = if handle == 40 then some (node 5 true nil) else none

finds_token : descendant_fallback facts root 0 1 false ≡ some (node 3 false nil)
unfolding descendant_fallback
finds_token = refl

finds_named : descendant_fallback facts root 0 1 true ≡ some tree_2
unfolding descendant_fallback
finds_named = refl

finds_root : descendant_fallback facts root 3 5 false ≡ some root
unfolding descendant_fallback
finds_root = refl

finds_by_point :
    descendant_point_fallback facts root (point 4) (point 6) true ≡ some (node 5 true nil)
unfolding descendant_point_fallback
finds_by_point = refl

-- A handle too wide for wasm32 is not taken; the handle 0 is no node.
too_wide :
    descendant_for_byte_range facts register_node false (returned (4294967296 ∷ [])) root 0 1
    ≡ some (node 3 false nil)
unfolding descendant_for_byte_range
too_wide = refl

null_reply : descendant_for_byte_range facts register_node false (returned (0 ∷ [])) root 0 1 ≡ none
unfolding descendant_for_byte_range
null_reply = refl

first_named :
    first_child_for_byte facts register_node true unsupported tree_2 1 ≡ some (node 4 true nil)
unfolding first_child_for_byte
first_named = refl

descendant_fallback-Narrowed_example :
    (r : Tree) × (descendant_fallback facts root 0 1 true ≡ some r)
    × Narrowed (covers_bytes facts 0 1) true root root r
descendant_fallback-Narrowed_example =
    descendant_fallback-Narrowed facts root 0 1 true refl (omega arith) (
      (omega arith, (omega arith, tt)),
      (((omega arith, (omega arith, tt)), ((tt, tt), ((tt, tt), tt))), ((tt, tt), tt)),
    )

descendant_point_fallback-Narrowed_example :
    (r : Tree) × (descendant_point_fallback facts root (point 4) (point 6) false ≡ some r)
    × Narrowed (covers_points facts (point 4) (point 6)) false root root r
descendant_point_fallback-Narrowed_example =
    descendant_point_fallback-Narrowed facts root (point 4) (point 6) false refl refl
      ((refl, (refl, tt)), (((refl, (refl, tt)), ((tt, tt), ((tt, tt), tt))), ((tt, tt), tt)))
