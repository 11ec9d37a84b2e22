-- ===== src/TreeCursor/Across.antt =====
-- cursor.go: the tree cursor's moves to a sibling and to the parent.
use wasitter.Iterator.{Tree, label_of}
use wasitter.Prelude.{Bool, true, false, not, ◌&&◌, ◌||◌, Option, none, some, ◌==◌, if◌then◌else◌}
use wasitter.TreeCursor.Ancestors.{TreeCursor, pop_fallback_ancestor}
use wasitter.TreeCursor.Moves.{Accessors, is_empty_stack, prepared}
use wasitter.TreeCursor.Native.{with_path, Answers, Moved, not_zero, native_move_locked}
use wasitter.TreeCursor.{
  NodePath, saturating_add, fallback_visible_subtree_count, fallback_path_to_node,
}

-- A cursor cannot leave the node that it was made with.
unfoldable pub at_boundary : TreeCursor → Bool
at_boundary c = is_empty_stack c.stack || label_of c.node == label_of c.root

abbrev with_old_index : TreeCursor → TreeCursor → TreeCursor
with_old_index old c = record c {
  descendant_index = saturating_add old.descendant_index (fallback_visible_subtree_count old.node);
  descendant_index_known = true;
}

unfoldable pub went_to_next : TreeCursor → Moved → Bool × TreeCursor
unfolding saturating_add
went_to_next old m = (
  not_zero m.result,
  if not_zero m.result && not m.shadow_rebuilt && not m.cursor.descendant_index_known
      then with_old_index old m.cursor
      else m.cursor,
)

unfoldable pub next_sibling_at : TreeCursor → TreeCursor → Option Tree → Bool × TreeCursor
unfolding saturating_add
next_sibling_at old c none = (false, c)
next_sibling_at old c (some next) = (
  true,
  record c {
    node = next;
    descendant_index =
        saturating_add old.descendant_index (fallback_visible_subtree_count old.node);
  },
)

-- The index is reckoned from the one that the cursor had before the guest was asked.
unfoldable pub next_sibling_fallback : Accessors → TreeCursor → TreeCursor → Bool × TreeCursor
unfolding next_sibling_at at_boundary
next_sibling_fallback a old c =
    if at_boundary c then (false, c) else next_sibling_at old c (a.next_sibling (label_of c.node))

unfoldable pub go_to_next_sibling :
    Accessors → (live : Bool) → Answers → TreeCursor → Bool × TreeCursor
unfolding native_move_locked prepared next_sibling_fallback went_to_next
go_to_next_sibling a false g c = (false, c)
go_to_next_sibling a true g c =
    let m = native_move_locked g (prepared c) in
    if m.used then went_to_next (prepared c) m else next_sibling_fallback a (prepared c) m.cursor

-- Where the path to the sibling is not found, only the node moves.
unfoldable pub prev_sibling_path : TreeCursor → Option NodePath → TreeCursor
unfolding with_path
prev_sibling_path c none = record c { descendant_index_known = false }
prev_sibling_path c (some p) = with_path c (some p)

unfoldable pub prev_sibling_at : TreeCursor → Option Tree → Bool × TreeCursor
unfolding prev_sibling_path
prev_sibling_at c none = (false, c)
prev_sibling_at c (some prev) = (
  true,
  prev_sibling_path (record c { node = prev }) (fallback_path_to_node c.root (label_of prev)),
)

unfoldable pub prev_sibling_fallback : Accessors → TreeCursor → Bool × TreeCursor
unfolding prev_sibling_at at_boundary
prev_sibling_fallback a c =
    if at_boundary c then (false, c) else prev_sibling_at c (a.prev_sibling (label_of c.node))

abbrev pub went_to_prev : Moved → Bool × TreeCursor
went_to_prev m = (not_zero m.result, m.cursor)

unfoldable pub go_to_prev_sibling :
    Accessors → (live : Bool) → Answers → TreeCursor → Bool × TreeCursor
unfolding native_move_locked prepared prev_sibling_fallback
go_to_prev_sibling a false g c = (false, c)
go_to_prev_sibling a true g c =
    let m = native_move_locked g (prepared c) in
    if m.used then went_to_prev m else prev_sibling_fallback a m.cursor

abbrev pub popped_or : TreeCursor → Option TreeCursor → TreeCursor
popped_or c none = c
popped_or c (some p) = p

-- The guest's node stays, and the saved path loses its last entry.
unfoldable pub went_to_parent : Moved → Bool × TreeCursor
unfolding pop_fallback_ancestor
went_to_parent m = (
  not_zero m.result,
  if not_zero m.result && not m.shadow_rebuilt
      then record (popped_or m.cursor (pop_fallback_ancestor m.cursor)) { node = m.cursor.node }
      else m.cursor,
)

unfoldable pub parent_at : TreeCursor → Option Tree → Bool × TreeCursor
unfolding pop_fallback_ancestor
parent_at c none = (false, c)
parent_at c (some parent) = (true, popped_or c (pop_fallback_ancestor c))

unfoldable pub parent_fallback : Accessors → TreeCursor → Bool × TreeCursor
unfolding parent_at at_boundary
parent_fallback a c = if at_boundary c then (false, c) else parent_at c (a.parent (label_of c.node))

unfoldable pub go_to_parent : Accessors → (live : Bool) → Answers → TreeCursor → Bool × TreeCursor
unfolding native_move_locked prepared parent_fallback went_to_parent
go_to_parent a false g c = (false, c)
go_to_parent a true g c =
    let m = native_move_locked g (prepared c) in
    if m.used then went_to_parent m else parent_fallback a m.cursor
