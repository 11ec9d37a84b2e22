-- ===== src/TreeCursor/Moves.antt =====
-- cursor.go: the moves of the tree cursor. Each first asks the guest and, where the guest is of no
-- use, moves the host's copy of the position. `live` says that neither the cursor nor its tree or
-- runtime is closed. The moves by byte and by point return the child's index.
use wasitter.Iterator.{Tree, label_of, Forest, nil, cons, children_of}
use wasitter.Node.{Node, Point, Comparison, after, compare_point}
use wasitter.Prelude.{
  ℕ, suc, ◌+◌, ◌-◌, ◌^◌, leb, Bool, true, false, not, ◌&&◌, Option, none, some, List, [], ◌∷◌, ◌++◌,
  ltb, ◌==◌, if◌then◌else◌,
}
use wasitter.TreeCursor.Ancestors.{TreeCursor, push_fallback_ancestor}
use wasitter.TreeCursor.Native.{
  CursorShadow, snapshot_shadow_locked, restore_shadow_locked, normalize_fallback_shadow_locked,
  invalidate_native_locked, Answers, Moved, not_zero, native_move_locked, native_move_args_locked,
}
use wasitter.TreeCursor.{max_index, pos, fallback_child_descendant_index, child}

-- What a node's accessors report: its values by label, and its neighbours.
pub record Accessors : Type 0 where
  pub facts : ℕ → Node
  pub next_sibling : ℕ → Option Tree
  pub prev_sibling : ℕ → Option Tree
  pub parent : ℕ → Option Tree

abbrev pub is_empty_stack : List Tree → Bool
is_empty_stack [] = true
is_empty_stack (_ ∷ _) = false

abbrev pub count_of : Forest → ℕ
count_of nil = 0
count_of (cons _ f) = suc (count_of f)

-- Without guest support, a path of unknown index is found again first.
unfoldable pub prepared : TreeCursor → TreeCursor
unfolding normalize_fallback_shadow_locked
prepared c = if c.handle == 0 then normalize_fallback_shadow_locked c else c

-- The cursor at the child `t` of its node, whose place is `n`.
unfoldable pub at_child_of : TreeCursor → ℕ → Tree → TreeCursor
unfolding push_fallback_ancestor
at_child_of c n t = record (push_fallback_ancestor c) {
  node = t;
  descendant_index = fallback_child_descendant_index c.node c.descendant_index (pos n);
}

unfoldable pub down_to : TreeCursor → ℕ → Option Tree → Bool × TreeCursor
unfolding at_child_of
down_to c n none = (false, c)
down_to c n (some t) = (true, at_child_of c n t)

-- The guest's cursor went down from where `old` was.
abbrev pub pushed_below : TreeCursor → TreeCursor → TreeCursor
pushed_below old c = record c {
  stack = c.stack ++ old.node ∷ [];
  stack_indices = c.stack_indices ++ old.descendant_index ∷ [];
}

abbrev pub went_down : TreeCursor → Moved → Bool × TreeCursor
went_down old m = (
  not_zero m.result,
  if not_zero m.result && not m.shadow_rebuilt then pushed_below old m.cursor else m.cursor,
)

unfoldable pub first_child_fallback : TreeCursor → Bool × TreeCursor
unfolding down_to
first_child_fallback c = down_to c 0 (child 0 (children_of c.node))

unfoldable pub go_to_first_child : (live : Bool) → Answers → TreeCursor → Bool × TreeCursor
unfolding native_move_locked prepared first_child_fallback
go_to_first_child false g c = (false, c)
go_to_first_child true g c =
    let m = native_move_locked g (prepared c) in
    if m.used then went_down (prepared c) m else first_child_fallback m.cursor

unfoldable pub last_child_fallback : TreeCursor → Bool × TreeCursor
unfolding down_to
last_child_fallback c =
    let count = count_of (children_of c.node) in
    if count == 0
    then (false, c)
    else down_to c (count - 1) (child (count - 1) (children_of c.node))

unfoldable pub go_to_last_child : (live : Bool) → Answers → TreeCursor → Bool × TreeCursor
unfolding native_move_locked prepared last_child_fallback
go_to_last_child false g c = (false, c)
go_to_last_child true g c =
    let m = native_move_locked g (prepared c) in
    if m.used then went_down (prepared c) m else last_child_fallback m.cursor

-- The index that the guest returned for a move by byte or by point: -1 for no child, and otherwise
-- a wasm32 value.
unfoldable pub went_to_index :
    TreeCursor
    → CursorShadow
    → (shadow_rebuilt : Bool) → TreeCursor
    → List ℕ
    → Option ℕ × TreeCursor
unfolding invalidate_native_locked restore_shadow_locked
went_to_index old shadow rebuilt c [] =
    (none, invalidate_native_locked (restore_shadow_locked c shadow))
went_to_index old shadow rebuilt c (v ∷ _) =
    if leb (2 ^ 63) v
    then (none, restore_shadow_locked c shadow)
    else if ltb max_index v
    then (none, invalidate_native_locked (restore_shadow_locked c shadow))
    else (some v, if not rebuilt then pushed_below old c else c)

abbrev pub went_by_index : TreeCursor → Moved → Option ℕ × TreeCursor
went_by_index old m =
    went_to_index old (snapshot_shadow_locked old) m.shadow_rebuilt m.cursor m.result

-- The loop over the children from place `i` on.
unfoldable pub first_accepted :
    (accepts : ℕ → Bool) → TreeCursor → ℕ → Forest → Option ℕ × TreeCursor
unfolding at_child_of
first_accepted accepts c i nil = (none, c)
first_accepted accepts c i (cons t f) =
    let rest = first_accepted accepts c (i + 1) f in
    if accepts (label_of t) then (some i, at_child_of c i t) else rest

unfoldable pub goto_first_child_for :
    (accepts : ℕ → Bool) (live : Bool) → Answers → TreeCursor → Option ℕ × TreeCursor
unfolding native_move_args_locked prepared went_to_index first_accepted snapshot_shadow_locked
goto_first_child_for accepts false g c = (none, c)
goto_first_child_for accepts true g c =
    let m = native_move_args_locked g (prepared c) in
    if m.used
    then went_by_index (prepared c) m
    else first_accepted accepts m.cursor 0 (children_of m.cursor.node)

unfoldable pub ends_after_byte : Accessors → ℕ → ℕ → Bool
ends_after_byte a offset label = ltb offset (a.facts label).end_byte

abbrev is_after : Comparison → Bool
is_after after = true
is_after _ = false

unfoldable pub ends_after_point : Accessors → Point → ℕ → Bool
unfolding compare_point
ends_after_point a point label =
    ltb 0 (a.facts label).end_byte && is_after (compare_point (a.facts label).end_point point)

unfoldable pub goto_first_child_for_byte :
    Accessors → ℕ → (live : Bool) → Answers → TreeCursor → Option ℕ × TreeCursor
unfolding goto_first_child_for ends_after_byte
goto_first_child_for_byte a offset = goto_first_child_for (ends_after_byte a offset)

unfoldable pub goto_first_child_for_point :
    Accessors → Point → (live : Bool) → Answers → TreeCursor → Option ℕ × TreeCursor
unfolding goto_first_child_for ends_after_point
goto_first_child_for_point a point = goto_first_child_for (ends_after_point a point)
