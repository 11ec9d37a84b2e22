-- ===== src/TreeCursor/Native.antt =====
-- cursor.go: what a move of the guest's cursor does to the host's copy of the position
-- (`invalidateNativeLocked`, `nativeMoveLocked`, `nativeMoveArgsLocked`). The guest's answers are
-- arguments. Deleting the guest's cursor is left out. A node's label is its handle, and 0 is the
-- handle of the zero node.
use wasitter.Iterator.{Tree, label_of}
use wasitter.Prelude.{
  ℕ, Bool, true, false, not, ◌&&◌, Option, none, some, List, [], ◌∷◌, ltb, ◌==◌, if◌then◌else◌,
}
use wasitter.TreeCursor.Ancestors.{TreeCursor}
use wasitter.TreeCursor.{NodePath, max_index, fallback_path_to_node}

-- `cursorShadow`
pub record CursorShadow : Type 0 where
  pub node : Tree
  pub stack : List Tree
  pub stack_indices : List ℕ
  pub descendant_index : ℕ
  pub descendant_index_known : Bool

unfoldable pub snapshot_shadow_locked : TreeCursor → CursorShadow
snapshot_shadow_locked c = record {
  node = c.node;
  stack = c.stack;
  stack_indices = c.stack_indices;
  descendant_index = c.descendant_index;
  descendant_index_known = c.descendant_index_known;
}

unfoldable pub restore_shadow_locked : TreeCursor → CursorShadow → TreeCursor
restore_shadow_locked c shadow = record c {
  node = shadow.node;
  stack = shadow.stack;
  stack_indices = shadow.stack_indices;
  descendant_index = shadow.descendant_index;
  descendant_index_known = shadow.descendant_index_known;
}

-- The assignments of a path that `fallbackPathToNode` found; without one the cursor stays.
unfoldable pub with_path : TreeCursor → Option NodePath → TreeCursor
with_path c none = c
with_path c (some p) = record c {
  stack = p.ancestors;
  stack_indices = p.indices;
  descendant_index = p.index;
  descendant_index_known = true;
}

-- `node.handle == 0`
abbrev pub is_null : Tree → Bool
is_null t = label_of t == 0

-- The fallback moves call this with a node and a root that are not null, so it passes its test of
-- them.
unfoldable pub normalize_fallback_shadow_locked : TreeCursor → TreeCursor
unfolding with_path
normalize_fallback_shadow_locked c =
    if c.descendant_index_known
    then c
    else with_path c (fallback_path_to_node c.root (label_of c.node))

unfoldable pub invalidate_native_locked : TreeCursor → TreeCursor
unfolding with_path
invalidate_native_locked c =
    let path = fallback_path_to_node c.root (label_of c.node) in
    if c.handle == 0
    then c
    else if not (is_null c.node) && not (is_null c.root)
    then record (with_path c path) { handle = 0 }
    else record c { handle = 0 }

-- A call of the guest under the tree's lock: the tree was closed meanwhile, the call failed, or it
-- returned values.
pub data Reply : Type 0 where
  tree_closed failed : Reply
  returned : List ℕ → Reply

-- The answers to a move: of the move itself, of `tsw_cursor_current_node` and of
-- `tsw_cursor_current_descendant_index`, and the node that `registerNode` makes of a handle, which
-- may be the zero node.
pub record Answers : Type 0 where
  pub moved : Reply
  pub current_node : Reply
  pub current_index : Reply
  pub register_node : ℕ → Tree

-- `checkedU32` of the first value.
unfoldable pub first_u32 : Reply → Option ℕ
first_u32 (returned (v ∷ _)) = if ltb max_index v then none else some v
first_u32 _ = none

unfoldable pub with_index : TreeCursor → Option ℕ → TreeCursor
with_index c none = record c { descendant_index_known = false }
with_index c (some i) = record c { descendant_index = i; descendant_index_known = true }

-- What a move returns: `used` is false where the caller is to go on without the guest.
pub record Moved : Type 0 where
  pub used : Bool
  pub result : List ℕ
  pub shadow_rebuilt : Bool
  pub cursor : TreeCursor

abbrev pub unused : TreeCursor → Moved
unused c = record { used = false; result = []; shadow_rebuilt = false; cursor = c }

-- `restoreShadow` and `invalidateNativeLocked`, with the snapshot of the start of the call.
abbrev pub detach : TreeCursor → CursorShadow → Moved
detach c old = unused (invalidate_native_locked (restore_shadow_locked c old))

abbrev pub rebuilt : TreeCursor → List ℕ → Option ℕ → Option NodePath → Moved
rebuilt c result (some i) path = record {
  used = true;
  result = result;
  shadow_rebuilt = false;
  cursor = c;
}
rebuilt c result none none = record {
  used = true;
  result = result;
  shadow_rebuilt = false;
  cursor = c;
}
rebuilt c result none (some p) = record {
  used = true;
  result = result;
  shadow_rebuilt = true;
  cursor = with_path c (some p);
}

-- What is registered of the reply, where its handle is a wasm32 value other than 0.
unfoldable pub registered : Answers → Option Tree
unfolding first_u32
registered g = elim (first_u32 g.current_node) [
  | none ↦ none
  | some h ↦ if h == 0 then none else some (g.register_node h)
]

-- The cursor stands on the registered node before the test of it.
unfoldable pub refreshed : TreeCursor → CursorShadow → List ℕ → Option ℕ → Option Tree → Moved
unfolding invalidate_native_locked restore_shadow_locked with_path
refreshed c old result index none = detach c old
refreshed c old result index (some n) =
    let moved = record c { node = n } in
    if is_null n
    then detach moved old
    else rebuilt moved result index (fallback_path_to_node c.root (label_of n))

-- From the replies of the two accessors on.
unfoldable pub refresh : Answers → TreeCursor → CursorShadow → List ℕ → Moved
unfolding refreshed registered with_index
refresh g c old result =
    let index = first_u32 g.current_index in
    refreshed (with_index c index) old result index (registered g)

-- The three functions below, on the reply to the move. The second is without a result a failure;
-- the third's operation has no result, so what the call returns is not read.
unfoldable pub after_move_args : Answers → TreeCursor → Reply → Moved
unfolding refresh snapshot_shadow_locked
after_move_args g c tree_closed = unused c
after_move_args g c failed = detach c (snapshot_shadow_locked c)
after_move_args g c (returned result) = refresh g c (snapshot_shadow_locked c) result

unfoldable pub native_move_args_locked : Answers → TreeCursor → Moved
unfolding after_move_args
native_move_args_locked g c = if c.handle == 0 then unused c else after_move_args g c g.moved

unfoldable pub after_move : Answers → TreeCursor → Reply → Moved
unfolding refresh snapshot_shadow_locked
after_move g c tree_closed = unused c
after_move g c failed = detach c (snapshot_shadow_locked c)
after_move g c (returned []) = detach c (snapshot_shadow_locked c)
after_move g c (returned (v ∷ vs)) = refresh g c (snapshot_shadow_locked c) (v ∷ vs)

-- `moved` is whether the first value of the result is not 0.
unfoldable pub native_move_locked : Answers → TreeCursor → Moved
unfolding after_move
native_move_locked g c = if c.handle == 0 then unused c else after_move g c g.moved

abbrev pub not_zero : List ℕ → Bool
not_zero [] = false
not_zero (v ∷ _) = not (v == 0)

unfoldable pub after_descendant : Answers → TreeCursor → Reply → Moved
unfolding refresh snapshot_shadow_locked
after_descendant g c tree_closed = unused c
after_descendant g c failed = detach c (snapshot_shadow_locked c)
after_descendant g c (returned _) = refresh g c (snapshot_shadow_locked c) []

unfoldable pub native_goto_descendant_locked : Answers → TreeCursor → Moved
unfolding after_descendant
native_goto_descendant_locked g c = if c.handle == 0 then unused c else after_descendant g c g.moved
