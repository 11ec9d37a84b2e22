-- ===== src/TreeCursor/Descend.antt =====
-- cursor.go: `GotoDescendant` without the guest, and the cursor's depth and index.
use wasitter.Iterator.{Tree, Forest, nil, cons}
use wasitter.Prelude.{
  ℕ, ◌+◌, ◌%◌, ◌^◌, Bool, true, false, ◌&&◌, Option, none, some, List, [], ◌∷◌, ◌++◌, ltb, leb,
  ◌==◌, if◌then◌else◌, length,
}
use wasitter.TreeCursor.Ancestors.{TreeCursor}
use wasitter.TreeCursor.Native.{invalidate_native_locked, Reply, first_u32}
use wasitter.TreeCursor.{max_index, clamp, fallback_visible_subtree_count}

-- Where the closure `walk` puts the cursor.
pub record Place : Type 0 where
  pub node : Tree
  pub ancestors : List Tree
  pub indices : List ℕ
  pub index : ℕ

abbrev pub or_place : Option Place → Option Place → Option Place
or_place none o = o
or_place (some p) o = some p

-- The closure `walk` below a node of index `n_index`, and its loop over the children; the first
-- child has the index `next`. `none` is its result false.
unfoldable mutual
  pub descend : ℕ → Tree → ℕ → List Tree → List ℕ → Option Place
  descend index (Tree.node label named children) n_index ancestors indices =
      let below =
        descend_children index children (n_index + 1)
          (ancestors ++ Tree.node label named children ∷ []) (indices ++ n_index ∷ []) in
      if ltb max_index (n_index + 1) then none else below

  pub descend_children : ℕ → Forest → ℕ → List Tree → List ℕ → Option Place
  descend_children index nil next path path_indices = none
  descend_children index (cons t f) next path path_indices =
      let child_index = next % 2 ^ 32 in
      let count = fallback_visible_subtree_count t in
      let found = descend index t child_index path path_indices in
      let rest = descend_children index f (clamp (next + count)) path path_indices in
      if child_index == index
      then some (record { node = t; ancestors = path; indices = path_indices; index = child_index })
      else if ltb child_index index && ltb index (child_index + count)
      then or_place found rest
      else rest

unfoldable pub at_place : TreeCursor → Option Place → TreeCursor
at_place c none = c
at_place c (some p) = record c {
  node = p.node;
  stack = p.ancestors;
  stack_indices = p.indices;
  descendant_index = p.index;
}

abbrev pub to_root : TreeCursor → TreeCursor
to_root c = record c { node = c.root; stack = []; stack_indices = []; descendant_index = 0 }

-- From the assignment of the root on, which is all that a cursor without guest support does.
unfoldable pub goto_descendant_fallback : ℕ → TreeCursor → TreeCursor
unfolding at_place descend
goto_descendant_fallback index c =
    if index == 0 then to_root c else at_place (to_root c) (descend index c.root 0 [] [])

-- `limit` is the host's largest `int`. The guest's answer, where it is usable, and the cursor.
unfoldable pub asked_depth : (limit : ℕ) → Reply → TreeCursor → Option ℕ × TreeCursor
unfolding invalidate_native_locked first_u32
asked_depth limit reply c = if c.handle == 0 then (none, c) else elim (first_u32 reply) [
  | none ↦ (none, invalidate_native_locked c)
  | some v ↦ if leb v limit then (some v, c) else (none, invalidate_native_locked c)
]

abbrev or_else_length : Option ℕ × TreeCursor → ℕ × TreeCursor
or_else_length (some v, c) = (v, c)
or_else_length (none, c) = (length c.stack, c)

unfoldable pub current_depth : (live : Bool) (limit : ℕ) → Reply → TreeCursor → ℕ × TreeCursor
unfolding asked_depth
current_depth false limit reply c = (0, c)
current_depth true limit reply c = or_else_length (asked_depth limit reply c)

unfoldable pub asked_index : Reply → TreeCursor → Option ℕ × TreeCursor
unfolding invalidate_native_locked first_u32
asked_index reply c =
    if c.handle == 0
    then (none, c)
    else elim (first_u32 reply) [ none ↦ (none, invalidate_native_locked c) | some v ↦ (some v, c) ]

abbrev or_own_index : Option ℕ × TreeCursor → ℕ × TreeCursor
or_own_index (some v, c) = (v, c)
or_own_index (none, c) = (c.descendant_index, c)

unfoldable pub descendant_index : (live : Bool) → Reply → TreeCursor → ℕ × TreeCursor
unfolding asked_index
descendant_index false reply c = (0, c)
descendant_index true reply c = or_own_index (asked_index reply c)
