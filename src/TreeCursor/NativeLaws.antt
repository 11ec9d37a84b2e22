-- ===== src/TreeCursor/NativeLaws.antt =====
-- cursor.go: a guest's call that fails leaves the cursor where it was, without guest support.
use wasitter.Iterator.{Tree, label_of}
use wasitter.Prelude.{
  ℕ, false, Option, none, some, List, [], ◌∷◌, ◌==◌, if◌then◌else◌, if_cases, ◌≡◌, refl, arith, ap,
  ◌≢◌,
}
use wasitter.TreeCursor.Ancestors.{TreeCursor}
use wasitter.TreeCursor.AcrossLaws.{with_path-IsSound}
use wasitter.TreeCursor.Located.{IsLocated}
use wasitter.TreeCursor.MoveLaws.{IsSound}
use wasitter.TreeCursor.Native.{
  snapshot_shadow_locked, restore_shadow_locked, with_path, is_null, invalidate_native_locked,
  tree_closed, failed, returned, Answers, registered, first_u32, with_index, Moved, unused, detach,
  rebuilt, refreshed, refresh, native_move_args_locked, native_move_locked, after_move,
  after_move_args, after_descendant, Reply, native_goto_descendant_locked,
}
use wasitter.TreeCursor.Places.{IsCountable, IsLabelled}
use wasitter.TreeCursor.{NodePath, fallback_path_to_node}

-- What was not used is the cursor of the start of the call, detached.
abbrev Reverts : TreeCursor → Moved → Type 0
Reverts c m = m.used ≡ false → m.cursor ≡ invalidate_native_locked c

restore_shadow_locked-with_index :
    (c : TreeCursor) (index : Option ℕ)
    → restore_shadow_locked (with_index c index) (snapshot_shadow_locked c) ≡ c
unfolding restore_shadow_locked with_index snapshot_shadow_locked
restore_shadow_locked-with_index c none = refl
restore_shadow_locked-with_index c (some i) = refl

restore_shadow_locked-moved :
    (c : TreeCursor) (index : Option ℕ) (n : Tree)
    → restore_shadow_locked (record (with_index c index) { node = n }) (snapshot_shadow_locked c)
      ≡ c
unfolding restore_shadow_locked with_index snapshot_shadow_locked
restore_shadow_locked-moved c none n = refl
restore_shadow_locked-moved c (some i) n = refl

rebuilt-used :
    (c d : TreeCursor) (result : List ℕ) (index : Option ℕ) (path : Option NodePath)
    → Reverts c (rebuilt d result index path)
rebuilt-used c d result (some i) path e = cc e
rebuilt-used c d result none none e = cc e
rebuilt-used c d result none (some p) e = cc e

refreshed-Reverts :
    (c : TreeCursor) (result : List ℕ) (index : Option ℕ) (n : Option Tree)
    → Reverts c (refreshed (with_index c index) (snapshot_shadow_locked c) result index n)
unfolding refreshed
refreshed-Reverts c result index none e =
    ap invalidate_native_locked (restore_shadow_locked-with_index c index)
refreshed-Reverts c result index (some n) e =
    let d = with_index c index in
    let path = fallback_path_to_node d.root (label_of n) in
    if_cases (Reverts c) (is_null n)
      (λ _ _. ap invalidate_native_locked (restore_shadow_locked-moved c index n))
      (λ _. rebuilt-used c (record d { node = n }) result index path) e

refresh-Reverts :
    (g : Answers) (c : TreeCursor) (result : List ℕ)
    → Reverts c (refresh g c (snapshot_shadow_locked c) result)
unfolding refresh
refresh-Reverts g c result = refreshed-Reverts c result (first_u32 g.current_index) (registered g)

-- The cursor's node and its root are not null.
abbrev pub HasHandles : TreeCursor → Type 0
HasHandles c = (is_null c.node ≡ false) × (is_null c.root ≡ false)

invalidate_native_locked-IsSound :
    {ancestors : List Tree} {indices : List ℕ} {index : ℕ} (tree_of : ℕ → Tree) (c : TreeCursor)
    → IsCountable c.root
    → IsLabelled tree_of c.root
    → HasHandles c
    → c.handle ≢ 0
    → IsLocated c.root c.node ancestors indices index
    → IsSound c.root (invalidate_native_locked c) × ((invalidate_native_locked c).node ≡ c.node)
unfolding invalidate_native_locked with_path
invalidate_native_locked-IsSound tree_of c small labelled handles attached l =
    let (p, e, there) =
      with_path-IsSound tree_of (record c { handle = 0 }) small labelled refl refl l in
    if_cases (λ (d : TreeCursor). IsSound c.root d × (d.node ≡ c.node)) (c.handle == 0)
      (λ z. absurd (attached (ground (arith, z)))) λ _. rw (handles.0, handles.1, e) (there, refl)

restore_shadow_locked-snapshot :
    (c : TreeCursor) → restore_shadow_locked c (snapshot_shadow_locked c) ≡ c
unfolding restore_shadow_locked snapshot_shadow_locked
restore_shadow_locked-snapshot c = refl

detach-Reverts : (c : TreeCursor) → Reverts c (detach c (snapshot_shadow_locked c))
detach-Reverts c e = ap invalidate_native_locked (restore_shadow_locked-snapshot c)

after_move_args-Reverts :
    (g : Answers) (c : TreeCursor) (r : Reply) → r ≢ tree_closed → Reverts c (after_move_args g c r)
unfolding after_move_args
after_move_args-Reverts g c tree_closed h = absurd (h refl)
after_move_args-Reverts g c failed h = detach-Reverts c
after_move_args-Reverts g c (returned result) h = refresh-Reverts g c result

after_move-Reverts :
    (g : Answers) (c : TreeCursor) (r : Reply) → r ≢ tree_closed → Reverts c (after_move g c r)
unfolding after_move
after_move-Reverts g c tree_closed h = absurd (h refl)
after_move-Reverts g c failed h = detach-Reverts c
after_move-Reverts g c (returned []) h = detach-Reverts c
after_move-Reverts g c (returned (v ∷ vs)) h = refresh-Reverts g c (v ∷ vs)

after_descendant-Reverts :
    (g : Answers) (c : TreeCursor) (r : Reply)
    → r ≢ tree_closed
    → Reverts c (after_descendant g c r)
unfolding after_descendant
after_descendant-Reverts g c tree_closed h = absurd (h refl)
after_descendant-Reverts g c failed h = detach-Reverts c
after_descendant-Reverts g c (returned result) h = refresh-Reverts g c []

-- The three ways of asking the guest to move.
pub data Asked : Type 0 where
  plain with_arguments descendant : Asked

unfoldable pub native : Asked → Answers → TreeCursor → Moved
unfolding native_move_locked native_move_args_locked native_goto_descendant_locked
native plain = native_move_locked
native with_arguments = native_move_args_locked
native descendant = native_goto_descendant_locked

attached-Reverts :
    (c : TreeCursor) (m : Moved)
    → c.handle ≢ 0
    → Reverts c m
    → Reverts c (if c.handle == 0 then unused c else m)
attached-Reverts c m attached h =
    if_cases (Reverts c) (c.handle == 0) (λ z. absurd (attached (ground (arith, z)))) λ _. h

native-Reverts :
    (asked : Asked) (g : Answers) (c : TreeCursor)
    → c.handle ≢ 0
    → g.moved ≢ tree_closed
    → Reverts c (native asked g c)
unfolding native
native-Reverts plain g c attached h =
    attached-Reverts c _ attached (after_move-Reverts g c g.moved h)
native-Reverts with_arguments g c attached h =
    attached-Reverts c _ attached (after_move_args-Reverts g c g.moved h)
native-Reverts descendant g c attached h =
    attached-Reverts c _ attached (after_descendant-Reverts g c g.moved h)

-- Where a cursor with guest support stands on a node of a tree of at most 2 ^ 32 nodes that labels
-- tell apart, its node and root not null, each way of asking the guest to move, while the tree is open, either is used or
-- leaves the cursor on its node without guest support, with a path from its root to that node and
-- the descendant indexes along it, whatever index the cursor had before.
pub native-IsSound :
    {ancestors : List Tree} {indices : List ℕ} {index : ℕ} (tree_of : ℕ → Tree) (asked : Asked)
    (g : Answers) (c : TreeCursor)
    → IsCountable c.root
    → IsLabelled tree_of c.root
    → HasHandles c
    → c.handle ≢ 0
    → g.moved ≢ tree_closed
    → IsLocated c.root c.node ancestors indices index
    → (native asked g c).used ≡ false
    → ((native asked g c).cursor.node ≡ c.node) × IsSound c.root (native asked g c).cursor
native-IsSound tree_of asked g c small labelled handles attached h l unused =
    let (sound, same) =
      invalidate_native_locked-IsSound tree_of c small labelled handles attached l in
    rw (native-Reverts asked g c attached h unused) (same, sound)
