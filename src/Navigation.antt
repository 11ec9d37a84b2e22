-- ===== src/Navigation.antt =====
-- node.go: the searches among a node's descendants that serve guests without them. The nodes are a
-- tree of labels; `facts` are the values of a label's accessors.
pub mod Narrowed
pub mod Ranges
pub mod Sexp
use wasitter.Iterator.{Tree, node, label_of, is_named, Forest, nil, cons}
use wasitter.Node.{Node, Point, Comparison, before, after, compare_point}
use wasitter.Prelude.{
  ℕ, zero, suc, ◌+◌, Bool, true, false, not, ◌&&◌, ◌||◌, Option, none, some, List, [], ◌∷◌, ltb,
  leb, ◌==◌, if◌then◌else◌,
}

-- `^uint32(0)`
abbrev pub max_handle : ℕ
max_handle = 4294967295

-- The node that the walk may return behind `t`.
abbrev pub visible : (named : Bool) → Tree → Tree → Tree
visible named t last = if not named || is_named t then t else last

-- The walk of `descendantFallback` and `descendantPointFallback`: a child that `skips` does not end
-- where it should, and one that `stops` begins behind the range.
module _ (skips stops : ℕ → Bool) (named : Bool) where
  unfoldable mutual
    pub narrow : Tree → (last_visible : Tree) → Tree
    narrow (node _ _ children) last = narrow_in children last

    pub narrow_in : Forest → (last_visible : Tree) → Tree
    narrow_in nil last = last
    narrow_in (cons t f) last =
        let rest = narrow_in f last in
        let inside = narrow t (visible named t last) in
        if skips (label_of t) then rest else if stops (label_of t) then last else inside

abbrev pub comes_before : Comparison → Bool
comes_before before = true
comes_before _ = false

abbrev pub is_not_after : Comparison → Bool
is_not_after after = false
is_not_after _ = true

abbrev same_point : Point → Point → Bool
same_point a b = a.row == b.row && a.column == b.column

module _ (facts : ℕ → Node) where
  unfoldable pub skips_bytes : (start end : ℕ) → ℕ → Bool
  skips_bytes start end label =
      let n = facts label in
      let empty = n.start_byte == n.end_byte in
      n.is_null
      || ltb n.end_byte end
      || (empty && ltb n.end_byte start || not empty && leb n.end_byte start)

  unfoldable pub stops_bytes : (start : ℕ) → ℕ → Bool
  stops_bytes start label = ltb start (facts label).start_byte

  -- `none` is the null node.
  unfoldable pub descendant_fallback : Tree → (start end : ℕ) → (named : Bool) → Option Tree
  unfolding skips_bytes stops_bytes narrow
  descendant_fallback t start end named =
      if (facts (label_of t)).is_null || ltb end start
      then none
      else some (narrow (skips_bytes start end) (stops_bytes start) named t t)

  unfoldable pub skips_points : (start end : Point) → ℕ → Bool
  unfolding compare_point
  skips_points start end label =
      let n = facts label in
      let empty = same_point n.start_point n.end_point in
      n.is_null
      || comes_before (compare_point n.end_point end)
      || (empty && comes_before (compare_point n.end_point start)
          || not empty && is_not_after (compare_point n.end_point start))

  unfoldable pub stops_points : (start : Point) → ℕ → Bool
  unfolding compare_point
  stops_points start label = comes_before (compare_point start (facts label).start_point)

  unfoldable pub descendant_point_fallback :
      Tree → (start end : Point) → (named : Bool) → Option Tree
  unfolding skips_points stops_points narrow
  descendant_point_fallback t start end named =
      if (facts (label_of t)).is_null || not (is_not_after (compare_point start end))
      then none
      else some (narrow (skips_points start end) (stops_points start) named t t)

-- A call of the guest: its function is missing, the call failed, or it returned values.
pub data NodeCall : Type 0 where
  unsupported failed : NodeCall
  returned : List ℕ → NodeCall

-- `registerNode` makes a node of a handle; a handle too wide for wasm32 is as good as none.
unfoldable pub from_guest : (ℕ → Option Tree) → NodeCall → (fallback : Option Tree) → Option Tree
from_guest register_node unsupported fallback = fallback
from_guest register_node failed fallback = none
from_guest register_node (returned []) fallback = fallback
from_guest register_node (returned (h ∷ _)) fallback =
    if ltb max_handle h then fallback else if h == 0 then none else register_node h

module _ (facts : ℕ → Node) (register_node : ℕ → Option Tree) where
  -- `named` is whether it is `NamedDescendantForByteRange`.
  unfoldable pub descendant_for_byte_range :
      (named : Bool) → NodeCall → Tree → (start end : ℕ) → Option Tree
  unfolding from_guest descendant_fallback
  descendant_for_byte_range named call t start end =
      if ltb end start
      then none
      else from_guest register_node call (descendant_fallback facts t start end named)

  unfoldable pub descendant_for_point_range :
      (named : Bool) → NodeCall → Tree → (start end : Point) → Option Tree
  unfolding from_guest descendant_point_fallback
  descendant_for_point_range named call t start end =
      if not (is_not_after (compare_point start end))
      then none
      else from_guest register_node call (descendant_point_fallback facts t start end named)

  abbrev or_tree : Option Tree → Option Tree → Option Tree
  or_tree none o = o
  or_tree (some t) o = some t

  unfoldable mutual
    pub first_child_visit : (offset : ℕ) (named_only : Bool) → Tree → Option Tree
    first_child_visit offset named_only (node _ _ children) =
        first_child_in offset named_only children

    pub first_child_in : (offset : ℕ) (named_only : Bool) → Forest → Option Tree
    first_child_in offset named_only nil = none
    first_child_in offset named_only (cons t f) =
        let rest = first_child_in offset named_only f in
        let inside = first_child_visit offset named_only t in
        if (facts (label_of t)).is_null || leb (facts (label_of t)).end_byte offset
        then rest
        else if not named_only || is_named t
        then some t
        else or_tree inside rest

  unfoldable pub first_child_for_byte_fallback :
      Tree → (offset : ℕ) (named_only : Bool) → Option Tree
  unfolding first_child_visit
  first_child_for_byte_fallback t offset named_only =
      if (facts (label_of t)).is_null then none else first_child_visit offset named_only t

  -- A call that returned a handle, 0 for no node, is believed, and every other goes on without the
  -- guest.
  unfoldable pub first_child_for_byte :
      (named : Bool) → NodeCall → Tree → (offset : ℕ) → Option Tree
  unfolding first_child_for_byte_fallback
  first_child_for_byte named (returned (h ∷ hs)) t offset =
      if ltb max_handle h
      then first_child_for_byte_fallback t offset named
      else if h == 0
      then none
      else register_node h
  first_child_for_byte named _ t offset = first_child_for_byte_fallback t offset named
