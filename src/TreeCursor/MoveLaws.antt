-- ===== src/TreeCursor/MoveLaws.antt =====
-- cursor.go: without guest support, every move of the tree cursor keeps its path one from its root
-- to its node.
use wasitter.Iterator.{Tree, label_of, Forest, nil, cons, children_of}
use wasitter.Prelude.{
  ℕ, suc, ◌+◌, ◌-◌, Bool, Option, none, some, ◌==◌, ◌≡◌, refl, arith, Bool-cases, inl, inr,
}
use wasitter.TreeCursor.Ancestors.{TreeCursor, push_fallback_ancestor}
use wasitter.TreeCursor.Located.{IsLocated, at_child, IsRest, child-IsRest, IsRest-tail}
use wasitter.TreeCursor.Moves.{
  count_of, at_child_of, down_to, first_child_fallback, last_child_fallback, first_accepted,
}
use wasitter.TreeCursor.{child}

-- The cursor has no guest support, was made with `root`, and has a path from it to its node.
pub record IsSound (root : Tree) (c : TreeCursor) : Type 0 where
  pub same_root : c.root ≡ root
  pub free : c.handle ≡ 0
  pub located : IsLocated root c.node c.stack c.stack_indices c.descendant_index

-- The cursor that a move leaves is sound.
abbrev pub Keeps : Tree → Bool × TreeCursor → Type 0
Keeps root r = IsSound root r.1

pub down_to-IsSound :
    {root : Tree} (c : TreeCursor) (n : ℕ) (o : Option Tree)
    → child n (children_of c.node) ≡ o
    → IsSound root c
    → IsSound root (down_to c n o).1
unfolding down_to at_child_of push_fallback_ancestor
down_to-IsSound c n none e h = h
down_to-IsSound c n (some t) e h = record {
  same_root = h.same_root;
  free = h.free;
  located = at_child h.located n t e;
}

pub first_child_fallback-IsSound :
    {root : Tree} (c : TreeCursor) → IsSound root c → IsSound root (first_child_fallback c).1
unfolding first_child_fallback
first_child_fallback-IsSound c h = down_to-IsSound c 0 (child 0 (children_of c.node)) refl h

pub last_child_fallback-IsSound :
    {root : Tree} (c : TreeCursor) → IsSound root c → IsSound root (last_child_fallback c).1
unfolding last_child_fallback
last_child_fallback-IsSound c h =
    let last = count_of (children_of c.node) - 1 in
    let moved = down_to-IsSound c last (child last (children_of c.node)) refl h in
    elim (Bool-cases (count_of (children_of c.node) == 0)) [ inl e ↦ rw e h | inr e ↦ rw e moved ]

pub first_accepted-IsSound :
    {root : Tree} (accepts : ℕ → Bool) (c : TreeCursor) (n : ℕ) (f : Forest)
    → IsRest (children_of c.node) n f
    → IsSound root c
    → IsSound root (first_accepted accepts c n f).1
unfolding first_accepted
first_accepted-IsSound accepts c n nil rest h = h
first_accepted-IsSound {root} accepts c n (cons t f) rest h =
    let later : IsSound root (first_accepted accepts c (n + 1) f).1 =
      let e : suc n ≡ n + 1 = omega arith in
      rw e at (first_accepted-IsSound accepts c (suc n) f (IsRest-tail rest) h) in
    let here : IsSound root (at_child_of c n t) = record {
      same_root = h.same_root;
      free = h.free;
      located = at_child h.located n t (child-IsRest rest);
    } in
    elim (Bool-cases (accepts (label_of t))) [ inl e ↦ rw e here | inr e ↦ rw e later ]
