-- ===== src/TreeCursor/Neighbours.antt =====
-- cursor.go: the siblings of a located node are located.
use wasitter.Iterator.{Tree, node, label_of, Forest, nil, cons, children_of}
use wasitter.Prelude.{ℕ, zero, suc, false, Option, none, some, List, ◌≡◌, sym, ◌∙◌}
use wasitter.TreeCursor.Counts.{saturating_add-fallback_child_descendant_index}
use wasitter.TreeCursor.Located.{IsLocated, at_root, at_child}
use wasitter.TreeCursor.Moves.{Accessors, is_empty_stack}
use wasitter.TreeCursor.Places.{IsCountable, Everywhere, IsLabelled, IsLocated-here}
use wasitter.TreeCursor.{
  child, pos, saturating_add, fallback_visible_subtree_count, fallback_child_descendant_index,
}

-- `next` and `prev` are the neighbours in the forest; before its first node stands `before`.
abbrev pub NextsIn : (ℕ → Option Tree) → Forest → Type 0
NextsIn next nil = Unit
NextsIn next (cons t f) = (next (label_of t) ≡ child 0 f) × NextsIn next f

abbrev pub PrevsIn : (ℕ → Option Tree) → Option Tree → Forest → Type 0
PrevsIn prev before nil = Unit
PrevsIn prev before (cons t f) = (prev (label_of t) ≡ before) × PrevsIn prev (some t) f

-- What the accessors of siblings report is what the tree says, on all the root's descendants, and
-- labels tell the nodes apart.
abbrev pub Describes : (ℕ → Tree) → Accessors → Tree → Type 0
Describes tree_of a root =
    IsCountable root
    × IsLabelled tree_of root
    × Everywhere (λ t. NextsIn a.next_sibling (children_of t)) root
    × Everywhere (λ t. PrevsIn a.prev_sibling none (children_of t)) root

next_of_child :
    (next : ℕ → Option Tree) (n : ℕ) (f : Forest) (t : Tree)
    → NextsIn next f
    → child n f ≡ some t
    → next (label_of t) ≡ child (suc n) f
next_of_child next n nil t h e = cc e
next_of_child next zero (cons u f) t (h, hs) e = let same : u ≡ t = cc e in rw same at h
next_of_child next (suc n) (cons u f) t (h, hs) e = next_of_child next n f t hs e

-- The sibling before the place `n`.
abbrev previous : ℕ → Option Tree → Forest → Option Tree
previous zero before f = before
previous (suc n) before f = child n f

prev_of_child :
    (prev : ℕ → Option Tree) (n : ℕ) (before : Option Tree) (f : Forest) (t : Tree)
    → PrevsIn prev before f
    → child n f ≡ some t
    → prev (label_of t) ≡ previous n before f
prev_of_child prev n before nil t h e = cc e
prev_of_child prev zero before (cons u f) t (h, hs) e = let same : u ≡ t = cc e in rw same at h
prev_of_child prev (suc zero) before (cons u f) t (h, hs) e =
    prev_of_child prev zero (some u) f t hs e
prev_of_child prev (suc (suc n)) before (cons u f) t (h, hs) e =
    prev_of_child prev (suc n) (some u) f t hs e

saturating_add-child :
    (p : Tree) (index n : ℕ) (t : Tree)
    → child n (children_of p) ≡ some t
    → saturating_add
        (fallback_child_descendant_index p index (pos n))
        (fallback_visible_subtree_count t)
      ≡ fallback_child_descendant_index p index (pos (suc n))
saturating_add-child (node label flag f) index n t e =
    saturating_add-fallback_child_descendant_index label flag f index n t e

pub IsLocated-next :
    {root t : Tree} {ancestors : List Tree} {indices : List ℕ} {index : ℕ} (next : ℕ → Option Tree)
    (u : Tree)
    → Everywhere (λ t. NextsIn next (children_of t)) root
    → IsLocated root t ancestors indices index
    → is_empty_stack ancestors ≡ false
    → next (label_of t) ≡ some u
    → IsLocated root u ancestors indices (saturating_add index (fallback_visible_subtree_count t))
IsLocated-next next u h at_root below e = cc below
IsLocated-next {root} next u h (at_child {p} {ancestors} {indices} {index} l n t e') below e =
    let siblings = IsLocated-here (λ t. NextsIn next (children_of t)) h l in
    let there : child (suc n) (children_of p) ≡ some u =
      sym (next_of_child next n (children_of p) t siblings e') ∙ e in
    rw (saturating_add-child p index n t e') (at_child l (suc n) u there)

-- The node before a located node is located too.
pub record Elsewhere (root u : Tree) : Type 0 where
  pub ancestors : List Tree
  pub indices : List ℕ
  pub index : ℕ
  pub located : IsLocated root u ancestors indices index

previous-Elsewhere :
    {root p : Tree} {ancestors : List Tree} {indices : List ℕ} {index : ℕ} (n : ℕ) (u : Tree)
    → IsLocated root p ancestors indices index
    → previous n none (children_of p) ≡ some u
    → Elsewhere root u
previous-Elsewhere zero u l e = cc e
previous-Elsewhere (suc n) u l e = record {
  ancestors = _;
  indices = _;
  index = _;
  located = at_child l n u e;
}

pub IsLocated-prev :
    {root t : Tree} {ancestors : List Tree} {indices : List ℕ} {index : ℕ} (prev : ℕ → Option Tree)
    (u : Tree)
    → Everywhere (λ t. PrevsIn prev none (children_of t)) root
    → IsLocated root t ancestors indices index
    → is_empty_stack ancestors ≡ false
    → prev (label_of t) ≡ some u
    → Elsewhere root u
IsLocated-prev prev u h at_root below e = cc below
IsLocated-prev prev u h (at_child {p} l n t e') below e =
    let siblings = IsLocated-here (λ t. PrevsIn prev none (children_of t)) h l in
    previous-Elsewhere n u l (sym (prev_of_child prev n none (children_of p) t siblings e') ∙ e)
