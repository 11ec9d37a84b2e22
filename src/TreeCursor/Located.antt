-- ===== src/TreeCursor/Located.antt =====
-- cursor.go: what it is for a cursor's path to lead from its root to its node, and that the path
-- search finds such paths.
use wasitter.Iterator.{Tree, node, label_of, Forest, nil, cons, children_of}
use wasitter.Prelude.{
  ℕ, suc, ◌+◌, ◌≤◌, Bool, true, false, Option, none, some, List, [], ◌∷◌, ◌++◌, ltb, ◌==◌,
  if◌then◌else◌, ◌≡◌, refl, arith, Bool-cases, inl, inr, subst, sym,
}
use wasitter.TreeCursor.Counts.{
  saturating_add-fallback_child_descendant_index, fallback_child_descendant_index-sizes_before,
}
use wasitter.TreeCursor.{
  max_index, pos, child, saturating_add, NodePath, clamp, walk, walk_children,
  fallback_visible_subtree_count, fallback_child_descendant_index, fallback_path_to_node,
}

-- The node `t` is reached from `root` through the ancestors, whose descendant indexes are
-- `indices`; its own is `index`.
pub data IsLocated (root : Tree) : Tree → List Tree → List ℕ → ℕ → Type 0 where
  at_root : IsLocated root root [] [] 0
  at_child :
      {p : Tree} {ancestors : List Tree} {indices : List ℕ} {index : ℕ}
      → IsLocated root p ancestors indices index
      → (n : ℕ) (t : Tree) → child n (children_of p) ≡ some t
      → IsLocated root t
          (ancestors ++ p ∷ [])
          (indices ++ index ∷ [])
          (fallback_child_descendant_index p index (pos n))

-- The forest `f` is what follows the first `n` trees of `g`.
pub record IsRest (g : Forest) (n : ℕ) (f : Forest) : Type 0 where
  pub same : (k : ℕ) → child k f ≡ child (n + k) g

pub child-IsRest :
    {g : Forest} {n : ℕ} {t : Tree} {f : Forest} → IsRest g n (cons t f) → child n g ≡ some t
child-IsRest {g} {n} h = let e : n + 0 ≡ n = omega arith in rw e at (sym (h.same 0))

pub IsRest-tail :
    {g : Forest} {n : ℕ} {t : Tree} {f : Forest} → IsRest g n (cons t f) → IsRest g (suc n) f
IsRest-tail {g} {n} h = record {
  same = λ k. let e : n + suc k ≡ suc n + k = omega arith in rw e at (h.same (suc k));
}

pub whole_IsRest : (g : Forest) → IsRest g 0 g
whole_IsRest g = record { same = λ k. let e : 0 + k ≡ k = omega arith in rw e refl }

-- The place that the path search has reached: representable, it is the child's descendant index.
abbrev pub Agrees : Tree → ℕ → ℕ → ℕ → Type 0
Agrees p index n next = next ≤ max_index → next ≡ fallback_child_descendant_index p index (pos n)

pub next-Agrees :
    (p : Tree) (index n next : ℕ) (t : Tree)
    → child n (children_of p) ≡ some t
    → next ≤ max_index
    → Agrees p index n next
    → Agrees p index (suc n) (clamp (next + fallback_visible_subtree_count t))
unfolding saturating_add
next-Agrees (node label flag f) index n next t e h a small =
    let known = a h in
    let s = saturating_add-fallback_child_descendant_index label flag f index n t e in
    ground (arith, known, s)

pub first-Agrees : (p : Tree) (index : ℕ) → Agrees p index 0 (clamp (index + 1))
first-Agrees (node label flag f) index small =
    ground (arith, fallback_child_descendant_index-sizes_before label flag f index 0)

-- A path that leads from `root` to a node of the label `target`.
pub record Leads (root : Tree) (target : ℕ) (p : NodePath) : Type 0 where
  pub end : Tree
  pub label : label_of end ≡ target
  pub located : IsLocated root end p.ancestors p.indices p.index

-- Every path of a search result leads to the target.
abbrev pub AllLead : Tree → ℕ → Option NodePath → Type 0
AllLead root target none = Unit
AllLead root target (some p) = Leads root target p

AllLead-step :
    (root : Tree) (target : ℕ) (past : Bool) (first rest : Option NodePath)
    → (past ≡ false → AllLead root target first)
    → (past ≡ false → AllLead root target rest)
    → AllLead root target (if past then none else elim first [ some r ↦ some r | none ↦ rest ])
AllLead-step root target true first rest a b = tt
AllLead-step root target false none rest a b = b refl
AllLead-step root target false (some r) rest a b = a refl

mutual
  unfolding walk

  pub walk-AllLead :
      {root : Tree} (target : ℕ) (t : Tree) (index : ℕ) (ancestors : List Tree) (indices : List ℕ)
      → IsLocated root t ancestors indices index
      → AllLead root target (walk target t index ancestors indices)
  walk-AllLead {root} target (node label flag f) index ancestors indices h =
      let below =
        walk_children-AllLead target (node label flag f) 0 f (clamp (index + 1)) index ancestors
          indices h (whole_IsRest f) (first-Agrees (node label flag f) index) in
      elim (Bool-cases (label == target)) [
        | inl e ↦ rw e (record { end = node label flag f; label = ground arith; located = h })
        | inr e ↦ rw e below
      ]

  walk_children-AllLead :
      {root : Tree} (target : ℕ) (p : Tree) (n : ℕ) (f : Forest) (next index : ℕ)
      (ancestors : List Tree) (indices : List ℕ)
      → IsLocated root p ancestors indices index
      → IsRest (children_of p) n f
      → Agrees p index n next
      → AllLead root target
          (walk_children target f next (ancestors ++ p ∷ []) (indices ++ index ∷ []))
  walk_children-AllLead target p n nil next index ancestors indices h rest a = tt
  walk_children-AllLead {root} target p n (cons t f) next index ancestors indices h rest a =
      AllLead-step root target (ltb max_index next)
        (walk target t next (ancestors ++ p ∷ []) (indices ++ index ∷ []))
        (walk_children target f (clamp (next + fallback_visible_subtree_count t))
          (ancestors ++ p ∷ []) (indices ++ index ∷ []))
        (λ e. walk-AllLead target t next (ancestors ++ p ∷ []) (indices ++ index ∷ []) (
          subst (IsLocated root t (ancestors ++ p ∷ []) (indices ++ index ∷ []))
            (sym (a (ground (arith, e)))) (at_child h n t (child-IsRest rest))))
        (λ e.
          walk_children-AllLead target p (suc n) f (clamp (next + fallback_visible_subtree_count t))
            index ancestors indices h (IsRest-tail rest)
            (next-Agrees p index n next t (child-IsRest rest) (ground (arith, e)) a))

pub fallback_path_to_node-AllLead :
    (root : Tree) (target : ℕ) → AllLead root target (fallback_path_to_node root target)
unfolding fallback_path_to_node
fallback_path_to_node-AllLead root target = walk-AllLead target root 0 [] [] at_root
