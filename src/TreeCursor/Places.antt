-- ===== src/TreeCursor/Places.antt =====
-- cursor.go: a located node stands in the preorder of the root at its descendant index, and the
-- path search finds it.
use mathlib.Core.List.{append_assoc, append-nil}
use wasitter.Iterator.Order.{preorder, preorder_children}
use wasitter.Iterator.{Tree, node, label_of, Forest, nil, cons, children_of}
use wasitter.Prelude.{
  ℕ, zero, suc, ◌+◌, ◌≤◌, ◌≢◌, false, none, some, List, [], ◌∷◌, ◌++◌, ◌==◌, ◌≡◌, refl, arith,
  Bool-cases, Option-cases, inl, inr, sym, ap, ◌∙◌, length, length-append, get_elem?, subst,
}
use wasitter.TreeCursor.Counts.{
  size, size-node, sizes_before, fallback_child_descendant_index-sizes_before,
}
use wasitter.TreeCursor.Located.{IsLocated, at_root, at_child, Leads, fallback_path_to_node-AllLead}
use wasitter.TreeCursor.Paths.{
  index_from, index_of_path, fallback_path_to_node-index_from, size-pos,
}
use wasitter.TreeCursor.{
  max_index, pos, child, NodePath, fallback_child_descendant_index, fallback_path_to_node,
}

-- The preorder of `t` stands in `xs` behind `index` labels.
pub record StandsIn (xs : List ℕ) (t : Tree) (index : ℕ) : Type 0 where
  pub before : List ℕ
  pub after : List ℕ
  pub whole : xs ≡ before ++ (preorder false t ++ after)
  pub place : length before ≡ index

child-StandsIn :
    (n : ℕ) (f : Forest) (t : Tree)
    → child n f ≡ some t
    → StandsIn (preorder_children false f) t (sizes_before n f)
unfolding preorder
child-StandsIn zero (cons u f) t e = record {
  before = [];
  after = preorder_children false f;
  whole = let same : u ≡ t = cc e in rw same refl;
  place = refl;
}
child-StandsIn (suc n) (cons u f) t e =
    let h = child-StandsIn n f t e in
    record {
      before = preorder false u ++ h.before;
      after = h.after;
      whole = rw (h.whole, append_assoc) refl;
      place = omega (arith, length-append (preorder false u) h.before, h.place);
    }
child-StandsIn zero nil t e = cc e
child-StandsIn (suc n) nil t e = cc e

length-StandsIn :
    {xs : List ℕ} {t : Tree} {index : ℕ} → StandsIn xs t index → index + size t ≤ length xs
length-StandsIn {xs} {t} h = rw h.whole (
    omega (
      arith,
      length-append h.before (preorder false t ++ h.after),
      length-append (preorder false t) h.after,
      h.place,
    ))

-- The nodes of the root, as many as descendant indexes can tell apart.
abbrev pub IsCountable : Tree → Type 0
IsCountable root = size root ≤ suc max_index

below-StandsIn :
    {xs : List ℕ} {p t : Tree} {index : ℕ} (n : ℕ)
    → length xs ≤ suc max_index
    → StandsIn xs p index
    → child n (children_of p) ≡ some t
    → StandsIn xs t (fallback_child_descendant_index p index (pos n))
unfolding preorder
below-StandsIn {p = node label flag f} {t} {index} n small h e =
    let inside = child-StandsIn n f t e in
    let room = length-StandsIn h in
    let fits = length-StandsIn inside in
    record {
      before = h.before ++ label ∷ inside.before;
      after = inside.after ++ h.after;
      whole = rw (h.whole, inside.whole) (simp append_assoc);
      place = ground (
        arith,
        fallback_child_descendant_index-sizes_before label flag f index n,
        length-append h.before (label ∷ inside.before),
        h.place,
        inside.place,
        size-node label flag f,
        size-pos t,
      );
    }

pub IsLocated-StandsIn :
    {root t : Tree} {ancestors : List Tree} {indices : List ℕ} {index : ℕ}
    → IsCountable root
    → IsLocated root t ancestors indices index
    → StandsIn (preorder false root) t index
IsLocated-StandsIn {root} small at_root = record {
  before = [];
  after = [];
  whole = sym (append-nil (preorder false root));
  place = refl;
}
IsLocated-StandsIn small (at_child h n t e) = below-StandsIn n small (IsLocated-StandsIn small h) e

get_elem?-middle : (xs ys : List ℕ) (x : ℕ) → get_elem? (xs ++ x ∷ ys) (length xs) ≡ some x
get_elem?-middle [] ys x = refl
get_elem?-middle (_ ∷ xs) ys x = get_elem?-middle xs ys x

StandsIn-label :
    {xs : List ℕ} {t : Tree} {index : ℕ}
    → StandsIn xs t index
    → get_elem? xs index ≡ some (label_of t)
unfolding preorder
StandsIn-label {t = node label flag f} h =
    rw (h.whole, ← h.place) (get_elem?-middle h.before (preorder_children false f ++ h.after) label)

-- The index of a located node is its label's place in preorder.
pub IsLocated-get_elem? :
    {root t : Tree} {ancestors : List Tree} {indices : List ℕ} {index : ℕ}
    → IsCountable root
    → IsLocated root t ancestors indices index
    → get_elem? (preorder false root) index ≡ some (label_of t)
IsLocated-get_elem? small h = StandsIn-label (IsLocated-StandsIn small h)

index_from-get_elem? :
    (target i j : ℕ) (xs : List ℕ) → get_elem? xs j ≡ some target → index_from target i xs ≢ none
index_from-get_elem? target i zero (x ∷ xs) e = ground (arith, e)
index_from-get_elem? target i (suc j) (x ∷ xs) e = elim (Bool-cases (x == target)) [
  | inl b ↦ rw b cc
  | inr b ↦ rw b (index_from-get_elem? target (i + 1) j xs e)
]
index_from-get_elem? target i zero [] e = cc e
index_from-get_elem? target i (suc j) [] e = cc e

-- The search finds a path to a located node's label.
pub fallback_path_to_node-Leads :
    {root t : Tree} {ancestors : List Tree} {indices : List ℕ} {index : ℕ}
    → IsCountable root
    → IsLocated root t ancestors indices index
    → (p : NodePath) × (fallback_path_to_node root (label_of t) ≡ some p)
      × Leads root (label_of t) p
fallback_path_to_node-Leads {root} {t} {index} small h =
    let target = label_of t in
    let lead = fallback_path_to_node-AllLead root target in
    elim (Option-cases (fallback_path_to_node root target)) [
      | inr (p, e) ↦ (p, e, rw e at lead)
      | inl e ↦
          let agree = fallback_path_to_node-index_from root target small in
          absurd (
            index_from-get_elem? target 0 index (preorder false root) (IsLocated-get_elem? small h)
              (sym agree ∙ ap index_of_path e))
    ]

-- What holds of every node of a tree.
abbrev mutual
  pub Everywhere : (Tree → Type 0) → Tree → Type 0
  Everywhere P (node label flag f) = P (node label flag f) × EverywhereIn P f

  pub EverywhereIn : (Tree → Type 0) → Forest → Type 0
  EverywhereIn P nil = Unit
  EverywhereIn P (cons t f) = Everywhere P t × EverywhereIn P f

module _ (P : Tree → Type 0) where
  child-Everywhere :
      (n : ℕ) (f : Forest) (t : Tree) → EverywhereIn P f → child n f ≡ some t → Everywhere P t
  child-Everywhere n nil t h e = cc e
  child-Everywhere zero (cons u f) t (h, hs) e =
      let same : u ≡ t = cc e in subst (Everywhere P) same h
  child-Everywhere (suc n) (cons u f) t (h, hs) e = child-Everywhere n f t hs e

  Everywhere-children : (t : Tree) → Everywhere P t → EverywhereIn P (children_of t)
  Everywhere-children (node label flag f) (h, hs) = hs

  Everywhere-here : (t : Tree) → Everywhere P t → P t
  Everywhere-here (node label flag f) (h, hs) = h

  IsLocated-Everywhere :
      {root t : Tree} {ancestors : List Tree} {indices : List ℕ} {index : ℕ}
      → Everywhere P root
      → IsLocated root t ancestors indices index
      → Everywhere P t
  IsLocated-Everywhere h at_root = h
  IsLocated-Everywhere h (at_child {p} l n t e) =
      child-Everywhere n (children_of p) t (Everywhere-children p (IsLocated-Everywhere h l)) e

  -- What holds everywhere below the root holds of a located node.
  pub IsLocated-here :
      {root t : Tree} {ancestors : List Tree} {indices : List ℕ} {index : ℕ}
      → Everywhere P root
      → IsLocated root t ancestors indices index
      → P t
  IsLocated-here {t} h l = Everywhere-here t (IsLocated-Everywhere h l)

mutual
  pub Everywhere-map :
      {P Q : Tree → Type 0} (t : Tree) → ((u : Tree) → P u → Q u) → Everywhere P t → Everywhere Q t
  Everywhere-map (node label flag f) h (p, ps) = (h (node label flag f) p, EverywhereIn-map f h ps)

  EverywhereIn-map :
      {P Q : Tree → Type 0} (f : Forest)
      → ((u : Tree) → P u → Q u)
      → EverywhereIn P f
      → EverywhereIn Q f
  EverywhereIn-map nil h ps = tt
  EverywhereIn-map (cons t f) h (p, ps) = (Everywhere-map t h p, EverywhereIn-map f h ps)

-- `tree_of` gives every node of the tree from its label, so that labels tell nodes apart.
abbrev pub IsLabelled : (ℕ → Tree) → Tree → Type 0
IsLabelled tree_of = Everywhere λ t. tree_of (label_of t) ≡ t

-- The path that the search finds to a located node leads to that node.
pub fallback_path_to_node-IsLocated :
    {root t : Tree} {ancestors : List Tree} {indices : List ℕ} {index : ℕ} (tree_of : ℕ → Tree)
    → IsCountable root
    → IsLabelled tree_of root
    → IsLocated root t ancestors indices index
    → (p : NodePath) × (fallback_path_to_node root (label_of t) ≡ some p)
      × IsLocated root t p.ancestors p.indices p.index
fallback_path_to_node-IsLocated {root} {t} tree_of small h l =
    let (p, e, found) = fallback_path_to_node-Leads small l in
    let named : (u : Tree) → Type 0 = λ u. tree_of (label_of u) ≡ u in
    let there : found.end ≡ t =
      sym (IsLocated-here named h found.located)
      ∙ (ap tree_of found.label ∙ IsLocated-here named h l) in
    (p, e, subst (λ u. IsLocated root u p.ancestors p.indices p.index) there found.located)
