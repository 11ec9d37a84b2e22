-- ===== src/Iterator/Levels.antt =====
-- compat_iter.go: the order in which the iterator visits the nodes breadth first.
use mathlib.Core.List.{append_assoc}
use wasitter.Iterator.{
  Tree, node, Forest, nil, cons, bfs, eof, is_named, append, visited, enqueue, next_of, next,
  walked, for_each, new_iterator, new_named_iterator,
}
use wasitter.Iterator.Order.{
  preorder, preorder_children, preorder_roots, preorder_roots-node, preorder_roots-append,
  preorder_roots-visited, preorder_roots-one, walking, opened,
}
use wasitter.Prelude.{
  ℕ, zero, suc, ◌<◌, Bool, true, false, not, ◌&&◌, List, [], ◌∷◌, ◌++◌, ◌≡◌, refl, sym, ap, ◌∙◌,
  arith, if◌then◌else◌, Bool-cases, inl, inr, length, length-append,
}

-- Two lists of levels, level by level.
merge : List (List ℕ) → List (List ℕ) → List (List ℕ)
merge [] ys = ys
merge (x ∷ xs) [] = x ∷ xs
merge (x ∷ xs) (y ∷ ys) = (x ++ y) ∷ merge xs ys

-- The nodes of each depth, from left to right.
mutual
  pub levels : Bool → Tree → List (List ℕ)
  levels named (node label _ children) = (label ∷ []) ∷ levels_children named children

  levels_children : Bool → Forest → List (List ℕ)
  levels_children named nil = []
  levels_children named (cons t f) =
      let rest = levels_children named f in
      let first = levels named t in if named && not (is_named t) then rest else merge first rest

levels_roots : Bool → Forest → List (List ℕ)
levels_roots named nil = []
levels_roots named (cons t f) = merge (levels named t) (levels_roots named f)

heads : Forest → List ℕ
heads nil = []
heads (cons (node label _ _) f) = label ∷ heads f

below : Bool → Forest → Forest
below named nil = nil
below named (cons (node _ _ children) f) = append (visited named children) (below named f)

pub concat : List (List ℕ) → List ℕ
concat [] = []
concat (x ∷ xs) = x ++ concat xs

forest_append_assoc : (f g h : Forest) → append (append f g) h ≡ append f (append g h)
forest_append_assoc nil g h = refl
forest_append_assoc (cons t f) g h = ap (cons t) (forest_append_assoc f g h)

forest_append-nil : (f : Forest) → append f nil ≡ f
forest_append-nil nil = refl
forest_append-nil (cons t f) = ap (cons t) (forest_append-nil f)

merge-nil : (xs : List (List ℕ)) → merge xs [] ≡ xs
unfolding merge
merge-nil [] = refl
merge-nil (x ∷ xs) = refl

merge_assoc : (xs ys zs : List (List ℕ)) → merge (merge xs ys) zs ≡ merge xs (merge ys zs)
unfolding merge
merge_assoc [] ys zs = refl
merge_assoc (x ∷ xs) [] zs = refl
merge_assoc (x ∷ xs) (y ∷ ys) [] = refl
merge_assoc (x ∷ xs) (y ∷ ys) (z ∷ zs) = simp (append_assoc, merge_assoc xs ys zs)

levels_roots-visited :
    (named : Bool) (f : Forest) → levels_roots named (visited named f) ≡ levels_children named f
unfolding levels_roots levels_children visited
levels_roots-visited named nil = refl
levels_roots-visited named (cons t f) = elim (Bool-cases (named && not (is_named t))) [
  | inl e ↦ rw e (levels_roots-visited named f)
  | inr e ↦ rw e (ap (merge (levels named t)) (levels_roots-visited named f))
]

levels_roots-append :
    (named : Bool) (f g : Forest)
    → levels_roots named (append f g) ≡ merge (levels_roots named f) (levels_roots named g)
unfolding levels_roots merge
levels_roots-append named nil g = refl
levels_roots-append named (cons t f) g = simp (levels_roots-append named f g, merge_assoc)

-- A forest's first level is its roots, and the levels that follow are those below them.
levels_roots-cons :
    (named : Bool) (t : Tree) (f : Forest)
    → levels_roots named (cons t f) ≡ heads (cons t f) ∷ levels_roots named (below named (cons t f))
unfolding levels_roots levels heads below merge
levels_roots-cons named (node label flag children) nil =
    rw (forest_append-nil (visited named children), levels_roots-visited named children) refl
levels_roots-cons named (node label flag children) (cons t f) =
    rw
      (
        levels_roots-cons named t f,
        levels_roots-append named (visited named children) (below named (cons t f)),
        levels_roots-visited named children,
      )
      refl

-- The queue holds what is left of one level, `front`, and the part of the next one that its earlier
-- nodes gave, `back`.
remaining : Bool → Forest → Forest → List ℕ
remaining named front back =
    heads front ++ concat (levels_roots named (append back (below named front)))

remaining-nil :
    (named : Bool) (t : Tree) (f : Forest)
    → remaining named nil (cons t f) ≡ remaining named (cons t f) nil
unfolding remaining heads concat levels_roots merge below
remaining-nil named t f = rw (forest_append-nil f, levels_roots-cons named t f) refl

remaining-done : (named : Bool) → remaining named nil nil ≡ []
unfolding remaining heads below levels_roots concat
remaining-done named = refl

remaining-root :
    (named : Bool) (root : Tree) → remaining named (cons root nil) nil ≡ concat (levels named root)
unfolding remaining heads concat levels_roots merge below
remaining-root named root =
    sym (remaining-nil named root nil) ∙ ap concat (merge-nil (levels named root))

remaining-step :
    (named : Bool) (label : ℕ) (flag : Bool) (children front back : Forest)
    → remaining named (cons (node label flag children) front) back
      ≡ label ∷ remaining named front (append back (visited named children))
unfolding remaining heads below
remaining-step named label flag children front back =
    rw (forest_append_assoc back (visited named children) (below named front)) refl

-- How many nodes are still to be visited.
pending : Bool → Forest → ℕ
pending named f = length (preorder_roots named f)

pending-step :
    (named : Bool) (label : ℕ) (flag : Bool) (children f : Forest)
    → pending named (cons (node label flag children) f)
      ≡ suc (pending named (append f (visited named children)))
unfolding pending
pending-step named label flag children f =
    rw
      (
        preorder_roots-node named flag label children f,
        preorder_roots-append named f (visited named children),
        preorder_roots-visited named children,
      )
      (omega (
        arith,
        length-append (preorder_children named children) (preorder_roots named f),
        length-append (preorder_roots named f) (preorder_children named children),
      ))

for_each-bfs :
    (fuel : ℕ) (named : Bool) (front back : Forest)
    → pending named (append front back) < fuel
    → for_each fuel (walking named bfs (append front back))
      ≡ walked (remaining named front back) eof
unfolding for_each next next_of enqueue
for_each-bfs zero named front back h = elim h [ ]
for_each-bfs (suc fuel) named nil nil h =
    ap (λ (labels : List ℕ). walked labels eof) (sym (remaining-done named))
for_each-bfs (suc fuel) named nil (cons (node label flag children) back) h =
    let bound : pending named (append back (visited named children)) < fuel =
      omega (arith, pending-step named label flag children back) in
    rw
      (
        for_each-bfs fuel named back (visited named children) bound,
        remaining-nil named (node label flag children) back,
        remaining-step named label flag children back nil,
      )
      refl
for_each-bfs (suc fuel) named (cons (node label flag children) front) back h =
    let e = forest_append_assoc front back (visited named children) in
    let bound : pending named (append front (append back (visited named children))) < fuel =
      omega
        (arith, pending-step named label flag children (append front back), ap (pending named) e) in
    rw
      (
        e,
        for_each-bfs fuel named front (append back (visited named children)) bound,
        remaining-step named label flag children front back,
      )
      refl

pending-root :
    (named : Bool) (root : Tree) (fuel : ℕ)
    → length (preorder named root) < fuel
    → pending named (cons root nil) < fuel
unfolding pending
pending-root named root fuel h = rw (preorder_roots-one named root) h

opened-walking-bfs :
    (named : Bool) (root : Tree) → opened named root bfs ≡ walking named bfs (cons root nil)
unfolding new_iterator new_named_iterator
opened-walking-bfs true root = refl
opened-walking-bfs false root = refl

-- Breadth first, with more fuel than the tree has nodes to visit, `ForEach` passes the nodes to its
-- callback level by level, each level from left to right, and returns `io.EOF`; the iterator of
-- `NewNamedIterator` leaves out each unnamed child with all that is below it.
pub for_each-bfs-levels :
    (named : Bool) (root : Tree) (fuel : ℕ)
    → length (preorder named root) < fuel
    → for_each fuel (opened named root bfs) ≡ walked (concat (levels named root)) eof
for_each-bfs-levels named root fuel h =
    let bound : pending named (cons root nil) < fuel = pending-root named root fuel h in
    rw
      (
        opened-walking-bfs named root,
        for_each-bfs fuel named (cons root nil) nil bound,
        remaining-root named root,
      )
      refl
