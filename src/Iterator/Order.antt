-- ===== src/Iterator/Order.antt =====
-- compat_iter.go: the order in which the iterator visits the nodes depth first.
use mathlib.Core.List.{append_assoc, append-nil}
use wasitter.Iterator.{
  Tree, node, Forest, nil, cons, IterMode, dfs, eof, usable, Iterator, is_named, append, visited,
  enqueue, next_of, next, walked, for_each, new_iterator, new_named_iterator,
}
use wasitter.Prelude.{
  ℕ, zero, suc, ◌<◌, Bool, true, false, not, ◌&&◌, List, [], ◌∷◌, ◌++◌, ◌≡◌, refl, ap, arith,
  if◌then◌else◌, Bool-cases, inl, inr, length,
}

-- The nodes below and with each tree, parents first, children in order. With `named` set, only
-- named children are entered.
unfoldable mutual
  pub preorder : Bool → Tree → List ℕ
  preorder named (node label _ children) = label ∷ preorder_children named children

  pub preorder_children : Bool → Forest → List ℕ
  preorder_children named nil = []
  preorder_children named (cons t f) =
      let rest = preorder_children named f in
      let first = preorder named t in if named && not (is_named t) then rest else first ++ rest

unfoldable pub preorder_roots : Bool → Forest → List ℕ
preorder_roots named nil = []
preorder_roots named (cons t f) = preorder named t ++ preorder_roots named f

pub preorder_roots-visited :
    (named : Bool) (f : Forest) → preorder_roots named (visited named f) ≡ preorder_children named f
unfolding preorder_roots preorder_children visited
preorder_roots-visited named nil = refl
preorder_roots-visited named (cons t f) = elim (Bool-cases (named && not (is_named t))) [
  | inl e ↦ rw e (preorder_roots-visited named f)
  | inr e ↦ rw e (ap (◌++◌ (preorder named t)) (preorder_roots-visited named f))
]

pub preorder_roots-append :
    (named : Bool) (f g : Forest)
    → preorder_roots named (append f g) ≡ preorder_roots named f ++ preorder_roots named g
unfolding preorder_roots
preorder_roots-append named nil g = refl
preorder_roots-append named (cons t f) g = simp (preorder_roots-append named f g, append_assoc)

pub preorder_roots-node :
    (named flag : Bool) (label : ℕ) (children rest : Forest)
    → preorder_roots named (cons (node label flag children) rest)
      ≡ label ∷ (preorder_children named children ++ preorder_roots named rest)
unfolding preorder_roots preorder
preorder_roots-node named flag label children rest = refl

abbrev pub walking : Bool → IterMode → Forest → Iterator
walking named mode f = record { named = named; mode = mode; to_visit = f; status = usable }

pub preorder_roots-enqueue :
    (named : Bool) (children rest : Forest)
    → preorder_roots named (append (visited named children) rest)
      ≡ preorder_children named children ++ preorder_roots named rest
preorder_roots-enqueue named children rest = simp (preorder_roots-append, preorder_roots-visited)

for_each-dfs :
    (fuel : ℕ) (named : Bool) (f : Forest)
    → length (preorder_roots named f) < fuel
    → for_each fuel (walking named dfs f) ≡ walked (preorder_roots named f) eof
unfolding for_each next next_of enqueue preorder_roots preorder
for_each-dfs zero named f h = elim h [ ]
for_each-dfs (suc fuel) named nil h = refl
for_each-dfs (suc fuel) named (cons (node label flag children) rest) h =
    let bound : length (preorder_roots named (append (visited named children) rest)) < fuel =
      rw (preorder_roots-enqueue named children rest) (omega arith) in
    rw
      (
        for_each-dfs fuel named (append (visited named children) rest) bound,
        preorder_roots-enqueue named children rest,
      )
      refl

-- The iterator of `NewNamedIterator` or of `NewIterator`, on a node that is live.
abbrev pub opened : Bool → Tree → IterMode → Iterator
opened true root mode = new_named_iterator true root mode
opened false root mode = new_iterator true root mode

opened-walking-dfs :
    (named : Bool) (root : Tree) → opened named root dfs ≡ walking named dfs (cons root nil)
unfolding new_iterator new_named_iterator
opened-walking-dfs true root = refl
opened-walking-dfs false root = refl

pub preorder_roots-one :
    (named : Bool) (root : Tree) → preorder_roots named (cons root nil) ≡ preorder named root
unfolding preorder_roots
preorder_roots-one named root = append-nil (preorder named root)

-- Depth first, with more fuel than the tree has nodes to visit, `ForEach` passes the nodes to its
-- callback in preorder, parents first and children in order, and returns `io.EOF`; the iterator of
-- `NewNamedIterator` leaves out each unnamed child with all that is below it.
pub for_each-dfs-preorder :
    (named : Bool) (root : Tree) (fuel : ℕ)
    → length (preorder named root) < fuel
    → for_each fuel (opened named root dfs) ≡ walked (preorder named root) eof
for_each-dfs-preorder named root fuel h =
    let bound : length (preorder_roots named (cons root nil)) < fuel =
      rw (preorder_roots-one named root) h in
    rw
      (
        opened-walking-dfs named root,
        for_each-dfs fuel named (cons root nil) bound,
        preorder_roots-one named root,
      )
      refl
