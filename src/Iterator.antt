-- ===== src/Iterator.antt =====
-- compat_iter.go: `Iterator`, which walks a node and its descendants depth first or breadth first.
-- The nodes are a tree: a node's label, and its children in the order of `Node.Child`; those that
-- are named are the sequence of `Node.NamedChild`. Every child has a handle and a tree, so the
-- test of both in the loops over the children always passes. The mutex is left out.
pub mod Order
pub mod Levels
use wasitter.Prelude.{
  ℕ, Bool, true, false, not, ◌&&◌, List, [], ◌∷◌, ◌++◌, if◌then◌else◌, zero, suc,
}

mutual
  pub data Tree : Type 0 where
    node : ℕ → Bool → Forest → Tree

  pub data Forest : Type 0 where
    nil : Forest
    cons : Tree → Forest → Forest

pub data IterMode : Type 0 where
  dfs bfs : IterMode
  other_mode : ℕ → IterMode

pub data IterError : Type 0 where
  eof unsupported_mode : IterError

-- `invalid`, where `nil` is `usable`.
pub data IterStatus : Type 0 where
  usable : IterStatus
  invalid : IterError → IterStatus

pub record Iterator : Type 0 where
  pub named : Bool
  pub mode : IterMode
  pub to_visit : Forest
  pub status : IterStatus

abbrev pub is_named : Tree → Bool
is_named (node _ named _) = named

abbrev pub label_of : Tree → ℕ
label_of (node label _ _) = label

abbrev pub children_of : Tree → Forest
children_of (node _ _ children) = children

abbrev pub append : Forest → Forest → Forest
append nil g = g
append (cons t f) g = cons t (append f g)

-- The children that the iterator goes on to.
unfoldable pub visited : Bool → Forest → Forest
visited named nil = nil
visited named (cons t f) =
    let rest = visited named f in if named && not (is_named t) then rest else cons t rest

-- The seed of `NewIterator`: `live` says that the node has a handle and an open tree.
abbrev pub seeded : IterMode → Tree → Iterator
seeded mode root = record { named = false; mode = mode; to_visit = cons root nil; status = usable }

abbrev pub spent : IterMode → IterError → Iterator
spent mode e = record { named = false; mode = mode; to_visit = nil; status = invalid e }

unfoldable pub new_iterator : Bool → Tree → IterMode → Iterator
new_iterator false root mode = spent mode eof
new_iterator true root (other_mode n) = spent (other_mode n) unsupported_mode
new_iterator true root dfs = seeded dfs root
new_iterator true root bfs = seeded bfs root

unfoldable pub new_named_iterator : Bool → Tree → IterMode → Iterator
unfolding new_iterator
new_named_iterator live root mode = record (new_iterator live root mode) { named = true }

-- What `Next` returns, with the iterator behind it.
pub data Yield : Type 0 where
  yield : ℕ → Iterator → Yield
  stop : IterError → Yield

unfoldable pub enqueue : IterMode → Forest → Forest → Forest
enqueue dfs children rest = append children rest
enqueue _ children rest = append rest children

unfoldable pub next_of : Iterator → IterStatus → Forest → Yield
unfolding visited enqueue
next_of it (invalid e) to_visit = stop e
next_of it usable nil = stop eof
next_of it usable (cons (node label _ children) rest) =
    yield label (record it { to_visit = enqueue it.mode (visited it.named children) rest })

unfoldable pub next : Iterator → Yield
unfolding next_of
next it = next_of it it.status it.to_visit

unfoldable pub close : Iterator → Iterator
close it = record it { to_visit = nil; status = invalid eof }

-- What `ForEach` passes to a callback that returns no error, and the error that it returns.
-- It runs on fuel.
pub data Walk : Type 0 where
  walked : List ℕ → IterError → Walk
  out_of_fuel : Walk

abbrev pub then_walk : ℕ → Walk → Walk
then_walk label (walked labels e) = walked (label ∷ labels) e
then_walk label out_of_fuel = out_of_fuel

unfoldable pub for_each : ℕ → Iterator → Walk
unfolding next
for_each zero it = out_of_fuel
for_each (suc fuel) it = elim (next it) [
  | stop e ↦ walked [] e
  | yield label after ↦ then_walk label (for_each fuel after)
]
