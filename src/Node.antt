-- ===== src/Node.antt =====
-- types.go and node.go: points and their order (`comparePoint`), and what the accessors of a node
-- report of it. The node itself lives in the guest, so a node is the values of its accessors.
use wasitter.Prelude.{
  ℕ, ◌-◌, Bool, ◌&&◌, ◌||◌, ltb, ◌==◌, if◌then◌else◌, Bytes, length, take, drop, [],
}

pub record Point : Type 0 where
  pub row : ℕ
  pub column : ℕ

-- -1, 0 and 1.
pub data Comparison : Type 0 where
  before same after : Comparison

unfoldable pub compare_point : Point → Point → Comparison
compare_point a b =
    if ltb a.row b.row || a.row == b.row && ltb a.column b.column
    then before
    else if a.row == b.row && a.column == b.column
    then same
    else after

pub record Node : Type 0 where
  pub is_null : Bool
  pub start_byte : ℕ
  pub end_byte : ℕ
  pub start_point : Point
  pub end_point : Point
  -- `Node.Text`, from the source that the tree retains.
  pub text : Bytes

unfoldable pub node_text_bytes : Node → Bytes → Bytes
node_text_bytes node text =
    if node.is_null
    then []
    else if ltb node.end_byte node.start_byte || ltb (length text) node.end_byte
    then node.text
    else take (node.end_byte - node.start_byte) (drop node.start_byte text)
