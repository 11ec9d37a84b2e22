-- ===== src/TreeCursor/Ancestors.antt =====
-- cursor.go: `pushFallbackAncestor` and `popFallbackAncestor`, by which a cursor without guest
-- support goes down to a child and back.
use wasitter.Iterator.{Tree}
use wasitter.Prelude.{
  ℕ, Bool, true, ◌-◌, ◌≡◌, refl, ap, arith, Option, none, some, List, [], ◌∷◌, ◌++◌, ltb,
  if◌then◌else◌, length, length-append, get_elem?, take,
}

-- `handle` is 0 for a cursor without guest support. The mutex, `tree` and `closed` are left out:
-- the operations are told whether both are open.
pub record TreeCursor : Type 0 where
  pub node : Tree
  pub root : Tree
  pub stack : List Tree
  pub stack_indices : List ℕ
  pub descendant_index : ℕ
  pub descendant_index_known : Bool
  pub handle : ℕ

unfoldable pub push_fallback_ancestor : TreeCursor → TreeCursor
push_fallback_ancestor c = record c {
  stack = c.stack ++ c.node ∷ [];
  stack_indices = c.stack_indices ++ c.descendant_index ∷ [];
}

abbrev restored_index : Option ℕ → ℕ → ℕ
restored_index (some i) current = i
restored_index none current = current

-- `last` is `len(c.stack) - 1`; `none` where the Go function returns false. Out of its bounds,
-- `get_elem?` gives the `none` of the test `last < len(c.stackIndices)`.
unfoldable pub pop_at : TreeCursor → ℕ → Option Tree → Option TreeCursor
pop_at c last none = none
pop_at c last (some n) = some (record c {
  node = n;
  stack = take last c.stack;
  stack_indices =
      if ltb last (length c.stack_indices) then take last c.stack_indices else c.stack_indices;
  descendant_index = restored_index (get_elem? c.stack_indices last) c.descendant_index;
})

unfoldable pub pop_fallback_ancestor : TreeCursor → Option TreeCursor
unfolding pop_at
pop_fallback_ancestor c = pop_at c (length c.stack - 1) (get_elem? c.stack (length c.stack - 1))

module _ {A : Type 0} where
  get_elem?-append : (xs : List A) (x : A) → get_elem? (xs ++ x ∷ []) (length xs) ≡ some x
  get_elem?-append [] x = refl
  get_elem?-append (y ∷ xs) x = get_elem?-append xs x

  take-append : (xs : List A) (x : A) → take (length xs) (xs ++ x ∷ []) ≡ xs
  take-append [] x = refl
  take-append (y ∷ xs) x = ap (◌∷◌ y) (take-append xs x)

  last_of_append : (xs : List A) (x : A) → length (xs ++ x ∷ []) - 1 ≡ length xs
  last_of_append xs x = omega (arith, length-append xs (x ∷ []))

  room : (xs : List A) (x : A) → ltb (length xs) (length (xs ++ x ∷ [])) ≡ true
  room xs x = ground (arith, length-append xs (x ∷ []))

-- Where a cursor has as many saved indices as ancestors, going down to any child and coming back
-- restores the cursor, and going down keeps the two numbers equal.
pub pop_fallback_ancestor-push_fallback_ancestor :
    (c : TreeCursor) (child : Tree) (child_index : ℕ)
    → length c.stack ≡ length c.stack_indices
    → (pop_fallback_ancestor
          (record (push_fallback_ancestor c) { node = child; descendant_index = child_index })
        ≡ some c)
      × (length (push_fallback_ancestor c).stack ≡ length (push_fallback_ancestor c).stack_indices)
unfolding push_fallback_ancestor pop_fallback_ancestor
pop_fallback_ancestor-push_fallback_ancestor c child child_index h = (
  rw
      (
        last_of_append c.stack c.node,
        get_elem?-append c.stack c.node,
        take-append c.stack c.node,
        h,
        get_elem?-append c.stack_indices c.descendant_index,
        room c.stack_indices c.descendant_index,
        take-append c.stack_indices c.descendant_index,
      )
      refl,
  omega (
    arith,
    h,
    length-append c.stack (c.node ∷ []),
    length-append c.stack_indices (c.descendant_index ∷ []),
  ),
)
