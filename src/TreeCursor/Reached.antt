-- ===== src/TreeCursor/Reached.antt =====
-- cursor.go: where `GotoDescendant` leaves a cursor without guest support.
use wasitter.Iterator.Order.{preorder}
use wasitter.Iterator.{Tree, label_of}
use wasitter.Prelude.{
  ℕ, zero, suc, ◌≤◌, ◌<◌, true, false, Option, none, some, List, [], ◌∷◌, ltb, ◌==◌, if◌then◌else◌,
  if_cases, ◌≡◌, refl, arith, sym, subst, get_elem?, length,
}
use wasitter.TreeCursor.Ancestors.{TreeCursor}
use wasitter.TreeCursor.Counts.{size}
use wasitter.TreeCursor.Descend.{Place, descend, at_place, to_root, goto_descendant_fallback}
use wasitter.TreeCursor.DescendLaws.{is_found, Arrives, descend-Arrives, descend-found}
use wasitter.TreeCursor.Located.{IsLocated, at_root}
use wasitter.TreeCursor.MoveLaws.{IsSound}
use wasitter.TreeCursor.Places.{IsCountable, IsLocated-get_elem?}

-- The cursor at the place that was found.
at_place-IsSound :
    {root : Tree} (index : ℕ) (c : TreeCursor) (o : Option Place)
    → IsSound root c
    → Arrives root index o
    → IsSound root (at_place c o)
unfolding at_place
at_place-IsSound index c none h a = h
at_place-IsSound index c (some p) h (_, l) = record {
  same_root = h.same_root;
  free = h.free;
  located = l;
}

at_place-index :
    (root : Tree) (index : ℕ) (c : TreeCursor) (o : Option Place)
    → is_found o ≡ true
    → Arrives root index o
    → (at_place c o).descendant_index ≡ index
unfolding at_place
at_place-index root index c none f a = cc f
at_place-index root index c (some p) f (e, _) = e

to_root-IsSound : {root : Tree} (c : TreeCursor) → IsSound root c → IsSound root (to_root c)
to_root-IsSound {root} c h = record {
  same_root = h.same_root;
  free = h.free;
  located = subst (λ u. IsLocated root u [] [] 0) (sym h.same_root) at_root;
}

Arrives-from_root :
    (root top : Tree) (index : ℕ)
    → IsCountable root
    → top ≡ root
    → Arrives root index (descend index top 0 [] [])
Arrives-from_root root top index small same =
    rw same (descend-Arrives index root 0 [] [] at_root (omega arith))

is_found-from_root :
    (root top : Tree) (index : ℕ)
    → IsCountable root
    → top ≡ root
    → 0 < index
    → index < size root
    → is_found (descend index top 0 [] []) ≡ true
is_found-from_root root top index small same low high =
    rw same (descend-found index root 0 [] [] (omega arith) low (omega (arith, high)))

pub goto_descendant_fallback-IsSound :
    {root : Tree} (index : ℕ) (c : TreeCursor)
    → IsCountable root
    → IsSound root c
    → IsSound root (goto_descendant_fallback index c)
unfolding goto_descendant_fallback
goto_descendant_fallback-IsSound {root} index c small h =
    let top = to_root-IsSound c h in
    let place = Arrives-from_root root c.root index small h.same_root in
    if_cases (IsSound root) (index == 0) (λ _. top)
      λ _. at_place-IsSound index (to_root c) (descend index c.root 0 [] []) top place

goto_descendant_fallback-index :
    (root : Tree) (index : ℕ) (c : TreeCursor)
    → IsCountable root
    → c.root ≡ root
    → index < size root
    → (goto_descendant_fallback index c).descendant_index ≡ index
unfolding goto_descendant_fallback
goto_descendant_fallback-index root index c small same high =
    let place = Arrives-from_root root c.root index small same in
    if_cases (λ (d : TreeCursor). d.descendant_index ≡ index) (index == 0) (λ e. ground (arith, e))
      λ e.
        at_place-index root index (to_root c) (descend index c.root 0 [] [])
          (is_found-from_root root c.root index small same (ground (arith, e)) high) place

get_elem?-bound : (xs : List ℕ) (i x : ℕ) → get_elem? xs i ≡ some x → i < length xs
get_elem?-bound [] i x e = cc e
get_elem?-bound (y ∷ xs) zero x e = omega arith
get_elem?-bound (y ∷ xs) (suc i) x e = omega (arith, get_elem?-bound xs i x e)

at_place-outside :
    (root : Tree) (index : ℕ) (c : TreeCursor) (o : Option Place)
    → IsCountable root
    → size root ≤ index
    → Arrives root index o
    → (at_place c o).descendant_index ≡ c.descendant_index
unfolding at_place
at_place-outside root index c none small high a = refl
at_place-outside root index c (some p) small high (e, l) = absurd (
    omega (
      arith,
      high,
      e,
      get_elem?-bound (preorder false root) p.index (label_of p.node) (IsLocated-get_elem? small l),
    ))

goto_descendant_fallback-outside :
    (root : Tree) (index : ℕ) (c : TreeCursor)
    → IsCountable root
    → c.root ≡ root
    → size root ≤ index
    → (goto_descendant_fallback index c).descendant_index ≡ 0
unfolding goto_descendant_fallback
goto_descendant_fallback-outside root index c small same high =
    if_cases (λ (d : TreeCursor). d.descendant_index ≡ 0) (index == 0) (λ _. refl)
      λ _.
        at_place-outside root index (to_root c) (descend index c.root 0 [] []) small high
          (Arrives-from_root root c.root index small same)

-- In a tree of at most 2 ^ 32 nodes, wherever a cursor without guest support stands,
-- `GotoDescendant` leaves it with a sound path to the node whose place in preorder is the index
-- asked for, or to the root where the tree has no such node.
pub goto_descendant_fallback-preorder :
    (root : Tree) (index : ℕ) (c : TreeCursor)
    → IsCountable root
    → IsSound root c
    → let d = goto_descendant_fallback index c in
      (d.descendant_index ≡ (if ltb index (size root) then index else 0))
      × (get_elem? (preorder false root) d.descendant_index ≡ some (label_of d.node))
      × IsLocated root d.node d.stack d.stack_indices d.descendant_index
goto_descendant_fallback-preorder root index c small h =
    let sound = goto_descendant_fallback-IsSound index c small h in
    (
      if_cases (λ k. (goto_descendant_fallback index c).descendant_index ≡ k)
          (ltb index (size root))
          (λ e. goto_descendant_fallback-index root index c small h.same_root (ground (arith, e)))
          (λ e.
            goto_descendant_fallback-outside root index c small h.same_root (ground (arith, e))),
      IsLocated-get_elem? small sound.located,
      sound.located,
    )
