-- ===== src/TreeCursor/DescendLaws.antt =====
-- cursor.go: what the search of `GotoDescendant` without the guest finds.
use wasitter.Iterator.{Tree, node, Forest, nil, cons, children_of}
use wasitter.Prelude.{
  ℕ, zero, suc, ◌+◌, ◌≤◌, ◌<◌, ◌%◌, ◌^◌, Bool, true, false, ◌&&◌, Option, none, some, List, [], ◌∷◌,
  ◌++◌, ltb, ◌==◌, if_cases, ◌≡◌, refl, arith, sym, subst,
}
use wasitter.TreeCursor.Counts.{
  size, sizes, sizes-nil, sizes-cons, size-node, sizes_before,
  fallback_child_descendant_index-sizes_before, fallback_visible_subtree_count-size,
}
use wasitter.TreeCursor.Descend.{Place, or_place, descend, descend_children}
use wasitter.TreeCursor.Located.{
  IsLocated, at_child, IsRest, child-IsRest, IsRest-tail, whole_IsRest,
}
use wasitter.TreeCursor.Paths.{size-pos}
use wasitter.TreeCursor.{
  max_index, pos, child, clamp, fallback_visible_subtree_count, fallback_child_descendant_index,
}

abbrev pub is_found : Option Place → Bool
is_found none = false
is_found (some _) = true

-- A place that was found is a located node of the index asked for.
abbrev pub Arrives : Tree → ℕ → Option Place → Type 0
Arrives root index none = Unit
Arrives root index (some p) =
    (p.index ≡ index) × IsLocated root p.node p.ancestors p.indices p.index

or_place-Arrives :
    (root : Tree) (index : ℕ) (o p : Option Place)
    → Arrives root index o
    → Arrives root index p
    → Arrives root index (or_place o p)
or_place-Arrives root index none p a b = b
or_place-Arrives root index (some q) p a b = a

-- The index that the loop has reached is the one of the child at place `n`, and the children still
-- to come have representable indexes.
record IsNext (p : Tree) (index n : ℕ) (f : Forest) (next : ℕ) : Type 0 where
  exact : next ≡ index + 1 + sizes_before n (children_of p)
  bound : next + sizes f ≤ suc max_index
  positive : 0 < next

sizes_before-next :
    (n : ℕ) (f : Forest) (t : Tree)
    → child n f ≡ some t
    → sizes_before (suc n) f ≡ sizes_before n f + size t
sizes_before-next n nil t e = cc e
sizes_before-next zero (cons u f) t e = let same : u ≡ t = cc e in rw same (omega arith)
sizes_before-next (suc n) (cons u f) t e = omega (arith, sizes_before-next n f t e)

IsNext-suc :
    {p t : Tree} {index n next : ℕ} {f : Forest}
    → child n (children_of p) ≡ some t
    → IsNext p index n (cons t f) next
    → IsNext p index (suc n) f (clamp (next + fallback_visible_subtree_count t))
IsNext-suc {p} {t} {index} {n} {next} {f} e h =
    let s = sizes-cons t f in
    let c = fallback_visible_subtree_count-size t in
    let z = size-pos t in
    let b = h.bound in
    let same : clamp (next + fallback_visible_subtree_count t) ≡ next + size t =
      ground (arith, s, c, z, b) in
    rw same (record {
      exact = omega (arith, h.exact, sizes_before-next n (children_of p) t e);
      bound = omega (arith, s, b);
      positive = omega (arith, z);
    })

index-IsNext :
    {p t : Tree} {index n next : ℕ} {f : Forest}
    → IsNext p index n (cons t f) next
    → (next % 2 ^ 32 ≡ next) × (next ≡ fallback_child_descendant_index p index (pos n))
index-IsNext {p = node label flag g} {t} {index} {n} {next} {f} h =
    let s = sizes-cons t f in
    let z = size-pos t in
    let b = h.bound in
    let x = h.exact in
    (
      grind (arith, s, z, b),
      ground (arith, fallback_child_descendant_index-sizes_before label flag g index n, s, z, b, x),
    )

first-IsNext :
    (label index : ℕ) (flag : Bool) (f : Forest)
    → index + size (node label flag f) ≤ suc max_index
    → IsNext (node label flag f) index 0 f (index + 1)
first-IsNext label index flag f h = record {
  exact = omega arith;
  bound = omega (arith, size-node label flag f);
  positive = omega arith;
}

mutual
  unfolding descend

  pub descend-Arrives :
      {root : Tree} (index : ℕ) (t : Tree) (n_index : ℕ) (ancestors : List Tree) (indices : List ℕ)
      → IsLocated root t ancestors indices n_index
      → n_index + size t ≤ suc max_index
      → Arrives root index (descend index t n_index ancestors indices)
  descend-Arrives {root} index (node label flag f) n_index ancestors indices l h =
      if_cases (Arrives root index) (ltb max_index (n_index + 1)) (λ _. tt)
        λ _.
          descend_children-Arrives index (node label flag f) 0 f (n_index + 1) n_index ancestors
            indices l (whole_IsRest f) (first-IsNext label n_index flag f h)

  descend_children-Arrives :
      {root : Tree} (index : ℕ) (p : Tree) (n : ℕ) (f : Forest) (next n_index : ℕ)
      (ancestors : List Tree) (indices : List ℕ)
      → IsLocated root p ancestors indices n_index
      → IsRest (children_of p) n f
      → IsNext p n_index n f next
      → Arrives root index
          (descend_children index f next (ancestors ++ p ∷ []) (indices ++ n_index ∷ []))
  descend_children-Arrives index p n nil next n_index ancestors indices l rest h = tt
  descend_children-Arrives {root} index p n (cons t f) next n_index ancestors indices l rest h =
      let (small, place) = index-IsNext h in
      let room = h.bound in
      let here : IsLocated root t (ancestors ++ p ∷ []) (indices ++ n_index ∷ []) next =
        subst (IsLocated root t (ancestors ++ p ∷ []) (indices ++ n_index ∷ [])) (sym place)
          (at_child l n t (child-IsRest rest)) in
      let inside =
        descend-Arrives index t next (ancestors ++ p ∷ []) (indices ++ n_index ∷ []) here
          (omega (arith, sizes-cons t f, room)) in
      let later =
        descend_children-Arrives index p (suc n) f (clamp (next + fallback_visible_subtree_count t))
          n_index ancestors indices l (IsRest-tail rest) (IsNext-suc (child-IsRest rest) h) in
      let range = ltb next index && ltb index (next + fallback_visible_subtree_count t) in
      rw small (
        if_cases (Arrives root index) (next == index) (λ e. (ground (arith, e), here))
          λ _.
            if_cases (Arrives root index) range (λ _. or_place-Arrives root index _ _ inside later)
              λ _. later)

or_place-found : (o p : Option Place) → is_found o ≡ true → is_found (or_place o p) ≡ true
or_place-found none p h = cc h
or_place-found (some q) p h = refl

mutual
  unfolding descend

  pub descend-found :
      (index : ℕ) (t : Tree) (n_index : ℕ) (ancestors : List Tree) (indices : List ℕ)
      → n_index + size t ≤ suc max_index
      → n_index < index
      → index < n_index + size t
      → is_found (descend index t n_index ancestors indices) ≡ true
  descend-found index (node label flag f) n_index ancestors indices h low high =
      let s = size-node label flag f in
      let below =
        descend_children-found index (node label flag f) 0 f (n_index + 1) n_index
          (ancestors ++ node label flag f ∷ []) (indices ++ n_index ∷ []) (whole_IsRest f)
          (first-IsNext label n_index flag f h) (omega arith) (omega (arith, s)) in
      let fits : ltb max_index (n_index + 1) ≡ false = ground (arith, s) in rw fits below

  descend_children-found :
      (index : ℕ) (p : Tree) (n : ℕ) (f : Forest) (next n_index : ℕ) (path : List Tree)
      (path_indices : List ℕ)
      → IsRest (children_of p) n f
      → IsNext p n_index n f next
      → next ≤ index
      → index < next + sizes f
      → is_found (descend_children index f next path path_indices) ≡ true
  descend_children-found index p n nil next n_index path path_indices rest h low high =
      absurd (omega (arith, sizes-nil, low, high))
  descend_children-found index p n (cons t f) next n_index path path_indices rest h low high =
      let (small, place) = index-IsNext h in
      let s = sizes-cons t f in
      let room = h.bound in
      let c = fallback_visible_subtree_count-size t in
      let z = size-pos t in
      let count : fallback_visible_subtree_count t ≡ size t =
        ground (arith, s, c, room, h.positive) in
      let jump : clamp (next + fallback_visible_subtree_count t) ≡ next + size t =
        ground (arith, s, c, z, room) in
      let inside : next < index
          → index < next + size t
          → is_found (descend index t next path path_indices) ≡ true =
        λ lo hi. descend-found index t next path path_indices (omega (arith, s, room)) lo hi in
      let later : next + size t ≤ index
          → is_found (
              descend_children index f (clamp (next + fallback_visible_subtree_count t)) path
                path_indices)
            ≡ true =
        λ lo.
          descend_children-found index p (suc n) f (clamp (next + fallback_visible_subtree_count t))
            n_index path path_indices (IsRest-tail rest) (IsNext-suc (child-IsRest rest) h)
            (rw jump lo) (rw jump (omega (arith, s, high))) in
      let range = ltb next index && ltb index (next + fallback_visible_subtree_count t) in
      let Found = λ (o : Option Place). is_found o ≡ true in
      rw small (
        if_cases Found (next == index) (λ _. refl)
          λ a.
            if_cases Found range
              (λ b.
                or_place-found _ _ (inside (ground (arith, a, b)) (ground (arith, a, b, count))))
              λ b. later (ground (arith, a, b, count, low)))
