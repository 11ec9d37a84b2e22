-- ===== src/Navigation/Narrowed.antt =====
-- node.go: what the walk to the narrowest node finds.
use wasitter.Iterator.{Tree, node, label_of, Forest, nil, cons, children_of}
use wasitter.Navigation.{visible, narrow, narrow_in}
use wasitter.Prelude.{
  ℕ, zero, suc, ◌+◌, if_cases, ◌-◌, ◌<◌, Bool, true, false, not, ◌&&◌, some, ltb, ◌≡◌, arith,
  Bool-cases, inl, inr, ◌∙◌,
}
use wasitter.TreeCursor.Located.{IsRest, child-IsRest, IsRest-tail, whole_IsRest}
use wasitter.TreeCursor.Places.{Everywhere, EverywhereIn}
use wasitter.TreeCursor.{child}

-- From the node `t` the walk goes on to a child that covers the range, until no child does; it
-- ends with the last node that it passed and may return.
pub data Narrowed (covers : ℕ → Bool) (named : Bool) : (last : Tree) → Tree → Tree → Type 0 where
  stays :
      {last t : Tree}
      → ((k : ℕ) (u : Tree) → child k (children_of t) ≡ some u → covers (label_of u) ≡ false)
      → Narrowed covers named last t last
  goes :
      {last t r : Tree} (k : ℕ) (u : Tree)
      → child k (children_of t) ≡ some u
      → covers (label_of u) ≡ true
      → Narrowed covers named (visible named u last) u r
      → Narrowed covers named last t r

-- The labels of every tree of the forest fail the test.
abbrev pub AllFail : (ℕ → Bool) → Forest → Type 0
AllFail test nil = Unit
AllFail test (cons t f) = (test (label_of t) ≡ false) × AllFail test f

child-AllFail :
    (test : ℕ → Bool) (k : ℕ) (f : Forest) (u : Tree)
    → AllFail test f
    → child k f ≡ some u
    → test (label_of u) ≡ false
child-AllFail test k nil u h e = cc e
child-AllFail test zero (cons t f) u (h, hs) e = let same : t ≡ u = cc e in rw same at h
child-AllFail test (suc k) (cons t f) u (h, hs) e = child-AllFail test k f u hs e

module _ (skips stops covers : ℕ → Bool) (named : Bool)
    (law : (l : ℕ) → covers l ≡ not (skips l) && not (stops l)) where
  -- Behind a child at which the walk stops, no child covers the range.
  abbrev pub AreOrdered : Forest → Type 0
  AreOrdered nil = Unit
  AreOrdered (cons t f) = (stops (label_of t) ≡ true → AllFail covers f) × AreOrdered f

  Earlier : Tree → ℕ → Type 0
  Earlier p n =
      (k : ℕ) (u : Tree) → child k (children_of p) ≡ some u → k < n → covers (label_of u) ≡ false

  none_left :
      (p : Tree) (n : ℕ) (f : Forest)
      → IsRest (children_of p) n f
      → Earlier p n
      → AllFail covers f
      → (k : ℕ) (u : Tree) → child k (children_of p) ≡ some u
      → covers (label_of u) ≡ false
  unfolding Earlier
  none_left p n f rest earlier fail k u e = elim (Bool-cases (ltb k n)) [
    | inl b ↦ earlier k u e (ground (arith, b))
    | inr b ↦
        let place : n + (k - n) ≡ k = ground (arith, b) in
        child-AllFail covers (k - n) f u fail (rest.same (k - n) ∙ rw place e)
  ]

  next-Earlier :
      (p : Tree) (n : ℕ) (t : Tree)
      → Earlier p n
      → child n (children_of p) ≡ some t
      → covers (label_of t) ≡ false
      → Earlier p (suc n)
  unfolding Earlier
  next-Earlier p n t earlier here fail k u e less = elim (Bool-cases (ltb k n)) [
    | inl b ↦ earlier k u e (ground (arith, b))
    | inr b ↦
        let place : k ≡ n = ground (arith, b) in
        let at_n : child n (children_of p) ≡ some u = rw place at e in
        let same : t ≡ u = cc (here, at_n) in rw same at fail
  ]

  stops_here :
      (p last : Tree) (n : ℕ) (f : Forest)
      → IsRest (children_of p) n f
      → Earlier p n
      → AllFail covers f
      → Narrowed covers named last p last
  stops_here p last n f rest earlier fail = stays (none_left p n f rest earlier fail)

  mutual
    unfolding narrow Earlier

    pub narrow-Narrowed :
        (t last : Tree)
        → Everywhere (λ u. AreOrdered (children_of u)) t
        → Narrowed covers named last t (narrow skips stops named t last)
    narrow-Narrowed (node label flag f) last (ordered, below) =
        narrow_in-Narrowed (node label flag f) 0 f last (whole_IsRest f)
          (λ k u e less. absurd (omega (arith, less))) ordered below

    narrow_in-Narrowed :
        (p : Tree) (n : ℕ) (f : Forest) (last : Tree)
        → IsRest (children_of p) n f
        → Earlier p n
        → AreOrdered f
        → EverywhereIn (λ u. AreOrdered (children_of u)) f
        → Narrowed covers named last p (narrow_in skips stops named f last)
    narrow_in-Narrowed p n nil last rest earlier ordered below =
        stops_here p last n nil rest earlier tt
    narrow_in-Narrowed p n (cons t f) last rest earlier (behind, ordered) (inside, below) =
        let known = law (label_of t) in
        let here = child-IsRest rest in
        let on : covers (label_of t) ≡ false
            → Narrowed covers named last p (narrow_in skips stops named f last) =
          λ fails.
            narrow_in-Narrowed p (suc n) f last (IsRest-tail rest)
              (next-Earlier p n t earlier here fails) ordered below in
        let down = narrow-Narrowed t (visible named t last) inside in
        let Found = λ (r : Tree). Narrowed covers named last p r in
        if_cases Found (skips (label_of t)) (λ s. on (ground (arith, known, s)))
          λ a.
            if_cases Found (stops (label_of t))
              (λ s.
                stops_here p last n (cons t f) rest earlier (ground (arith, known, s), behind s))
              λ b. goes n t here (ground (arith, known, a, b)) down
