-- ===== src/Navigation/Ranges.antt =====
-- node.go: `descendantFallback` and `descendantPointFallback` on trees whose siblings are ordered.
use wasitter.Iterator.{Tree, label_of, Forest, nil, cons, children_of}
use wasitter.Navigation.Narrowed.{Narrowed, AllFail, AreOrdered, narrow-Narrowed}
use wasitter.Navigation.{
  skips_bytes, stops_bytes, descendant_fallback, skips_points, stops_points,
  descendant_point_fallback, narrow, is_not_after,
}
use wasitter.Node.{Node, Point, compare_point}
use wasitter.Prelude.{
  ℕ, ◌≤◌, ◌<◌, Bool, true, false, not, ◌&&◌, ◌||◌, some, ltb, leb, ◌==◌, ◌≡◌, refl, arith,
}
use wasitter.TreeCursor.Places.{Everywhere, Everywhere-map}

module _ (facts : ℕ → Node) where
  -- The node holds the range of bytes: it begins at or before it and ends at or behind it, and
  -- does not end where the range begins, unless it is empty.
  unfoldable pub covers_bytes : (start end : ℕ) → ℕ → Bool
  covers_bytes start end label =
      let n = facts label in
      not n.is_null
      && leb n.start_byte start
      && leb end n.end_byte
      && (ltb start n.end_byte || n.start_byte == start && n.end_byte == start)

  covers_bytes-walk :
      (start end label : ℕ)
      → covers_bytes start end label
        ≡ (not (skips_bytes facts start end label) && not (stops_bytes facts start label))
  unfolding covers_bytes skips_bytes stops_bytes
  covers_bytes-walk start end label = ground arith

  -- Siblings begin one after another.
  abbrev pub StartsFrom : ℕ → Forest → Type 0
  StartsFrom low nil = Unit
  StartsFrom low (cons t f) =
      (low ≤ (facts (label_of t)).start_byte) × StartsFrom (facts (label_of t)).start_byte f

  StartsFrom-AllFail :
      (start end low : ℕ) (f : Forest)
      → start < low
      → StartsFrom low f
      → AllFail (covers_bytes start end) f
  unfolding covers_bytes
  StartsFrom-AllFail start end low nil h s = tt
  StartsFrom-AllFail start end low (cons t f) h (b, s) =
      (ground arith, StartsFrom-AllFail start end (facts (label_of t)).start_byte f (omega arith) s)

  StartsFrom-AreOrdered :
      (start end low : ℕ) (named : Bool) (f : Forest)
      → StartsFrom low f
      → AreOrdered
          (skips_bytes facts start end)
          (stops_bytes facts start)
          (covers_bytes start end)
          named
          (covers_bytes-walk start end)
          f
  unfolding stops_bytes
  StartsFrom-AreOrdered start end low named nil s = tt
  StartsFrom-AreOrdered start end low named (cons t f) (b, s) = (
    λ e. StartsFrom-AllFail start end (facts (label_of t)).start_byte f (ground (arith, e)) s,
    StartsFrom-AreOrdered start end (facts (label_of t)).start_byte named f s,
  )

-- Where siblings begin one after another, `descendantFallback` on a node that is not null walks
-- from it to children that cover the range of bytes until none does, and returns the last node it
-- passed, or the last named one.
pub descendant_fallback-Narrowed :
    (facts : ℕ → Node) (t : Tree) (start end : ℕ) (named : Bool)
    → (facts (label_of t)).is_null ≡ false
    → start ≤ end
    → Everywhere (λ u. StartsFrom facts 0 (children_of u)) t
    → (r : Tree) × (descendant_fallback facts t start end named ≡ some r)
      × Narrowed (covers_bytes facts start end) named t t r
unfolding descendant_fallback
descendant_fallback-Narrowed facts t start end named live h sorted =
    let ordered =
      Everywhere-map t (λ u s. StartsFrom-AreOrdered facts start end 0 named (children_of u) s)
        sorted in
    let forward : ltb end start ≡ false = ground arith in
    (
      narrow (skips_bytes facts start end) (stops_bytes facts start) named t t,
      rw (live, forward) refl,
      narrow-Narrowed (skips_bytes facts start end) (stops_bytes facts start)
          (covers_bytes facts start end) named (covers_bytes-walk facts start end) t t ordered,
    )

-- The order of points.
abbrev pub leq_point : Point → Point → Bool
leq_point a b = ltb a.row b.row || a.row == b.row && leb a.column b.column

abbrev pub eq_point : Point → Point → Bool
eq_point a b = a.row == b.row && a.column == b.column

module _ (facts : ℕ → Node) where
  unfoldable pub covers_points : (start end : Point) → ℕ → Bool
  covers_points start end label =
      let n = facts label in
      not n.is_null
      && leq_point n.start_point start
      && leq_point end n.end_point
      && (not (leq_point n.end_point start)
          || eq_point n.start_point start && eq_point n.end_point start)

  covers_points-walk :
      (start end : Point) (label : ℕ)
      → covers_points start end label
        ≡ (not (skips_points facts start end label) && not (stops_points facts start label))
  unfolding covers_points skips_points stops_points compare_point
  covers_points-walk start end label = ground arith

  abbrev pub PointsFrom : Point → Forest → Type 0
  PointsFrom low nil = Unit
  PointsFrom low (cons t f) =
      (leq_point low (facts (label_of t)).start_point ≡ true)
      × PointsFrom (facts (label_of t)).start_point f

  PointsFrom-AllFail :
      (start end low : Point) (f : Forest)
      → leq_point low start ≡ false
      → PointsFrom low f
      → AllFail (covers_points start end) f
  unfolding covers_points
  PointsFrom-AllFail start end low nil h s = tt
  PointsFrom-AllFail start end low (cons t f) h (b, s) =
      let first = (facts (label_of t)).start_point in
      let past : leq_point first start ≡ false = ground (arith, h, b) in
      (ground (arith, past), PointsFrom-AllFail start end first f past s)

  PointsFrom-AreOrdered :
      (start end low : Point) (named : Bool) (f : Forest)
      → PointsFrom low f
      → AreOrdered
          (skips_points facts start end)
          (stops_points facts start)
          (covers_points start end)
          named
          (covers_points-walk start end)
          f
  unfolding stops_points compare_point
  PointsFrom-AreOrdered start end low named nil s = tt
  PointsFrom-AreOrdered start end low named (cons t f) (b, s) = (
    λ e. PointsFrom-AllFail start end (facts (label_of t)).start_point f (ground (arith, e)) s,
    PointsFrom-AreOrdered start end (facts (label_of t)).start_point named f s,
  )

-- The origin of a text.
abbrev pub origin : Point
origin = record { row = 0; column = 0 }

-- Where siblings begin one after another, `descendantPointFallback` on a node that is not null
-- walks from it to children that cover the range of points until none does, and returns the last
-- node it passed, or the last named one.
pub descendant_point_fallback-Narrowed :
    (facts : ℕ → Node) (t : Tree) (start end : Point) (named : Bool)
    → (facts (label_of t)).is_null ≡ false
    → leq_point start end ≡ true
    → Everywhere (λ u. PointsFrom facts origin (children_of u)) t
    → (r : Tree) × (descendant_point_fallback facts t start end named ≡ some r)
      × Narrowed (covers_points facts start end) named t t r
unfolding descendant_point_fallback compare_point
descendant_point_fallback-Narrowed facts t start end named live h sorted =
    let ordered =
      Everywhere-map t (λ u s. PointsFrom-AreOrdered facts start end origin named (children_of u) s)
        sorted in
    let forward : not (is_not_after (compare_point start end)) ≡ false = ground (arith, h) in
    (
      narrow (skips_points facts start end) (stops_points facts start) named t t,
      rw (live, forward) refl,
      narrow-Narrowed (skips_points facts start end) (stops_points facts start)
          (covers_points facts start end) named (covers_points-walk facts start end) t t ordered,
    )
