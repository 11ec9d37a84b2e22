-- ===== src/Structure/NodeBounds.antt =====
-- query_fallback_validate.go: the bounds of parentheses, groups, alternatives and node patterns.
use wasitter.Prelude.{
  ℕ, zero, suc, ◌+◌, ◌≤◌, ◌<◌, not, ◌||◌, [], ◌∷◌, ◌≡◌, arith, ◌==◌, Bytes, length,
}
use wasitter.Structure.Arguments.{Rec, spaced}
use wasitter.Structure.Nodes.{
  field_value, field_colon, anchored, group_at, group_loop, alternative_at, alternative_loop,
  child_at, child_loop, children, subtype_at,
}
use wasitter.Structure.Bounds.{
  Within, Steps, Within-weaken, Within->>, Within-err, Steps-spaced, Steps-slack, Steps-fewer,
  Within-if, identifier_then-Within, Within-close,
}

module _ (total : ℕ) where
  -- Behind one byte that the parser has taken, a step that consumes more is within the bound.
  pub spaced-behind :
      {n : ℕ} {step : Rec} (pos c : ℕ) (cs : Bytes)
      → Steps total n 0 step
      → pos + length (c ∷ cs) ≡ total
      → length cs < n
      → Within total (0 + length (c ∷ cs)) (spaced step (suc pos) cs)
  spaced-behind pos c cs s e lt =
      Within-weaken total (omega arith) (Steps-spaced total 0 s (suc pos) cs (omega arith) lt)

  field_value-Steps : {n : ℕ} {rec : Rec} → Steps total n 0 rec → Steps total n 0 (field_value rec)
  unfolding field_value
  field_value-Steps s pos [] e lt = Within-err total _ (omega arith)
  field_value-Steps s pos (c ∷ cs) e lt =
      Within-if total (c == b')' || c == b']') (Within-err total _ (omega arith))
        (s pos (c ∷ cs) e lt)

  pub field_colon-Steps :
      {n : ℕ} {rec : Rec} (start : ℕ)
      → start ≤ total
      → Steps total n 0 rec
      → Steps total n 0 (field_colon rec start)
  unfolding field_colon
  field_colon-Steps start le s pos [] e lt = Within-err total _ le
  field_colon-Steps start le s pos (c ∷ cs) e lt =
      Within-if total (not (c == b':')) (Within-err total _ le)
        (spaced-behind pos c cs (field_value-Steps s) e (omega arith))

  anchored-Steps : {n : ℕ} {rec : Rec} → Steps total n 0 rec → Steps total n 0 (anchored rec)
  unfolding anchored
  anchored-Steps s pos [] e lt = Within-err total _ (omega arith)
  anchored-Steps s pos (c ∷ cs) e lt =
      Within-if total (c == b')') (Within-err total _ (omega arith)) (s pos (c ∷ cs) e lt)

  group_at-Steps :
      {n : ℕ} {rec again : Rec} (count : ℕ)
      → Steps total (suc n) 0 rec
      → Steps total n 1 again
      → Steps total (suc n) 0 (group_at rec again count)
  unfolding group_at
  group_at-Steps count s h pos [] e lt = Within-err total _ (omega arith)
  group_at-Steps count s h pos (c ∷ cs) e lt =
      let later = Steps-fewer total 1 {low = 0 + length (c ∷ cs)} (omega arith) h in
      Within-if total (c == b')')
        (Within-if total (count == 0) (Within-err total _ (omega arith))
          (Within-close total pos c cs e))
        (Within-if total (c == b'.')
          (Within->> total (spaced-behind pos c cs (anchored-Steps s) e (omega arith)) later)
          (Within->> total (s pos (c ∷ cs) e lt) later))

  pub group_loop-Steps :
      {rec : Rec} (fuel count : ℕ)
      → Steps total fuel 0 rec
      → Steps total fuel 0 (group_loop rec fuel count)
  unfolding group_loop
  group_loop-Steps zero count s = λ pos rest e lt. absurd (omega arith)
  group_loop-Steps (suc fuel) count s = Steps-spaced total 0 (
      group_at-Steps count s (
        Steps-slack total
          (group_loop-Steps fuel (count + 1) (Steps-fewer total 0 (omega arith) s))))

  alternative_at-Steps :
      {n : ℕ} {rec again : Rec} (count : ℕ)
      → Steps total (suc n) 0 rec
      → Steps total n 1 again
      → Steps total (suc n) 0 (alternative_at rec again count)
  unfolding alternative_at
  alternative_at-Steps count s h pos [] e lt = Within-err total _ (omega arith)
  alternative_at-Steps count s h pos (c ∷ cs) e lt =
      Within-if total (c == b']')
        (Within-if total (count == 0) (Within-err total _ (omega arith))
          (Within-close total pos c cs e))
        (Within-if total (c == b')') (Within-err total _ (omega arith))
          (Within->> total (s pos (c ∷ cs) e lt) (Steps-fewer total 1 (omega arith) h)))

  pub alternative_loop-Steps :
      {rec : Rec} (fuel count : ℕ)
      → Steps total fuel 0 rec
      → Steps total fuel 0 (alternative_loop rec fuel count)
  unfolding alternative_loop
  alternative_loop-Steps zero count s = λ pos rest e lt. absurd (omega arith)
  alternative_loop-Steps (suc fuel) count s = Steps-spaced total 0 (
      alternative_at-Steps count s (
        Steps-slack total
          (alternative_loop-Steps fuel (count + 1) (Steps-fewer total 0 (omega arith) s))))

  child_at-Steps :
      {n : ℕ} {rec again : Rec}
      → Steps total (suc n) 0 rec
      → Steps total n 1 again
      → Steps total (suc n) 0 (child_at rec again)
  unfolding child_at
  child_at-Steps s h pos [] e lt = Within-err total _ (omega arith)
  child_at-Steps {n} {rec} {again} s h pos (c ∷ cs) e lt =
      let later = Steps-fewer total 1 {low = 0 + length (c ∷ cs)} (omega arith) h in
      Within-if total (c == b')') (Within-close total pos c cs e) (
        Within-if total (c == b'!')
          (spaced-behind {n = suc (length cs)} pos c cs
            (λ p rest e' lt'.
              Within-weaken total (omega arith)
                (identifier_then-Within total {n = n} p p rest h (omega arith) e' (omega arith)))
            e (omega arith))
          (Within-if total (c == b'.')
            (Within->> total (spaced-behind pos c cs (anchored-Steps s) e (omega arith)) later)
            (Within-if total (c == b'(' || c == b'[' || c == b'"' || c == b'_' || c == b'*')
              (Within->> total (s pos (c ∷ cs) e lt) later)
              (Within-weaken total (omega arith) (
                identifier_then-Within total {n = n} pos pos (c ∷ cs)
                  (λ p rest e' lt'.
                    Within->> total
                      (Steps-slack total
                        (Steps-spaced total 0 (field_colon-Steps pos (omega arith) s)) p rest e'
                        (omega arith))
                      (Steps-fewer total 1 (omega arith) h))
                  (omega arith) e (omega arith))))))

  child_loop-Steps :
      {rec : Rec} (fuel : ℕ) → Steps total fuel 0 rec → Steps total fuel 0 (child_loop rec fuel)
  unfolding child_loop
  child_loop-Steps zero s = λ pos rest e lt. absurd (omega arith)
  child_loop-Steps (suc fuel) s = Steps-spaced total 0 (
      child_at-Steps s
        (Steps-slack total (child_loop-Steps fuel (Steps-fewer total 0 (omega arith) s))))

  children-Steps : {n : ℕ} {rec : Rec} → Steps total n 0 rec → Steps total n 0 (children rec)
  unfolding children
  children-Steps s pos rest e lt =
      child_loop-Steps (suc (length rest)) (Steps-fewer total 0 (omega arith) s) pos rest e
        (omega arith)

  pub subtype_at-Steps :
      {n : ℕ} {rec : Rec} → Steps total n 0 rec → Steps total n 0 (subtype_at rec)
  unfolding subtype_at
  subtype_at-Steps s pos [] e lt = children-Steps s pos [] e lt
  subtype_at-Steps s pos (c ∷ cs) e lt =
      Within-if total (not (c == b'/')) (children-Steps s pos (c ∷ cs) e lt) (
        Within-weaken total (omega arith) (
          identifier_then-Within total pos (suc pos) cs
            (Steps-slack total (Steps-spaced total 0 (children-Steps s))) (omega arith)
            (omega arith) (omega arith)))
