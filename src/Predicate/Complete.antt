-- ===== src/Predicate/Complete.antt =====
-- query.go: the step lists of validated patterns and the predicates made of them.
use wasitter.Predicate.Agreement.{
  public_count, public_text_count, compiles, live, public_part-live, public_part-text,
}
use wasitter.Predicate.Collect.{
  PublicPart, nothing, text, property, setting, general, PublicPredicates, append_part,
  no_predicates, public_part, public_loop, public_predicates_from_steps, text_loop,
  text_predicates_from_steps,
}
use wasitter.Predicate.Steps.{Step, parts}
use wasitter.Predicate.Validate.{validate_part, validate_parts}
use wasitter.Prelude.{ℕ, ◌+◌, Option, none, List, [], ◌∷◌, ◌≡◌, arith, Bytes, length, length-append}

-- The number of predicates that callers are shown.
abbrev pub total : {Regex : Type 0} → PublicPredicates Regex → ℕ
total r = length r.texts + length r.properties + length r.settings + length r.generals

module _ {Regex : Type 0} where
  total-append_part :
      (x : PublicPart Regex) (r : PublicPredicates Regex)
      → total (append_part x r) ≡ total r + public_count x
  unfolding append_part
  total-append_part nothing r = omega arith
  total-append_part (text t) r = omega (arith, length-append r.texts (t ∷ []))
  total-append_part (property p) r = omega (arith, length-append r.properties (p ∷ []))
  total-append_part (setting p) r = omega (arith, length-append r.settings (p ∷ []))
  total-append_part (general q) r = omega (arith, length-append r.generals (q ∷ []))

  texts-append_part :
      (x : PublicPart Regex) (r : PublicPredicates Regex)
      → length (append_part x r).texts ≡ length r.texts + public_text_count x
  unfolding append_part
  texts-append_part nothing r = omega arith
  texts-append_part (text t) r = omega (arith, length-append r.texts (t ∷ []))
  texts-append_part (property p) r = omega arith
  texts-append_part (setting p) r = omega arith
  texts-append_part (general q) r = omega arith

-- The parts whose operator is not the empty string.
abbrev pub live_parts : (ℕ → Bytes) → List (List Step) → ℕ
live_parts string_value [] = 0
live_parts string_value (p ∷ ps) = live string_value p + live_parts string_value ps

module _ (string_value capture_name : ℕ → Bytes) {Regex : Type 0}
    (compile : Bytes → Option Regex) where
  abbrev IsValid : List (List Step) → Type 0
  IsValid ps = validate_parts string_value capture_name (compiles compile) ps ≡ none

  validate_parts_inv :
      (p : List Step) (ps : List (List Step))
      → IsValid (p ∷ ps)
      → (validate_part string_value capture_name (compiles compile) p ≡ none) × IsValid ps
  unfolding validate_parts
  validate_parts_inv p ps v = ground arith

  public_loop-total :
      (r : PublicPredicates Regex) (ps : List (List Step))
      → IsValid ps
      → total (public_loop string_value compile r ps) ≡ total r + live_parts string_value ps
  unfolding public_loop
  public_loop-total r [] v = omega arith
  public_loop-total r (p ∷ ps) v =
      let (w, rest) = validate_parts_inv p ps v in
      let x = public_part string_value compile p in
      omega (
        arith,
        public_loop-total (append_part x r) ps rest,
        total-append_part x r,
        public_part-live string_value capture_name compile p w,
      )

  public_loop-texts :
      (r : PublicPredicates Regex) (ps : List (List Step))
      → IsValid ps
      → length (public_loop string_value compile r ps).texts
        ≡ length r.texts + length (text_loop string_value compile capture_name ps)
  unfolding public_loop text_loop
  public_loop-texts r [] v = omega arith
  public_loop-texts r (p ∷ ps) v =
      let (w, rest) = validate_parts_inv p ps v in
      let x = public_part string_value compile p in
      ground (
        arith,
        public_loop-texts (append_part x r) ps rest,
        texts-append_part x r,
        public_part-text string_value capture_name compile p w,
      )

  -- For a step list in which `validateNativePredicates` finds no fault, the four public lists hold
  -- as many predicates as the steps have parts with a non-empty operator, and the host evaluates
  -- as many text predicates as the public list of text predicates holds.
  pub public_predicates_from_steps_total :
      (steps : List Step)
      → validate_parts string_value capture_name (compiles compile) (parts steps) ≡ none
      → (total (public_predicates_from_steps string_value compile steps)
          ≡ live_parts string_value (parts steps))
        × (length (text_predicates_from_steps string_value compile capture_name steps)
            ≡ length (public_predicates_from_steps string_value compile steps).texts)
  unfolding public_predicates_from_steps text_predicates_from_steps
  public_predicates_from_steps_total steps v = (
    omega (arith, public_loop-total no_predicates (parts steps) v),
    omega (arith, public_loop-texts no_predicates (parts steps) v),
  )
