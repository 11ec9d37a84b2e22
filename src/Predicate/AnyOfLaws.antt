-- ===== src/Predicate/AnyOfLaws.antt =====
-- query.go: what `evaluateTextPredicate` computes for `#any-of?` and `#not-any-of?`.
use wasitter.Node.{Node}
use wasitter.Predicate.Evaluate.{contains_text, compare_text, evaluate}
use wasitter.Predicate.EvaluateLaws.{evaluate-All}
use wasitter.Predicate.Extract.{TextPredicate}
use wasitter.Predicate.Steps.{predicate_semantics}
use wasitter.Prelude.{
  Bool, true, false, List, [], ◌∷◌, ◌≡◌, ◌≢◌, ◌↔◌, ◌⊎◌, refl, arith, ◌==◌, Bytes, bytes_eq_iff,
  length, codes, contains, All,
}

-- A text is one of the values.
abbrev pub IsOneOf : List Bytes → Bytes → Type 0
IsOneOf [] text = ⊥
IsOneOf (v ∷ values) text = (text ≡ v) ⊎ IsOneOf values text

contains_text_iff :
    (values : List Bytes) (text : Bytes) → (contains_text values text ≡ true) ↔ IsOneOf values text
unfolding contains_text
contains_text_iff [] text = ground arith
contains_text_iff (v ∷ values) text =
    ground (arith, bytes_eq_iff text v, contains_text_iff values text)

-- The text differs from every value.
abbrev pub IsNoneOf : List Bytes → Bytes → Type 0
IsNoneOf values text = All (λ (v : Bytes). text ≢ v) values

contains_text-false_iff :
    (values : List Bytes) (text : Bytes)
    → (contains_text values text ≡ false) ↔ IsNoneOf values text
unfolding contains_text
contains_text-false_iff [] text = (λ _. tt, λ _. refl)
contains_text-false_iff (v ∷ values) text =
    ground (arith, bytes_eq_iff text v, contains_text-false_iff values text)

then_iff : {A B C : Type 0} → (A ↔ B) → (B ↔ C) → A ↔ C
then_iff f g = (λ a. g.0 (f.0 a), λ c. f.1 (g.1 c))

All-iff :
    (P Q : Node → Type 0) (nodes : List Node) → ((n : Node) → P n ↔ Q n) → All P nodes ↔ All Q nodes
All-iff P Q [] f = (λ h. h, λ h. h)
All-iff P Q (n ∷ nodes) f = (
  λ h. ((f n).0 h.0, (All-iff P Q nodes f).0 h.1),
  λ h. ((f n).1 h.0, (All-iff P Q nodes f).1 h.1),
)

module _ {Regex : Type 0} (match_regexp : Regex → Bytes → Bool) (text_of : Node → Bytes) where
  any_of_text :
      (p : TextPredicate Regex) (text : Bytes)
      → contains (codes "any-of?") p.op ≡ true
      → compare_text match_regexp p text ≡ contains_text p.values text
  unfolding compare_text
  any_of_text p text e = rw e refl

  -- With no other capture, `#any-of?` holds exactly if the text of every captured node is one of the
  -- values.
  pub evaluate-any_of :
      (p : TextPredicate Regex) (nodes other : List Node)
      → (length p.other_capture == 0) ≡ true
      → p.op ≡ codes "any-of?"
      → (evaluate match_regexp text_of p nodes other ≡ true)
        ↔ All (λ (n : Node). IsOneOf p.values (text_of n)) nodes
  unfolding predicate_semantics contains
  evaluate-any_of p nodes other h e =
      then_iff (evaluate-All match_regexp text_of p nodes other h (rw e refl)) (
        All-iff
          (λ (n : Node). compare_text match_regexp p (text_of n) ≡ (predicate_semantics p.op).0)
          (λ (n : Node). IsOneOf p.values (text_of n)) nodes
          λ n.
            rw (any_of_text p (text_of n) (rw e refl), e) (contains_text_iff p.values (text_of n)))

  -- With no other capture, `#not-any-of?` holds exactly if the text of every captured node differs
  -- from every value.
  pub evaluate-not_any_of :
      (p : TextPredicate Regex) (nodes other : List Node)
      → (length p.other_capture == 0) ≡ true
      → p.op ≡ codes "not-any-of?"
      → (evaluate match_regexp text_of p nodes other ≡ true)
        ↔ All (λ (n : Node). IsNoneOf p.values (text_of n)) nodes
  unfolding predicate_semantics contains
  evaluate-not_any_of p nodes other h e =
      then_iff (evaluate-All match_regexp text_of p nodes other h (rw e refl)) (
        All-iff
          (λ (n : Node). compare_text match_regexp p (text_of n) ≡ (predicate_semantics p.op).0)
          (λ (n : Node). IsNoneOf p.values (text_of n)) nodes
          λ n.
            rw (any_of_text p (text_of n) (rw e refl), e)
              (contains_text-false_iff p.values (text_of n)))
