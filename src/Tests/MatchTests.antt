-- ===== src/Tests/MatchTests.antt =====
-- Runs of the test of a match against its text predicates.
use wasitter.Node.{Node, node_text_bytes}
use wasitter.Predicate.BufferLaws.{satisfies_with_text-satisfies}
use wasitter.Predicate.Evaluate.{
  QueryCapture, satisfies_all, captured, evaluate, compare_text, satisfies_with_text_buffer,
}
use wasitter.Predicate.EvaluateLaws.{evaluate-eq_capture, evaluate-some_node}
use wasitter.Predicate.Extract.{TextPredicate}
use wasitter.Predicate.Retained.{satisfies, satisfies_with_text}
use wasitter.Predicate.Steps.{predicate_semantics}
use wasitter.Prelude.{
  ℕ, suc, true, false, Bool, Option, none, some, List, [], ◌∷◌, ◌≡◌, refl, ◌↔◌, codes, Bytes,
  get_elem?, map, bytes_eq, contains, All,
}
use wasitter.Predicate.AnyOfLaws.{IsOneOf, evaluate-any_of}

abbrev word : Option Bytes → Bytes
word none = []
word (some w) = w

abbrev names : ℕ → Bytes
names id = word (get_elem? (codes "a" ∷ codes "b" ∷ []) id)

abbrev word_node : ℕ → Bytes → Node
word_node start text = record {
  is_null = false;
  start_byte = start;
  end_byte = suc start;
  start_point = record { row = 0; column = start };
  end_point = record { row = 0; column = suc start };
  text = text;
}

abbrev x : Node
x = word_node 0 (codes "x")

abbrev y : Node
y = word_node 1 (codes "y")

abbrev text_of : Node → Bytes
text_of n = n.text

abbrev predicate : Bytes → Bytes → TextPredicate Bytes
predicate op other = record {
  op = op;
  capture = codes "a";
  other_capture = other;
  value = codes "x";
  values = [];
  regex = none;
}

abbrev matches : Bytes → Bytes → Bool
matches re text = contains re text

evaluate-eq_capture_example :
    (evaluate matches text_of (predicate (codes "eq?") (codes "b")) (x ∷ y ∷ []) (x ∷ y ∷ [])
      ≡ true)
    ↔ (map text_of (x ∷ y ∷ []) ≡ map text_of (x ∷ y ∷ []))
evaluate-eq_capture_example =
    evaluate-eq_capture matches text_of (predicate (codes "eq?") (codes "b")) (x ∷ y ∷ [])
      (x ∷ y ∷ []) refl refl

evaluate-some_node_example :
    evaluate matches text_of (predicate (codes "any-eq?") []) (y ∷ y ∷ []) [] ≡ true
unfolding predicate_semantics
evaluate-some_node_example =
    evaluate-some_node matches text_of (predicate (codes "any-eq?") []) (y ∷ y ∷ []) [] refl refl

abbrev one_of : Bytes → TextPredicate Bytes
one_of op = record {
  op = op;
  capture = codes "a";
  other_capture = [];
  value = [];
  values = codes "w" ∷ codes "x" ∷ [];
  regex = none;
}

evaluate-any_of_example :
    (evaluate matches text_of (one_of (codes "any-of?")) (x ∷ y ∷ []) [] ≡ true)
    ↔ All (λ (n : Node). IsOneOf (codes "w" ∷ codes "x" ∷ []) (text_of n)) (x ∷ y ∷ [])
evaluate-any_of_example =
    evaluate-any_of matches text_of (one_of (codes "any-of?")) (x ∷ y ∷ []) [] refl refl

abbrev captures : List QueryCapture
captures = record { node = x; index = 0 } ∷ record { node = y; index = 1 } ∷ []

-- The second predicate does not hold: the text of @a is no other than "x".
rejects_match :
    satisfies_with_text matches names
      (predicate (codes "eq?") [] ∷ predicate (codes "not-eq?") [] ∷ [])
      captures
      (codes "xy")
    ≡ false
unfolding satisfies_with_text satisfies_all evaluate captured bytes_eq predicate_semantics
    compare_text node_text_bytes
rejects_match = refl

satisfies_with_text-satisfies_example :
    (satisfies_with_text_buffer matches names
        (predicate (codes "eq?") [] ∷ [])
        captures
        (codes "xy")
      ≡ satisfies matches names (predicate (codes "eq?") [] ∷ []) captures)
    × (satisfies_with_text matches names (predicate (codes "eq?") [] ∷ []) captures (codes "xy")
        ≡ satisfies matches names (predicate (codes "eq?") [] ∷ []) captures)
unfolding node_text_bytes
satisfies_with_text-satisfies_example =
    satisfies_with_text-satisfies matches names (predicate (codes "eq?") [] ∷ []) captures
      (codes "xy") (refl, (refl, tt))
