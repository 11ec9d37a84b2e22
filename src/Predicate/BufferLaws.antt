-- ===== src/Predicate/BufferLaws.antt =====
-- query.go: the test of a match against the caller's buffer (`satisfiesWithText`), and against the
-- text that the tree retains (`satisfies`).
use wasitter.Node.{Node, node_text_bytes}
use wasitter.Predicate.Evaluate.{
  QueryCapture, pair_loop, evaluate_pairs, all_nodes, evaluate, captured, other_captured,
  satisfies_all, satisfies_with_text_buffer,
}
use wasitter.Predicate.Extract.{TextPredicate}
use wasitter.Predicate.Retained.{satisfies, satisfies_with_text}
use wasitter.Predicate.RetainedLaws.{retained, satisfies-satisfies_all}
use wasitter.Predicate.Steps.{predicate_semantics}
use wasitter.Predicate.EvaluateLaws.{some_node-true}
use wasitter.Prelude.{
  ℕ, Bool, true, false, List, [], ◌∷◌, ◌≡◌, refl, sym, ◌∙◌, ◌==◌, if◌then◌else◌, Bytes, bytes_eq,
  length, Bool-cases, inl, inr, All,
}

if_same : {A : Type 0} (b : Bool) {x y : A} → y ≡ x → (if b then x else y) ≡ x
if_same true e = refl
if_same false e = e

module _ {Regex : Type 0} (match_regexp : Regex → Bytes → Bool) (f g : Node → Bytes) where
  -- The two ways to read a node's text agree on it.
  abbrev pub SameText : Node → Type 0
  SameText n = f n ≡ g n

  abbrev pub SameTexts : List QueryCapture → Type 0
  SameTexts = All (λ (c : QueryCapture). SameText c.node)

  pair_loop_same :
      (positive match_all : Bool) (nodes other : List Node)
      → All SameText nodes
      → All SameText other
      → pair_loop match_regexp f positive match_all nodes other
        ≡ pair_loop match_regexp g positive match_all nodes other
  unfolding pair_loop
  pair_loop_same positive match_all [] other h k = refl
  pair_loop_same positive match_all (n ∷ nodes) [] h k = refl
  pair_loop_same positive match_all (n ∷ nodes) (o ∷ other) h k =
      rw (h.0, k.0, pair_loop_same positive match_all nodes other h.1 k.1)

  all_nodes_same :
      (p : TextPredicate Regex) (positive : Bool) (nodes : List Node)
      → All SameText nodes
      → all_nodes match_regexp f p positive nodes ≡ all_nodes match_regexp g p positive nodes
  unfolding all_nodes
  all_nodes_same p positive [] h = refl
  all_nodes_same p positive (n ∷ nodes) h = rw (h.0, all_nodes_same p positive nodes h.1)

  pairs_same :
      (positive match_all : Bool) (nodes other : List Node)
      → All SameText nodes
      → All SameText other
      → evaluate_pairs match_regexp f positive match_all nodes other
        ≡ evaluate_pairs match_regexp g positive match_all nodes other
  unfolding evaluate_pairs
  pairs_same positive match_all nodes other h k =
      rw (pair_loop_same positive match_all nodes other h k, evaluate_pairs)

  evaluate_same :
      (p : TextPredicate Regex) (nodes other : List Node)
      → All SameText nodes
      → All SameText other
      → evaluate match_regexp f p nodes other ≡ evaluate match_regexp g p nodes other
  unfolding evaluate
  evaluate_same p nodes other h k =
      let positive = (predicate_semantics p.op).0 in
      rw (
        pairs_same positive (predicate_semantics p.op).1 nodes other h k,
        all_nodes_same p positive nodes h,
        some_node-true match_regexp f p positive nodes,
        some_node-true match_regexp g p positive nodes,
      )

  captured_same :
      (capture_name : ℕ → Bytes) (name : Bytes) (captures : List QueryCapture)
      → SameTexts captures
      → All SameText (captured capture_name name captures)
  unfolding captured
  captured_same capture_name name [] h = tt
  captured_same capture_name name (c ∷ captures) h =
      elim (Bool-cases (bytes_eq (capture_name c.index) name)) [
        | inl e ↦ rw e (h.0, captured_same capture_name name captures h.1)
        | inr e ↦ rw e (captured_same capture_name name captures h.1)
      ]

  other_captured_same :
      (capture_name : ℕ → Bytes) (name : Bytes) (captures : List QueryCapture)
      → SameTexts captures
      → All SameText (other_captured capture_name name captures)
  unfolding other_captured
  other_captured_same capture_name name captures h = elim (Bool-cases (length name == 0)) [
    | inl e ↦ rw e tt
    | inr e ↦ rw e (captured_same capture_name name captures h)
  ]

  satisfies_all_same :
      (capture_name : ℕ → Bytes) (predicates : List (TextPredicate Regex))
      (captures : List QueryCapture)
      → SameTexts captures
      → satisfies_all match_regexp f capture_name predicates captures
        ≡ satisfies_all match_regexp g capture_name predicates captures
  unfolding satisfies_all
  satisfies_all_same capture_name [] captures h = refl
  satisfies_all_same capture_name (p ∷ predicates) captures h = rw (
    evaluate_same p _ _ (captured_same capture_name p.capture captures h)
        (other_captured_same capture_name p.other_capture captures h),
    satisfies_all_same capture_name predicates captures h,
  )

module _ {Regex : Type 0} (match_regexp : Regex → Bytes → Bool) (capture_name : ℕ → Bytes) where
  -- Where the buffer holds, at each captured node's place, the text that the tree retains of it,
  -- the test of a match against the buffer is the test against the tree, for every list of
  -- predicates; so an empty buffer, which stands for the tree's text, is no exception.
  pub satisfies_with_text-satisfies :
      (predicates : List (TextPredicate Regex)) (captures : List QueryCapture) (text : Bytes)
      → All (λ (c : QueryCapture). node_text_bytes c.node text ≡ c.node.text) captures
      → (satisfies_with_text_buffer match_regexp capture_name predicates captures text
          ≡ satisfies match_regexp capture_name predicates captures)
        × (satisfies_with_text match_regexp capture_name predicates captures text
            ≡ satisfies match_regexp capture_name predicates captures)
  unfolding satisfies_with_text satisfies_with_text_buffer
  satisfies_with_text-satisfies predicates captures text h =
      let same =
        satisfies_all_same match_regexp (λ (n : Node). node_text_bytes n text) retained capture_name
          predicates captures h
        ∙ sym (satisfies-satisfies_all match_regexp capture_name predicates captures) in
      (same, if_same (length text == 0) same)
