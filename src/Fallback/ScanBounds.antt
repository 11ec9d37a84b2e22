-- ===== src/Fallback/ScanBounds.antt =====
-- query.go: where the scans of the predicates in a query's text end.
use wasitter.Fallback.Scan.{
  end_loop, scan_text_predicate_end, Item, operator, go_on, item_at, behind_end, between,
  validate_item, PredicateFault, capture_fault, argument_fault, lexical, Scanned, accepted,
  out_of_range, out_of_fuel, refused, predicate_fault, validate_group, validate_loop,
  validate_fallback_predicates,
}
use wasitter.Fallback.Tokens.{fallback_predicate_tokens}
use wasitter.Fallback.Validate.{TokenFault, undeclared, bad_arguments, validate_fallback_predicate}
use wasitter.Lexer.Bounds.{Ahead, quoted_from-Ahead, comment_from-Ahead, ident_from-Ahead}
use wasitter.Lexer.{
  At, quoted_from, comment_from, whitespace_from, is_space, operator_at, ident_from,
}
use wasitter.Prelude.{
  ℕ, zero, suc, ◌+◌, ◌-◌, ◌≤◌, ◌<◌, Bool, true, false, ◌≡◌, arith, Option, List, [], ◌∷◌, Bytes,
  length, length-drop, Bool-cases, inl, inr, subst, Option-cases,
}

whitespace_from-Ahead : (pos : ℕ) (rest : Bytes) → Ahead pos rest (whitespace_from pos rest)
unfolding whitespace_from
whitespace_from-Ahead pos [] = omega arith
whitespace_from-Ahead pos (c ∷ cs) = ground (arith, whitespace_from-Ahead (suc pos) cs)

end_loop-Ahead : (fuel depth pos : ℕ) (rest : Bytes) → Ahead pos rest (end_loop fuel depth pos rest)
unfolding end_loop
end_loop-Ahead zero depth pos rest = omega arith
end_loop-Ahead (suc fuel) depth pos [] = omega arith
end_loop-Ahead (suc fuel) depth pos (c ∷ cs) =
    let quoted = quoted_from false (suc pos) cs in
    let comment = comment_from pos (c ∷ cs) in
    ground (
      arith,
      quoted_from-Ahead false (suc pos) cs,
      comment_from-Ahead pos (c ∷ cs),
      end_loop-Ahead fuel depth quoted.pos quoted.rest,
      end_loop-Ahead fuel depth comment.pos comment.rest,
      end_loop-Ahead fuel (depth + 1) (suc pos) cs,
      end_loop-Ahead fuel (depth - 1) (suc pos) cs,
      end_loop-Ahead fuel depth (suc pos) cs,
    )

end_loop-space :
    (fuel depth pos c : ℕ) (cs : Bytes)
    → is_space c ≡ true
    → end_loop (suc fuel) depth pos (c ∷ cs) ≡ end_loop fuel depth (suc pos) cs
unfolding end_loop is_space
end_loop-space fuel depth pos c cs h = ground arith

pub whitespace_from-end_loop :
    (fuel depth pos : ℕ) (rest : Bytes)
    → length rest < fuel
    → (whitespace_from pos rest).pos ≤ (end_loop fuel depth pos rest).pos
unfolding whitespace_from
whitespace_from-end_loop zero depth pos rest h = elim h [ ]
whitespace_from-end_loop (suc fuel) depth pos [] h =
    omega (arith, end_loop-Ahead (suc fuel) depth pos [])
whitespace_from-end_loop (suc fuel) depth pos (c ∷ cs) h = elim (Bool-cases (is_space c)) [
  | inl e ↦
      rw (e, end_loop-space fuel depth pos c cs e)
        (whitespace_from-end_loop fuel depth (suc pos) cs (omega arith))
  | inr e ↦ rw e (ground (arith, end_loop-Ahead (suc fuel) depth pos (c ∷ cs)))
]

-- The item lies ahead of a byte, and behind it fewer bytes are left.
abbrev IsBehind : ℕ → ℕ → At → Type 0
IsBehind total left q = (q.pos + length q.rest ≡ total) × (length q.rest < left)

abbrev ItemBehind : ℕ → ℕ → Item → Type 0
ItemBehind total left (operator op q) = IsBehind total left q
ItemBehind total left (go_on q) = IsBehind total left q

item_at-ItemBehind :
    (pos c : ℕ) (cs : Bytes)
    → ItemBehind (pos + suc (length cs)) (suc (length cs)) (item_at pos c cs)
unfolding item_at operator_at comment_from
item_at-ItemBehind pos c [] =
    ground (arith, quoted_from-Ahead false (suc pos) [], comment_from-Ahead (suc pos) [])
item_at-ItemBehind pos c (d ∷ ds) =
    let next = (ident_from (pos + 2) ds).pos in
    ground (
      arith,
      quoted_from-Ahead false (suc pos) (d ∷ ds),
      comment_from-Ahead (suc pos) (d ∷ ds),
      ident_from-Ahead (pos + 2) ds,
      length-drop (next - pos) (c ∷ d ∷ ds),
    )

behind_end-shorter :
    (q : At)
    → (length (behind_end q).rest ≤ length q.rest)
      × ((behind_end q).pos + length (behind_end q).rest ≡ q.pos + length q.rest)
behind_end-shorter q = ground arith

-- The offset that is reported.
abbrev pub fault_offset : PredicateFault → ℕ
fault_offset (capture_fault name offset) = offset
fault_offset (argument_fault f offset) = offset
fault_offset (lexical op offset) = offset

-- The scan came to an end, at no slice that is out of range, and reports an offset of the text.
abbrev pub IsDecided : ℕ → Scanned → Type 0
IsDecided size accepted = Unit
IsDecided size (refused f) = fault_offset f ≤ size
IsDecided size out_of_range = ⊥
IsDecided size out_of_fuel = ⊥

predicate_fault-offset :
    (size offset base : ℕ) (f : TokenFault)
    → offset ≤ size
    → fault_offset (predicate_fault size offset base f) ≤ size
predicate_fault-offset size offset base (undeclared name place) h = omega arith
predicate_fault-offset size offset base (bad_arguments f) h = h

module _ (unquote : Bytes → Option Bytes) (compiles : Bytes → Bool) (declared : List Bytes)
    (size : ℕ) where
  validate_group-IsDecided :
      (offset : ℕ) (op : Bytes) (base end : At) (behind : Scanned)
      → base.pos ≤ end.pos
      → offset ≤ size
      → IsDecided size behind
      → IsDecided size (validate_group unquote compiles declared size offset op base end behind)
  unfolding validate_group
  validate_group-IsDecided offset op base end behind range h decided =
      let tokens = fallback_predicate_tokens unquote (between base end) in
      elim (Option-cases tokens) [
        | inl e ↦ ground arith
        | inr (ts, e) ↦ elim (Option-cases (validate_fallback_predicate compiles declared op ts)) [
          | inl v ↦ ground arith
          | inr (f, v) ↦ ground (arith, predicate_fault-offset size offset base.pos f h)
        ]
      ]

  validate_item-IsDecided :
      (rec : At → Scanned) (left pos : ℕ) (item : Item)
      → pos ≤ size
      → ItemBehind size left item
      → ((q : At) → IsBehind size left q → IsDecided size (rec q))
      → IsDecided size (validate_item unquote compiles declared size rec pos item)
  unfolding validate_item scan_text_predicate_end
  validate_item-IsDecided rec left pos (go_on q) h item next = next q item
  validate_item-IsDecided rec left pos (operator op behind) h item next =
      let end = scan_text_predicate_end behind in
      validate_group-IsDecided pos op (whitespace_from behind.pos behind.rest) end
        (rec (behind_end end))
        (whitespace_from-end_loop (suc (length behind.rest)) 0 behind.pos behind.rest (omega arith))
        h
        (next (behind_end end) (
          ground (
            arith,
            behind_end-shorter end,
            end_loop-Ahead (suc (length behind.rest)) 0 behind.pos behind.rest,
          )))

  validate_loop-IsDecided :
      (fuel pos : ℕ) (rest : Bytes)
      → length rest < fuel
      → pos + length rest ≡ size
      → IsDecided size (validate_loop unquote compiles declared size fuel pos rest)
  unfolding validate_loop
  validate_loop-IsDecided zero pos rest h e = elim h [ ]
  validate_loop-IsDecided (suc fuel) pos [] h e = tt
  validate_loop-IsDecided (suc fuel) pos (c ∷ cs) h e =
      validate_item-IsDecided
        (λ (q : At). validate_loop unquote compiles declared size fuel q.pos q.rest)
        (suc (length cs)) pos (item_at pos c cs) (omega arith)
        (subst (λ (total : ℕ). ItemBehind total (suc (length cs)) (item_at pos c cs)) e
          (item_at-ItemBehind pos c cs))
        (λ q b. validate_loop-IsDecided fuel q.pos q.rest (omega (arith, b)) b.0)

-- Whatever strconv.Unquote and regexp.Compile accept, the check of the predicates in a text comes to
-- an end within its fuel, never slices beyond an end, and either accepts the text or reports an
-- offset between 0 and its length.
pub validate_fallback_predicates-IsDecided :
    (unquote : Bytes → Option Bytes) (compiles : Bytes → Bool) (source : Bytes)
    (declared : List Bytes)
    → IsDecided (length source) (validate_fallback_predicates unquote compiles source declared)
unfolding validate_fallback_predicates
validate_fallback_predicates-IsDecided unquote compiles source declared =
    validate_loop-IsDecided unquote compiles declared (length source) (suc (length source)) 0 source
      (omega arith) (omega arith)
