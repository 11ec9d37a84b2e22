-- ===== src/Lexer/Bounds.antt =====
-- query.go and query_fallback_validate.go: where the scanners of query text end.
use wasitter.Prelude.{
  ℕ, zero, suc, refl, drop, ◌+◌, ◌≤◌, Bool, not, ◌&&◌, [], ◌∷◌, ◌≡◌, arith, ◌==◌, if◌then◌else◌,
  Bytes, length,
}
use wasitter.Lexer.{At, comment_from, quoted_from, ident_from, space_from}

-- `q` lies at or behind the place `pos`, in the same text.
pub record Ahead (pos : ℕ) (rest : Bytes) (q : At) : Type 0 where
  pub total : q.pos + length q.rest ≡ pos + length rest
  pub shorter : length q.rest ≤ length rest

pub comment_from-Ahead : (pos : ℕ) (rest : Bytes) → Ahead pos rest (comment_from pos rest)
unfolding comment_from
comment_from-Ahead pos [] = omega arith
comment_from-Ahead pos (c ∷ cs) = ground (arith, comment_from-Ahead (suc pos) cs)

pub quoted_from-Ahead :
    (escaped : Bool) (pos : ℕ) (rest : Bytes) → Ahead pos rest (quoted_from escaped pos rest)
unfolding quoted_from
quoted_from-Ahead escaped pos [] = omega arith
quoted_from-Ahead escaped pos (c ∷ cs) =
    ground (arith, quoted_from-Ahead (c == b'\\' && not escaped) (suc pos) cs)

pub ident_from-Ahead : (pos : ℕ) (rest : Bytes) → Ahead pos rest (ident_from pos rest)
unfolding ident_from
ident_from-Ahead pos [] = omega arith
ident_from-Ahead pos (c ∷ cs) = ground (arith, ident_from-Ahead (suc pos) cs)

pub space_from-Ahead :
    (comment : Bool) (pos : ℕ) (rest : Bytes) → Ahead pos rest (space_from comment pos rest)
unfolding space_from
space_from-Ahead comment pos [] = omega arith
space_from-Ahead comment pos (c ∷ cs) =
    ground (arith, space_from-Ahead (if comment then not (c == b'\n') else c == b';') (suc pos) cs)

-- What is left is the text behind the bytes that were passed over.
pub quoted_from-drop :
    (escaped : Bool) (pos n : ℕ) (rest : Bytes)
    → (quoted_from escaped pos rest).pos ≡ pos + n
    → (quoted_from escaped pos rest).rest ≡ drop n rest
unfolding quoted_from
quoted_from-drop escaped pos zero [] e = refl
quoted_from-drop escaped pos (suc n) [] e = refl
quoted_from-drop escaped pos zero (c ∷ cs) e =
    ground (arith, quoted_from-Ahead (c == b'\\' && not escaped) (suc pos) cs)
quoted_from-drop escaped pos (suc zero) (c ∷ cs) e =
    ground (arith, quoted_from-drop (c == b'\\' && not escaped) (suc pos) zero cs)
quoted_from-drop escaped pos (suc (suc n)) (c ∷ cs) e =
    ground (arith, quoted_from-drop (c == b'\\' && not escaped) (suc pos) (suc n) cs)
