-- ===== src/Fallback/TokensLaws.antt =====
-- query.go: how far `fallbackPredicateTokens` goes in each round.
use wasitter.Fallback.Tokens.{
  Token, Read, blank_from, capture_at, quoted_at, ident_at, token_at, then_token, tokens_loop,
  fallback_predicate_tokens,
}
use wasitter.Lexer.Bounds.{Ahead, ident_from-Ahead}
use wasitter.Lexer.{At, at, ident_from, capture_token_at, skip_query_quoted_at}
use wasitter.Prelude.{
  ℕ, zero, suc, ◌+◌, ◌-◌, ◌<◌, ◌≤◌, Bool, true, false, not, ◌≡◌, refl, ap, arith, Option, none,
  some, List, [], ◌∷◌, ◌==◌, if◌then◌else◌, Bytes, length, length-drop, take, inl, inr, subst,
  Option-cases,
}
use wasitter.Structure.Arguments.{decode_query_string}

blank_from-Ahead :
    (comment : Bool) (pos : ℕ) (rest : Bytes) → Ahead pos rest (blank_from comment pos rest)
unfolding blank_from
blank_from-Ahead comment pos [] = omega arith
blank_from-Ahead comment pos (c ∷ cs) =
    ground (arith, blank_from-Ahead (if comment then not (c == b'\n') else c == b';') (suc pos) cs)

-- Where there is a token, fewer bytes are left behind it.
abbrev Shortens : Bytes → Option Read → Type 0
Shortens rest none = Unit
Shortens rest (some r) = length r.behind.rest < length rest

Shortens-if :
    (b : Bool) (rest : Bytes) (x y : Option Read)
    → Shortens rest x
    → Shortens rest y
    → Shortens rest (if b then x else y)
Shortens-if true rest x y h k = h
Shortens-if false rest x y h k = k

capture_at-Shortens : (pos c : ℕ) (cs : Bytes) → Shortens (c ∷ cs) (capture_at pos (c ∷ cs))
unfolding capture_at capture_token_at
capture_at-Shortens pos c [] = tt
capture_at-Shortens pos c (d ∷ ds) =
    let next = (ident_from (pos + 2) ds).pos in
    ground (arith, ident_from-Ahead (pos + 2) ds, length-drop (next - pos) (c ∷ d ∷ ds))

ident_at-Shortens : (pos c : ℕ) (cs : Bytes) → Shortens (c ∷ cs) (ident_at pos (c ∷ cs))
unfolding ident_at
ident_at-Shortens pos c cs =
    let next = (ident_from (suc pos) cs).pos in
    ground (arith, ident_from-Ahead (suc pos) cs, length-drop (next - pos) (c ∷ cs))

module _ (unquote : Bytes → Option Bytes) where
  quoted_at-Shortens : (pos c : ℕ) (cs : Bytes) → Shortens (c ∷ cs) (quoted_at unquote pos (c ∷ cs))
  unfolding quoted_at
  quoted_at-Shortens pos c cs =
      let next = skip_query_quoted_at pos (c ∷ cs) in
      elim (Option-cases (decode_query_string unquote (take (next - pos) (c ∷ cs)))) [
        | inl e ↦ ground arith
        | inr (v, e) ↦ ground (arith, length-drop (next - pos) (c ∷ cs))
      ]

  token_at-Shortens : (pos : ℕ) (rest : Bytes) → Shortens rest (token_at unquote pos rest)
  unfolding token_at
  token_at-Shortens pos [] = tt
  token_at-Shortens pos (c ∷ cs) =
      Shortens-if (c == b'@') (c ∷ cs) (capture_at pos (c ∷ cs))
        (if c == b'"' then quoted_at unquote pos (c ∷ cs) else ident_at pos (c ∷ cs))
        (capture_at-Shortens pos c cs)
        (Shortens-if (c == b'"') (c ∷ cs) (quoted_at unquote pos (c ∷ cs)) (ident_at pos (c ∷ cs))
          (quoted_at-Shortens pos c cs) (ident_at-Shortens pos c cs))

  tokens_loop_stable :
      (fuel more : ℕ) (q : At)
      → length q.rest < fuel
      → length q.rest < more
      → tokens_loop unquote fuel q ≡ tokens_loop unquote more q
  unfolding tokens_loop
  tokens_loop_stable zero more q h k = elim h [ ]
  tokens_loop_stable (suc fuel) zero q h k = elim k [ ]
  tokens_loop_stable (suc fuel) (suc more) q h k =
      let start = blank_from false q.pos q.rest in
      elim (Option-cases (token_at unquote start.pos start.rest)) [
        | inl e ↦ rw e refl
        | inr (r, e) ↦
            let less : length r.behind.rest < length start.rest =
              subst (Shortens start.rest) e (token_at-Shortens start.pos start.rest) in
            let left : length start.rest ≤ length q.rest =
              (blank_from-Ahead false q.pos q.rest).shorter in
            rw e (
              ap
                (λ (l : Option (List Token)).
                  if length start.rest == 0 then some [] else then_token unquote r.token l)
                (tokens_loop_stable fuel more r.behind (omega arith) (omega arith)))
      ]

-- The arguments of a predicate are read to their end: with any fuel above the length of the text the
-- result is the same.
pub fallback_predicate_tokens_stable :
    (unquote : Bytes → Option Bytes) (tail : Bytes) (fuel : ℕ)
    → length tail < fuel
    → tokens_loop unquote fuel (at 0 tail) ≡ fallback_predicate_tokens unquote tail
unfolding fallback_predicate_tokens
fallback_predicate_tokens_stable unquote tail fuel h =
    tokens_loop_stable unquote fuel (suc (length tail)) (at 0 tail) h (omega arith)
