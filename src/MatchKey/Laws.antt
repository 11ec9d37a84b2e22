-- ===== src/MatchKey/Laws.antt =====
-- query_iter.go: what the key of a match tells.
use wasitter.MatchKey.{coordinates_key, captures_key, query_match_key}
use wasitter.Node.{Node}
use wasitter.Predicate.Evaluate.{QueryCapture}
use wasitter.Prelude.{
  ℕ, suc, sym, ◌∙◌, Bool, true, false, ◌&&◌, List, [], ◌∷◌, ◌++◌, map, leb, ◌≡◌, ◌↔◌, refl, ap,
  arith, Bytes, length, All,
}
use wasitter.Range.Filter.{QueryMatch}

abbrev pub is_digit : ℕ → Bool
is_digit c = leb b'0' c && leb c b'9'

-- A text that does not go on with a digit.
abbrev Stops : Bytes → Type 0
Stops [] = Unit
Stops (c ∷ _) = is_digit c ≡ false

split_digits :
    (d e r q : Bytes)
    → All (λ c. is_digit c ≡ true) d
    → All (λ c. is_digit c ≡ true) e
    → Stops r
    → Stops q
    → d ++ r ≡ e ++ q
    → (d ≡ e) × (r ≡ q)
split_digits [] [] r q hd he sr sq h = (refl, h)
split_digits [] (y ∷ e) [] q hd he sr sq h = cc h
split_digits [] (y ∷ e) (x ∷ r) q hd (hy, he) sr sq h =
    let same : x ≡ y = cc h in absurd (ground (arith, same, hy, sr))
split_digits (x ∷ d) [] r [] hd he sr sq h = cc h
split_digits (x ∷ d) [] r (y ∷ q) (hx, hd) he sr sq h =
    let same : x ≡ y = cc h in absurd (ground (arith, same, hx, sq))
split_digits (x ∷ d) (y ∷ e) r q (hx, hd) (hy, he) sr sq h =
    let same : x ≡ y = cc h in
    let tails : d ++ r ≡ e ++ q = cc h in
    let (front, back) = split_digits d e r q hd he sr sq tails in (cc (same, front), back)

-- What one sees of a capture.
abbrev pub observed : QueryCapture → List ℕ
observed c =
    c.index ∷ c.node.start_byte ∷ c.node.end_byte ∷ c.node.start_point.row
    ∷ c.node.start_point.column ∷ c.node.end_point.row ∷ c.node.end_point.column ∷ []

module _ (format : ℕ → Bytes) (digits : (n : ℕ) → All (λ c. is_digit c ≡ true) (format n))
    (injective : (a b : ℕ) → format a ≡ format b → a ≡ b) where
  field :
      (a b : ℕ) (r q : Bytes)
      → Stops r
      → Stops q
      → format a ++ r ≡ format b ++ q
      → (a ≡ b) × (r ≡ q)
  field a b r q sr sq h =
      let (same, rest) = split_digits (format a) (format b) r q (digits a) (digits b) sr sq h in
      (injective a b same, rest)

  field_then :
      (sep a b : ℕ) (r q : Bytes)
      → is_digit sep ≡ false
      → format a ++ sep ∷ r ≡ format b ++ sep ∷ q
      → (a ≡ b) × (r ≡ q)
  field_then sep a b r q h e =
      let (same, rest) = field a b (sep ∷ r) (sep ∷ q) h h e in (same, cc rest)

  coordinates_key-observed :
      (i j : ℕ) (m n : Node) (r q : Bytes)
      → i ≡ j
      → coordinates_key format m r ≡ coordinates_key format n q
      → (observed (record { node = m; index = i }) ≡ observed (record { node = n; index = j }))
        × (r ≡ q)
  unfolding coordinates_key
  coordinates_key-observed i j m n r q same h =
      let (a, h₁) = field_then b'-' m.start_byte n.start_byte _ _ refl h in
      let (b, h₂) = field_then b'[' m.end_byte n.end_byte _ _ refl h₁ in
      let (c, h₃) = field_then b',' m.start_point.row n.start_point.row _ _ refl h₂ in
      let (d, h₄) = field_then b';' m.start_point.column n.start_point.column _ _ refl h₃ in
      let (e, h₅) = field_then b',' m.end_point.row n.end_point.row _ _ refl h₄ in
      let (f, h₆) = field_then b']' m.end_point.column n.end_point.column _ _ refl h₅ in
      (cc (same, a, b, c, d, e, f), h₆)

  Stops-captures_key : (cs : List QueryCapture) → Stops (captures_key format cs)
  unfolding captures_key
  Stops-captures_key [] = tt
  Stops-captures_key (c ∷ cs) = refl

  captures_key-observed :
      (cs ds : List QueryCapture)
      → captures_key format cs ≡ captures_key format ds
      → map observed cs ≡ map observed ds
  unfolding captures_key
  captures_key-observed [] [] h = refl
  captures_key-observed [] (d ∷ ds) h = cc h
  captures_key-observed (c ∷ cs) [] h = cc h
  captures_key-observed (c ∷ cs) (d ∷ ds) h =
      let behind_bar : format c.index
            ++ b'@' ∷ coordinates_key format c.node (captures_key format cs)
          ≡ format d.index ++ b'@' ∷ coordinates_key format d.node (captures_key format ds) =
        cc h in
      let (same, at) = field_then b'@' c.index d.index _ _ refl behind_bar in
      let (first, rest) = coordinates_key-observed c.index d.index c.node d.node _ _ same at in
      cc (first, captures_key-observed cs ds rest)

  observed-captures_key :
      (cs ds : List QueryCapture)
      → map observed cs ≡ map observed ds
      → captures_key format cs ≡ captures_key format ds
  unfolding captures_key coordinates_key
  observed-captures_key [] [] h = refl
  observed-captures_key [] (d ∷ ds) h = cc h
  observed-captures_key (c ∷ cs) [] h = cc h
  observed-captures_key (c ∷ cs) (d ∷ ds) h =
      let rest : map observed cs ≡ map observed ds = cc h in
      let tail = observed-captures_key cs ds rest in cc (h, tail)

length-observed : (cs : List QueryCapture) → length (map observed cs) ≡ length cs
length-observed [] = refl
length-observed (c ∷ cs) = ap suc (length-observed cs)

-- Where the decimal texts of different numbers are different strings of digits, two matches have
-- the same key exactly if they have the same pattern index and, one by one, captures of the same
-- index at the same bytes and points.
pub query_match_key-observed :
    (format : ℕ → Bytes) (m n : QueryMatch)
    → ((k : ℕ) → All (λ c. is_digit c ≡ true) (format k))
    → ((a b : ℕ) → format a ≡ format b → a ≡ b)
    → (query_match_key format m ≡ query_match_key format n)
      ↔ ((m.pattern_index ≡ n.pattern_index) × (map observed m.captures ≡ map observed n.captures))
unfolding query_match_key
query_match_key-observed format m n digits injective = (
  λ h.
      let (pattern, at) =
        field_then format digits injective b':' m.pattern_index n.pattern_index _ _ refl h in
      let (count, rest) =
        field format digits injective (length m.captures) (length n.captures)
          (captures_key format m.captures) (captures_key format n.captures)
          (Stops-captures_key format digits injective m.captures)
          (Stops-captures_key format digits injective n.captures) at in
      (pattern, captures_key-observed format digits injective m.captures n.captures rest),
  λ (pattern, same).
      let tail = observed-captures_key format digits injective m.captures n.captures same in
      let count : length m.captures ≡ length n.captures =
        sym (length-observed m.captures)
        ∙ (ap (λ (xs : List (List ℕ)). length xs) same ∙ length-observed n.captures) in
      cc (pattern, tail, count),
)
