-- ===== src/Structure/Brackets.antt =====
-- query_fallback_validate.go: a reader of the brackets of a source outside its strings and
-- comments, and the scanners as it sees them.
use wasitter.Prelude.{
  ℕ, suc, not, ◌||◌, Option, some, none, Bool, Bool-cases, inl, inr, true, false, List, [], ◌∷◌,
  ◌≡◌, refl, ◌∙◌, arith, ◌==◌, if◌then◌else◌, Bytes,
}
use wasitter.Lexer.{is_query_ident_continue_byte, ident_from, quoted_from, space_from, is_space}

pub data Mode : Type 0 where
  code comment : Mode
  literal : Bool → Mode

-- The mode behind a byte; `literal true` follows a backslash.
abbrev pub mode_after : Mode → ℕ → Mode
mode_after code c = if c == b'"' then literal false else if c == b';' then comment else code
mode_after comment c = if c == b'\n' then code else comment
mode_after (literal true) c = literal false
mode_after (literal false) c =
    if c == b'"' then code else if c == b'\\' then literal true else literal false

-- The open brackets behind a byte, innermost first; `none` where one closes that is not open.
abbrev pub close_bracket : ℕ → List ℕ → Option (List ℕ)
close_bracket c [] = none
close_bracket c (o ∷ open_brackets) = if o == c then some open_brackets else none

abbrev pub stack_after : Mode → ℕ → List ℕ → Option (List ℕ)
stack_after code c st =
    if c == b'('
    then some (b')' ∷ st)
    else if c == b'['
    then some (b']' ∷ st)
    else if c == b')' || c == b']'
    then close_bracket c st
    else some st
stack_after _ c st = some st

unfoldable pub brackets : Mode → Option (List ℕ) → Bytes → Bool
brackets m none bytes = false
brackets m (some []) [] = true
brackets m (some (_ ∷ _)) [] = false
brackets m (some st) (c ∷ cs) = brackets (mode_after m c) (stack_after m c st) cs

unfoldable pub well_bracketed : Bytes → Bool
unfolding brackets
well_bracketed = brackets code (some [])

-- Two places that the reader tells apart by no open brackets: between them all is matched.
abbrev pub Matched : Bytes → Bytes → Type 0
Matched from to = (st : List ℕ) → brackets code (some st) from ≡ brackets code (some st) to

-- The bytes that the reader takes note of.
unfoldable pub is_special : ℕ → Bool
is_special c = c == b'"' || c == b';' || c == b'(' || c == b'[' || c == b')' || c == b']'

pub brackets_plain : (c : ℕ) (cs : Bytes) → is_special c ≡ false → Matched (c ∷ cs) cs
unfolding brackets is_special
brackets_plain c cs h st = ground arith

pub ident_byte_plain : (c : ℕ) → is_query_ident_continue_byte c ≡ true → is_special c ≡ false
unfolding is_query_ident_continue_byte is_special
ident_byte_plain c h = elim (Bool-cases (is_special c)) [ inl s ↦ ground arith | inr plain ↦ plain ]

brackets_end : (m n : Mode) (st : List ℕ) → brackets m (some st) [] ≡ brackets n (some st) []
unfolding brackets
brackets_end m n [] = refl
brackets_end m n (o ∷ st) = refl

pub space_from-brackets :
    (inside : Bool) (pos : ℕ) (rest : Bytes) (st : List ℕ)
    → brackets (if inside then comment else code) (some st) rest
      ≡ brackets code (some st) (space_from inside pos rest).rest
unfolding space_from brackets is_space
space_from-brackets true pos [] st = brackets_end comment code st
space_from-brackets false pos [] st = brackets_end code code st
space_from-brackets true pos (c ∷ cs) st =
    ground (arith, space_from-brackets (not (c == b'\n')) (suc pos) cs st)
space_from-brackets false pos (c ∷ cs) st =
    ground (arith, space_from-brackets (c == b';') (suc pos) cs st)

pub ident_from-brackets : (pos : ℕ) (rest : Bytes) → Matched rest (ident_from pos rest).rest
unfolding ident_from
ident_from-brackets pos [] st = refl
ident_from-brackets pos (c ∷ cs) st = elim (Bool-cases (is_query_ident_continue_byte c)) [
  | inl more ↦
      rw more
        (brackets_plain c cs (ident_byte_plain c more) st ∙ ident_from-brackets (suc pos) cs st)
  | inr done ↦ rw done
]

pub quoted_from-brackets :
    (escaped : Bool) (pos : ℕ) (rest : Bytes) (st : List ℕ)
    → brackets (literal escaped) (some st) rest
      ≡ brackets code (some st) (quoted_from escaped pos rest).rest
unfolding quoted_from brackets
quoted_from-brackets escaped pos [] st = brackets_end (literal escaped) code st
quoted_from-brackets true pos (c ∷ cs) st =
    ground (arith, quoted_from-brackets false (suc pos) cs st)
quoted_from-brackets false pos (c ∷ cs) st =
    ground (arith, quoted_from-brackets (c == b'\\') (suc pos) cs st)
