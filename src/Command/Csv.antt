-- ===== src/Command/Csv.antt =====
-- cmd/wasitter-build/main.go: a reader of comma-separated values, as Docker reads the value of a
-- `--mount` argument (encoding/csv, RFC 4180), and what it reads of a `dockerMountField`.
use mathlib.Core.List.{append_assoc}
use wasitter.Command.Mount.{needs_quotes, double_quotes, docker_mount_field}
use wasitter.Prelude.{
  ℕ, zero, suc, ◌≡◌, refl, sym, ap, ◌∙◌, arith, false, not, ◌&&◌, ◌||◌, Option, none, some, List,
  [], ◌∷◌, ◌++◌, ◌==◌, if◌then◌else◌, Bytes, length, Bool-cases, inl, inr,
}

-- A CR at the end of the text is dropped.
unfoldable pub drop_return : Bytes → Bytes
drop_return [] = []
drop_return (c ∷ []) = if c == b'\r' then [] else c ∷ []
drop_return (c ∷ d ∷ cs) = c ∷ drop_return (d ∷ cs)

-- A CR before an LF is dropped, in quotes as well.
unfoldable pub fold_newlines : Bytes → Bytes
fold_newlines [] = []
fold_newlines (c ∷ []) = c ∷ []
fold_newlines (c ∷ d ∷ cs) =
    let rest = fold_newlines (d ∷ cs) in if c == b'\r' && d == b'\n' then rest else c ∷ rest

-- A field is in quotes, in which two quotes stand for one, or goes up to a comma, a quote or the end
-- of the line. A result is the field and the bytes behind it, which are a quote where a field in
-- quotes has no end.
pub record Field : Type 0 where
  pub value : Bytes
  pub rest : Bytes

abbrev with_byte : ℕ → Field → Field
with_byte c f = record f { value = c ∷ f.value }

pub quoted_field : Bytes → Field
quoted_field [] = record { value = []; rest = b'"' ∷ [] }
quoted_field (c ∷ []) =
    if c == b'"'
    then record { value = []; rest = [] }
    else record { value = c ∷ []; rest = b'"' ∷ [] }
quoted_field (c ∷ d ∷ cs) =
    let plain = with_byte c (quoted_field (d ∷ cs)) in
    let quote = with_byte b'"' (quoted_field cs) in
    if not (c == b'"')
    then plain
    else if d == b'"'
    then quote
    else record { value = []; rest = d ∷ cs }

pub plain_field : Bytes → Field
plain_field [] = record { value = []; rest = [] }
plain_field (c ∷ cs) =
    let more = with_byte c (plain_field cs) in
    if c == b',' || c == b'"' || c == b'\n' then record { value = []; rest = c ∷ cs } else more

unfoldable pub read_field : Bytes → Field
unfolding quoted_field plain_field
read_field [] = record { value = []; rest = [] }
read_field (c ∷ cs) = if c == b'"' then quoted_field cs else plain_field (c ∷ cs)

-- Nothing, or a comma, stands behind a field.
abbrev pub EndsField : Bytes → Type 0
EndsField [] = Unit
EndsField (c ∷ cs) = c ≡ b','

plain_field-append :
    (field rest : Bytes)
    → needs_quotes field ≡ false
    → EndsField rest
    → plain_field (field ++ rest) ≡ record { value = field; rest = rest }
unfolding plain_field needs_quotes
plain_field-append [] [] h k = refl
plain_field-append [] (c ∷ rest) h k = ground arith
plain_field-append (c ∷ field) rest h k = ground (arith, plain_field-append field rest)

quoted_field-plain :
    (c d : ℕ) (front back : Bytes)
    → (c == b'"') ≡ false
    → quoted_field (c ∷ (front ++ (d ∷ back))) ≡ with_byte c (quoted_field (front ++ (d ∷ back)))
unfolding quoted_field
quoted_field-plain c d [] back h = rw h refl
quoted_field-plain c d (e ∷ front) back h = rw h refl

quoted_field-double_quotes :
    (field rest : Bytes)
    → EndsField rest
    → quoted_field (double_quotes field ++ (b'"' ∷ rest)) ≡ record { value = field; rest = rest }
unfolding quoted_field double_quotes
quoted_field-double_quotes [] [] k = refl
quoted_field-double_quotes [] (c ∷ rest) k = ground arith
quoted_field-double_quotes (c ∷ field) rest k =
    let behind = quoted_field-double_quotes field rest k in
    elim (Bool-cases (c == b'"')) [
      | inl e ↦
          let same : c ≡ b'"' = ground arith in
          rw e (
            ap (with_byte b'"') behind
            ∙ ap (λ (b : ℕ). record { value = b ∷ field; rest = rest }) (sym same))
      | inr e ↦
          rw e (quoted_field-plain c b'"' (double_quotes field) rest e ∙ ap (with_byte c) behind)
    ]

-- The bytes of a field with an `=` in it are not empty.
abbrev Starts : Bytes → Type 0
Starts [] = ⊥
Starts (c ∷ cs) = Unit

Starts-append : (key value : Bytes) → Starts (key ++ b'=' ∷ value)
Starts-append [] value = tt
Starts-append (c ∷ key) value = tt

read_field-plain :
    (field rest : Bytes)
    → Starts field
    → needs_quotes field ≡ false
    → EndsField rest
    → read_field (field ++ rest) ≡ record { value = field; rest = rest }
unfolding read_field needs_quotes
read_field-plain [] rest s h k = absurd s
read_field-plain (c ∷ field) rest s h k = ground (arith, plain_field-append field rest)

read_field-docker_mount_field :
    (key value rest : Bytes)
    → EndsField rest
    → read_field (docker_mount_field key value ++ rest)
      ≡ record { value = key ++ b'=' ∷ value; rest = rest }
unfolding read_field docker_mount_field
read_field-docker_mount_field key value rest k =
    elim (Bool-cases (needs_quotes (key ++ b'=' ∷ value))) [
      | inl e ↦
          rw (e, append_assoc (double_quotes (key ++ b'=' ∷ value)) (b'"' ∷ []) rest)
            (quoted_field-double_quotes (key ++ b'=' ∷ value) rest k)
      | inr e ↦ rw e (read_field-plain (key ++ b'=' ∷ value) rest (Starts-append key value) e k)
    ]

abbrev with_read : Bytes → Option (List Bytes) → Option (List Bytes)
with_read value none = none
with_read value (some values) = some (value ∷ values)

-- A record ends with its line; what stands behind a field is a comma, or it is malformed.
abbrev behind_field : Field → Option (List Bytes) → Option (List Bytes)
behind_field f more = elim f.rest [
  | [] ↦ some (f.value ∷ [])
  | c ∷ cs ↦
      if c == b',' then with_read f.value more else if c == b'\n' then some (f.value ∷ []) else none
]

abbrev pub behind_comma : Bytes → Bytes
behind_comma [] = []
behind_comma (c ∷ cs) = cs

-- The loop over the fields, a unit of fuel for each.
unfoldable pub read_fields : ℕ → Bytes → Option (List Bytes)
unfolding read_field
read_fields zero text = none
read_fields (suc fuel) text =
    let field = read_field text in behind_field field (read_fields fuel (behind_comma field.rest))

-- The fields of the first record; `none` where the text is malformed.
unfoldable pub read_record : Bytes → Option (List Bytes)
unfolding read_fields fold_newlines drop_return
read_record text = read_fields (suc (length text)) (fold_newlines (drop_return text))

pub read_fields-comma :
    (fuel : ℕ) (key value rest : Bytes) (more : List Bytes)
    → read_fields fuel rest ≡ some more
    → read_fields (suc fuel) (docker_mount_field key value ++ (b',' ∷ rest))
      ≡ some ((key ++ b'=' ∷ value) ∷ more)
unfolding read_fields
read_fields-comma fuel key value rest more h =
    rw (read_field-docker_mount_field key value (b',' ∷ rest) refl, h) refl

pub read_fields-end :
    (fuel : ℕ) (key value : Bytes)
    → read_fields (suc fuel) (docker_mount_field key value ++ [])
      ≡ some ((key ++ b'=' ∷ value) ∷ [])
unfolding read_fields
read_fields-end fuel key value = rw (read_field-docker_mount_field key value [] tt) refl
