-- ===== src/Command/Flags.antt =====
-- cmd/wasitter-build/main.go: which arguments `reorderGrammarArgs` takes for flags, for the values
-- of flags and for neither.
use wasitter.Command.Args.{
  value_flags, before_equals, has_equals, is_any_of, wants_value, is_end_mark, is_plain, Reordered,
  reordered, missing_value, with_flag, with_positional, reorder_grammar_args,
}
use wasitter.Predicate.AnyOfLaws.{IsOneOf}
use wasitter.Prelude.{
  ◌≡◌, ◌≢◌, ◌⊎◌, ◌↔◌, refl, sym, subst, arith, true, false, List, [], ◌∷◌, Bytes, bytes_eq,
  bytes_eq_iff, codes, has_prefix, Bool-cases, inl, inr, All,
}

-- No dash stands first, or nothing stands behind it.
abbrev pub IsPlain : Bytes → Type 0
IsPlain [] = Unit
IsPlain (c ∷ cs) = (c ≢ b'-') ⊎ (cs ≡ [])

-- A dash with something behind it, but not `--`.
abbrev pub IsFlag : Bytes → Type 0
IsFlag [] = ⊥
IsFlag (c ∷ cs) = (c ≡ b'-') × (cs ≢ []) × (cs ≢ b'-' ∷ [])

-- One of the flags that take the next argument for their value.
abbrev pub TakesNext : Bytes → Type 0
TakesNext arg = IsOneOf value_flags arg

-- The arguments, parted into the flags with their values and the others, each in order.
pub data Parted : List Bytes → List Bytes → List Bytes → Type 0 where
  all_read : Parted [] [] []
  end_mark : {rest : List Bytes} → Parted (codes "--" ∷ rest) [] rest
  plain :
      {arg : Bytes} {args flags positional : List Bytes}
      → IsPlain arg
      → Parted args flags positional
      → Parted (arg ∷ args) flags (arg ∷ positional)
  alone :
      {arg : Bytes} {args flags positional : List Bytes}
      → IsFlag arg
      → ¬ TakesNext arg
      → Parted args flags positional
      → Parted (arg ∷ args) (arg ∷ flags) positional
  with_value :
      {arg value : Bytes} {args flags positional : List Bytes}
      → IsFlag arg
      → TakesNext arg
      → Parted args flags positional
      → Parted (arg ∷ value ∷ args) (arg ∷ value ∷ flags) positional

-- The last argument is a flag that takes the next one.
pub data Lacks : List Bytes → Bytes → Type 0 where
  at_end : {arg : Bytes} → IsFlag arg → TakesNext arg → Lacks (arg ∷ []) arg
  behind_plain :
      {arg flag : Bytes} {args : List Bytes}
      → IsPlain arg
      → Lacks args flag
      → Lacks (arg ∷ args) flag
  behind_flag :
      {arg flag : Bytes} {args : List Bytes}
      → IsFlag arg
      → ¬ TakesNext arg
      → Lacks args flag
      → Lacks (arg ∷ args) flag
  behind_value :
      {arg value flag : Bytes} {args : List Bytes}
      → IsFlag arg
      → TakesNext arg
      → Lacks args flag
      → Lacks (arg ∷ value ∷ args) flag

-- What an outcome says of the arguments.
abbrev pub IsReordered : List Bytes → Reordered → Type 0
IsReordered args (reordered flags positional) = Parted args flags positional
IsReordered args (missing_value flag) = Lacks args flag

is_any_of_iff :
    (name : Bytes) (names : List Bytes) → (is_any_of name names ≡ true) ↔ IsOneOf names name
unfolding is_any_of
is_any_of_iff name [] = ground arith
is_any_of_iff name (n ∷ names) = ground (arith, bytes_eq_iff name n, is_any_of_iff name names)

before_equals-whole : (arg : Bytes) → has_equals arg ≡ false → before_equals arg ≡ arg
unfolding before_equals has_equals
before_equals-whole [] h = refl
before_equals-whole (c ∷ cs) h = ground (arith, before_equals-whole cs)

one_of-All :
    (P : Bytes → Type 0) (names : List Bytes) (name : Bytes)
    → All P names
    → IsOneOf names name
    → P name
one_of-All P [] name h o = absurd o
one_of-All P (n ∷ names) name h (inl e) = rw e h.0
one_of-All P (n ∷ names) name h (inr o) = one_of-All P names name h.1 o

value_flags-has_equals : All (λ (name : Bytes). has_equals name ≡ false) value_flags
unfolding has_equals
value_flags-has_equals = (
  refl,
  (
    refl,
    (
      refl,
      (
        refl,
        (
          refl,
          (
            refl,
            (
              refl,
              (
                refl,
                (refl, (refl, (refl, (refl, (refl, (refl, (refl, (refl, (refl, (refl, tt)))))))))),
              ),
            ),
          ),
        ),
      ),
    ),
  ),
)

wants_value_iff : (arg : Bytes) → (wants_value arg ≡ true) ↔ TakesNext arg
unfolding wants_value
wants_value_iff arg = elim (Bool-cases (has_equals arg)) [
  | inl e ↦ (
    λ h. ground arith,
    λ o.
        let no : has_equals arg ≡ false =
          one_of-All (λ (name : Bytes). has_equals name ≡ false) value_flags arg
            value_flags-has_equals o in
        ground arith,
  )
  | inr e ↦ rw (before_equals-whole arg e, e) (ground (arith, is_any_of_iff arg value_flags))
]

IsPlain-is_plain : (arg : Bytes) → is_plain arg ≡ true → IsPlain arg
unfolding is_plain has_prefix bytes_eq
IsPlain-is_plain [] h = tt
IsPlain-is_plain (c ∷ []) h = inr refl
IsPlain-is_plain (c ∷ d ∷ cs) h = inl (ground arith)

IsFlag-is_plain : (arg : Bytes) → is_end_mark arg ≡ false → is_plain arg ≡ false → IsFlag arg
unfolding is_plain is_end_mark has_prefix bytes_eq
IsFlag-is_plain [] e h = ground arith
IsFlag-is_plain (c ∷ []) e h = ground arith
IsFlag-is_plain (c ∷ d ∷ []) e h = ground arith
IsFlag-is_plain (c ∷ d ∷ f ∷ cs) e h = ground arith

IsReordered-with_positional :
    (arg : Bytes) (args : List Bytes) (r : Reordered)
    → IsPlain arg
    → IsReordered args r
    → IsReordered (arg ∷ args) (with_positional arg r)
IsReordered-with_positional arg args (reordered flags positional) p h = plain p h
IsReordered-with_positional arg args (missing_value flag) p h = behind_plain p h

module _ (arg : Bytes) (flag : IsFlag arg) where
  IsReordered-alone :
      (args : List Bytes) (r : Reordered)
      → wants_value arg ≡ false
      → IsReordered args r
      → IsReordered (arg ∷ args) (with_flag arg r)
  IsReordered-alone args (reordered flags positional) w h =
      alone flag (λ t. ground (arith, (wants_value_iff arg).1 t)) h
  IsReordered-alone args (missing_value name) w h =
      behind_flag flag (λ t. ground (arith, (wants_value_iff arg).1 t)) h

  IsReordered-with_value :
      (value : Bytes) (args : List Bytes) (r : Reordered)
      → wants_value arg ≡ true
      → IsReordered args r
      → IsReordered (arg ∷ value ∷ args) (with_flag arg (with_flag value r))
  IsReordered-with_value value args (reordered flags positional) w h =
      with_value flag ((wants_value_iff arg).0 w) h
  IsReordered-with_value value args (missing_value name) w h =
      behind_value flag ((wants_value_iff arg).0 w) h

IsReordered-end_mark :
    (arg : Bytes) (rest : List Bytes)
    → is_end_mark arg ≡ true
    → IsReordered (arg ∷ rest) (reordered [] rest)
unfolding is_end_mark
IsReordered-end_mark arg rest e =
    subst (λ (a : Bytes). Parted (a ∷ rest) [] rest) (sym ((bytes_eq_iff arg (codes "--")).0 e))
      end_mark

-- The arguments are refused only where the last of them is a flag that takes the next argument for
-- its value. Otherwise they are parted, each list in order: a flag that takes the next argument
-- stands in front of it among the flags, whatever that argument is; any other flag stands there
-- alone; and what is no flag, or stands behind `--`, is among the others.
pub reorder_grammar_args-IsReordered :
    (args : List Bytes) → IsReordered args (reorder_grammar_args args)
unfolding reorder_grammar_args
reorder_grammar_args-IsReordered [] = all_read
reorder_grammar_args-IsReordered (arg ∷ []) = elim (Bool-cases (is_end_mark arg)) [
  | inl e ↦ rw e (IsReordered-end_mark arg [] e)
  | inr e ↦ elim (Bool-cases (is_plain arg)) [
    | inl p ↦ rw (e, p) (plain (IsPlain-is_plain arg p) all_read)
    | inr p ↦ elim (Bool-cases (wants_value arg)) [
      | inl w ↦ rw (e, p, w) (at_end (IsFlag-is_plain arg e p) ((wants_value_iff arg).0 w))
      | inr w ↦
          rw (e, p, w)
            (IsReordered-alone arg (IsFlag-is_plain arg e p) [] (reordered [] []) w all_read)
    ]
  ]
]
reorder_grammar_args-IsReordered (arg ∷ value ∷ rest) =
    let next = reorder_grammar_args-IsReordered (value ∷ rest) in
    let behind = reorder_grammar_args-IsReordered rest in
    elim (Bool-cases (is_end_mark arg)) [
      | inl e ↦ rw e (IsReordered-end_mark arg (value ∷ rest) e)
      | inr e ↦ elim (Bool-cases (is_plain arg)) [
        | inl p ↦
            rw (e, p)
              (IsReordered-with_positional arg (value ∷ rest) (reorder_grammar_args (value ∷ rest))
                (IsPlain-is_plain arg p) next)
        | inr p ↦ elim (Bool-cases (wants_value arg)) [
          | inl w ↦
              rw (e, p, w)
                (IsReordered-with_value arg (IsFlag-is_plain arg e p) value rest
                  (reorder_grammar_args rest) w behind)
          | inr w ↦
              rw (e, p, w)
                (IsReordered-alone arg (IsFlag-is_plain arg e p) (value ∷ rest)
                  (reorder_grammar_args (value ∷ rest)) w next)
        ]
      ]
    ]
