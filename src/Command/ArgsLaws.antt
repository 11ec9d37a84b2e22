-- ===== src/Command/ArgsLaws.antt =====
-- cmd/wasitter-build/main.go: what `reorderGrammarArgs` does to an argument list.
use wasitter.Command.Args.{
  is_end_mark, is_plain, wants_value, Reordered, reordered, missing_value, with_flag,
  with_positional, reorder_grammar_args,
}
use wasitter.Prelude.{
  ◌≡◌, refl, ap, ◌∙◌, subst, arith, true, false, List, [], ◌∷◌, ◌++◌, Bytes, Bool-cases, inl, inr,
  All,
}

abbrev with_flags : List Bytes → Reordered → Reordered
with_flags [] r = r
with_flags (f ∷ flags) r = with_flag f (with_flags flags r)

with_flags-reordered :
    (flags positional : List Bytes)
    → with_flags flags (reordered [] positional) ≡ reordered flags positional
with_flags-reordered [] positional = refl
with_flags-reordered (f ∷ flags) positional =
    ap (with_flag f) (with_flags-reordered flags positional)

-- The flags that were found are read as those flags again, whatever follows them.
abbrev FlagsFirst : Reordered → Type 0
FlagsFirst (missing_value flag) = Unit
FlagsFirst (reordered flags positional) =
    (rest : List Bytes)
    → reorder_grammar_args (flags ++ rest) ≡ with_flags flags (reorder_grammar_args rest)

FlagsFirst-with_positional :
    (arg : Bytes) (r : Reordered) → FlagsFirst r → FlagsFirst (with_positional arg r)
FlagsFirst-with_positional arg (missing_value flag) h = tt
FlagsFirst-with_positional arg (reordered flags positional) h = h

module _ (arg : Bytes) (not_end : is_end_mark arg ≡ false) (not_plain : is_plain arg ≡ false) where
  reorder_grammar_args-flag :
      wants_value arg ≡ false
      → (rest : List Bytes)
      → reorder_grammar_args (arg ∷ rest) ≡ with_flag arg (reorder_grammar_args rest)
  unfolding reorder_grammar_args
  reorder_grammar_args-flag alone [] = ground arith
  reorder_grammar_args-flag alone (value ∷ rest) = ground arith

  reorder_grammar_args-value :
      wants_value arg ≡ true
      → (value : Bytes) (rest : List Bytes)
      → reorder_grammar_args (arg ∷ value ∷ rest)
        ≡ with_flag arg (with_flag value (reorder_grammar_args rest))
  unfolding reorder_grammar_args
  reorder_grammar_args-value wants value rest = ground arith

  FlagsFirst-with_flag :
      wants_value arg ≡ false → (r : Reordered) → FlagsFirst r → FlagsFirst (with_flag arg r)
  FlagsFirst-with_flag alone (missing_value flag) h = tt
  FlagsFirst-with_flag alone (reordered flags positional) h =
      λ rest. reorder_grammar_args-flag alone (flags ++ rest) ∙ ap (with_flag arg) (h rest)

  FlagsFirst-with_value :
      wants_value arg ≡ true
      → (value : Bytes) (r : Reordered) → FlagsFirst r
      → FlagsFirst (with_flag arg (with_flag value r))
  FlagsFirst-with_value wants value (missing_value flag) h = tt
  FlagsFirst-with_value wants value (reordered flags positional) h = λ rest.
      reorder_grammar_args-value wants value (flags ++ rest)
      ∙ ap (λ (r : Reordered). with_flag arg (with_flag value r)) (h rest)

reorder_grammar_args-FlagsFirst : (args : List Bytes) → FlagsFirst (reorder_grammar_args args)
unfolding reorder_grammar_args
reorder_grammar_args-FlagsFirst [] = λ rest. refl
reorder_grammar_args-FlagsFirst (arg ∷ []) = elim (Bool-cases (is_end_mark arg)) [
  | inl e ↦ rw e (λ rest. refl)
  | inr e ↦ elim (Bool-cases (is_plain arg)) [
    | inl p ↦ rw (e, p) (λ rest. refl)
    | inr p ↦ elim (Bool-cases (wants_value arg)) [
      | inl w ↦ rw (e, p, w) tt
      | inr w ↦ rw (e, p, w) (FlagsFirst-with_flag arg e p w (reordered [] []) (λ rest. refl))
    ]
  ]
]
reorder_grammar_args-FlagsFirst (arg ∷ value ∷ rest) =
    let next = reorder_grammar_args-FlagsFirst (value ∷ rest) in
    let behind = reorder_grammar_args-FlagsFirst rest in
    elim (Bool-cases (is_end_mark arg)) [
      | inl e ↦ rw e (λ rest'. refl)
      | inr e ↦ elim (Bool-cases (is_plain arg)) [
        | inl p ↦
            rw (e, p) (FlagsFirst-with_positional arg (reorder_grammar_args (value ∷ rest)) next)
        | inr p ↦ elim (Bool-cases (wants_value arg)) [
          | inl w ↦
              rw (e, p, w)
                (FlagsFirst-with_value arg e p w value (reorder_grammar_args rest) behind)
          | inr w ↦
              rw (e, p, w)
                (FlagsFirst-with_flag arg e p w (reorder_grammar_args (value ∷ rest)) next)
        ]
      ]
    ]

abbrev pub ArePlain : List Bytes → Type 0
ArePlain = All (λ (arg : Bytes). (is_end_mark arg ≡ false) × (is_plain arg ≡ true))

reorder_grammar_args-plain :
    (args : List Bytes) → ArePlain args → reorder_grammar_args args ≡ reordered [] args
unfolding reorder_grammar_args
reorder_grammar_args-plain [] h = refl
reorder_grammar_args-plain (arg ∷ []) h = ground arith
reorder_grammar_args-plain (arg ∷ value ∷ rest) h =
    ground (arith, reorder_grammar_args-plain (value ∷ rest) h.1)

-- Where the arguments that are no flags do not start with a dash (or are a single one), the list
-- that is handed to the flag parser, flags first, is parted into the same two lists again.
pub reorder_grammar_args_idem :
    (args flags positional : List Bytes)
    → reorder_grammar_args args ≡ reordered flags positional
    → ArePlain positional
    → reorder_grammar_args (flags ++ positional) ≡ reordered flags positional
reorder_grammar_args_idem args flags positional e plain =
    subst FlagsFirst e (reorder_grammar_args-FlagsFirst args) positional
    ∙ ap (with_flags flags) (reorder_grammar_args-plain positional plain)
    ∙ with_flags-reordered flags positional
