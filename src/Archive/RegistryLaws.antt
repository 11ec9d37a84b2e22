-- ===== src/Archive/RegistryLaws.antt =====
-- internal/grammarbuild/registry.go: what `Lookup` finds in a registry that `Validate` accepts.
use wasitter.Archive.Extract.{is_seen}
use wasitter.Archive.Names.{contains_byte}
use wasitter.Archive.Registry.{
  Grammar, Registry, Pattern, RegistryError, found, is_name_rest, is_language_name,
  validate_grammar, validate_rows, validate_registry, find, lookup, or_else, later_tests,
  duplicate_name, unsupported_version, no_grammars, unsafe_name, not_lowercase,
}
use wasitter.Prelude.{
  Bool, true, false, not, ◌≡◌, refl, sym, ap, ◌∙◌, subst, arith, Option, none, some, List, [], ◌∷◌,
  ◌++◌, ◌==◌, if◌then◌else◌, Bytes, bytes_eq, bytes_eq_iff, length, Bool-cases, inl, inr,
}

-- A name has no carriage return, newline or tab.
abbrev HasNoBreak : Bytes → Type 0
HasNoBreak name =
    (contains_byte b'\r' name ≡ false)
    × (contains_byte b'\n' name ≡ false)
    × (contains_byte b'\t' name ≡ false)

is_name_rest-HasNoBreak : (name : Bytes) → is_name_rest name ≡ true → HasNoBreak name
unfolding is_name_rest contains_byte
is_name_rest-HasNoBreak [] h = (refl, refl, refl)
is_name_rest-HasNoBreak (c ∷ cs) h = ground (arith, is_name_rest-HasNoBreak cs)

is_language_name-HasNoBreak : (name : Bytes) → is_language_name name ≡ true → HasNoBreak name
unfolding is_language_name contains_byte
is_language_name-HasNoBreak [] h = ground arith
is_language_name-HasNoBreak (c ∷ cs) h = ground (arith, is_name_rest-HasNoBreak cs)

first_tests :
    (a b : Bool) (x y : RegistryError) (rest : Option RegistryError)
    → (if not a then some x else if not b then some y else rest) ≡ none
    → (a ≡ true) × (b ≡ true)
first_tests a b x y rest h = ground arith

both_tests : (b : Bool) → b ≡ true → b ≡ false → ⊥
both_tests b h k = ground arith

last_test :
    (a b : Bool) (x y : RegistryError) (rest : Option RegistryError)
    → (if a then some x else if b then some y else rest) ≡ none
    → rest ≡ none
last_test a b x y rest h = ground arith

row_tests :
    (checked next : Option RegistryError) (b : Bool) (x : RegistryError)
    → or_else checked (if b then some x else next) ≡ none
    → (checked ≡ none) × (b ≡ false) × (next ≡ none)
row_tests checked next b x h = ground arith

not_seen_before :
    (key other : Bytes) (seen : List Bytes)
    → is_seen (other ∷ seen) key ≡ false
    → (bytes_eq key other ≡ false) × (is_seen seen key ≡ false)
unfolding is_seen
not_seen_before key other seen h = ground arith

module _ (to_lower trim_space : Bytes → Bytes) (matches : Pattern → Bytes → Bool)
    (has_control : Bytes → Bool) where
  validate_grammar-name :
      (g : Grammar)
      → validate_grammar to_lower trim_space matches has_control g ≡ none
      → (is_language_name g.name ≡ true) × (bytes_eq (to_lower g.name) g.name ≡ true)
  unfolding validate_grammar
  validate_grammar-name g h =
      first_tests (is_language_name g.name) (bytes_eq (to_lower g.name) g.name) unsafe_name
        not_lowercase (later_tests to_lower trim_space matches has_control g) h

  validate_rows-not_seen :
      (seen : List Bytes) (front back : List Grammar) (g : Grammar)
      → validate_rows to_lower trim_space matches has_control seen (front ++ g ∷ back) ≡ none
      → (is_seen seen (to_lower g.name) ≡ false)
        × (validate_grammar to_lower trim_space matches has_control g ≡ none)
  unfolding validate_rows
  validate_rows-not_seen seen [] back g h =
      let (fine, fresh, rest) =
        row_tests (validate_grammar to_lower trim_space matches has_control g)
          (validate_rows to_lower trim_space matches has_control (to_lower g.name ∷ seen) back)
          (is_seen seen (to_lower g.name)) duplicate_name h in
      (fresh, fine)
  validate_rows-not_seen seen (f ∷ front) back g h =
      let (fine, fresh, rest) =
        row_tests (validate_grammar to_lower trim_space matches has_control f)
          (validate_rows to_lower trim_space matches has_control (to_lower f.name ∷ seen)
            (front ++ g ∷ back))
          (is_seen seen (to_lower f.name)) duplicate_name h in
      let (later, sound) = validate_rows-not_seen (to_lower f.name ∷ seen) front back g rest in
      ((not_seen_before (to_lower g.name) (to_lower f.name) seen later).1, sound)

  find-row :
      (seen : List Bytes) (front back : List Grammar) (g : Grammar)
      → validate_rows to_lower trim_space matches has_control seen (front ++ g ∷ back) ≡ none
      → find to_lower trim_space matches has_control g.name (front ++ g ∷ back) ≡ found g
  unfolding validate_rows find
  find-row seen [] back g h = rw ((bytes_eq_iff g.name g.name).1 refl) refl
  find-row seen (f ∷ front) back g h =
      let (fine, fresh, rest) =
        row_tests (validate_grammar to_lower trim_space matches has_control f)
          (validate_rows to_lower trim_space matches has_control (to_lower f.name ∷ seen)
            (front ++ g ∷ back))
          (is_seen seen (to_lower f.name)) duplicate_name h in
      let (later, sound) = validate_rows-not_seen (to_lower f.name ∷ seen) front back g rest in
      let differ = (not_seen_before (to_lower g.name) (to_lower f.name) seen later).0 in
      elim (Bool-cases (bytes_eq f.name g.name)) [
        | inl e ↦
            let same : f.name ≡ g.name = (bytes_eq_iff f.name g.name).0 e in
            let twice : bytes_eq (to_lower g.name) (to_lower f.name) ≡ true =
              (bytes_eq_iff (to_lower g.name) (to_lower f.name)).1 (ap to_lower (sym same)) in
            absurd (both_tests (bytes_eq (to_lower g.name) (to_lower f.name)) twice differ)
        | inr e ↦ rw e (find-row (to_lower f.name ∷ seen) front back g rest)
      ]

  find_in-validate :
      (r : Registry) (front back : List Grammar) (g : Grammar)
      → r.grammars ≡ front ++ g ∷ back
      → validate_registry to_lower trim_space matches has_control r ≡ none
      → validate_rows to_lower trim_space matches has_control [] (front ++ g ∷ back) ≡ none
  unfolding validate_registry
  find_in-validate r front back g e h =
      last_test (not (r.version == 1)) (length r.grammars == 0) unsupported_version no_grammars
        (validate_rows to_lower trim_space matches has_control [] (front ++ g ∷ back))
        (subst
          (λ (rows : List Grammar).
            (if not (r.version == 1)
              then some unsupported_version
              else if length r.grammars == 0
              then some no_grammars
              else validate_rows to_lower trim_space matches has_control [] rows)
            ≡ none)
          e h)

  -- In a registry that is accepted, each row's name finds that row, where strings.TrimSpace leaves the
  -- names that match the pattern of language names as they are.
  pub lookup-validate_registry :
      (r : Registry) (front back : List Grammar) (g : Grammar)
      → ((name : Bytes) → is_language_name name ≡ true → trim_space name ≡ name)
      → r.grammars ≡ front ++ g ∷ back
      → validate_registry to_lower trim_space matches has_control r ≡ none
      → lookup to_lower trim_space matches has_control r g.name ≡ found g
  unfolding lookup
  lookup-validate_registry r front back g trims e h =
      let rows = find_in-validate r front back g e h in
      let (named, lower) =
        validate_grammar-name g (validate_rows-not_seen [] front back g rows).1 in
      let same : to_lower (trim_space g.name) ≡ g.name =
        ap to_lower (trims g.name named) ∙ (bytes_eq_iff (to_lower g.name) g.name).0 lower in
      let (no_return, no_newline, no_tab) = is_language_name-HasNoBreak g.name named in
      rw (same, named, no_return, no_newline, no_tab, e) (find-row [] front back g rows)
