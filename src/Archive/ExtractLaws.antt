-- ===== src/Archive/ExtractLaws.antt =====
-- internal/grammarbuild/archive.go: what `ExtractTarGz` makes of an archive.
use wasitter.Archive.Below.{IsBelow, IsBounded, IsSound, AllBelow-new_top}
use wasitter.Archive.Extract.{
  Entry, ArchiveError, escapes, symlink, duplicate, unsafe_name, Extraction, Extracted, is_seen,
  first_part, extract_top, store, extract_below, with_top, extract_placed, is_top, is_metadata,
  then_next, without_slash, raw_safe, is_directory, extract_clean, extract_entry, extract_entries,
  no_extraction, Ending, finished, unreadable, no_entries, invalid_root, extract_tar_gz, limit_or,
  default_max_bytes, default_max_files,
}
use wasitter.Archive.Names.{contains_byte, split, are_safe}
use wasitter.Prelude.{
  ℕ, ◌+◌, ◌*◌, Bool, true, false, not, ◌||◌, ◌≡◌, arith, Option, none, some, List, [], ◌∷◌, ltb,
  ◌==◌, if◌then◌else◌, Bytes, bytes_eq, length, Bool-cases, inl, inr, subst, codes, has_prefix,
  Option-cases, if_cases,
}

module _ (clean : Bytes → Bytes) (bytes files : ℕ) where
  abbrev SoundAfter : Extracted → Type 0
  SoundAfter r = IsSound bytes files r.error r.state

  SoundAfter-if :
      (test : Bool) (x y : Extracted)
      → SoundAfter x
      → SoundAfter y
      → SoundAfter (if test then x else y)
  SoundAfter-if true x y h k = h
  SoundAfter-if false x y h k = k

  extract_top-IsSound :
      (e : Entry) (name : Bytes) (s : Extraction)
      → IsBelow s.top name
      → IsBounded bytes files (files * 2) s
      → SoundAfter (extract_top clean bytes files e name s)
  unfolding extract_top
  extract_top-IsSound e name s below (safe, distinct, b, f, n) = ground arith

  store-IsSound :
      (e : Entry) (s : Extraction)
      → IsBounded bytes files (files * 2) s
      → SoundAfter (store clean bytes files e s)
  unfolding store
  store-IsSound e s (safe, distinct, b, f, n) = ground arith

  extract_below-IsSound :
      (e : Entry) (name : Bytes) (s : Extraction)
      → IsBelow s.top name
      → IsBounded bytes files (files * 2) s
      → SoundAfter (extract_below clean bytes files e name s)
  unfolding extract_below
  extract_below-IsSound e name s below (safe, distinct, b, f, n) =
      let still : SoundAfter (record { state = s; error = some escapes }) =
        (safe, distinct, b, omega arith, omega arith) in
      SoundAfter-if (not e.stays_inside) (record { state = s; error = some escapes })
        (if not e.no_symlink
          then record { state = s; error = some symlink }
          else if is_seen s.seen name
          then record { state = s; error = some duplicate }
          else store clean bytes files e (record s { seen = name ∷ s.seen }))
        still
        (SoundAfter-if (not e.no_symlink) (record { state = s; error = some symlink })
          (if is_seen s.seen name
            then record { state = s; error = some duplicate }
            else store clean bytes files e (record s { seen = name ∷ s.seen }))
          still
          (elim (Bool-cases (is_seen s.seen name)) [
            | inl d ↦ rw d still
            | inr d ↦ rw d (
                store-IsSound e (record s { seen = name ∷ s.seen })
                  ((below, safe), (d, distinct), b, f, n))
          ]))

  extract_placed-IsSound :
      (e : Entry) (name : Bytes) (s : Extraction)
      → are_safe (split name) ≡ true
      → IsBounded bytes files (files * 2) s
      → SoundAfter (extract_placed clean bytes files e name s)
  unfolding extract_placed
  extract_placed-IsSound e name s known (safe, distinct, b, f, n) =
      elim (Bool-cases (bytes_eq (first_part (split name)) s.top)) [
        | inl t ↦ rw t (
            SoundAfter-if (is_top (split name)) (extract_top clean bytes files e name s)
              (extract_below clean bytes files e name s)
              (extract_top-IsSound e name s (known, t) (safe, distinct, b, f, n))
              (extract_below-IsSound e name s (known, t) (safe, distinct, b, f, n)))
        | inr t ↦ rw t (safe, distinct, b, omega arith, omega arith)
      ]

  with_top-IsBounded :
      (name : Bytes) (s : Extraction)
      → IsBounded bytes files (files * 2) s
      → IsBounded bytes files (files * 2) (with_top clean bytes files name s)
  unfolding with_top
  with_top-IsBounded name s (safe, distinct, b, f, n) = elim (Bool-cases (length s.top == 0)) [
    | inl t ↦
        rw t (AllBelow-new_top s.top (first_part (split name)) s.seen t safe, distinct, b, f, n)
    | inr t ↦ rw t (safe, distinct, b, f, n)
  ]

  extract_clean-IsSound :
      (e : Entry) (name : Bytes) (s : Extraction)
      → IsBounded bytes files (files * 2) s
      → SoundAfter (extract_clean clean bytes files e name s)
  unfolding extract_clean
  extract_clean-IsSound e name s (safe, distinct, b, f, n) =
      elim (Bool-cases
        (bytes_eq name (codes ".") || has_prefix (codes "/") name || not (are_safe (split name)))) [
          | inl u ↦ rw u (safe, distinct, b, omega arith, omega arith)
          | inr u ↦ rw u (
              extract_placed-IsSound e name (with_top clean bytes files name s) (ground arith)
                (with_top-IsBounded name s (safe, distinct, b, f, n)))
        ]

  extract_entry-IsSound :
      (e : Entry) (s : Extraction)
      → IsBounded bytes files (files * 2) s
      → SoundAfter (extract_entry clean bytes files e s)
  unfolding extract_entry
  extract_entry-IsSound e s (safe, distinct, b, f, n) =
      let counted : Extraction = record s { entries = s.entries + 1 } in
      let stopped : Extracted = record { state = counted; error = some unsafe_name } in
      let still : SoundAfter stopped = (safe, distinct, b, omega arith, omega arith) in
      let name = clean (without_slash e.name) in
      let named = extract_clean clean bytes files e name counted in
      let checked =
        if not (raw_safe (is_directory e.kind) (split e.name)) then stopped else named in
      let spelled =
        if length e.name == 0 || contains_byte 0 e.name || contains_byte b'\\' e.name
        then stopped
        else checked in
      elim (Bool-cases (ltb (files * 2) (s.entries + 1))) [
        | inl m ↦ rw m (safe, distinct, b, omega arith, omega arith)
        | inr m ↦
            let fits : IsBounded bytes files (files * 2) counted =
              (safe, distinct, b, f, ground arith) in
            rw m (
              SoundAfter-if
                (length e.name == 0 || contains_byte 0 e.name || contains_byte b'\\' e.name) stopped
                checked still
                (SoundAfter-if (not (raw_safe (is_directory e.kind) (split e.name))) stopped named
                  still (extract_clean-IsSound e name counted fits)))
      ]

  then_next-IsSound :
      (step next : Extracted)
      → SoundAfter step
      → (IsBounded bytes files (files * 2) step.state → SoundAfter next)
      → SoundAfter (then_next clean bytes files step next)
  then_next-IsSound step next h k = elim (Option-cases step.error) [
    | inl e ↦
        rw e (k (subst (λ (error : Option ArchiveError). IsSound bytes files error step.state) e h))
    | inr (x, e) ↦
        rw e (subst (λ (error : Option ArchiveError). IsSound bytes files error step.state) e h)
  ]

  extract_entries-IsSound :
      (entries : List Entry) (s : Extraction)
      → IsBounded bytes files (files * 2) s
      → SoundAfter (extract_entries clean bytes files entries s)
  unfolding extract_entries
  extract_entries-IsSound [] s good = good
  extract_entries-IsSound (e ∷ entries) s good =
      let step = extract_entry clean bytes files e s in
      let next = extract_entries clean bytes files entries step.state in
      SoundAfter-if (is_metadata clean bytes files e.kind)
        (extract_entries clean bytes files entries s) (then_next clean bytes files step next)
        (extract_entries-IsSound entries s good)
        (then_next-IsSound step next (extract_entry-IsSound e s good)
          (extract_entries-IsSound entries step.state))

IsSound-stop :
    (bytes files : ℕ) (error : ArchiveError) (s : Extraction)
    → IsSound bytes files none s
    → IsSound bytes files (some error) s
IsSound-stop bytes files error s (safe, distinct, b, f, n) =
    (safe, distinct, b, omega arith, omega arith)

abbrev Kept : ℕ → ℕ → Extracted → Type 0
Kept bytes files r = IsSound bytes files r.error r.state

finished-IsSound :
    (bytes files : ℕ) (ending : Ending) (r : Extracted)
    → Kept bytes files r
    → Kept bytes files (finished ending r)
unfolding finished
finished-IsSound bytes files ending r h = elim (Option-cases r.error) [
  | inl e ↦
      let good = subst (λ (error : Option ArchiveError). IsSound bytes files error r.state) e h in
      rw e (
        if_cases (Kept bytes files) (not ending.at_eof)
          (λ _. IsSound-stop bytes files unreadable r.state good)
          λ _.
            if_cases (Kept bytes files) (length r.state.top == 0)
              (λ _. IsSound-stop bytes files no_entries r.state good)
              λ _.
                if_cases (Kept bytes files) (not ending.root_is_directory)
                  (λ _. IsSound-stop bytes files invalid_root r.state good) λ _. good)
  | inr (x, e) ↦
      rw e (subst (λ (error : Option ArchiveError). IsSound bytes files error r.state) e h)
]

-- What `ExtractTarGz` does to the file system, whatever path.Clean makes of a name and whatever the
-- file system answers, however the archive ends: every path lies below one top-level directory, with no part that is empty, `.`
-- or `..`; no path is made twice; and the bytes, files and entries keep to the limits, but for one
-- file and one entry where extraction stops with an error.
pub extract_tar_gz-IsSound :
    (clean : Bytes → Bytes) (max_bytes max_files : ℕ) (entries : List Entry) (ending : Ending)
    → IsSound
        (limit_or default_max_bytes max_bytes)
        (limit_or default_max_files max_files)
        (extract_tar_gz clean max_bytes max_files entries ending).error
        (extract_tar_gz clean max_bytes max_files entries ending).state
unfolding extract_tar_gz
extract_tar_gz-IsSound clean max_bytes max_files entries ending =
    let bytes = limit_or default_max_bytes max_bytes in
    let files = limit_or default_max_files max_files in
    finished-IsSound bytes files ending (extract_entries clean bytes files entries no_extraction) (
      extract_entries-IsSound clean bytes files entries no_extraction
        (tt, tt, omega arith, omega arith, omega arith))
