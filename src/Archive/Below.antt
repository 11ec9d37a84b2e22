-- ===== src/Archive/Below.antt =====
-- internal/grammarbuild/archive.go: the paths and the limits of an archive's extraction.
use wasitter.Archive.Extract.{ArchiveError, Extraction, is_seen, first_part}
use wasitter.Archive.Names.{onto_first, split, is_unsafe_part, are_safe}
use wasitter.Prelude.{
  ℕ, ◌+◌, ◌*◌, ◌≤◌, true, false, ◌≡◌, refl, arith, Option, none, some, List, [], ◌∷◌, ◌==◌, Bytes,
  bytes_eq, length, All, Bool-cases, inl, inr,
}

-- No part of the path is empty, `.` or `..`, and the first part is the archive's top-level directory.
abbrev pub IsBelow : Bytes → Bytes → Type 0
IsBelow top name = (are_safe (split name) ≡ true) × (bytes_eq (first_part (split name)) top ≡ true)

abbrev pub AreDistinct : List Bytes → Type 0
AreDistinct [] = Unit
AreDistinct (s ∷ seen) = (is_seen seen s ≡ false) × AreDistinct seen

-- Every path that was about to be made lies below the top-level directory, no two are the same, and
-- the bytes, files and entries keep to three bounds.
abbrev pub IsBounded : ℕ → ℕ → ℕ → Extraction → Type 0
IsBounded bytes files entries s =
    All (IsBelow s.top) s.seen
    × AreDistinct s.seen
    × (s.total ≤ bytes)
    × (s.files ≤ files)
    × (s.entries ≤ entries)

-- Where extraction stops with an error, one file and one entry may be over the limit.
abbrev pub IsSound : ℕ → ℕ → Option ArchiveError → Extraction → Type 0
IsSound bytes files none s = IsBounded bytes files (files * 2) s
IsSound bytes files (some e) s = IsBounded bytes (files + 1) (files * 2 + 1) s

-- A text is split into one part at least.
abbrev IsFilled : List Bytes → Type 0
IsFilled [] = ⊥
IsFilled (p ∷ parts) = Unit

onto_first-IsFilled : (c : ℕ) (parts : List Bytes) → IsFilled (onto_first c parts)
onto_first-IsFilled c [] = tt
onto_first-IsFilled c (p ∷ parts) = tt

split-IsFilled : (name : Bytes) → IsFilled (split name)
unfolding split
split-IsFilled [] = tt
split-IsFilled (c ∷ cs) = elim (Bool-cases (c == b'/')) [
  | inl e ↦ rw e tt
  | inr e ↦ rw e (onto_first-IsFilled c (split cs))
]

no_empty_first :
    (parts : List Bytes)
    → IsFilled parts
    → are_safe parts ≡ true
    → bytes_eq (first_part parts) [] ≡ true
    → ⊥
unfolding are_safe is_unsafe_part bytes_eq
no_empty_first [] h safe first = h
no_empty_first ([] ∷ parts) h safe first = ground arith
no_empty_first ((c ∷ p) ∷ parts) h safe first = ground arith

not_below_nothing : (name : Bytes) → IsBelow [] name → ⊥
not_below_nothing name (safe, first) = no_empty_first (split name) (split-IsFilled name) safe first

seen-nothing : (seen : List Bytes) → All (IsBelow []) seen → seen ≡ []
seen-nothing [] h = refl
seen-nothing (name ∷ seen) h = absurd (not_below_nothing name h.0)

pub AllBelow-new_top :
    (top new : Bytes) (seen : List Bytes)
    → (length top == 0) ≡ true
    → All (IsBelow top) seen
    → All (IsBelow new) seen
AllBelow-new_top [] new seen h all = rw (seen-nothing seen all) tt
AllBelow-new_top (c ∷ top) new seen h all = ground arith
