-- ===== src/Archive/Extract.antt =====
-- internal/grammarbuild/archive.go: the loop of `ExtractTarGz` over the entries of an archive, and what
-- stands behind it. `clean` is `path.Clean`. An entry carries what the file system answers when it is stored.
use wasitter.Archive.Names.{split, contains_byte, is_unsafe_part, are_safe}
use wasitter.Prelude.{
  ℕ, ◌+◌, ◌-◌, ◌*◌, Bool, true, false, not, ◌&&◌, ◌||◌, Option, none, some, List, [], ◌∷◌, ltb,
  ◌==◌, if◌then◌else◌, Bytes, bytes_eq, codes, has_prefix, length,
}

-- `Typeflag`: `metadata` stands for the four kinds of header that are skipped.
pub data Kind : Type 0 where
  metadata directory regular link other_kind : Kind

pub record Entry : Type 0 where
  pub name : Bytes
  pub kind : Kind
  -- The size where it is not negative.
  pub negative_size : Bool
  pub size : ℕ
  -- `filepath.Rel` finds the target below the destination; there is no symbolic link on its path;
  -- and the directories and the file are made and written.
  pub stays_inside : Bool
  pub no_symlink : Bool
  pub stored : Bool

-- `seen` holds every path that was about to be made.
pub record Extraction : Type 0 where
  pub top : Bytes
  pub total : ℕ
  pub files : ℕ
  pub entries : ℕ
  pub seen : List Bytes

pub data ArchiveError : Type 0 where
  too_many_entries unsafe_name several_tops top_is_no_directory sized_directory : ArchiveError
  escapes symlink duplicate not_stored too_large too_many_files link_entry unsupported_kind :
      ArchiveError
  unreadable no_entries invalid_root : ArchiveError

pub record Extracted : Type 0 where
  pub state : Extraction
  pub error : Option ArchiveError

abbrev pub stop : ArchiveError → Extraction → Extracted
stop e s = record { state = s; error = some e }

abbrev go_on : Extraction → Extracted
go_on s = record { state = s; error = none }

abbrev pub is_directory : Kind → Bool
is_directory directory = true
is_directory _ = false

unfoldable pub is_seen : List Bytes → Bytes → Bool
unfolding bytes_eq
is_seen [] name = false
is_seen (s ∷ seen) name = bytes_eq name s || is_seen seen name

-- The test of the name as the archive spells it: an empty last part is a directory's final slash.
unfoldable pub raw_safe : Bool → List Bytes → Bool
unfolding is_unsafe_part
raw_safe dir [] = true
raw_safe dir (p ∷ []) = length p == 0 && dir || not (is_unsafe_part p)
raw_safe dir (p ∷ q ∷ parts) = not (is_unsafe_part p) && raw_safe dir (q ∷ parts)

-- `TrimSuffix(rawName, "/")` where it is longer than a byte.
unfoldable pub without_slash : Bytes → Bytes
without_slash [] = []
without_slash (c ∷ []) = c ∷ []
without_slash (c ∷ d ∷ []) = if d == b'/' then c ∷ [] else c ∷ d ∷ []
without_slash (c ∷ d ∷ e ∷ cs) = c ∷ without_slash (d ∷ e ∷ cs)

abbrev pub first_part : List Bytes → Bytes
first_part [] = []
first_part (p ∷ parts) = p

-- `strings.Join(parts[1:], "/") == ""`, of parts that are not empty.
abbrev pub is_top : List Bytes → Bool
is_top [] = true
is_top (p ∷ []) = true
is_top (p ∷ q ∷ parts) = false

abbrev has_size : Entry → Bool
has_size e = e.negative_size || not (e.size == 0)

module _ (clean : Bytes → Bytes) (max_bytes max_files : ℕ) where
  -- The path of the top-level directory.
  unfoldable pub extract_top : Entry → Bytes → Extraction → Extracted
  unfolding is_seen
  extract_top e name s =
      if not (is_directory e.kind)
      then stop top_is_no_directory s
      else if has_size e
      then stop sized_directory s
      else if not e.no_symlink
      then stop symlink s
      else if is_seen s.seen name
      then stop duplicate s
      else if not e.stored
      then stop not_stored (record s { seen = name ∷ s.seen })
      else go_on (record s { seen = name ∷ s.seen })

  -- The `switch` over the kind of an entry below the top, which is in `seen` by now.
  unfoldable pub store : Entry → Extraction → Extracted
  store e s = elim e.kind [
    | directory ↦
        if has_size e
        then stop sized_directory s
        else if not e.stored
        then stop not_stored s
        else go_on s
    | regular ↦
        if e.negative_size || ltb (max_bytes - s.total) e.size
        then stop too_large s
        else if not e.stored
        then stop not_stored s
        else if ltb max_files (s.files + 1)
        then stop too_many_files (record s { total = s.total + e.size; files = s.files + 1 })
        else go_on (record s { total = s.total + e.size; files = s.files + 1 })
    | link ↦ stop link_entry s
    | _ ↦ stop unsupported_kind s
  ]

  unfoldable pub extract_below : Entry → Bytes → Extraction → Extracted
  unfolding is_seen store
  extract_below e name s =
      if not e.stays_inside
      then stop escapes s
      else if not e.no_symlink
      then stop symlink s
      else if is_seen s.seen name
      then stop duplicate s
      else store e (record s { seen = name ∷ s.seen })

  -- The entry of a safe name, where the archive's top is known.
  unfoldable pub extract_placed : Entry → Bytes → Extraction → Extracted
  unfolding split bytes_eq extract_top extract_below
  extract_placed e name s =
      if not (bytes_eq (first_part (split name)) s.top)
      then stop several_tops s
      else if is_top (split name)
      then extract_top e name s
      else extract_below e name s

  -- The top of the first entry is the archive's.
  unfoldable pub with_top : Bytes → Extraction → Extraction
  unfolding split
  with_top name s = if length s.top == 0 then record s { top = first_part (split name) } else s

  unfoldable pub extract_clean : Entry → Bytes → Extraction → Extracted
  unfolding split are_safe bytes_eq has_prefix with_top extract_placed
  extract_clean e name s =
      if bytes_eq name (codes ".") || has_prefix (codes "/") name || not (are_safe (split name))
      then stop unsafe_name s
      else extract_placed e name (with_top name s)

  unfoldable pub extract_entry : Entry → Extraction → Extracted
  unfolding contains_byte raw_safe without_slash extract_clean
  extract_entry e s =
      let counted = record s { entries = s.entries + 1 } in
      if ltb (max_files * 2) (s.entries + 1)
      then stop too_many_entries counted
      else if length e.name == 0 || contains_byte 0 e.name || contains_byte b'\\' e.name
      then stop unsafe_name counted
      else if not (raw_safe (is_directory e.kind) (split e.name))
      then stop unsafe_name counted
      else extract_clean e (clean (without_slash e.name)) counted

  abbrev pub is_metadata : Kind → Bool
  is_metadata metadata = true
  is_metadata _ = false

  abbrev pub then_next : Extracted → Extracted → Extracted
  then_next step next = elim step.error [ some _ ↦ step | none ↦ next ]

  unfoldable pub extract_entries : List Entry → Extraction → Extracted
  unfolding extract_entry
  extract_entries [] s = go_on s
  extract_entries (e ∷ entries) s =
      let step = extract_entry e s in
      let skipped = extract_entries entries s in
      let next = extract_entries entries step.state in
      if is_metadata e.kind then skipped else then_next step next

abbrev pub no_extraction : Extraction
no_extraction = record { top = []; total = 0; files = 0; entries = 0; seen = [] }

-- The limits, with 0 for those that are not positive.
abbrev pub default_max_bytes : ℕ
default_max_bytes = 2147483648

abbrev pub default_max_files : ℕ
default_max_files = 100000

abbrev pub limit_or : ℕ → ℕ → ℕ
limit_or standard given = if given == 0 then standard else given

-- How the archive ends: with `io.EOF` behind the entries, or with an error of the reader; and
-- whether the top-level directory is one in the end.
pub record Ending : Type 0 where
  pub at_eof : Bool
  pub root_is_directory : Bool

-- What stands behind the loop, where it did not stop.
unfoldable pub finished : Ending → Extracted → Extracted
finished ending r = elim r.error [
  | some _ ↦ r
  | none ↦
      if not ending.at_eof
      then stop unreadable r.state
      else if length r.state.top == 0
      then stop no_entries r.state
      else if not ending.root_is_directory
      then stop invalid_root r.state
      else r
]

unfoldable pub extract_tar_gz : (Bytes → Bytes) → ℕ → ℕ → List Entry → Ending → Extracted
unfolding extract_entries finished
extract_tar_gz clean max_bytes max_files entries ending = finished ending (
    extract_entries clean (limit_or default_max_bytes max_bytes)
      (limit_or default_max_files max_files) entries no_extraction)
