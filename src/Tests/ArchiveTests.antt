-- ===== src/Tests/ArchiveTests.antt =====
-- Runs of the extraction of small archives.
use wasitter.Archive.Below.{IsSound}
use wasitter.Archive.Extract.{
  Entry, Kind, metadata, directory, regular, unsafe_name, duplicate, too_large, default_max_bytes,
  default_max_files, limit_or, Ending, no_entries, extract_tar_gz,
}
use wasitter.Archive.ExtractLaws.{extract_tar_gz-IsSound}
use wasitter.Archive.Names.{validate_archive_path, unsafe_component}
use wasitter.Prelude.{ℕ, true, false, none, some, ◌≡◌, refl, List, [], ◌∷◌, Bytes, codes}

abbrev entry : Bytes → Kind → ℕ → Entry
entry name kind size = record {
  name = name;
  kind = kind;
  negative_size = false;
  size = size;
  stays_inside = true;
  no_symlink = true;
  stored = true;
}

abbrev as_is : Bytes → Bytes
as_is name = name

abbrev archive : List Entry
archive =
    entry (codes "pax") metadata 9
    ∷ entry (codes "g/") directory 0
    ∷ entry (codes "g/src/p.c") regular 7
    ∷ entry (codes "g/q.c") regular 3
    ∷ []

abbrev complete : Ending
complete = record { at_eof = true; root_is_directory = true }

nothing_there : (extract_tar_gz as_is 0 0 [] complete).error ≡ some no_entries
unfolding extract_tar_gz
nothing_there = refl

extracts : (extract_tar_gz as_is 10 0 archive complete).error ≡ none
unfolding extract_tar_gz
extracts = refl

over_the_limit : (extract_tar_gz as_is 9 0 archive complete).error ≡ some too_large
unfolding extract_tar_gz
over_the_limit = refl

climbs :
    (extract_tar_gz as_is 0 0 (entry (codes "g/../x") regular 1 ∷ []) complete).error
    ≡ some unsafe_name
unfolding extract_tar_gz
climbs = refl

twice :
    (extract_tar_gz as_is 0 0
      (entry (codes "g/x") regular 1 ∷ entry (codes "g/x") regular 1 ∷ [])
      complete).error
    ≡ some duplicate
unfolding extract_tar_gz
twice = refl

dots : validate_archive_path (codes "src/./parser.c") false ≡ some unsafe_component
unfolding validate_archive_path
dots = refl

extract_tar_gz-IsSound_example :
    IsSound
      (limit_or default_max_bytes 10)
      (limit_or default_max_files 0)
      (extract_tar_gz as_is 10 0 archive complete).error
      (extract_tar_gz as_is 10 0 archive complete).state
extract_tar_gz-IsSound_example = extract_tar_gz-IsSound as_is 10 0 archive complete
