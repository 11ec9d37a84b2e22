-- ===== src/Tests/CommandTests.antt =====
-- Runs of the command line's helpers.
use wasitter.Command.Args.{reordered, missing_value, reorder_grammar_args}
use wasitter.Command.Csv.{read_record}
use wasitter.Command.Flags.{IsReordered, reorder_grammar_args-IsReordered}
use wasitter.Command.Mount.{mounted, append_bind_mount, mount_value}
use wasitter.Command.MountLaws.{fields, IsMount, append_bind_mount-IsMount}
use wasitter.Prelude.{
  ◌≡◌, refl, true, false, some, List, [], ◌∷◌, ◌==◌, if◌then◌else◌, Bytes, codes,
}

-- The value of `-cc` goes with its flag, and the mark ends the flags.
abbrev args : List Bytes
args = codes "go" ∷ codes "-cc" ∷ codes "clang" ∷ codes "-v" ∷ codes "--" ∷ codes "rust" ∷ []

abbrev flags : List Bytes
flags = codes "-cc" ∷ codes "clang" ∷ codes "-v" ∷ []

abbrev positional : List Bytes
positional = codes "go" ∷ codes "rust" ∷ []

reordered_args : reorder_grammar_args args ≡ reordered flags positional
unfolding reorder_grammar_args
reordered_args = refl

value_missing : reorder_grammar_args (codes "go" ∷ codes "-cc" ∷ []) ≡ missing_value (codes "-cc")
unfolding reorder_grammar_args
value_missing = refl

reorder_grammar_args-IsReordered_example : IsReordered args (reorder_grammar_args args)
reorder_grammar_args-IsReordered_example = reorder_grammar_args-IsReordered args

quoted_mount :
    mount_value (codes "/a,b") (codes "/c") true ≡ codes "type=bind,\"src=/a,b\",dst=/c,readonly"
unfolding mount_value
quoted_mount = refl

-- A `to_slash` as on Windows.
abbrev slashes : Bytes → Bytes
slashes [] = []
slashes (c ∷ cs) = (if c == b'\\' then b'/' else c) ∷ slashes cs

windows_mount :
    append_bind_mount true slashes [] (codes "C:\\a") (codes "/c") false
    ≡ mounted (codes "--mount" ∷ codes "type=bind,src=C:/a,dst=/c" ∷ [])
unfolding append_bind_mount
windows_mount = refl

newline_mount :
    read_record (mount_value (codes "/a\r\nb") (codes "/c") true)
    ≡ some (fields (codes "/a\nb") (codes "/c") true)
unfolding read_record mount_value fields
newline_mount = refl

append_bind_mount-IsMount_example :
    IsMount true slashes
      (codes "run" ∷ [])
      (codes "C:\\a,\"b")
      (codes "/c")
      true
      (append_bind_mount true slashes (codes "run" ∷ []) (codes "C:\\a,\"b") (codes "/c") true)
append_bind_mount-IsMount_example =
    append_bind_mount-IsMount true slashes (codes "run" ∷ []) (codes "C:\\a,\"b") (codes "/c") true
