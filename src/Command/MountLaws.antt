-- ===== src/Command/MountLaws.antt =====
-- cmd/wasitter-build/main.go: the fields of the `--mount` argument that `appendBindMount` builds.
use wasitter.Command.Csv.{
  fold_newlines, read_fields, read_record, read_fields-comma, read_fields-end,
}
use wasitter.Command.Mount.{
  docker_mount_field, has_nul, empty_source, nul_in_path, Mounted, mounted, not_mounted,
  mount_value, host_path, append_bind_mount,
}
use wasitter.Command.Newlines.{fold_newlines-mount_value, drop_return-mount_value}
use wasitter.Prelude.{
  ℕ, suc, ◌≡◌, refl, ap, ◌∙◌, arith, Bool, true, false, ◌||◌, some, List, [], ◌∷◌, ◌++◌, ◌==◌,
  if◌then◌else◌, Bytes, codes, length, Bool-cases, inl, inr,
}

unfoldable pub fields : Bytes → Bytes → Bool → List Bytes
fields source destination read_only =
    codes "type=bind"
    ∷ (codes "src=" ++ source)
    ∷ (codes "dst=" ++ destination)
    ∷ (if read_only then codes "readonly" ∷ [] else [])

-- What the outcome says of the paths and of the arguments before it; `source` is the path as it is
-- on the host.
pub IsMount :
    (windows : Bool) (to_slash : Bytes → Bytes)
    → List Bytes
    → Bytes
    → Bytes
    → Bool
    → Mounted
    → Type 0
unfolding read_record fold_newlines fields has_nul host_path
IsMount windows to_slash args source destination read_only (not_mounted empty_source) = source ≡ []
IsMount windows to_slash args source destination read_only (not_mounted nul_in_path) =
    (has_nul source || has_nul destination) ≡ true
IsMount windows to_slash args source destination read_only (mounted all) =
    (value : Bytes) × (all ≡ args ++ (codes "--mount" ∷ value ∷ []))
    × (read_record value
        ≡ some (
            fields (fold_newlines (host_path windows to_slash source)) (fold_newlines destination)
              read_only))

read_fields-type :
    (fuel : ℕ) (rest : Bytes) (more : List Bytes)
    → read_fields fuel rest ≡ some more
    → read_fields (suc fuel) (codes "type=bind," ++ rest) ≡ some (codes "type=bind" ∷ more)
unfolding read_fields
read_fields-type fuel rest more h = rw h refl

read_fields-last :
    (fuel : ℕ) (destination : Bytes) (read_only : Bool)
    → read_fields (suc (suc fuel)) (
        docker_mount_field (codes "dst") destination
        ++ (if read_only then codes ",readonly" else []))
      ≡ some ((codes "dst=" ++ destination) ∷ (if read_only then codes "readonly" ∷ [] else []))
unfolding read_fields
read_fields-last fuel destination true =
    read_fields-comma (suc fuel) (codes "dst") destination (codes "readonly")
      (codes "readonly" ∷ []) refl
read_fields-last fuel destination false = read_fields-end (suc fuel) (codes "dst") destination

read_fields-mount_value :
    (fuel : ℕ) (source destination : Bytes) (read_only : Bool)
    → read_fields (suc (suc (suc (suc fuel)))) (mount_value source destination read_only)
      ≡ some (fields source destination read_only)
unfolding mount_value fields
read_fields-mount_value fuel source destination read_only =
    read_fields-type (suc (suc (suc fuel))) _ _ (
      read_fields-comma (suc (suc fuel)) (codes "src") source _ _
        (read_fields-last fuel destination read_only))

read_record-mount_value :
    (source destination : Bytes) (read_only : Bool)
    → read_record (mount_value source destination read_only)
      ≡ some (fields (fold_newlines source) (fold_newlines destination) read_only)
unfolding read_record mount_value
read_record-mount_value source destination read_only =
    let behind =
      docker_mount_field (codes "src") source
      ++ (b','
          ∷ (docker_mount_field (codes "dst") destination
              ++ (if read_only then codes ",readonly" else []))) in
    ap (read_fields (suc (length (mount_value source destination read_only)))) (
      ap fold_newlines (drop_return-mount_value source destination read_only)
      ∙ fold_newlines-mount_value source destination read_only)
    ∙ read_fields-mount_value (length (codes "e=bind," ++ behind)) (fold_newlines source)
        (fold_newlines destination) read_only

length-0 : (source : Bytes) → (length source == 0) ≡ true → source ≡ []
length-0 [] e = refl
length-0 (c ∷ source) e = ground arith

-- The call fails only for an empty source or for a NUL in a path. Otherwise the arguments grow by
-- `--mount` and one value, and a reader of comma-separated values finds these fields in it and no
-- others: `type=bind`, `src=` and `dst=` with the paths, and `readonly` where it is asked for. The
-- paths are unchanged but for a CR before an LF, which such a reader drops, and for what
-- filepath.ToSlash makes of the source on Windows.
pub append_bind_mount-IsMount :
    (windows : Bool) (to_slash : Bytes → Bytes) (args : List Bytes) (source destination : Bytes)
    (read_only : Bool)
    → IsMount windows to_slash args source destination read_only
        (append_bind_mount windows to_slash args source destination read_only)
unfolding append_bind_mount IsMount
append_bind_mount-IsMount windows to_slash args source destination read_only =
    elim (Bool-cases (length source == 0)) [
      | inl e ↦ rw e (length-0 source e)
      | inr e ↦ elim (Bool-cases (has_nul source || has_nul destination)) [
        | inl n ↦ rw (e, n) n
        | inr n ↦
            rw (e, n)
              (
                mount_value (host_path windows to_slash source) destination read_only,
                refl,
                read_record-mount_value (host_path windows to_slash source) destination read_only,
              )
      ]
    ]
