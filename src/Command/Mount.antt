-- ===== src/Command/Mount.antt =====
-- cmd/wasitter-build/main.go: `dockerMountField` and `appendBindMount`. filepath.ToSlash is
-- a parameter.
use wasitter.Prelude.{
  Bool, false, not, ◌||◌, List, [], ◌∷◌, ◌++◌, ◌==◌, if◌then◌else◌, Bytes, codes, length,
}

-- `strings.ContainsAny(s, ",\"\r\n")`
unfoldable pub needs_quotes : Bytes → Bool
needs_quotes [] = false
needs_quotes (c ∷ cs) = c == b',' || c == b'"' || c == b'\r' || c == b'\n' || needs_quotes cs

-- `strings.ReplaceAll(s, "\"", "\"\"")`
unfoldable pub double_quotes : Bytes → Bytes
double_quotes [] = []
double_quotes (c ∷ cs) = if c == b'"' then b'"' ∷ b'"' ∷ double_quotes cs else c ∷ double_quotes cs

unfoldable pub docker_mount_field : Bytes → Bytes → Bytes
unfolding needs_quotes double_quotes
docker_mount_field key value =
    let field = key ++ b'=' ∷ value in
    if not (needs_quotes field) then field else b'"' ∷ (double_quotes field ++ b'"' ∷ [])

-- `strings.IndexByte(s, 0) >= 0`
unfoldable pub has_nul : Bytes → Bool
has_nul [] = false
has_nul (c ∷ cs) = c == 0 || has_nul cs

pub data MountError : Type 0 where
  empty_source nul_in_path : MountError

pub data Mounted : Type 0 where
  mounted : List Bytes → Mounted
  not_mounted : MountError → Mounted

unfoldable pub mount_value : Bytes → Bytes → Bool → Bytes
unfolding docker_mount_field
mount_value source destination read_only =
    codes "type=bind,"
    ++ (docker_mount_field (codes "src") source
        ++ (b','
            ∷ (docker_mount_field (codes "dst") destination
                ++ (if read_only then codes ",readonly" else []))))

-- `windows` is `runtime.GOOS == "windows"`.
unfoldable pub host_path : Bool → (Bytes → Bytes) → Bytes → Bytes
host_path windows to_slash source = if windows then to_slash source else source

unfoldable pub append_bind_mount :
    Bool → (Bytes → Bytes) → List Bytes → Bytes → Bytes → Bool → Mounted
unfolding mount_value has_nul host_path
append_bind_mount windows to_slash args source destination read_only =
    if length source == 0
    then not_mounted empty_source
    else if has_nul source || has_nul destination
    then not_mounted nul_in_path
    else mounted (
        args
        ++ (codes "--mount"
            ∷ mount_value (host_path windows to_slash source) destination read_only
            ∷ []))
