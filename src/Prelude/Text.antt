-- ===== src/Prelude/Text.antt =====
-- The bytes of an ASCII text, and the functions of Go's `strings` package that the program calls.
use Prim.Native.Char.{code}
use Prim.Native.String.{String}
use mathlib.Core.Bool.{Bool, true, false, ◌&&◌, ◌||◌}
use mathlib.Core.List.{[], ◌∷◌}
use wasitter.Prelude.Tests.{◌==◌, if◌then◌else◌, Bytes}

abbrev pub codes : String → Bytes
codes String.[] = []
codes (String.◌∷◌ c s) = code c ∷ codes s

-- `strings.HasPrefix(s, prefix)`, the prefix first.
unfoldable pub has_prefix : Bytes → Bytes → Bool
has_prefix [] s = true
has_prefix (p ∷ ps) [] = false
has_prefix (p ∷ ps) (c ∷ cs) = p == c && has_prefix ps cs

-- What stands behind a prefix that is there.
unfoldable pub behind : Bytes → Bytes → Bytes
behind [] s = s
behind (p ∷ ps) [] = []
behind (p ∷ ps) (c ∷ cs) = behind ps cs

-- `strings.TrimPrefix(s, prefix)`, the prefix first.
unfoldable pub trim_prefix : Bytes → Bytes → Bytes
unfolding has_prefix behind
trim_prefix prefix s = if has_prefix prefix s then behind prefix s else s

-- `strings.Contains(s, part)`, the part first.
unfoldable pub contains : Bytes → Bytes → Bool
unfolding has_prefix
contains part [] = has_prefix part []
contains part (c ∷ cs) = has_prefix part (c ∷ cs) || contains part cs
