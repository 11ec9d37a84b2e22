-- ===== src/Parser/Input.antt =====
-- parser.go: `collectUTF8Input`, which reads a whole text from a callback. The callback is given the
-- number of its call as well, for what it may remember of earlier calls.
use wasitter.Node.{Point}
use wasitter.Prelude.{ℕ, zero, suc, ◌+◌, ◌%◌, [], ◌∷◌, ◌++◌, ltb, if◌then◌else◌, Bytes, length}
use wasitter.Wire.{point_after}

pub data Collected : Type 0 where
  collected : Bytes → Collected
  too_long no_progress : Collected

-- `const maxCalls = 1 << 20`
abbrev pub max_calls : ℕ
max_calls = 1048576

module _ (read : ℕ → ℕ → Point → Bytes) where
  -- The rounds left of the loop, the number of the call, and `all` and `point`.
  unfoldable pub collect_loop : ℕ → ℕ → Bytes → Point → Collected
  unfolding point_after
  collect_loop zero call all point = no_progress
  collect_loop (suc left) call all point = elim (read call (length all % 4294967296) point) [
    | [] ↦ collected all
    | c ∷ cs ↦
        if ltb 4294967295 (length all + length (c ∷ cs))
        then too_long
        else collect_loop left (call + 1) (all ++ c ∷ cs) (point_after point (c ∷ cs))
  ]

  unfoldable pub collect_utf8_input : Collected
  unfolding collect_loop
  collect_utf8_input = collect_loop max_calls 0 [] (record { row = 0; column = 0 })
