-- ===== src/Parser/IncludedRanges.antt =====
-- parser.go: `SetIncludedRanges` and `ensureOpen`. What other goroutines may change before the
-- parser's lock is taken is a second state; what the guest answers is a `Guest`.
use wasitter.Prelude.{
  ℕ, ◌+◌, Bool, false, not, ◌&&◌, ◌||◌, Option, none, some, List, [], ◌∷◌, ltb, ◌==◌, if◌then◌else◌,
  Bytes, length,
}
use wasitter.Wire.{ByteRange, encode_ranges}

pub data ParserError : Type 0 where
  closed no_runtime invalid_handle too_many_ranges lookup_failed alloc_failed short_write
        call_failed rejected :
      ParserError
  -- `IncludedRangesError`, with its index.
  bad_range : ℕ → ParserError

pub record Parser : Type 0 where
  pub is_closed : Bool
  pub handle : ℕ
  pub included_ranges : List ByteRange

-- The result of `lookupIntegerFunctionShapesLocked`.
pub data Lookup : Type 0 where
  found unsupported failed : Lookup

pub record Guest : Type 0 where
  pub has_runtime : Bool
  pub is_open : Bool
  -- Under the parser's lock, the parser has a runtime.
  pub keeps_runtime : Bool
  pub lookup : Lookup
  pub alloc : ℕ → Option ℕ
  pub write : ℕ → Bytes → Bool
  -- The handle, the pointer and the count; `none` is a trap.
  pub call : ℕ → ℕ → ℕ → Option (List ℕ)
  -- Behind the call, the runtime is closed.
  pub is_closed_after : Bool

unfoldable pub ensure_open : Guest → Parser → Option ParserError
ensure_open g p =
    if p.is_closed
    then some closed
    else if not g.has_runtime
    then some no_runtime
    else if not g.is_open
    then some closed
    else if p.handle == 0
    then some invalid_handle
    else none

-- The loop over the ranges, from an index and the end of the range before it.
unfoldable pub bad_range_from : ℕ → ℕ → List ByteRange → Option ℕ
bad_range_from i previous_end [] = none
bad_range_from i previous_end (r ∷ rs) =
    let rest = bad_range_from (i + 1) r.end_byte rs in
    if ltb r.end_byte r.start_byte || not (i == 0) && ltb r.start_byte previous_end
    then some i
    else rest

abbrev pub max_u32 : ℕ
max_u32 = 4294967295

abbrev pub default_included_ranges : List ByteRange
default_included_ranges =
    record {
      start_byte = 0;
      end_byte = max_u32;
      start_point = record { row = 0; column = 0 };
      end_point = record { row = max_u32; column = max_u32 };
    }
    ∷ []

abbrev pub kept_ranges : List ByteRange → List ByteRange
kept_ranges [] = default_included_ranges
kept_ranges (r ∷ rs) = r ∷ rs

pub data Outcome : Type 0 where
  done : Parser → Outcome
  refused : ParserError → Parser → Outcome

-- `len(result) != 0 && result[0] == 0`
abbrev is_rejection : List ℕ → Bool
is_rejection [] = false
is_rejection (r ∷ _) = r == 0

unfoldable pub accept : Guest → Parser → List ByteRange → Outcome
accept g p rs =
    if g.is_closed_after
    then refused closed p
    else done (record p { included_ranges = kept_ranges rs })

unfoldable pub call_guest : Guest → Parser → List ByteRange → ℕ → Outcome
unfolding accept
call_guest g p rs ptr = elim (g.call p.handle ptr (length rs)) [
  | none ↦ refused call_failed p
  | some result ↦ if is_rejection result then refused rejected p else accept g p rs
]

-- The pointer is 0 for an empty list.
unfoldable pub write_ranges : Guest → Parser → List ByteRange → Bytes → Outcome
unfolding call_guest
write_ranges g p rs [] = call_guest g p rs 0
write_ranges g p rs (b ∷ bs) = elim (g.alloc (length (b ∷ bs))) [
  | none ↦ refused alloc_failed p
  | some ptr ↦ if not (g.write ptr (b ∷ bs)) then refused short_write p else call_guest g p rs ptr
]

unfoldable pub set_encoded : Guest → Parser → List ByteRange → Bytes → Outcome
unfolding write_ranges accept
set_encoded g p rs encoded =
    if p.is_closed || p.handle == 0
    then refused closed p
    else if not g.keeps_runtime
    then refused no_runtime p
    else elim g.lookup [
      | unsupported ↦ accept g p rs
      | failed ↦ refused lookup_failed p
      | found ↦ write_ranges g p rs encoded
    ]

-- `before` is the parser at the first check, `p` the parser under its lock.
unfoldable pub set_included_ranges : Guest → Parser → Parser → List ByteRange → Outcome
unfolding ensure_open bad_range_from set_encoded
set_included_ranges g before p rs = elim (ensure_open g before) [
  | some e ↦ refused e p
  | none ↦ elim (bad_range_from 0 0 rs) [
    | some i ↦ refused (bad_range i) p
    | none ↦ elim (encode_ranges rs) [
      | none ↦ refused too_many_ranges p
      | some encoded ↦ set_encoded g p rs encoded
    ]
  ]
]
