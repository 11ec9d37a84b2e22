-- ===== src/Tests/CollectedTests.antt =====
-- Runs of the sequences of matches and of their keys.
use wasitter.MatchKey.Laws.{is_digit, observed, query_match_key-observed}
use wasitter.MatchKey.{query_match_key}
use wasitter.Matches.Captures.{all_captures, all_places, drain_captures-drain_matches}
use wasitter.Matches.Laws.{drain, kept, is_removed_match}
use wasitter.Matches.{
  CollectedMatch, CollectedCapture, next_match_of, next_capture_of, shown_match,
  query_match_intersects_byte_range, query_capture_key_string,
}
use wasitter.Node.{Node}
use wasitter.Predicate.Evaluate.{QueryCapture}
use wasitter.Prelude.{
  ℕ, zero, suc, Bool, true, false, some, List, [], ◌∷◌, map, ◌==◌, ◌≡◌, ◌↔◌, refl, ap, arith, sym,
  ◌∙◌, All, Bytes, length, codes,
}
use wasitter.Range.Filter.{QueryMatch}

-- A number as so many digits.
abbrev tally : ℕ → Bytes
tally zero = []
tally (suc n) = b'1' ∷ tally n

tally_digits : (n : ℕ) → All (λ c. is_digit c ≡ true) (tally n)
tally_digits zero = tt
tally_digits (suc n) = (refl, tally_digits n)

length-tally : (n : ℕ) → length (tally n) ≡ n
length-tally zero = refl
length-tally (suc n) = ap suc (length-tally n)

tally_injective : (a b : ℕ) → tally a ≡ tally b → a ≡ b
tally_injective a b e = sym (length-tally a) ∙ (ap (λ (xs : Bytes). length xs) e ∙ length-tally b)

abbrev place : ℕ → ℕ → Node
place start end = record {
  is_null = false;
  start_byte = start;
  end_byte = end;
  start_point = record { row = 0; column = start };
  end_point = record { row = 0; column = end };
  text = [];
}

abbrev capture : ℕ → ℕ → ℕ → QueryCapture
capture index start end = record { node = place start end; index = index }

abbrev match_of_id : ℕ → List QueryCapture → QueryMatch
match_of_id id captures = record {
  id = id;
  pattern_index = 2;
  captures = captures;
  root = place 0 9;
  anchor = place 0 9;
}

abbrev pattern : ℕ
pattern = 2

key_of_match :
    query_match_key tally (match_of_id 7 (capture 1 3 4 ∷ [])) ≡ codes "11:1|1@111-1111[,111;,1111]"
unfolding query_match_key
key_of_match = refl

query_match_key-observed_example :
    (query_match_key tally (match_of_id 7 (capture 1 3 4 ∷ []))
      ≡ query_match_key tally (match_of_id 8 (capture 1 3 4 ∷ [])))
    ↔ ((pattern ≡ pattern)
        × (map observed (capture 1 3 4 ∷ []) ≡ map observed (capture 1 3 4 ∷ [])))
query_match_key-observed_example =
    query_match_key-observed tally (match_of_id 7 (capture 1 3 4 ∷ []))
      (match_of_id 8 (capture 1 3 4 ∷ [])) tally_digits tally_injective

abbrev is_3 : ℕ → Bool
is_3 id = id == 3

abbrev collected : ℕ → List QueryCapture → CollectedMatch
collected id captures = record {
  shown = match_of_id id captures;
  has_stream = true;
  has_cursor = true;
}

abbrev three : List CollectedMatch
three =
    collected 1 (capture 1 3 4 ∷ capture 2 5 6 ∷ [])
    ∷ collected 3 (capture 1 3 4 ∷ [])
    ∷ collected 5 (capture 1 7 8 ∷ [])
    ∷ []

drains :
    drain (next_match_of is_3) 4 0 three
    ≡ (collected 1 (capture 1 3 4 ∷ capture 2 5 6 ∷ []) ∷ collected 5 (capture 1 7 8 ∷ []) ∷ [], 3)
unfolding drain next_match_of
drains = refl

-- A value of no stream counts nowhere.
no_stream :
    (next_match_of is_3 0 (record (collected 3 []) { has_stream = false } ∷ [])).consumed ≡ 0
unfolding next_match_of
no_stream = refl

drain_captures-drain_matches_example :
    (drain (next_match_of is_3) 4 0 three ≡ (kept (is_removed_match is_3) three, 3))
    × (map (shown_match (place 0 0)) (drain (next_capture_of is_3) 5 0 (all_captures three)).0
        ≡ all_places (drain (next_match_of is_3) 4 0 three).0)
    × ((drain (next_capture_of is_3) 5 0 (all_captures three)).1 ≡ 4)
drain_captures-drain_matches_example =
    drain_captures-drain_matches is_3 (place 0 0) three 4 5 0 (omega arith) (omega arith)
      (omega arith) (omega arith)

-- A match that was kept without its captures is shown_match with the capture at its ordinal.
abbrev bare : CollectedCapture
bare = record {
  capture = capture 1 3 4;
  has_stream = false;
  match_of = some (collected 7 []);
  match_id = 7;
  pattern = 2;
  ordinal = 1;
}

pads_captures :
    shown_match (place 0 0) bare
    ≡ (match_of_id 7 (record { node = place 0 0; index = 0 } ∷ capture 1 3 4 ∷ []), 1)
unfolding shown_match
pads_captures = refl

root_counts : query_match_intersects_byte_range (match_of_id 7 []) 9 12 ≡ false
unfolding query_match_intersects_byte_range
root_counts = refl

key_of_capture : query_capture_key_string tally bare ≡ codes "11:1:1@111-1111[,111;,1111]"
unfolding query_capture_key_string
key_of_capture = refl
