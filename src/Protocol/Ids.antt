-- ===== src/Protocol/Ids.antt =====
-- crates/darcbench-protocol/src/ids.rs: the two grammars of identifiers, over the bytes of the text.
-- Drawing random bytes for a new run id is the operating system's.
use darcbench.Base.{
  ℕ, Bool, not, ◌&&◌, ◌||◌, Option, none, some, List, [], ◌∷◌, length, is_nil, all, if◌then◌else◌,
  ltb, leb, ◌==◌, nat_eq,
}
use darcbench.Base.Result.{Result, ok, err, ◌>>◌, check}
use darcbench.Base.Text.{codes, is_lower, is_upper, is_digit}
pub mod Grammar

-- The messages of `ProtocolError::InvalidId`.
pub data IdError : Type 0 where
  missing_prefix bad_body bad_length bad_start segment_too_long bad_segment : IdError

-- `str::strip_prefix`
unfoldable pub strip_prefix : List ℕ → List ℕ → Option (List ℕ)
strip_prefix [] s = some s
strip_prefix (p ∷ ps) [] = none
strip_prefix (p ∷ ps) (c ∷ s) = let rest = strip_prefix ps s in if p == c then rest else none

-- `is_ascii_hexdigit() && !is_ascii_uppercase()`
abbrev is_hexdigit : ℕ → Bool
is_hexdigit c = is_digit c || ((leb b'a' c && leb c b'f') || (leb b'A' c && leb c b'F'))

abbrev pub is_lower_hex : ℕ → Bool
is_lower_hex c = is_hexdigit c && not (is_upper c)

run_id_body : Option (List ℕ) → Result IdError (Unit {0})
run_id_body none = err missing_prefix
run_id_body (some body) = check (length body == 32 && all is_lower_hex body) bad_body

unfoldable pub run_id_from_str : List ℕ → Result IdError (Unit {0})
unfolding run_id_body
run_id_from_str s = run_id_body (strip_prefix (codes "run_") s)

-- one byte of the text, before the segments that follow
push_byte : ℕ → List (List ℕ) → List (List ℕ)
push_byte c [] = []
push_byte c (seg ∷ segs) = if c == b'.' then [] ∷ seg ∷ segs else (c ∷ seg) ∷ segs

-- `s.split('.')`
unfoldable pub split_dots : List ℕ → List (List ℕ)
unfolding push_byte
split_dots [] = [] ∷ []
split_dots (c ∷ s) = push_byte c (split_dots s)

abbrev pub is_segment_byte : ℕ → Bool
is_segment_byte c = is_lower c || (is_digit c || c == b'_')

unfoldable pub check_segment : List ℕ → Result IdError (Unit {0})
check_segment [] = err bad_start
check_segment (c ∷ rest) = do
  check (is_lower c) bad_start
  check (not (ltb 32 (length (c ∷ rest)))) segment_too_long
  check (all is_segment_byte rest) bad_segment

unfoldable pub check_segments : List (List ℕ) → Result IdError (Unit {0})
check_segments [] = ok tt
check_segments (seg ∷ segs) = let rest = check_segments segs in check_segment seg >> rest

unfoldable pub module_id_from_str : List ℕ → Result IdError (Unit {0})
module_id_from_str s = do
  check (not (is_nil s || ltb 96 (length s))) bad_length
  check_segments (split_dots s)
