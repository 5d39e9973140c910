-- ===== src/Base/Text.antt =====
-- Texts as lists of bytes, for code that looks inside a string. Every text compared here is ASCII.
use Prim.Native.Char.{code}
use Prim.Native.String.{String}
use Prim.Native.Nat.{ℕ, ◌+◌}
use mathlib.Core.Bool.{Bool, ◌&&◌, ◌||◌}
use mathlib.Core.Option.{Option, none, some}
use mathlib.Core.List.{List, [], ◌∷◌}
use darcbench.Base.Tests.{if◌then◌else◌, leb, nat_beq}

abbrev pub codes : String → List ℕ
codes String.[] = []
codes (String.◌∷◌ c s) = code c ∷ codes s

-- `is_ascii_lowercase`, `is_ascii_uppercase`, `is_ascii_digit`
abbrev pub is_lower : ℕ → Bool
is_lower c = leb b'a' c && leb c b'z'

abbrev pub is_upper : ℕ → Bool
is_upper c = leb b'A' c && leb c b'Z'

abbrev pub is_digit : ℕ → Bool
is_digit c = leb b'0' c && leb c b'9'

-- `to_ascii_lowercase` of one byte
abbrev pub to_lower : ℕ → ℕ
to_lower c = if is_upper c then c + 32 else c

-- `str::trim`, on ASCII
abbrev pub is_space : ℕ → Bool
is_space c = nat_beq c 32 || (leb 9 c && leb c 13)

abbrev pub trim_start : List ℕ → List ℕ
trim_start [] = []
trim_start (c ∷ s) = let rest = trim_start s in if is_space c then rest else c ∷ s

abbrev pub trim_end : List ℕ → List ℕ
trim_end [] = []
trim_end (c ∷ s) = elim (trim_end s) [ [] ↦ if is_space c then [] else c ∷ [] | d ∷ r ↦ c ∷ d ∷ r ]

abbrev pub trim : List ℕ → List ℕ
trim s = trim_end (trim_start s)

-- `str::strip_prefix`
abbrev pub after_prefix : List ℕ → List ℕ → Option (List ℕ)
after_prefix [] s = some s
after_prefix (p ∷ ps) [] = none
after_prefix (p ∷ ps) (c ∷ s) = let rest = after_prefix ps s in if nat_beq p c then rest else none

-- `split` at one byte: the part before the first, and the others
abbrev push : ℕ → List (List ℕ) → List (List ℕ)
push c [] = (c ∷ []) ∷ []
push c (part ∷ parts) = (c ∷ part) ∷ parts

abbrev pub split_at : ℕ → List ℕ → List (List ℕ)
split_at b [] = [] ∷ []
split_at b (c ∷ s) = let rest = split_at b s in if nat_beq c b then [] ∷ rest else push c rest

-- `split_once` at one byte
abbrev pub split_once : ℕ → List ℕ → Option (List ℕ × List ℕ)
split_once b [] = none
split_once b (c ∷ s) = elim (split_once b s) [
  | none ↦ if nat_beq c b then some ([], s) else none
  | some (l, r) ↦ if nat_beq c b then some ([], s) else some (c ∷ l, r)
]
