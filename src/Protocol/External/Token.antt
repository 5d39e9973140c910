-- ===== src/Protocol/External/Token.antt =====
-- crates/darcbench-protocol/src/external.rs: the session token. `hex` is another crate, whose two
-- functions are arguments.
use Prim.Native.Nat.{bit_or, bit_xor}
use darcbench.Base.{
  ℕ, Bool, Option, none, some, String, List, [], ◌∷◌, length, if◌then◌else◌, nat_beq,
}
use darcbench.Base.Result.{Result, ok, err}
pub mod Matches

abbrev pub token_bytes : ℕ
token_bytes = 32

-- The bytes of a `[u8; TOKEN_BYTES]`.
pub record SessionToken : Type 0 where
  pub bytes : List ℕ

pub data TokenError : Type 0 where
  not_hexadecimal : TokenError
  wrong_length : ℕ → TokenError

-- the loop over the two arrays at once
unfoldable pub difference_from : ℕ → List ℕ → List ℕ → ℕ
difference_from acc [] bs = acc
difference_from acc (a ∷ as') [] = acc
difference_from acc (a ∷ as') (b ∷ bs) = difference_from (bit_or acc (bit_xor a b)) as' bs

unfoldable pub matches : SessionToken → SessionToken → Bool
unfolding difference_from
matches t u = nat_beq (difference_from 0 t.bytes u.bytes) 0

module _ (encode : List ℕ → String) (decode : String → Option (List ℕ))
    (trim : String → String) where
  unfoldable pub to_hex : SessionToken → String
  to_hex t = encode t.bytes

  sized : List ℕ → Result TokenError SessionToken
  sized raw =
      if nat_beq (length raw) token_bytes
      then ok (record { bytes = raw })
      else err (wrong_length (length raw))

  unfoldable pub token_from_str : String → Result TokenError SessionToken
  unfolding sized
  token_from_str s = elim (decode (trim s)) [ none ↦ err not_hexadecimal | some raw ↦ sized raw ]
