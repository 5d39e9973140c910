-- ===== src/Protocol/External/Token/Matches.antt =====
-- What `matches` decides, and that a token survives being printed.
use Prim.Native.Nat.{bit_or, bit_xor}
use darcbench.Base.{
  ℕ, zero, suc, ◌+◌, ◌≤◌, ◌<◌, ◌≡◌, refl, ap, ◌∙◌, ◌↔◌, Bool, true, false, ◌&&◌, Option, some,
  String, List, [], ◌∷◌, All, length, if◌then◌else◌, ltb, nat_beq, nat_eq, bool_eq, arith,
}
use darcbench.Base.Result.{ok}
use darcbench.Protocol.External.Token.{
  SessionToken, token_bytes, difference_from, matches, to_hex, token_from_str,
}

-- Whether a law holds at each number from the first to below the bound, with what is left to try.
holds_from : (ℕ → Bool) → ℕ → ℕ → Bool
holds_from law i zero = true
holds_from law i (suc left) = if law i then holds_from law (i + 1) left else false

holds_from_lem :
    (law : ℕ → Bool) (i left x : ℕ)
    → i ≤ x
    → x < i + left
    → holds_from law i left ≡ true
    → law x ≡ true
unfolding holds_from
holds_from_lem law i zero x low high h = absurd (omega arith)
holds_from_lem law i (suc left) x low high h = ground (arith, holds_from_lem law (i + 1) left x)

-- `a ^ b` and `a | b` are bytes, the first 0 at equal bytes only, and the second at zeros only.
abbrev is_byte_law : ℕ → ℕ → Bool
is_byte_law a b =
    ltb (bit_xor a b) 256
    && ltb (bit_or a b) 256
    && (if nat_beq (bit_xor a b) 0 then nat_beq a b else if nat_beq a b then false else true)
    && (if nat_beq (bit_or a b) 0
        then nat_beq a 0 && nat_beq b 0
        else if nat_beq a 0 && nat_beq b 0
        then false
        else true)

abbrev is_row_law : ℕ → Bool
is_row_law a = holds_from (is_byte_law a) 0 256

byte_table : holds_from is_row_law 0 256 ≡ true
unfolding holds_from
byte_table = refl

byte_law : (a b : ℕ) → a < 256 → b < 256 → is_byte_law a b ≡ true
byte_law a b ha hb =
    holds_from_lem (is_byte_law a) 0 256 b (omega arith) hb
      (holds_from_lem is_row_law 0 256 a (omega arith) ha byte_table)

abbrev pub IsByte : ℕ → Type 0
IsByte b = b < 256

-- One step of the loop, on bytes.
step_lem :
    (acc a b : ℕ)
    → acc < 256
    → a < 256
    → b < 256
    → (bit_or acc (bit_xor a b) < 256) × ((bit_or acc (bit_xor a b) ≡ 0) ↔ ((acc ≡ 0) × (a ≡ b)))
step_lem acc a b hc ha hb =
    let x = byte_law a b ha hb in
    let hx : bit_xor a b < 256 = ground (arith, x) in
    let y = byte_law acc (bit_xor a b) hc hx in
    (ground (arith, y), ((λ e. ground (arith, x, y, e)), (λ e. ground (arith, x, y, e))))

pub difference_from_iff :
    (as' bs : List ℕ) (acc : ℕ)
    → acc < 256
    → length as' ≡ length bs
    → All IsByte as'
    → All IsByte bs
    → (difference_from acc as' bs ≡ 0) ↔ ((acc ≡ 0) × (as' ≡ bs))
unfolding difference_from
difference_from_iff [] [] acc h l ha hb = (λ e. (e, refl), λ e. e.0)
difference_from_iff [] (b ∷ bs) acc h l ha hb = absurd (omega (arith, l))
difference_from_iff (a ∷ as') [] acc h l ha hb = absurd (omega (arith, l))
difference_from_iff (a ∷ as') (b ∷ bs) acc h l (a1, ha) (b1, hb) =
    let s = step_lem acc a b h a1 b1 in
    let ih = difference_from_iff as' bs (bit_or acc (bit_xor a b)) s.0 (omega (arith, l)) ha hb in
    (
      λ e. let (z, q) = ih.0 e in let (c, p) = s.1.0 z in (c, rw (p, q) refl),
      λ (c, q). ih.1 (s.1.1 (c, head q), tail q),
    )
  where
    head : {x y : ℕ} {xs ys : List ℕ} → x ∷ xs ≡ y ∷ ys → x ≡ y
    head q = cc

    tail : {x y : ℕ} {xs ys : List ℕ} → x ∷ xs ≡ y ∷ ys → xs ≡ ys
    tail q = cc

-- What `[u8; TOKEN_BYTES]` gives.
abbrev pub IsToken : SessionToken → Type 0
IsToken t = (length t.bytes ≡ token_bytes) × All IsByte t.bytes

matches_iff : (t u : SessionToken) → IsToken t → IsToken u → (matches t u ≡ true) ↔ (t ≡ u)
unfolding matches
matches_iff t u (lt, bt) (lu, bu) =
    let d = difference_from_iff t.bytes u.bytes 0 (omega arith) (rw lu lt) bt bu in
    (
      λ e. let (_, q) = d.0 (ground (arith, e)) in λ i. record { bytes = q i },
      λ e. ground (arith, d.1 (refl, ap (λ (v : SessionToken). v.bytes) e)),
    )

module _ (encode : List ℕ → String) (decode : String → Option (List ℕ))
    (trim : String → String) where
  -- What the crate `hex` says of its two functions on bytes, and that its digits are not trimmed.
  pub record IsHex : Type 0 where
    pub decode-encode : (bs : List ℕ) → All IsByte bs → decode (encode bs) ≡ some bs
    pub trim-encode : (bs : List ℕ) → All IsByte bs → trim (encode bs) ≡ encode bs

  -- The printed form of a token is read back, and what is read matches the token of the target
  -- exactly when it was the target's own.
  pub matches-token_from_str :
      IsHex
      → (t u : SessionToken) → IsToken t
      → IsToken u
      → (r : SessionToken) × (token_from_str encode decode trim (to_hex encode decode trim u)
          ≡ ok r)
        × ((matches t r ≡ true) ↔ (t ≡ u))
  unfolding token_from_str to_hex
  matches-token_from_str hex t u ht hu =
      let read : decode (trim (encode u.bytes)) ≡ some u.bytes =
        ap decode (hex.trim-encode u.bytes hu.1) ∙ hex.decode-encode u.bytes hu.1 in
      (u, ground (arith, read, hu.0), matches_iff t u ht hu)
