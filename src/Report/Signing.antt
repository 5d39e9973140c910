-- ===== src/Report/Signing.antt =====
-- crates/darcbench-report/src/signing.rs: what a signature covers and how it is checked. Ed25519,
-- base64 and serde_json are third-party code, so they are the operations of `Crypto`.
use darcbench.Base.{
  ℕ, ◌≡◌, Bool, true, Option, none, some, String, List, length, ◌==◌, nat_eq, string_eq,
}
use darcbench.Base.Result.{Result, ok, err, ◌>>=◌, ◌>>◌, check}
pub mod RoundTrip

pub data SigningError : Type 0 where
  bad_signature bad_public_key canonical : SigningError

pub record Signature : Type 0 where
  pub algorithm : String
  pub canonicalization : String
  pub public_key : String
  pub value : String
  pub key_id : String

-- A secret key is its seed. `canonical_json` is `None` where the value cannot be serialised.
pub record Crypto (P : Type 0) : Type 0 where
  pub canonical_json : P → Option (List ℕ)
  pub encode64 : List ℕ → String
  pub decode64 : String → Option (List ℕ)
  pub public_of : List ℕ → List ℕ
  pub key_id_of : List ℕ → String
  pub sign_bytes : List ℕ → List ℕ → List ℕ
  pub is_point : List ℕ → Bool
  pub verify_bytes : List ℕ → List ℕ → List ℕ → Bool

-- What RFC 8032 and base64 promise of a key pair: what it signs verifies under its public half.
pub record IsSound (P : Type 0) (c : Crypto P) : Type 0 where
  pub decode-encode : (bs : List ℕ) → c.decode64 (c.encode64 bs) ≡ some bs
  pub public_bytes : (seed : List ℕ) → length (c.public_of seed) ≡ 32
  pub public_point : (seed : List ℕ) → c.is_point (c.public_of seed) ≡ true
  pub signature_bytes : (seed msg : List ℕ) → length (c.sign_bytes seed msg) ≡ 64
  pub verify-sign :
      (seed msg : List ℕ) → c.verify_bytes (c.public_of seed) msg (c.sign_bytes seed msg) ≡ true

-- canonical.rs
abbrev pub canonicalization : String
canonicalization = "DCJ/1"

module _ {P : Type 0} (c : Crypto P) where
  or_err : {A : Type 0} → Option A → SigningError → Result SigningError A
  or_err none e = err e
  or_err (some a) e = ok a

  signature_of : List ℕ → List ℕ → Signature
  signature_of seed bytes = record {
    algorithm = "ed25519";
    canonicalization = canonicalization;
    public_key = c.encode64 (c.public_of seed);
    value = c.encode64 (c.sign_bytes seed bytes);
    key_id = c.key_id_of seed;
  }

  unfoldable pub sign : List ℕ → P → Result SigningError Signature
  unfolding or_err signature_of
  sign seed payload = do
    bytes ← or_err (c.canonical_json payload) canonical
    ok (signature_of seed bytes)

  unfoldable pub verify : P → Signature → Result SigningError (Unit {0})
  unfolding or_err
  verify payload s = do
    check (s.algorithm == "ed25519") bad_signature
    check (s.canonicalization == canonicalization) bad_signature
    key ← or_err (c.decode64 s.public_key) bad_public_key
    check (length key == 32) bad_public_key
    check (c.is_point key) bad_public_key
    sig ← or_err (c.decode64 s.value) bad_signature
    check (length sig == 64) bad_signature
    bytes ← or_err (c.canonical_json payload) canonical
    check (c.verify_bytes key bytes sig) bad_signature
