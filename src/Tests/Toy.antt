-- ===== src/Tests/Toy.antt =====
-- A scheme of signatures that meets the laws: texts are unary, a signature is its length, and every
-- signature verifies.
use Prim.Native.Char.{code}
use darcbench.Base.{
  ℕ, zero, suc, ◌+◌, ◌≡◌, refl, ap, ◌∙◌, true, Option, none, some, String, List, [], ◌∷◌,
  if◌then◌else◌, ◌==◌, nat_eq, arith,
}
use darcbench.Base.Num.Fixed.{Fixed}
use darcbench.Report.Signing.{Crypto, IsSound}
use darcbench.Report.Bundle.{Bundle}

abbrev pub strokes : ℕ → String → String
strokes zero s = s
strokes (suc n) s = String.◌∷◌ "1" (strokes n s)

abbrev pub unary : List ℕ → String
unary [] = ""
unary (n ∷ ns) = strokes n (String.◌∷◌ "," (unary ns))

abbrev pub cons? : ℕ → Option (List ℕ) → Option (List ℕ)
cons? n none = none
cons? n (some ns) = some (n ∷ ns)

abbrev pub read : String → ℕ → Option (List ℕ)
read String.[] k = some []
read (String.◌∷◌ c s) k =
    let next = read s 0 in
    let more = read s (suc k) in if code c == b',' then cons? k next else more

read-strokes : (n k : ℕ) (s : String) → read (strokes n s) k ≡ read s (n + k)
read-strokes zero k s = ap (read s) (omega arith)
read-strokes (suc n) k s = read-strokes n (suc k) s ∙ ap (read s) (omega arith)

pub read-unary : (ns : List ℕ) → read (unary ns) 0 ≡ some ns
read-unary [] = refl
read-unary (n ∷ ns) =
    read-strokes n 0 (String.◌∷◌ "," (unary ns))
    ∙ (ap (λ r. cons? (n + 0) r) (read-unary ns) ∙ ap (λ m. some (m ∷ ns)) (omega arith))

abbrev pub zeros : ℕ → List ℕ
zeros zero = []
zeros (suc n) = 0 ∷ zeros n

abbrev pub toy : Crypto (Bundle Fixed)
toy = record {
  canonical_json = λ _. some (1 ∷ 2 ∷ []);
  encode64 = unary;
  decode64 = λ s. read s 0;
  public_of = λ _. zeros 32;
  key_id_of = λ _. "key";
  sign_bytes = λ _ _. zeros 64;
  is_point = λ _. true;
  verify_bytes = λ _ _ _. true;
}

pub toy-IsSound : IsSound (Bundle Fixed) toy
toy-IsSound = record {
  decode-encode = read-unary;
  public_bytes = λ _. refl;
  public_point = λ _. refl;
  signature_bytes = λ _ _. refl;
  verify-sign = λ _ _. refl;
}
