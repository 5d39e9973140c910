-- ===== src/Report/Signing/RoundTrip.antt =====
-- What a key pair signs, it verifies.
use darcbench.Base.{
  ℕ, ◌≡◌, refl, subst, nat_eq, string_eq, some, Option-cases, inl, inr, List, arith,
}
use darcbench.Base.Result.{ok}
use darcbench.Report.Signing.{Signature, Crypto, IsSound, sign, signature_of, verify, or_err}

module _ {P : Type 0} (c : Crypto P) (i : IsSound P c) where
  verify-signature_of :
      (seed bytes : List ℕ) (p : P)
      → c.canonical_json p ≡ some bytes
      → verify c p (signature_of c seed bytes) ≡ ok tt
  unfolding verify or_err signature_of
  verify-signature_of seed bytes p e =
      rw
        (
          i.decode-encode (c.public_of seed),
          i.decode-encode (c.sign_bytes seed bytes),
          i.public_bytes seed,
          i.public_point seed,
          i.signature_bytes seed bytes,
          e,
          i.verify-sign seed bytes,
        )
        refl

  pub verify-sign :
      (seed : List ℕ) (p : P) (s : Signature) → sign c seed p ≡ ok s → verify c p s ≡ ok tt
  unfolding sign or_err
  verify-sign seed p s h = elim (Option-cases (c.canonical_json p)) [
    | inl e ↦ absurd (ground (arith, rw e at h))
    | inr (bytes, e) ↦
        let q : signature_of c seed bytes ≡ s = ground (arith, rw e at h) in
        subst (λ s'. verify c p s' ≡ ok tt) q (verify-signature_of seed bytes p e)
  ]
