-- ===== src/Report/Bundle/Signed.antt =====
-- What a signature on a bundle says.
use darcbench.Base.{ℕ, ◌≡◌, refl, subst, some, List, arith, inl, inr}
use darcbench.Base.Result.{ok, Result-cases}
use darcbench.Report.Signing.{Crypto, IsSound, sign}
use darcbench.Report.Signing.RoundTrip.{verify-sign}
use darcbench.Report.Bundle.{Bundle, signable, sign_bundle, verify_signature, set_signature}

module _ {F : Type 0} (c : Crypto (Bundle F)) (i : IsSound (Bundle F) c) where
  -- A bundle that was signed verifies, and carries the content it had before.
  pub verify_signature-sign_bundle :
      (seed : List ℕ) (b signed : Bundle F)
      → sign_bundle c seed b ≡ ok signed
      → (verify_signature c signed ≡ ok tt) × (signable signed ≡ signable b)
  unfolding sign_bundle verify_signature set_signature signable
  verify_signature-sign_bundle seed b signed h = elim (Result-cases (sign c seed (signable b))) [
    | inr (e, q) ↦ absurd (ground (arith, rw q at h))
    | inl (s, q) ↦
        let r : record b { signature = some s } ≡ signed = ground (arith, rw q at h) in
        subst (λ x. (verify_signature c x ≡ ok tt) × (signable x ≡ signable b)) r
          (verify-sign c i seed (signable b) s q, refl)
  ]
