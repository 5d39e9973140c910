-- ===== src/Tests/Bundles.antt =====
-- Bundles that are signed and validated.
use darcbench.Base.{◌≡◌, refl, ◌↔◌, true, false, [], ◌∷◌, some, ◌||◌, not}
use darcbench.Base.Result.{ok, is_ok}
use darcbench.Base.Num.Fixed.{Fixed, fixed_float}
use darcbench.Protocol.Run.{ResultState, is_rankable, clock_anomaly, interrupted, reason_eq}
use darcbench.Scoring.Model.{for_version}
use darcbench.Report.Signing.{Signature, sign}
use darcbench.Report.Bundle.{Bundle, signable, sign_bundle, verify_signature}
use darcbench.Report.Bundle.Signed.{verify_signature-sign_bundle}
use darcbench.Report.Validate.{validate_bundle}
use darcbench.Report.Validate.Sound.{IsEligible, validate_bundle-validated}
use darcbench.Report.Validate.Fatal.{is_spoiled, is_contradicted, validate_bundle-invalid}
use darcbench.Report.Validate.Local.{is_rankable-validate_bundle}
use darcbench.Report.Verdict.{dedup_onto}
use darcbench.Tests.Data.{bundle}
use darcbench.Tests.Toy.{toy, toy-IsSound}

validate_bundle-validated_example :
    ((validate_bundle toy bundle true).verdict.state ≡ ResultState.validated)
    ↔ IsEligible toy bundle
validate_bundle-validated_example = validate_bundle-validated toy bundle

is_rankable-validate_bundle_example :
    is_rankable (validate_bundle toy bundle false).verdict.state ≡ false
is_rankable-validate_bundle_example = is_rankable-validate_bundle toy bundle

abbrev signature : Signature
signature = record {
  algorithm = "ed25519";
  canonicalization = "DCJ/1";
  public_key = toy.encode64 (toy.public_of []);
  value = toy.encode64 (toy.sign_bytes [] []);
  key_id = "key";
}

abbrev signed : Bundle Fixed
signed = record bundle { signature = some signature }

verify_signature-sign_bundle_example :
    (verify_signature toy signed ≡ ok tt) × (signable signed ≡ signable bundle)
verify_signature-sign_bundle_example =
    verify_signature-sign_bundle toy toy-IsSound [] bundle signed
      (unfold sign_bundle sign signable in refl)

each_once :
    dedup_onto [] (clock_anomaly ∷ interrupted ∷ clock_anomaly ∷ [])
    ≡ clock_anomaly ∷ interrupted ∷ []
unfolding dedup_onto
each_once = refl

validate_bundle-invalid_example :
    ((validate_bundle toy bundle true).verdict.state ≡ ResultState.invalid) ↔ (
      (is_spoiled bundle
        || (not (is_ok (verify_signature toy bundle))
            || is_contradicted bundle (for_version bundle.scores.scoring_model)))
      ≡ true)
validate_bundle-invalid_example = validate_bundle-invalid toy bundle
