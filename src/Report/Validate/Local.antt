-- ===== src/Report/Validate/Local.antt =====
-- What validation on the machine that ran the benchmark may conclude.
use darcbench.Base.{◌≡◌, refl, Bool, false, Option, none, some, List, arith}
use darcbench.Base.Num.{Float}
use darcbench.Protocol.Run.{
  ResultState, local, self_reported, validated, verified, official, invalid, partial, custom,
  is_rankable, VerdictReason,
}
use darcbench.Report.Signing.{Crypto, Signature}
use darcbench.Report.Bundle.{Bundle, state_with, local_result_state}
use darcbench.Report.Validate.{state_of, validate_bundle}

state_with-unranked :
    (s : ResultState) (g : Option Signature) → is_rankable (state_with s g) ≡ false
unfolding state_with is_rankable
state_with-unranked invalid g = refl
state_with-unranked local none = refl
state_with-unranked local (some g) = refl
state_with-unranked self_reported none = refl
state_with-unranked self_reported (some g) = refl
state_with-unranked validated none = refl
state_with-unranked validated (some g) = refl
state_with-unranked verified none = refl
state_with-unranked verified (some g) = refl
state_with-unranked official none = refl
state_with-unranked official (some g) = refl
state_with-unranked partial none = refl
state_with-unranked partial (some g) = refl
state_with-unranked custom none = refl
state_with-unranked custom (some g) = refl

module _ {F : Type 0} ⦃f : Float F⦄ where
  state_of-unranked :
      (b : Bundle F) (fatal missing : Bool) (rs : List VerdictReason)
      → is_rankable (state_of b false fatal missing rs) ≡ false
  unfolding state_of is_rankable local_result_state
  state_of-unranked b fatal missing rs =
      ground (arith, state_with-unranked (b.verdict.state) b.signature)

  -- An agent that validates its own bundle never gives it a state that a leaderboard would rank,
  -- whatever the bundle claims of itself.
  pub is_rankable-validate_bundle :
      (c : Crypto (Bundle F)) (b : Bundle F)
      → is_rankable (validate_bundle c b false).verdict.state ≡ false
  unfolding validate_bundle
  is_rankable-validate_bundle c b = state_of-unranked b _ _ _
