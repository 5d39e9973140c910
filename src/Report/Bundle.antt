-- ===== src/Report/Bundle.antt =====
-- crates/darcbench-report/src/bundle.rs: a result and its signature. Of the inventory the bundle
-- carries, the two numbers that validation reads are kept; serde's field attributes are not modelled.
use darcbench.Base.{ℕ, Option, none, some, String, List}
use darcbench.Base.Result.{Result, ok, err}
use darcbench.Protocol.Run.{
  Profile, RunState, ResultState, local, self_reported, invalid, Verdict, ModuleId,
}
use darcbench.Protocol.Metrics.{ModuleResult}
use darcbench.Scoring.Card.{ScoreCard}
use darcbench.Report.Signing.{Signature, SigningError, bad_signature, Crypto, sign, verify}
pub mod Signed

pub record BundleMeta : Type 0 where
  pub schema : String
  pub protocol : String
  pub agent_version : String
  pub build_target : String
  pub build_profile : String
  pub generated_at : ℕ

pub record RunRecord : Type 0 where
  pub run_id : String
  pub profile : Profile
  pub state : RunState
  pub started_at : ℕ
  pub finished_at : ℕ
  pub duration_ms : ℕ
  pub modules : List ModuleId
  pub environment_digest : String
  pub events_digest : String
  pub event_count : ℕ
  pub stopped_because : Option String
  pub guards_not_enforced : List String

pub record Environment : Type 0 where
  pub logical_cpus : ℕ
  pub total_bytes : ℕ

pub record Bundle (F : Type 0) : Type 0 where
  pub meta : BundleMeta
  pub run : RunRecord
  pub environment : Environment
  pub modules : List (ModuleResult F)
  pub scores : ScoreCard F
  pub verdict : Verdict
  pub signature : Option Signature

unfoldable pub state_with : ResultState → Option Signature → ResultState
state_with invalid s = invalid
state_with _ (some s) = self_reported
state_with _ none = local

module _ {F : Type 0} where
  -- every field but the signature
  unfoldable pub signable : Bundle F → Bundle F
  signable b = record b { signature = none }

  unfoldable pub local_result_state : Bundle F → ResultState
  unfolding state_with
  local_result_state b = state_with (b.verdict.state) b.signature

  module _ (c : Crypto (Bundle F)) where
    set_signature : Bundle F → Result SigningError Signature → Result SigningError (Bundle F)
    set_signature b (ok s) = ok (record b { signature = some s })
    set_signature b (err e) = err e

    -- `sign` puts the signature into the bundle
    unfoldable pub sign_bundle : List ℕ → Bundle F → Result SigningError (Bundle F)
    unfolding set_signature
    sign_bundle seed b = set_signature b (sign c seed (signable b))

    unfoldable pub verify_signature : Bundle F → Result SigningError (Unit {0})
    verify_signature b = elim (b.signature) [
      | none ↦ err bad_signature
      | some s ↦ verify c (signable b) s
    ]
