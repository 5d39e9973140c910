-- ===== src/Report/Validate.antt =====
-- crates/darcbench-report/src/validate.rs: `validate_bundle`, one function for each section of its
-- body, run in the order of the source over the reasons found so far and the fatal flag.
pub mod Steady
pub mod Quiet
pub mod Sound
pub mod Local
pub mod Fatal
use Prim.Native.String
use darcbench.Base.{
  ℕ, Bool, true, false, not, ◌||◌, ◌&&◌, Option, none, some, String, List, [], ◌∷◌, ◌++◌, any,
  is_nil, if◌then◌else◌, ltb, ◌==◌, nat_eq, string_eq,
}
use darcbench.Base.Num.{Float}
use darcbench.Base.Result.{Result, ok, err, is_ok}
use darcbench.Base.Text.{codes}
use darcbench.Protocol.Ids.{module_id_from_str}
use darcbench.Protocol.Run
use darcbench.Protocol.Run.{
  RunState, ResultState, Verdict, VerdictReason, reason_eq, is_standard, required_module_missing,
  module_failed, excessive_variance, module_degraded, load_generator_saturated,
  environment_changed_mid_run, clock_anomaly, error_rate_exceeded, insufficient_disk_space,
  interrupted, missing_metadata, custom_profile, incompatible_benchmark_version, signature_invalid,
  score_recomputation_mismatch, replay_detected,
}
use darcbench.Protocol.Metrics
use darcbench.Protocol.Metrics.{
  ModuleStatus, Metric, ModuleResult, Warning, WarningCode, high_variance, generator_saturated,
  degrades_result,
}
use darcbench.Protocol.Stats.{is_unstable}
use darcbench.Scoring.Category.{
  CategoryKey, compute, memory, storage, network, web, database, deployment,
}
use darcbench.Scoring.Card.{ScoringModel, ScoreCard}
use darcbench.Scoring.Model.{scoring_model_version, for_version, score_run}
use darcbench.Report.Signing.{Crypto, SigningError}
use darcbench.Report.Bundle.{Bundle, verify_signature, local_result_state}
use darcbench.Report.Verdict.{
  Findings, note, fail, degradation_reason, is_partial_reason, cv_is_evidence_of_instability,
  dedup_onto, check_state, check_missing, note_categories,
}
use darcbench.Report.Match.{scores_match}

abbrev pub validator_version : String
validator_version = "dbv/0.1.0"

-- crates/darcbench-protocol/src/lib.rs
abbrev pub bundle_schema_version : String
bundle_schema_version = "darcbench.bundle/1"

pub record ValidationOutcome : Type 0 where
  pub verdict : Verdict
  pub recomputation_matched : Option Bool
  pub mismatch_field : Option String

-- What the server path leaves in its locals.
pub record Recomputation (F : Type 0) : Type 0 where
  pub findings : Findings
  pub matched : Option Bool
  pub field : Option String
  pub recomputed : Option (ScoreCard F)

abbrev pub not_attempted : {F : Type 0} → Findings → Recomputation F
not_attempted s = record { findings = s; matched = none; field = none; recomputed = none }

check_signature : Result SigningError (Unit {0}) → Findings → Findings
check_signature (ok _) s = s
check_signature (err _) s = fail signature_invalid s

module _ {F : Type 0} ⦃f : Float F⦄ where
  abbrev pub max_acceptable_cv : F
  max_acceptable_cv = f.lit 25 2

  unfoldable pub check_status : ModuleStatus → ModuleResult F → Findings → Findings
  check_status ModuleStatus.completed m s = s
  check_status ModuleStatus.degraded m s = note (degradation_reason m) s
  check_status ModuleStatus.failed m s = note (module_failed m.id) s
  check_status ModuleStatus.cancelled m s = fail interrupted s
  check_status ModuleStatus.skipped m s = note (required_module_missing m.id) s

  -- The loop with its `continue` and `break`: at the first evidence, one reason.
  abbrev pub has_excess : Metric F → Bool
  has_excess m = cv_is_evidence_of_instability m && is_unstable m.summary max_acceptable_cv

  unfoldable pub check_metrics : String → List (Metric F) → Findings → Findings
  check_metrics id ms s = if any has_excess ms then note (excessive_variance id) s else s

  unfoldable pub check_modules : List (ModuleResult F) → Findings → Findings
  unfolding check_status check_metrics
  check_modules [] s = s
  check_modules (m ∷ ms) s =
      check_modules ms (check_metrics m.id m.metrics (check_status m.status m s))

  unfoldable pub check_schema : Bundle F → Findings → Findings
  check_schema b s =
      if b.meta.schema == bundle_schema_version
      then s
      else fail (incompatible_benchmark_version b.meta.schema bundle_schema_version) s

  unfoldable pub check_build : Bundle F → Findings → Findings
  check_build b s =
      if b.meta.build_profile == "release"
      then s
      else note
          (incompatible_benchmark_version (String.◌++◌ "build_profile=" b.meta.build_profile)
            "build_profile=release")
          s

  unfoldable pub check_metadata : Bundle F → Findings → Findings
  unfolding check_missing
  check_metadata b s = check_missing "run.events_digest" (not (b.run.events_digest == "")) (
      check_missing "run.environment_digest" (not (b.run.environment_digest == "")) (
        check_missing "environment.memory.total_bytes" (ltb 0 b.environment.total_bytes)
          (check_missing "environment.cpu.logical_cpus" (ltb 0 b.environment.logical_cpus) s)))

  unfoldable pub check_clock : Bundle F → Findings → Findings
  check_clock b s = if ltb b.run.finished_at b.run.started_at then fail clock_anomaly s else s

  unfoldable pub check_profile : Bundle F → Findings → Findings
  check_profile b s = if is_standard b.run.profile then s else note custom_profile s

  -- The sections before the signature, in order.
  unfoldable pub check_local : Bundle F → Findings
  check_local b = check_profile b (
      check_clock b (
        check_metadata b (
          check_modules b.modules (
            check_build b (
              check_schema b (check_state b.run.state (record { reasons = []; fatal = false })))))))

  match_result : Findings → ScoreCard F → Result String (Unit {0}) → Recomputation F
  match_result s recomputed (ok _) = record {
    findings = s;
    matched = some true;
    field = none;
    recomputed = some recomputed;
  }
  match_result s recomputed (err field) = record {
    findings = fail score_recomputation_mismatch s;
    matched = some false;
    field = some field;
    recomputed = some recomputed;
  }

  recompute : Bundle F → Option (ScoringModel F) → Findings → Recomputation F
  unfolding match_result
  recompute b none s =
      not_attempted
        (fail (incompatible_benchmark_version b.scores.scoring_model scoring_model_version) s)
  recompute b (some model) s =
      let recomputed = score_run model b.run.profile b.modules in
      match_result s recomputed (scores_match recomputed b.scores)

  -- the recomputed card where there is one
  unfoldable pub authoritative : Bundle F → Recomputation F → ScoreCard F
  authoritative b r = elim (r.recomputed) [ some card ↦ card | none ↦ b.scores ]

  unfoldable pub state_of : Bundle F → Bool → Bool → Bool → List VerdictReason → ResultState
  state_of b server_side fatal missing_required reasons =
      if fatal
      then ResultState.invalid
      else if not (is_standard b.run.profile)
      then ResultState.custom
      else if missing_required || any is_partial_reason reasons
      then ResultState.partial
      else if server_side
      then ResultState.validated
      else local_result_state b

  -- The reasons before duplicates are dropped.
  unfoldable pub all_reasons : Bundle F → Recomputation F → List VerdictReason
  unfolding note_categories
  all_reasons b r =
      (note_categories ((authoritative b r).missing_required_categories) r.findings).reasons

  module _ (c : Crypto (Bundle F)) where
    unfoldable pub check_server : Bundle F → Bool → Findings → Recomputation F
    unfolding recompute check_signature
    check_server b false s = not_attempted s
    check_server b true s =
        recompute b (for_version b.scores.scoring_model) (check_signature (verify_signature c b) s)

    unfoldable pub validate_bundle : Bundle F → Bool → ValidationOutcome
    validate_bundle b server_side =
        let r = check_server b server_side (check_local b) in
        let missing_required = not (is_nil ((authoritative b r).missing_required_categories)) in
        let reasons = dedup_onto [] (all_reasons b r) in
        record {
          verdict = record {
            state = state_of b server_side r.findings.fatal missing_required reasons;
            reasons = reasons;
            validator_version = validator_version;
          };
          recomputation_matched = r.matched;
          mismatch_field = r.field;
        }
