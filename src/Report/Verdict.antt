-- ===== src/Report/Verdict.antt =====
-- crates/darcbench-report/src/validate.rs: the reasons of a verdict, and how one is chosen.
pub mod Dedup
use darcbench.Base.{
  Bool, true, false, not, ◌&&◌, Option, none, some, String, List, [], ◌∷◌, ◌++◌, any, if◌then◌else◌,
  ◌==◌, nat_eq, string_eq,
}
use darcbench.Base.Result.{is_ok}
use darcbench.Base.Text.{codes}
use darcbench.Protocol.Ids.{module_id_from_str}
use darcbench.Protocol.Run.{
  RunState, VerdictReason, reason_eq, required_module_missing, module_failed, excessive_variance,
  module_degraded, load_generator_saturated, environment_changed_mid_run, clock_anomaly,
  error_rate_exceeded, insufficient_disk_space, interrupted, missing_metadata, custom_profile,
  incompatible_benchmark_version, signature_invalid, score_recomputation_mismatch, replay_detected,
}
use darcbench.Protocol.Metrics.{
  Metric, ModuleResult, Warning, high_variance, generator_saturated, degrades_result,
}
use darcbench.Scoring.Category.{
  CategoryKey, compute, memory, storage, network, web, database, deployment,
}

-- The locals `reasons` and `fatal`.
pub record Findings : Type 0 where
  pub reasons : List VerdictReason
  pub fatal : Bool

abbrev pub note : VerdictReason → Findings → Findings
note r s = record s { reasons = s.reasons ++ (r ∷ []) }

abbrev pub fail : VerdictReason → Findings → Findings
fail r s = record { reasons = s.reasons ++ (r ∷ []); fatal = true }

-- the first degrading warning, or one of the two that have reasons of their own
unfoldable pub degradation_from : String → Option String → List Warning → VerdictReason
degradation_from id (some message) [] = module_degraded id message
degradation_from id none [] =
    module_degraded id "the module reported itself degraded without a reason"
degradation_from id declared (w ∷ ws) =
    let rest =
      degradation_from id
        (if degrades_result w.code
          then elim declared [ some m ↦ some m | none ↦ some w.message ]
          else declared)
        ws in
    elim (w.code) [
      | high_variance ↦ excessive_variance id
      | generator_saturated ↦ load_generator_saturated id
      | _ ↦ rest
    ]

unfoldable pub degradation_reason : {F : Type 0} → ModuleResult F → VerdictReason
unfolding degradation_from
degradation_reason m = degradation_from m.id none m.warnings

unfoldable pub placeholder_module_for : CategoryKey → String
placeholder_module_for compute = "cpu.mixed"
placeholder_module_for memory = "memory.bandwidth"
placeholder_module_for storage = "storage.mixed"
placeholder_module_for network = "network.transfer"
placeholder_module_for web = "web.static"
placeholder_module_for database = "database.oltp"
placeholder_module_for deployment = "deployment.container"

unfoldable pub is_partial_reason : VerdictReason → Bool
is_partial_reason (required_module_missing _) = true
is_partial_reason (module_failed _) = true
is_partial_reason (excessive_variance _) = true
is_partial_reason (module_degraded _ _) = true
is_partial_reason (load_generator_saturated _) = true
is_partial_reason error_rate_exceeded = true
is_partial_reason (incompatible_benchmark_version _ _) = true
is_partial_reason (missing_metadata _) = true
is_partial_reason interrupted = false
is_partial_reason clock_anomaly = false
is_partial_reason signature_invalid = false
is_partial_reason score_recomputation_mismatch = false
is_partial_reason replay_detected = false
is_partial_reason environment_changed_mid_run = false
is_partial_reason insufficient_disk_space = false
is_partial_reason custom_profile = false

unfoldable pub cv_is_evidence_of_instability : {F : Type 0} → Metric F → Bool
cv_is_evidence_of_instability m = not m.measures_dispersion && not m.tail_quantile

-- a reason that is not in the list yet goes to its end
unfoldable pub dedup_onto : List VerdictReason → List VerdictReason → List VerdictReason
dedup_onto seen [] = seen
dedup_onto seen (r ∷ rs) = dedup_onto (if any (λ s. s == r) seen then seen else seen ++ (r ∷ [])) rs

unfoldable pub check_state : RunState → Findings → Findings
check_state RunState.completed s = s
check_state _ s = fail interrupted s

unfoldable pub check_missing : String → Bool → Findings → Findings
check_missing field present s = if present then s else note (missing_metadata field) s

unfoldable pub note_categories : List CategoryKey → Findings → Findings
note_categories [] s = s
note_categories (k ∷ ks) s = note_categories ks (
    if is_ok (module_id_from_str (codes (placeholder_module_for k)))
    then note (required_module_missing (placeholder_module_for k)) s
    else s)
