-- ===== src/Protocol/External/Report.antt =====
-- crates/darcbench-protocol/src/external.rs: what the generator reports, and how the target holds it
-- against its own count of requests.
use darcbench.Base.{ℕ, ◌-◌, not, Option, String, List, [], ◌∷◌, is_nil, ltb, ◌==◌, string_eq}
use darcbench.Base.Result.{Result, check, ◌>>=◌, ◌>>◌}
use darcbench.Base.Words.{saturating_add}
use darcbench.Protocol.External.{external_protocol_version, reconcile_slack_requests}
pub mod Reconcile

pub record LatencySummary (F : Type 0) : Type 0 where
  pub count : ℕ
  pub mean_ms : F
  pub p50_ms : F
  pub p90_ms : F
  pub p99_ms : F
  pub max_ms : F

pub record ShapeReport (F : Type 0) : Type 0 where
  pub shape : String
  pub object_bytes : ℕ
  pub requests_scheduled : ℕ
  pub requests_completed : ℕ
  pub requests_failed : ℕ
  pub requests_warmup : ℕ
  pub error_examples : List String
  pub bytes : ℕ
  pub offered_rate_per_s : F
  pub achieved_rate_per_s : F
  pub service_ms : LatencySummary F
  pub response_ms : LatencySummary F
  pub saturation : Option String
  pub generator_cpu_pct : F

pub record GeneratorIdentity : Type 0 where
  pub agent_version : String
  pub os : String
  pub arch : String
  pub cpus : ℕ

pub record SessionReport (F : Type 0) : Type 0 where
  pub protocol : String
  pub session_id : String
  pub generator : GeneratorIdentity
  pub shapes : List (ShapeReport F)
  pub clamps : List String

pub data ReportRejected : Type 0 where
  unsupported_protocol : String → String → ReportRejected
  wrong_session : String → String → ReportRejected
  empty : ReportRejected
  claim_exceeds_served : ℕ → ℕ → ReportRejected
  unaccounted_load : ℕ → ℕ → ℕ → ℕ → ReportRejected

module _ {F : Type 0} where
  unfoldable pub successful_from : ℕ → List (ShapeReport F) → ℕ
  successful_from total [] = total
  successful_from total (s ∷ ss) =
      successful_from (saturating_add (saturating_add total s.requests_completed) s.requests_warmup)
        ss

  unfoldable pub claimed_from : ℕ → List (ShapeReport F) → ℕ
  claimed_from total [] = total
  claimed_from total (s ∷ ss) =
      claimed_from
        (saturating_add
          (saturating_add (saturating_add total s.requests_completed) s.requests_failed)
          s.requests_warmup)
        ss

  unfoldable pub successful_requests : SessionReport F → ℕ
  unfolding successful_from
  successful_requests r = successful_from 0 r.shapes

  unfoldable pub claimed_requests : SessionReport F → ℕ
  unfolding claimed_from
  claimed_requests r = claimed_from 0 r.shapes

  unfoldable pub reconcile : SessionReport F → String → ℕ → Result ReportRejected (Unit {0})
  unfolding successful_requests claimed_requests
  reconcile r expected_session served =
      let successful = successful_requests r in
      let claimed = claimed_requests r in
      let excess = served - claimed in
      check (r.protocol == external_protocol_version)
        (unsupported_protocol r.protocol external_protocol_version)
      >> check (r.session_id == expected_session) (wrong_session r.session_id expected_session)
      >> check (not (is_nil r.shapes)) empty
      >> check (not (ltb served successful)) (claim_exceeds_served successful served)
      >> check (not (ltb reconcile_slack_requests excess))
          (unaccounted_load claimed served excess reconcile_slack_requests)
