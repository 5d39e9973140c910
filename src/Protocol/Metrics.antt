-- ===== src/Protocol/Metrics.antt =====
-- crates/darcbench-protocol/src/metrics.rs: the raw evidence. Labels, units and the free-form
-- context of a module are display text that no modelled code reads, and are left out.
use darcbench.Base.{ℕ, Bool, true, false, Option, List, String}
use darcbench.Protocol.Run.{ModuleId}
use darcbench.Protocol.Stats.{Summary}

pub data Direction : Type 0 where
  higher_is_better lower_is_better : Direction

pub record MetricSample (F : Type 0) : Type 0 where
  pub rep : ℕ
  pub value : F
  pub duration_ms : F
  pub warmup : Bool

pub record Metric (F : Type 0) : Type 0 where
  pub key : String
  pub direction : Direction
  pub value : F
  pub summary : Summary F
  pub samples : List (MetricSample F)
  pub outliers : List ℕ
  pub measures_dispersion : Bool
  pub tail_quantile : Bool

pub data ModuleStatus : Type 0 where
  completed degraded failed cancelled skipped : ModuleStatus

-- `matches!(status, Completed | Degraded)`
abbrev pub is_scoreable : ModuleStatus → Bool
is_scoreable completed = true
is_scoreable degraded = true
is_scoreable _ = false

pub data WarningCode : Type 0 where
  high_variance steal_time_observed frequency_drop thermal_throttle : WarningCode
  preexisting_load external_load memory_pressure container_scoped : WarningCode
  validation_failed generator_saturated informational : WarningCode

unfoldable pub degrades_result : WarningCode → Bool
degrades_result high_variance = true
degrades_result validation_failed = true
degrades_result memory_pressure = true
degrades_result thermal_throttle = true
degrades_result external_load = true
degrades_result generator_saturated = true
degrades_result _ = false

pub record Warning : Type 0 where
  pub code : WarningCode
  pub message : String
  pub metric_key : Option String

pub record ModuleResult (F : Type 0) : Type 0 where
  pub id : ModuleId
  pub version : String
  pub status : ModuleStatus
  pub cycle : ℕ
  pub started_at : ℕ
  pub finished_at : ℕ
  pub metrics : List (Metric F)
  pub warnings : List Warning
  pub error : Option String
