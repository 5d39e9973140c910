-- ===== src/Tests/Data.antt =====
-- The values that the tests share.
use darcbench.Base.{ℕ, true, false, none, some, String, List, [], ◌∷◌}
use darcbench.Base.Num.Fixed.{Fixed, fixed, fixed_float}
use darcbench.Protocol.Run.{Profile, RunState, ResultState}
use darcbench.Protocol.Stats.{Summary}
use darcbench.Protocol.Metrics.{higher_is_better, Metric, ModuleStatus, ModuleResult}
use darcbench.Scoring.Category.{compute, memory}
use darcbench.Scoring.Reference.{ReferenceProfile, point}
use darcbench.Scoring.Card.{ScoringModel, ScoreCard}
use darcbench.Report.Bundle.{Bundle}

abbrev pub steady : Summary Fixed
steady = record {
  n = 3;
  min = fixed 2_000_000;
  max = fixed 2_000_000;
  mean = fixed 2_000_000;
  median = fixed 2_000_000;
  stddev = fixed 0;
  cv = some (fixed 0);
  ci95 = none;
  mad = some (fixed 0);
}

abbrev pub metric_of : String → ℕ → Metric Fixed
metric_of key value = record {
  key = key;
  direction = higher_is_better;
  value = fixed value;
  summary = steady;
  samples = [];
  outliers = [];
  measures_dispersion = false;
  tail_quantile = false;
}

abbrev pub module_of : String → ModuleStatus → List (Metric Fixed) → ModuleResult Fixed
module_of id status metrics = record {
  id = id;
  version = "1.0.0";
  status = status;
  cycle = 0;
  started_at = 0;
  finished_at = 1;
  metrics = metrics;
  warnings = [];
  error = none;
}

-- one module that completed, one that failed
abbrev pub modules : List (ModuleResult Fixed)
modules =
    module_of "cpu" ModuleStatus.completed (metric_of "a" 30_000_000 ∷ metric_of "b" 1_000_000 ∷ [])
    ∷ module_of "disk" ModuleStatus.failed (metric_of "a" 7_000_000 ∷ [])
    ∷ []

abbrev pub reference : ReferenceProfile Fixed
reference = record {
  name = "test";
  calibrated = true;
  points =
      ("cpu/a", point (fixed 1_000_000) (fixed 1_000_000) compute none)
      ∷ ("cpu/b", point (fixed 1_000_000) (fixed 1_000_000) memory none)
      ∷ [];
}

abbrev pub model : ScoringModel Fixed
model = record {
  version = "test";
  reference = reference;
  stability_penalty_span = fixed 100_000;
  cv_ceiling = fixed 200_000;
  weak_link_cap_factor = fixed 4_000_000;
}

abbrev pub card : ScoreCard Fixed
card = record {
  scoring_model = "dbs/0.2.0-dev";
  reference_profile = "DARC-REF-1";
  uncalibrated = true;
  profile = Profile.quick;
  total = none;
  total_is_standard = false;
  categories = [];
  facets = [];
  composites = [];
  stability_score = fixed 500_000_000;
  stability_index = fixed 500_000;
  stability_multiplier = fixed 950_000;
  uncapped_total = none;
  weak_link_applied = false;
  balance_index = none;
  efficiency_score = none;
  median_cv = none;
  instability_flags = 0;
  missing_required_categories = [];
  unreferenced_metrics = [];
  sustained = none;
}

abbrev pub bundle : Bundle Fixed
bundle = record {
  meta = record {
    schema = "1";
    protocol = "1";
    agent_version = "0.1.0";
    build_target = "x86_64";
    build_profile = "release";
    generated_at = 2;
  };
  run = record {
    run_id = "run_0";
    profile = Profile.quick;
    state = RunState.completed;
    started_at = 0;
    finished_at = 1;
    duration_ms = 1;
    modules = "cpu" ∷ [];
    environment_digest = "e";
    events_digest = "d";
    event_count = 1;
    stopped_because = none;
    guards_not_enforced = [];
  };
  environment = record { logical_cpus = 4; total_bytes = 1024 };
  modules = modules;
  scores = card;
  verdict = record { state = ResultState.official; reasons = []; validator_version = "0" };
  signature = none;
}
