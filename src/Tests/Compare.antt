-- ===== src/Tests/Compare.antt =====
-- Two runs that are compared.
use darcbench.Base.{
  ℕ, ◌+◌, ◌≡◌, refl, ◌↔◌, ◌⊎◌, true, String, [], ◌∷◌, All, In, length, is_nil, map, string_eq,
}
use darcbench.Base.Map.{lookup}
use darcbench.Base.Num.Fixed.{Fixed, fixed, fixed_float}
use darcbench.Protocol.Metrics.{Direction, lower_is_better, higher_is_better}
use darcbench.Protocol.Run.{ResultState}
use darcbench.Agent.Index.{IndexedRun}
use darcbench.Agent.Index.Compare.{
  IndexedMetric, MetricDelta, Stored, Basket, agent_version, metrics_of, baskets_of, delta_of,
  only_in, compare,
}
use darcbench.Agent.Index.Compare.Unmatched.{IsMissed, IsAlone}
use darcbench.Agent.Index.Compare.Lined.{IsRow, compare_iff}
use darcbench.Agent.Index.Compare.Comparable.{IsSameSetting, IsAlike, compare-comparable}

abbrev run : String → String → IndexedRun
run id version = record {
  run_id = id;
  profile = "web";
  result_state = ResultState.validated;
  finished_at = 0;
  scoring_model = "dbs/0.2.0";
  agent_version = version;
  build_target = "x86_64-unknown-linux-gnu";
  environment_digest = "sha256:11";
}

abbrev metric : String → ℕ → Direction → IndexedMetric Fixed
metric key n direction = record {
  module_id = "storage.sync";
  metric_key = key;
  value = fixed n;
  unit = "us";
  direction = direction;
}

abbrev stored : String → String → ℕ → String → Stored Fixed
stored id version n modules = record {
  run = run id version;
  metrics =
      record { cycle = 0; metric = metric "latency.mean" n lower_is_better }
      ∷ record { cycle = 1; metric = metric "latency.mean" 7 lower_is_better }
      ∷ record { cycle = 0; metric = metric id 5 higher_is_better }
      ∷ [];
  categories = ("Web", modules) ∷ [];
}

abbrev older : Stored Fixed
older = stored "a" "0.1.0" 2_000_000 "web.static,php.runtime"

abbrev newer : Stored Fixed
newer = stored "b" "0.2.0" 4_000_000 "php.runtime,,web.static"

-- The order of the modules is no difference, and a latency that doubled is half as good.
runs_differ :
    ((compare older newer).incomparable_reasons ≡ agent_version "0.1.0" "0.2.0" ∷ [])
    × ((compare older newer).unmatched
        ≡ "storage.sync/a (baseline only)" ∷ "storage.sync/b (candidate only)" ∷ [])
    × (map (λ (d : MetricDelta Fixed). d.ratio) (compare older newer).metrics ≡ fixed 500_000 ∷ [])
unfolding compare metrics_of baskets_of lookup
runs_differ = (refl, refl, refl)

compare_iff_example :
    (In
        (delta_of
          (metric "latency.mean" 2_000_000 lower_is_better)
          (metric "latency.mean" 4_000_000 lower_is_better))
        (compare older newer).metrics
      ↔ IsRow (metrics_of newer.metrics) (metrics_of older.metrics) (
          delta_of
            (metric "latency.mean" 2_000_000 lower_is_better)
            (metric "latency.mean" 4_000_000 lower_is_better)))
    × (In "storage.sync/a (baseline only)" (compare older newer).unmatched ↔ (
        IsMissed
          (metrics_of newer.metrics)
          (metrics_of older.metrics)
          "storage.sync/a (baseline only)"
        ⊎ IsAlone
            (metrics_of older.metrics)
            (metrics_of newer.metrics)
            "storage.sync/a (baseline only)"))
    × (length (compare older newer).metrics + length (compare older newer).unmatched
        ≡ length (metrics_of older.metrics)
          + length (only_in (metrics_of older.metrics) (metrics_of newer.metrics)))
compare_iff_example =
    compare_iff older newer
      (delta_of (metric "latency.mean" 2_000_000 lower_is_better)
        (metric "latency.mean" 4_000_000 lower_is_better))
      "storage.sync/a (baseline only)"

compare-comparable_example :
    (((compare older newer).comparable ≡ true) ↔ (
      IsSameSetting older.run newer.run
      × All
          (λ (p : String × Basket). IsAlike (p.1) (lookup (p.0) (baskets_of newer.categories)))
          (baskets_of older.categories)))
    × ((compare older newer).comparable ≡ is_nil (compare older newer).incomparable_reasons)
compare-comparable_example = compare-comparable older newer
