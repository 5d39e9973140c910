-- ===== src/Tests/Scores.antt =====
-- Scores, texts and bundles at concrete values.
use darcbench.Base.{
  ◌≢◌, none, String, string_eq, ◌≡◌, refl, ◌↔◌, ◌⊎◌, ◌||◌, not, true, false, some, map, All,
  is_some, In, inl, [], ◌∷◌,
}
use darcbench.Base.Num.Fixed.{Fixed, fixed, fixed_float, Fixed-IsOrdered}
use darcbench.Protocol.Run.{Profile}
use darcbench.Scoring.Card.{CategoryOutcome}
use darcbench.Scoring.Category.{compute, memory, storage, network, web}
use darcbench.Base.Num.{sum_f, sum_from, sort_f, sort_onto, insert_f, clamp}
use darcbench.Base.Map.{lookup, modify, set_insert}
use darcbench.Protocol.Stats.{weighted_geometric_mean, median_of_sorted, at}
use darcbench.Protocol.Stats.Means.{is_some-weighted_geometric_mean}
use darcbench.Scoring.Category.{standard_weight}
use darcbench.Scoring.Reference.{get, point}
use darcbench.Scoring.Sustained.{
  scoring_cycle, complete_cycles, seen_in, see_all, see, full_cycles, median,
}
use darcbench.Scoring.Model.{
  score_run, weakest, uncapped_total_of, categories_of, stability_index_of,
}
use darcbench.Scoring.Sustained.Eligible.{scoreable}
use darcbench.Scoring.Sustained.Cycles.{completed_in, complete_cycles_lem}
use darcbench.Scoring.Reference.{ReferencePoint, provisional_reference, reference_dbs_0_1_0_dev}
use darcbench.Scoring.Reference.Older.{or_else, last_of, latencies, get-reference_dbs_0_1_0_dev}
use darcbench.Protocol.Metrics.{ModuleStatus}
use darcbench.Scoring.Model.Eligible.{HasScore, score_run-scoreable, total_is_standard-score_run}
use darcbench.Scoring.Model.Cap.{total-score_run}
use darcbench.Scoring.Buckets.{bucket_all, no_buckets, add_module, add_metrics, normalise}
use darcbench.Scoring.Buckets.Ratios.{HasRatios, bucket_all-HasRatios}
use darcbench.Tests.Data.{modules, reference, model, module_of, metric_of}

score_run-scoreable_example :
    score_run model Profile.quick (scoreable modules) ≡ score_run model Profile.quick modules
score_run-scoreable_example = score_run-scoreable model Profile.quick modules

total_is_standard-score_run_example :
    ((score_run model Profile.quick modules).total_is_standard ≡ true) ↔ (
      (Profile.quick ≢ Profile.custom)
      × (Profile.quick ≢ Profile.read_only)
      × All
          (HasScore (score_run model Profile.quick modules).categories)
          (compute ∷ memory ∷ storage ∷ network ∷ web ∷ []))
total_is_standard-score_run_example = total_is_standard-score_run model Profile.quick modules

bucket_all-HasRatios_example : HasRatios reference (bucket_all reference 0 modules no_buckets)
bucket_all-HasRatios_example = bucket_all-HasRatios reference 0 modules

uncapped : (score_run model Profile.quick modules).uncapped_total ≡ some (fixed 20_842_105_000)
unfolding score_run uncapped_total_of categories_of bucket_all no_buckets add_module add_metrics
    normalise scoring_cycle complete_cycles seen_in see_all see full_cycles set_insert modify lookup
    get point weighted_geometric_mean sum_f sum_from stability_index_of median median_of_sorted
    sort_f sort_onto insert_f at clamp standard_weight
uncapped = refl

weakest_score :
    weakest (
      map
        (λ (c : CategoryOutcome Fixed). c.score)
        (score_run model Profile.quick modules).categories)
    ≡ some (fixed 1_000_000_000)
unfolding weakest score_run uncapped_total_of categories_of bucket_all no_buckets add_module
    add_metrics normalise scoring_cycle complete_cycles seen_in see_all see full_cycles set_insert
    modify lookup get point weighted_geometric_mean sum_f sum_from stability_index_of median
    median_of_sorted sort_f sort_onto insert_f at clamp standard_weight
weakest_score = refl

-- A total of 20842 is capped at four times the weakest category, 1000.
total-score_run_example :
    (t : Fixed) × ((score_run model Profile.quick modules).total ≡ some t)
    × (fixed_float.fle t (fixed 20_842_105_000) ≡ true)
    × (fixed_float.fle t (fixed 4_000_000_000) ≡ true)
    × ((t ≡ fixed 20_842_105_000) ⊎ (t ≡ fixed 4_000_000_000))
    × All
        (λ (c : CategoryOutcome Fixed).
          (not (is_some c.score) || fixed_float.fle (fixed 1_000_000_000) c.score) ≡ true)
        (score_run model Profile.quick modules).categories
total-score_run_example =
    total-score_run Fixed-IsOrdered model Profile.quick modules (fixed 20_842_105_000)
      (fixed 1_000_000_000) refl uncapped weakest_score refl refl

-- The first of the modules completed in cycle 0, which is complete.
complete : In 0 (complete_cycles modules)
unfolding complete_cycles full_cycles seen_in see_all see set_insert modify
complete = inl refl

complete_cycles_lem_example :
    All (λ c. completed_in modules c "cpu" ≡ true) (complete_cycles modules)
    × (In (scoring_cycle modules) (complete_cycles modules)
        ⊎ ((complete_cycles modules ≡ []) × (scoring_cycle modules ≡ 0)))
complete_cycles_lem_example =
    complete_cycles_lem modules
      (module_of "cpu" ModuleStatus.completed
        (metric_of "a" 30_000_000 ∷ metric_of "b" 1_000_000 ∷ []))
      (inl refl) refl

get-reference_dbs_0_1_0_dev_example :
    (get {F = Fixed} reference_dbs_0_1_0_dev "network.transfer" "ttfb.mean"
      ≡ or_else
          (last_of "network.transfer/ttfb.mean" latencies)
          (get provisional_reference "network.transfer" "ttfb.mean"))
    × All
        (λ (p : String × ReferencePoint Fixed).
          lookup (p.0) (provisional_reference {F = Fixed}).points ≡ none)
        latencies
get-reference_dbs_0_1_0_dev_example = get-reference_dbs_0_1_0_dev "network.transfer" "ttfb.mean"

-- A weight of 0 takes the value away.
is_some-weighted_geometric_mean_example :
    is_some (weighted_geometric_mean ((fixed 5, fixed 1) ∷ (fixed 3, fixed 0) ∷ [])) ≡ false
unfolding sum_f sum_from
is_some-weighted_geometric_mean_example =
    is_some-weighted_geometric_mean ((fixed 5, fixed 1) ∷ (fixed 3, fixed 0) ∷ [])
