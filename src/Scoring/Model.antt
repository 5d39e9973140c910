-- ===== src/Scoring/Model.antt =====
-- crates/darcbench-scoring/src/model.rs: `score_run`, from the buckets to the published card.
use darcbench.Base.{
  Bool, false, not, ◌&&◌, Option, none, some, String, List, [], ◌∷◌, map, length, is_nil, collect,
  keep, is_some, if◌then◌else◌, ◌==◌, string_eq, nat_eq,
}
use darcbench.Base.Num.{Float, zero_f, one_f, clamp, sum_f}
use darcbench.Base.Map.{Map, lookup, insert, string_lt}
use darcbench.Protocol.Run.{Profile, is_standard}
use darcbench.Protocol.Metrics.{ModuleResult}
use darcbench.Protocol.Stats.{geometric_mean, weighted_geometric_mean}
use darcbench.Scoring.Category.{
  CategoryKey, category_eq, all_categories, category_label, required_for_standard_total,
  standard_weight, CompositeKey, all_composites, composite_label, weights,
}
use darcbench.Scoring.Reference.{
  Facet, single_core, multi_core, facet_eq, facet_key, provisional_reference,
  reference_dbs_0_1_0_dev,
}
use darcbench.Scoring.Sustained.{analyse, scoring_cycle, median}
use darcbench.Scoring.Card.{ScoringModel, CategoryOutcome, CompositeOutcome, ScoreCard}
use darcbench.Scoring.Buckets.{Buckets, no_buckets, bucket_all}
pub mod Cap
pub mod Eligible

-- lib.rs
abbrev pub scoring_model_version : String
scoring_model_version = "dbs/0.2.0-dev"

module _ {F : Type 0} ⦃f : Float F⦄ where
  abbrev pub reference_anchor : F
  reference_anchor = f.lit 1000 0

  unfoldable pub current : ScoringModel F
  current = record {
    version = scoring_model_version;
    reference = provisional_reference;
    stability_penalty_span = f.lit 1 1;
    cv_ceiling = f.lit 2 1;
    weak_link_cap_factor = f.lit 4 0;
  }

  superseded : ScoringModel F
  superseded = record {
    version = "dbs/0.1.0-dev";
    reference = reference_dbs_0_1_0_dev;
    stability_penalty_span = f.lit 1 1;
    cv_ceiling = f.lit 2 1;
    weak_link_cap_factor = f.lit 4 0;
  }

  unfoldable pub for_version : String → Option (ScoringModel F)
  unfolding superseded
  for_version version =
      if version == scoring_model_version
      then some current
      else if version == "dbs/0.1.0-dev"
      then some superseded
      else none

  fold_weakest : Option F → List F → Option F
  fold_weakest acc [] = acc
  fold_weakest none (v ∷ vs) = fold_weakest (some v) vs
  fold_weakest (some cur) (v ∷ vs) = fold_weakest (some (f.fmin cur v)) vs

  unfoldable pub weakest : List F → Option F
  unfolding fold_weakest
  weakest scores = fold_weakest none (keep f.is_finite scores)

  cap_by : F → F → Option F → F
  cap_by total factor none = total
  cap_by total factor (some min) =
      if f.flt zero_f factor then f.fmin total (f.mul min factor) else total

  unfoldable pub apply_weak_link_cap : F → List F → F → F
  unfolding cap_by
  apply_weak_link_cap total category_scores factor = cap_by total factor (weakest category_scores)

  category_outcome : Buckets F → CategoryKey → List (F × F) → F → CategoryOutcome F
  category_outcome b key pairs gm = record {
    key = key;
    label = category_label key;
    score = f.mul gm reference_anchor;
    weight = standard_weight key;
    metric_count = length pairs;
    modules = elim (lookup key b.modules_by_category) [ some ids ↦ ids | none ↦ [] ];
  }

  -- An empty bucket has no mean, so the test for one is `weighted_geometric_mean`'s own.
  category_of : Buckets F → CategoryKey → Option (CategoryOutcome F)
  unfolding category_outcome
  category_of b key = elim (lookup key b.by_category) [
    | none ↦ none
    | some pairs ↦ elim (weighted_geometric_mean pairs) [
      | none ↦ none
      | some gm ↦ some (category_outcome b key pairs gm)
    ]
  ]

  unfoldable pub categories_of : Buckets F → List (CategoryOutcome F)
  unfolding category_of
  categories_of b = collect (category_of b) all_categories

  insert_facet : Buckets F → Facet → Map String F → Map String F
  insert_facet b facet m = elim (lookup facet b.by_facet) [
    | none ↦ m
    | some pairs ↦ elim (weighted_geometric_mean pairs) [
      | none ↦ m
      | some gm ↦ insert (facet_key facet) (f.mul gm reference_anchor) m
    ]
  ]

  unfoldable pub facets_of : Buckets F → Map String F
  unfolding insert_facet
  facets_of b = insert_facet b multi_core (insert_facet b single_core [])

  unfoldable pub stability_index_of : F → Option F → F
  stability_index_of cv_ceiling median_cv = elim median_cv [
    | some cv ↦ clamp (f.sub one_f (f.div cv cv_ceiling)) zero_f one_f
    | none ↦ f.lit 5 1
  ]

  unfoldable pub present_of : List (CategoryOutcome F) → CategoryKey → Option F
  present_of cs key = lookup key (map (λ (c : CategoryOutcome F). (c.key, c.score)) cs)

  unfoldable pub missing_required_of : List (CategoryOutcome F) → List CategoryKey
  missing_required_of cs = keep (λ k. not (is_some (present_of cs k))) required_for_standard_total

  composite_outcome : CompositeKey → F → F → CompositeOutcome F
  composite_outcome composite covered gm = record {
    key = composite;
    label = composite_label composite;
    score = f.mul gm reference_anchor;
    weight_coverage = covered;
  }

  composite_pair : (CategoryKey → Option F) → CategoryKey × F → Option (F × F)
  composite_pair present (cat, w) = elim (present cat) [
    | some s ↦ some (f.div s reference_anchor, w)
    | none ↦ none
  ]

  unfoldable pub composite_of :
      (CategoryKey → Option F) → CompositeKey → Option (CompositeOutcome F)
  unfolding composite_pair composite_outcome
  composite_of present composite =
      let ws : List (CategoryKey × F) = weights composite in
      let pairs = collect (composite_pair present) ws in
      let covered = sum_f (
        map (λ (p : CategoryKey × F). p.1)
          (keep (λ (p : CategoryKey × F). is_some (present (p.0))) ws)) in
      if f.flt covered (f.lit 6 1) then none else elim (weighted_geometric_mean pairs) [
        | none ↦ none
        | some gm ↦ some (composite_outcome composite covered gm)
      ]

  efficiency_from : Option F → Option F → Option F
  efficiency_from (some multi) (some single) =
      if f.flt zero_f single
      then elim (geometric_mean (multi ∷ single ∷ [])) [ some gm ↦ some gm | none ↦ some single ]
      else none
  efficiency_from _ _ = none

  unfoldable pub efficiency_of : Map String F → Option F
  unfolding efficiency_from
  efficiency_of facets = efficiency_from (lookup "multi_core" facets) (lookup "single_core" facets)

  unfoldable pub balance_of : List F → Option F
  balance_of scores = elim (weakest scores) [
    | none ↦ none
    | some min ↦ elim (geometric_mean scores) [
      | none ↦ none
      | some gm ↦ some (if f.flt zero_f gm then f.div min gm else zero_f)
    ]
  ]

  weak_link_seen : Option F → Option F → Bool
  weak_link_seen (some u) (some t) = f.flt t (f.sub u (f.lit 1 9))
  weak_link_seen _ _ = false

  unfoldable pub uncapped_total_of : List (CategoryOutcome F) → F → Option F
  uncapped_total_of cs multiplier =
      elim (weighted_geometric_mean
        (map (λ (c : CategoryOutcome F). (f.div c.score reference_anchor, c.weight)) cs)) [
          | none ↦ none
          | some gm ↦ some (f.mul (f.mul gm reference_anchor) multiplier)
        ]

  unfoldable pub capped_total_of : F → List F → Option F → Option F
  capped_total_of factor scores uncapped = elim uncapped [
    | none ↦ none
    | some t ↦ some (apply_weak_link_cap t scores factor)
  ]

  card_of : ScoringModel F → Profile → List (ModuleResult F) → Buckets F → ScoreCard F
  unfolding weak_link_seen
  card_of model profile modules b =
      let categories = categories_of b in
      let facets = facets_of b in
      let median_cv = median b.cvs in
      let stability_index = stability_index_of model.cv_ceiling median_cv in
      let stability_multiplier =
        f.add (f.sub one_f model.stability_penalty_span)
          (f.mul model.stability_penalty_span stability_index) in
      let scores = map (λ (c : CategoryOutcome F). c.score) categories in
      let uncapped_total = uncapped_total_of categories stability_multiplier in
      let total = capped_total_of model.weak_link_cap_factor scores uncapped_total in
      let missing = missing_required_of categories in
      record {
        scoring_model = model.version;
        reference_profile = model.reference.name;
        uncalibrated = not model.reference.calibrated;
        profile = profile;
        total = total;
        total_is_standard = is_nil missing && is_standard profile;
        categories = categories;
        facets = facets;
        composites = collect (composite_of (present_of categories)) all_composites;
        stability_score = f.mul stability_index reference_anchor;
        stability_index = stability_index;
        stability_multiplier = stability_multiplier;
        uncapped_total = uncapped_total;
        weak_link_applied = weak_link_seen uncapped_total total;
        balance_index = balance_of scores;
        efficiency_score = efficiency_of facets;
        median_cv = median_cv;
        instability_flags = b.instability_flags;
        missing_required_categories = missing;
        unreferenced_metrics = b.unreferenced;
        sustained = analyse modules;
      }

  unfoldable pub score_run : ScoringModel F → Profile → List (ModuleResult F) → ScoreCard F
  unfolding card_of
  score_run model profile modules =
      card_of model profile modules
        (bucket_all model.reference (scoring_cycle modules) modules no_buckets)
