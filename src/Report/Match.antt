-- ===== src/Report/Match.antt =====
-- crates/darcbench-report/src/validate.rs: `scores_match`, field by field.
use darcbench.Base.{
  Bool, true, false, Option, none, some, String, List, ◌∷◌, length, ◌==◌, nat_eq, string_eq,
  bool_eq, list_eq,
}
use darcbench.Base.Num.{Float, one_f}
use darcbench.Base.Result.{Result, ok, err, ◌>>◌, check}
use darcbench.Protocol.Run.{profile_eq}
use darcbench.Scoring.Category.{category_eq, composite_eq}
use darcbench.Scoring.Sustained.{SustainedOutcome}
use darcbench.Scoring.Card.{CategoryOutcome, CompositeOutcome, ScoreCard}

-- `for (a, b) in xs.iter().zip(&ys)`: the pairs in order, as far as both lists go.
unfoldable pub match_zip :
    {A : Type 0} → (A → A → Result String (Unit {0})) → List A → List A → Result String (Unit {0})
match_zip g (x ∷ xs) (y ∷ ys) = let rest = match_zip g xs ys in g x y >> rest
match_zip g _ _ = ok tt

unfoldable pub match_lists :
    {A : Type 0}
    → String
    → (A → A → Result String (Unit {0}))
    → List A
    → List A
    → Result String (Unit {0})
match_lists len_field g xs ys = do check (length xs == length ys) len_field; match_zip g xs ys

module _ {F : Type 0} ⦃f : Float F⦄ where
  -- within a relative tolerance of a millionth
  unfoldable pub close_f : F → F → Bool
  close_f x y = f.fle (f.abs (f.sub x y)) (f.mul (f.lit 1 6) (f.fmax (f.abs x) one_f))

  unfoldable pub close : Option F → Option F → Bool
  close none none = true
  close (some x) (some y) = close_f x y
  close _ _ = false

  unfoldable pub match_identity : ScoreCard F → ScoreCard F → Result String (Unit {0})
  match_identity a b = do
    check (a.scoring_model == b.scoring_model) "scoring_model"
    check (a.reference_profile == b.reference_profile) "reference_profile"
    check (a.uncalibrated == b.uncalibrated) "uncalibrated"
    check (a.profile == b.profile) "profile"

  unfoldable pub match_headline : ScoreCard F → ScoreCard F → Result String (Unit {0})
  match_headline a b = do
    check (close a.total b.total) "total"
    check (a.total_is_standard == b.total_is_standard) "total_is_standard"
    check (close a.uncapped_total b.uncapped_total) "uncapped_total"
    check (a.weak_link_applied == b.weak_link_applied) "weak_link_applied"
    check (close a.balance_index b.balance_index) "balance_index"

  unfoldable pub match_stability : ScoreCard F → ScoreCard F → Result String (Unit {0})
  match_stability a b = do
    check (close_f a.stability_score b.stability_score) "stability_score"
    check (close_f a.stability_index b.stability_index) "stability_index"
    check (close_f a.stability_multiplier b.stability_multiplier) "stability_multiplier"
    check (close a.efficiency_score b.efficiency_score) "efficiency_score"
    check (close a.median_cv b.median_cv) "median_cv"
    check (a.instability_flags == b.instability_flags) "instability_flags"

  unfoldable pub match_category : CategoryOutcome F → CategoryOutcome F → Result String (Unit {0})
  match_category a b = do
    check (a.key == b.key) "categories.key"
    check (close_f a.score b.score) "categories.score"
    check (close_f a.weight b.weight) "categories.weight"
    check (a.metric_count == b.metric_count) "categories.metric_count"
    check (a.modules == b.modules) "categories.modules"

  unfoldable pub match_composite :
      CompositeOutcome F → CompositeOutcome F → Result String (Unit {0})
  match_composite a b = do
    check (a.key == b.key) "composites.key"
    check (close_f a.score b.score) "composites.score"
    check (close_f a.weight_coverage b.weight_coverage) "composites.coverage"

  unfoldable pub match_entry : String → String → String × F → String × F → Result String (Unit {0})
  match_entry key_field value_field (ka, va) (kb, vb) = do
    check (ka == kb) key_field
    check (close_f va vb) value_field

  unfoldable pub match_outcome : SustainedOutcome F → SustainedOutcome F → Result String (Unit {0})
  unfolding match_entry
  match_outcome a b = do
    check (close_f a.retention b.retention) "sustained.retention"
    check (close_f a.score b.score) "sustained.score"
    check (a.cycles == b.cycles) "sustained.cycles"
    check (a.scored_cycle == b.scored_cycle) "sustained.scored_cycle"
    match_lists "sustained.by_metric.len"
        (match_entry "sustained.by_metric.key" "sustained.by_metric.value") a.by_metric b.by_metric

  unfoldable pub match_sustained :
      Option (SustainedOutcome F) → Option (SustainedOutcome F) → Result String (Unit {0})
  unfolding match_outcome
  match_sustained none none = ok tt
  match_sustained (some a) (some b) = match_outcome a b
  match_sustained _ _ = err "sustained.presence"

  unfoldable pub match_eligibility : ScoreCard F → ScoreCard F → Result String (Unit {0})
  match_eligibility a b = do
    check (a.missing_required_categories == b.missing_required_categories)
        "missing_required_categories"
    check (a.unreferenced_metrics == b.unreferenced_metrics) "unreferenced_metrics"

  -- `recomputed` first, `claimed` second; the error names the first field that disagrees.
  unfoldable pub scores_match : ScoreCard F → ScoreCard F → Result String (Unit {0})
  scores_match a b = do
    match_identity a b
    match_headline a b
    match_stability a b
    match_lists "categories.len" match_category a.categories b.categories
    match_lists "facets.len" (match_entry "facets.key" "facets.score") a.facets b.facets
    match_lists "composites.len" match_composite a.composites b.composites
    match_sustained a.sustained b.sustained
    match_eligibility a b
