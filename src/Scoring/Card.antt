-- ===== src/Scoring/Card.antt =====
-- crates/darcbench-scoring/src/model.rs: the configured model, and the card that it fills in.
use darcbench.Base.{ℕ, Bool, Option, String, List}
use darcbench.Base.Map.{Map}
use darcbench.Protocol.Run.{Profile}
use darcbench.Scoring.Category.{CategoryKey, CompositeKey}
use darcbench.Scoring.Reference.{ReferenceProfile}
use darcbench.Scoring.Sustained.{SustainedOutcome}

pub record ScoringModel (F : Type 0) : Type 0 where
  pub version : String
  pub reference : ReferenceProfile F
  pub stability_penalty_span : F
  pub cv_ceiling : F
  pub weak_link_cap_factor : F

pub record CategoryOutcome (F : Type 0) : Type 0 where
  pub key : CategoryKey
  pub label : String
  pub score : F
  pub weight : F
  pub metric_count : ℕ
  pub modules : List String

pub record CompositeOutcome (F : Type 0) : Type 0 where
  pub key : CompositeKey
  pub label : String
  pub score : F
  pub weight_coverage : F

pub record ScoreCard (F : Type 0) : Type 0 where
  pub scoring_model : String
  pub reference_profile : String
  pub uncalibrated : Bool
  pub profile : Profile
  pub total : Option F
  pub total_is_standard : Bool
  pub categories : List (CategoryOutcome F)
  pub facets : Map String F
  pub composites : List (CompositeOutcome F)
  pub stability_score : F
  pub stability_index : F
  pub stability_multiplier : F
  pub uncapped_total : Option F
  pub weak_link_applied : Bool
  pub balance_index : Option F
  pub efficiency_score : Option F
  pub median_cv : Option F
  pub instability_flags : ℕ
  pub missing_required_categories : List CategoryKey
  pub unreferenced_metrics : List String
  pub sustained : Option (SustainedOutcome F)
