-- ===== src/Scoring/Buckets.antt =====
-- crates/darcbench-scoring/src/model.rs: normalisation, and the loop of `score_run` that sorts the
-- metrics of the scored cycle into their categories and facets.
use darcbench.Base.{
  ℕ, ◌+◌, Bool, true, false, not, ◌||◌, ◌&&◌, Option, none, some, String, List, [], ◌∷◌, ◌++◌,
  length, keep, if◌then◌else◌, ◌==◌, nat_eq, string_eq,
}
use darcbench.Base.Num.{Float, zero_f}
use darcbench.Base.Map.{Map, modify, set_insert, string_lt}
use darcbench.Protocol.Metrics.{
  Direction, higher_is_better, lower_is_better, Metric, Warning, WarningCode, high_variance,
  steal_time_observed, thermal_throttle, frequency_drop, external_load, ModuleResult, is_scoreable,
}
use darcbench.Scoring.Category.{CategoryKey, category_eq, category_lt}
use darcbench.Scoring.Reference.{
  Facet, facet_eq, facet_lt, ReferencePoint, ReferenceProfile, get, scoped_key,
}
pub mod Ratios

pub record Buckets (F : Type 0) : Type 0 where
  pub by_category : Map CategoryKey (List (F × F))
  pub modules_by_category : Map CategoryKey (List String)
  pub by_facet : Map Facet (List (F × F))
  pub unreferenced : List String
  pub cvs : List F
  pub instability_flags : ℕ

unfoldable pub no_buckets : {F : Type 0} → Buckets F
no_buckets = record {
  by_category = [];
  modules_by_category = [];
  by_facet = [];
  unreferenced = [];
  cvs = [];
  instability_flags = 0;
}

abbrev pub counts_as_instability : WarningCode → Bool
counts_as_instability high_variance = true
counts_as_instability steal_time_observed = true
counts_as_instability thermal_throttle = true
counts_as_instability frequency_drop = true
counts_as_instability external_load = true
counts_as_instability _ = false

module _ {F : Type 0} ⦃f : Float F⦄ where
  -- the inversion, `none` for a latency that is not positive
  directed : Direction → F → F → Option F
  directed higher_is_better value reference = some (f.div value reference)
  directed lower_is_better value reference =
      if f.fle value zero_f then none else some (f.div reference value)

  accept_ratio : Option F → Option F
  accept_ratio none = none
  accept_ratio (some r) = if f.is_finite r && f.flt zero_f r then some r else none

  unfoldable pub normalise : F → F → Direction → Option F
  unfolding directed accept_ratio
  normalise value reference direction =
      if not (f.is_finite value) || (not (f.is_finite reference) || f.fle reference zero_f)
      then none
      else accept_ratio (directed direction value reference)

  push_pair : F × F → List (F × F) → List (F × F)
  push_pair p ps = ps ++ (p ∷ [])

  push_cv : Option F → List F → List F
  push_cv none cvs = cvs
  push_cv (some cv) cvs = cvs ++ (cv ∷ [])

  push_facet : Option Facet → F × F → Map Facet (List (F × F)) → Map Facet (List (F × F))
  unfolding push_pair
  push_facet none p m = m
  push_facet (some facet) p m = modify facet [] (push_pair p) m

  -- a metric with an anchor: `continue` as unreferenced where it does not normalise
  add_ratio : String → String → ReferencePoint F → Option F → Buckets F → Buckets F
  unfolding push_pair push_facet
  add_ratio id key point none b = record b {
    unreferenced = b.unreferenced ++ (scoped_key id key ∷ []);
  }
  add_ratio id key point (some ratio) b = record b {
    by_category = modify point.category [] (push_pair (ratio, point.weight)) b.by_category;
    modules_by_category = modify point.category [] (set_insert id) b.modules_by_category;
    by_facet = push_facet point.facet (ratio, point.weight) b.by_facet;
  }

  add_anchored : String → Metric F → Option (ReferencePoint F) → Buckets F → Buckets F
  unfolding add_ratio push_cv
  add_anchored id m none b = record b {
    unreferenced = b.unreferenced ++ (scoped_key id m.key ∷ []);
  }
  add_anchored id m (some point) b =
      add_ratio id m.key point (normalise m.value point.value point.direction)
        (record b { cvs = push_cv (m.summary.cv) b.cvs })

  unfoldable pub add_metrics : ReferenceProfile F → String → List (Metric F) → Buckets F → Buckets F
  unfolding add_anchored
  add_metrics reference id [] b = b
  add_metrics reference id (m ∷ ms) b =
      add_metrics reference id ms (add_anchored id m (get reference id m.key) b)

  unfoldable pub add_module : ReferenceProfile F → ℕ → ModuleResult F → Buckets F → Buckets F
  add_module reference scored_cycle m b =
      let filled = add_metrics reference m.id m.metrics b in
      if not (is_scoreable m.status)
      then b
      else if not (m.cycle == scored_cycle)
      then b
      else record filled {
        instability_flags =
            filled.instability_flags
            + length (keep (λ (w : Warning). counts_as_instability w.code) m.warnings);
      }

  unfoldable pub bucket_all : ReferenceProfile F → ℕ → List (ModuleResult F) → Buckets F → Buckets F
  bucket_all reference scored_cycle [] b = b
  bucket_all reference scored_cycle (m ∷ ms) b =
      bucket_all reference scored_cycle ms (add_module reference scored_cycle m b)
