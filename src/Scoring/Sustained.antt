-- ===== src/Scoring/Sustained.antt =====
-- crates/darcbench-scoring/src/sustained.rs: which cycles of a run are complete, which one is
-- scored, and how much of its opening performance the run retained.
use darcbench.Base.{
  ℕ, ◌/◌, Bool, not, ◌||◌, ◌&&◌, Option, none, some, String, List, [], ◌∷◌, ◌++◌, map, length,
  is_nil, last?, take, any, keep, if◌then◌else◌, ltb, ◌==◌, nat_eq, list_eq, string_eq,
}
use mathlib.Core.List.{reverse}
use darcbench.Base.Num.{Float, zero_f, one_f, sum_f, sort_f}
use darcbench.Base.Map.{Map, insert, modify, set_insert, nat_lt, string_lt}
use darcbench.Protocol.Metrics.{
  Direction, higher_is_better, lower_is_better, Metric, ModuleResult, is_scoreable,
}
use darcbench.Protocol.Stats.{median_of_sorted}
use darcbench.Scoring.Reference.{scoped_key}
pub mod Eligible
pub mod Cycles

abbrev pub min_cycles_for_retention : ℕ
min_cycles_for_retention = 2

pub record SustainedOutcome (F : Type 0) : Type 0 where
  pub retention : F
  pub score : F
  pub cycles : ℕ
  pub scored_cycle : ℕ
  pub by_metric : Map String F

-- The locals of the loop in `complete_cycles`.
pub record Seen : Type 0 where
  pub by_cycle : Map ℕ (List String)
  pub expected : List String

module _ {F : Type 0} where
  unfoldable pub see : Seen → ModuleResult F → Seen
  see s m =
      if is_scoreable m.status
      then record {
        by_cycle = modify m.cycle [] (set_insert m.id) s.by_cycle;
        expected = set_insert m.id s.expected;
      }
      else s

  unfoldable pub see_all : Seen → List (ModuleResult F) → Seen
  see_all s [] = s
  see_all s (m ∷ ms) = see_all (see s m) ms

  unfoldable pub seen_in : List (ModuleResult F) → Seen
  seen_in = see_all (record { by_cycle = []; expected = [] })

abbrev pub is_complete : List String → ℕ × List String → Bool
is_complete expected (_, present) = present == expected

-- The test that no module was scoreable comes first, as in the source.
unfoldable pub full_cycles : Seen → List ℕ
full_cycles s =
    if is_nil s.expected
    then []
    else map (λ (p : ℕ × List String). p.0) (keep (is_complete s.expected) s.by_cycle)

unfoldable pub complete_cycles : {F : Type 0} → List (ModuleResult F) → List ℕ
complete_cycles modules = full_cycles (seen_in modules)

unfoldable pub scoring_cycle : {F : Type 0} → List (ModuleResult F) → ℕ
scoring_cycle modules = elim (last? (complete_cycles modules)) [ some c ↦ c | none ↦ 0 ]

abbrev pub Point : Type 0 → Type 0
Point F = record { cycle : ℕ; value : F; direction : Direction }

module _ {F : Type 0} ⦃f : Float F⦄ where
  -- `total_cmp` orders the values compared here, all of them finite, as `<` does.
  unfoldable pub median : List F → Option F
  median [] = none
  median (v ∷ vs) = some (median_of_sorted (sort_f (v ∷ vs)))

  -- one metric of an eligible module joins the series of its key
  add_point : ℕ → String → Map String (List (Point F)) → Metric F → Map String (List (Point F))
  add_point cycle id series m =
      if not (f.is_finite m.value) || f.fle m.value zero_f
      then series
      else modify (scoped_key id m.key) []
          (λ ps. ps ++ (record { cycle = cycle; value = m.value; direction = m.direction } ∷ []))
          series

  add_points :
      ℕ → String → Map String (List (Point F)) → List (Metric F) → Map String (List (Point F))
  add_points cycle id series [] = series
  add_points cycle id series (m ∷ ms) = add_points cycle id (add_point cycle id series m) ms

  add_eligible : List ℕ → Map String (List (Point F)) → ModuleResult F → Map String (List (Point F))
  unfolding add_point add_points
  add_eligible eligible series m =
      if any (λ c. c == m.cycle) eligible && is_scoreable m.status
      then add_points m.cycle m.id series m.metrics
      else series

  unfoldable pub series_of :
      List ℕ → Map String (List (Point F)) → List (ModuleResult F) → Map String (List (Point F))
  unfolding add_eligible
  series_of eligible series [] = series
  series_of eligible series (m ∷ ms) = series_of eligible (add_eligible eligible series m) ms

  values_in : List ℕ → List (Point F) → List F
  values_in window points =
      map (λ (p : Point F). p.value) (keep (λ p. any (λ c. c == p.cycle) window) points)

  retained_of : Direction → F → F → F
  retained_of higher_is_better first last = f.div last first
  retained_of lower_is_better first last = f.div first last

  -- `none` where the loop goes on to the next key
  ratio_of : Direction → Option F → Option F → Option F
  unfolding retained_of
  ratio_of direction (some first) (some last) =
      if f.fle first zero_f || f.fle last zero_f
      then none
      else let retained = retained_of direction first last in
        if f.is_finite retained && f.flt zero_f retained then some retained else none
  ratio_of _ _ _ = none

  add_ratio : String → Option F → Map String F → Map String F
  add_ratio key (some r) by_metric = insert key r by_metric
  add_ratio key none by_metric = by_metric

  -- The loop over the series; `none` is the early return at a series with no point.
  unfoldable pub retentions :
      List ℕ → List ℕ → Map String (List (Point F)) → Map String F → Option (Map String F)
  unfolding values_in ratio_of add_ratio
  retentions opening closing [] by_metric = some by_metric
  retentions opening closing ((key, []) ∷ series) by_metric = none
  retentions opening closing ((key, p ∷ ps) ∷ series) by_metric =
      retentions opening closing series (
        add_ratio key
          (ratio_of p.direction (median (values_in opening (p ∷ ps)))
            (median (values_in closing (p ∷ ps))))
          by_metric)

  outcome_of : List ℕ → Map String F → Option (SustainedOutcome F)
  outcome_of cycles [] = none
  outcome_of cycles (r ∷ rs) =
      let by_metric : Map String F = r ∷ rs in
      let log_sum = sum_f (map (λ (p : String × F). f.ln (p.1)) by_metric) in
      let retention = f.exp (f.div log_sum (f.of_nat (length by_metric))) in
      if not (f.is_finite retention)
      then none
      else some (record {
        retention = retention;
        score = f.mul (f.fmin retention one_f) (f.lit 1000 0);
        cycles = length cycles;
        scored_cycle = elim (last? cycles) [ some c ↦ c | none ↦ 0 ];
        by_metric = by_metric;
      })

  analyse_in : List ℕ → List (ModuleResult F) → Option (SustainedOutcome F)
  unfolding outcome_of
  analyse_in cycles modules =
      let third = length cycles / 3 in
      let window = if ltb third 1 then 1 else third in
      let by_metric =
        retentions (take window cycles) (take window (reverse cycles)) (series_of cycles [] modules)
          [] in
      if ltb (length cycles) min_cycles_for_retention
      then none
      else elim by_metric [ none ↦ none | some m ↦ outcome_of cycles m ]

  unfoldable pub analyse : List (ModuleResult F) → Option (SustainedOutcome F)
  unfolding analyse_in
  analyse modules = analyse_in (complete_cycles modules) modules

  unfoldable pub declined : SustainedOutcome F → Bool
  declined o = f.flt o.retention (f.lit 95 2)
