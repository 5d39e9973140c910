-- ===== src/Agent/Index/Compare.antt =====
-- crates/darcbench-agent/src/index.rs: two runs of the index, compared metric by metric, with the
-- reasons for which their numbers are not comparable. The rows of the tables `metrics` and
-- `categories` are arguments; a reason is a constructor with what its text names.
use darcbench.Base.{
  ℕ, ◌+◌, Bool, true, false, not, ◌&&◌, ◌||◌, Option, none, some, String, List, [], ◌∷◌, ◌++◌, map,
  keep, is_nil, if◌then◌else◌, ltb, nat_beq, ◌==◌, string_eq, nat_eq, list_eq, is_some,
}
use Prim.Native.String
use darcbench.Base.Map.{Map, HasLt, string_lt, lookup, insert, set_insert}
use darcbench.Base.Num.{Float, zero_f}
use darcbench.Base.Result.{Result, ok, err}
use darcbench.Base.Text.{codes, split_at}
use darcbench.Protocol.Metrics.{Direction, higher_is_better, lower_is_better}
use darcbench.Scoring.Reference.{ReferenceProfile, ReferencePoint, get, scoped_key}
use darcbench.Agent.Index.{IndexedRun}
pub mod Unmatched
pub mod Lined
pub mod Comparable

pub record IndexedMetric (F : Type 0) : Type 0 where
  pub module_id : String
  pub metric_key : String
  pub value : F
  pub unit : String
  pub direction : Direction

-- A row of the table `metrics` for one run.
pub record MetricRow (F : Type 0) : Type 0 where
  pub cycle : ℕ
  pub metric : IndexedMetric F

pub record MetricDelta (F : Type 0) : Type 0 where
  pub module_id : String
  pub metric_key : String
  pub unit : String
  pub baseline : F
  pub candidate : F
  pub ratio : F

-- The two lists that the loop over the metrics fills.
abbrev pub Lines : Type 0 → Type 0
Lines F = List (MetricDelta F) × List String

pub data Gap : Type 0 where
  environment cycled : Gap
  scoring_model profile build_target agent_version : String → String → Gap
  basket : String → List (List ℕ) → List (List ℕ) → Gap

pub record Comparison (F : Type 0) : Type 0 where
  pub baseline : IndexedRun
  pub candidate : IndexedRun
  pub metrics : List (MetricDelta F)
  pub unmatched : List String
  pub comparable : Bool
  pub incomparable_reasons : List Gap

abbrev pub Basket : Type 0
Basket = List (List ℕ)

abbrev before_text : List ℕ → List ℕ → Bool
before_text s [] = false
before_text [] (c ∷ t) = true
before_text (b ∷ s) (c ∷ t) = let rest = before_text s t in if nat_beq b c then rest else ltb b c

-- Texts in a `BTreeSet`, ordered by their bytes.
instance abbrev pub text_lt : HasLt (List ℕ)
text_lt = record { lt = before_text }

module _ {F : Type 0} where
  unfoldable pub metrics_from :
      Map String (IndexedMetric F) → List (MetricRow F) → Map String (IndexedMetric F)
  unfolding insert
  metrics_from m [] = m
  metrics_from m (r ∷ rows) =
      metrics_from
        (if nat_beq r.cycle 0
          then insert (scoped_key r.metric.module_id r.metric.metric_key) r.metric m
          else m)
        rows

  -- The metrics of the first cycle, by module and key.
  unfoldable pub metrics_of : List (MetricRow F) → Map String (IndexedMetric F)
  unfolding metrics_from
  metrics_of = metrics_from []

  -- The direction of the reference profile, and the bundle's own where that has no anchor.
  unfoldable pub anchor_direction : ReferenceProfile F → String → String → Direction → Direction
  unfolding get
  anchor_direction reference module_id metric_key declared =
      elim (get reference module_id metric_key) [ some anchor ↦ anchor.direction | none ↦ declared ]

unfoldable pub basket_from : Basket → List (List ℕ) → Basket
unfolding set_insert
basket_from s [] = s
basket_from s (part ∷ parts) = basket_from (if is_nil part then s else set_insert part s) parts

unfoldable pub baskets_from : Map String Basket → List (String × String) → Map String Basket
unfolding basket_from insert
baskets_from m [] = m
baskets_from m ((key, modules) ∷ rows) =
    baskets_from (insert key (basket_from [] (split_at b',' (codes modules))) m) rows

-- The modules of each category of a run, from the rows of the table `categories`.
unfoldable pub baskets_of : List (String × String) → Map String Basket
unfolding baskets_from
baskets_of = baskets_from []

abbrev pub gap_if : Bool → Gap → List Gap
gap_if b g = if b then g ∷ [] else []

unfoldable pub comparability_gaps : IndexedRun → IndexedRun → List Gap
comparability_gaps baseline candidate =
    gap_if (not (baseline.environment_digest == candidate.environment_digest)) environment
    ++ gap_if (not (baseline.scoring_model == candidate.scoring_model))
        (scoring_model baseline.scoring_model candidate.scoring_model)
    ++ gap_if (not (baseline.profile == candidate.profile))
        (profile baseline.profile candidate.profile)
    ++ gap_if (baseline.profile == "endurance" || candidate.profile == "endurance") cycled
    ++ gap_if (not (baseline.build_target == candidate.build_target))
        (build_target baseline.build_target candidate.build_target)
    ++ gap_if (not (baseline.agent_version == candidate.agent_version))
        (agent_version baseline.agent_version candidate.agent_version)

-- One category of the baseline, against the same of the candidate.
unfoldable pub basket_gap : String → Basket → Option Basket → List Gap
basket_gap key before none = []
basket_gap key before (some after) =
    gap_if (not (before == after || is_nil before || is_nil after)) (basket key before after)

unfoldable pub basket_gaps : Map String Basket → Map String Basket → List Gap
unfolding basket_gap
basket_gaps candidate [] = []
basket_gaps candidate ((key, before) ∷ rest) =
    basket_gap key before (lookup key candidate) ++ basket_gaps candidate rest

module _ {F : Type 0} ⦃f : Float F⦄ where
  -- Above one is better, whatever the metric counts.
  unfoldable pub adjusted_ratio : IndexedMetric F → IndexedMetric F → F
  adjusted_ratio left right = elim (left.direction) [
    | higher_is_better ↦ f.div right.value left.value
    | lower_is_better ↦ f.div left.value right.value
  ]

  unfoldable pub delta_of : IndexedMetric F → IndexedMetric F → MetricDelta F
  delta_of left right = record {
    module_id = left.module_id;
    metric_key = left.metric_key;
    unit = left.unit;
    baseline = left.value;
    candidate = right.value;
    ratio = adjusted_ratio left right;
  }

  -- One turn of the loop over the baseline's metrics: a row, or why there is none.
  unfoldable pub line_up :
      String → IndexedMetric F → Option (IndexedMetric F) → Result String (MetricDelta F)
  unfolding delta_of adjusted_ratio
  line_up key left none = err (String.◌++◌ key " (baseline only)")
  line_up key left (some right) =
      if f.fle left.value zero_f || f.fle right.value zero_f
      then err (String.◌++◌ key " (not a positive measurement in both runs)")
      else if not (f.is_finite (adjusted_ratio left right))
      then err (String.◌++◌ key " (ratio is not finite)")
      else ok (delta_of left right)

  unfoldable pub put_line : Result String (MetricDelta F) → Lines F → Lines F
  put_line (ok d) (metrics, unmatched) = (metrics ++ (d ∷ []), unmatched)
  put_line (err note) (metrics, unmatched) = (metrics, unmatched ++ (note ∷ []))

  unfoldable pub line_up_all :
      Map String (IndexedMetric F) → Map String (IndexedMetric F) → Lines F → Lines F
  unfolding line_up put_line
  line_up_all candidate [] t = t
  line_up_all candidate ((key, left) ∷ rest) t =
      line_up_all candidate rest (put_line (line_up key left (lookup key candidate)) t)

  -- The keys of one run that the other does not have.
  abbrev pub only_in : Map String (IndexedMetric F) → Map String (IndexedMetric F) → List String
  only_in other m =
      keep (λ (k : String). not (is_some (lookup k other)))
        (map (λ (p : String × IndexedMetric F). p.0) m)

-- `sort` of texts
unfoldable pub insert_text : String → List String → List String
insert_text s [] = s ∷ []
insert_text s (t ∷ ts) = if string_lt.lt s t then s ∷ t ∷ ts else t ∷ insert_text s ts

unfoldable pub sort_texts : List String → List String
unfolding insert_text
sort_texts [] = []
sort_texts (s ∷ ss) = insert_text s (sort_texts ss)

-- What the database holds of a run.
pub record Stored (F : Type 0) : Type 0 where
  pub run : IndexedRun
  pub metrics : List (MetricRow F)
  pub categories : List (String × String)

module _ {F : Type 0} ⦃f : Float F⦄ where
  unfoldable pub compare : Stored F → Stored F → Comparison F
  unfolding metrics_of line_up_all sort_texts comparability_gaps baskets_of basket_gaps
  compare b c =
      let left = metrics_of b.metrics in
      let right = metrics_of c.metrics in
      let (metrics, unmatched) = line_up_all right left ([], []) in
      let alone = map (λ (k : String). String.◌++◌ k " (candidate only)") (only_in left right) in
      let reasons =
        comparability_gaps b.run c.run
        ++ basket_gaps (baskets_of c.categories) (baskets_of b.categories) in
      record {
        baseline = b.run;
        candidate = c.run;
        metrics = metrics;
        unmatched = sort_texts (unmatched ++ alone);
        comparable = is_nil reasons;
        incomparable_reasons = reasons;
      }

  -- A run that the index does not have makes no comparison.
  unfoldable pub compare_found : Option (Stored F) → Option (Stored F) → Option (Comparison F)
  unfolding compare
  compare_found (some b) (some c) = some (compare b c)
  compare_found _ _ = none
