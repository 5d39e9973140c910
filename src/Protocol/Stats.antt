-- ===== src/Protocol/Stats.antt =====
-- crates/darcbench-protocol/src/stats.rs: descriptive statistics, the stability test, the geometric
-- means and the outlier detection, over the floats of `Base/Num`.
use darcbench.Base.{
  ℕ, suc, ◌+◌, ◌-◌, ◌/◌, ◌%◌, Bool, true, false, not, ◌||◌, Option, none, some, List, [], ◌∷◌, map,
  length, is_nil, get_elem?, any, if◌then◌else◌, ltb, leb, ◌==◌, nat_eq,
}
use darcbench.Base.Num.{Float, zero_f, one_f, sum_f, sort_f}
pub mod Means

pub record Summary (F : Type 0) : Type 0 where
  pub n : ℕ
  pub min : F
  pub max : F
  pub mean : F
  pub median : F
  pub stddev : F
  pub cv : Option F
  pub ci95 : Option (F × F)
  pub mad : Option F

module _ {F : Type 0} ⦃f : Float F⦄ where
  -- An element that the code reads by an index it has made sure of.
  unfoldable pub at : List F → ℕ → F
  at xs i = elim (get_elem? xs i) [ some x ↦ x | none ↦ zero_f ]

  unfoldable pub median_of_sorted : List F → F
  unfolding at
  median_of_sorted sorted =
      let n = length sorted in
      if n % 2 == 1
      then at sorted (n / 2)
      else f.div (f.add (at sorted (n / 2 - 1)) (at sorted (n / 2))) (f.lit 2 0)

  -- the half-width of the interval over the median; `None` at a median of zero
  relative_ci_of : F → F × F → Option F
  relative_ci_of median (lo, hi) =
      if f.fle (f.abs median) f.epsilon
      then none
      else some (f.abs (f.div (f.div (f.sub hi lo) (f.lit 2 0)) median))

  unfoldable pub relative_ci : Summary F → Option F
  unfolding relative_ci_of
  relative_ci s = elim (s.ci95) [ none ↦ none | some ci ↦ relative_ci_of s.median ci ]

  unfoldable pub relative_mad : Summary F → Option F
  relative_mad s = elim (s.mad) [
    | none ↦ none
    | some mad ↦
        if f.fle (f.abs s.median) f.epsilon
        then none
        else some (f.abs (f.div (f.mul (f.lit 14826 4) mad) s.median))
  ]

  -- `relative_mad().or_else(|| relative_ci())`
  unfoldable pub robust_spread : Summary F → Option F
  robust_spread s = elim (relative_mad s) [ some r ↦ some r | none ↦ relative_ci s ]

  unfoldable pub is_unstable : Summary F → F → Bool
  is_unstable s bound = elim (s.cv) [
    | none ↦ false
    | some cv ↦
        if f.fle cv bound
        then false
        else elim (robust_spread s) [ some relative ↦ f.flt bound relative | none ↦ true ]
  ]

  unfoldable pub median_ci95 : List F → Option (F × F)
  unfolding at
  median_ci95 sorted =
      let n = length sorted in
      let nf = f.of_nat n in
      let k = f.floor (f.sub (f.div nf (f.lit 2 0)) (f.mul (f.lit 98 2) (f.sqrt nf))) in
      let lo = f.to_nat (f.fmax k zero_f) in
      let hi = n - (lo + 1) in
      if ltb n 6 then none else if leb hi lo then none else some (at sorted lo, at sorted hi)

  square : F → F
  square x = f.mul x x

  -- Bessel-corrected; 0.0 for n == 1
  stddev_of : List F → F → F
  unfolding square
  stddev_of sorted mean =
      let n = length sorted in
      if ltb 1 n
      then f.sqrt
          (f.div (sum_f (map (λ v. square (f.sub v mean)) sorted)) (f.sub (f.of_nat n) one_f))
      else zero_f

  mad_of : List F → F → Option F
  mad_of sorted median =
      if leb 3 (length sorted)
      then some (median_of_sorted (sort_f (map (λ v. f.abs (f.sub v median)) sorted)))
      else none

  summary_of : List F → Summary F
  unfolding at stddev_of mad_of
  summary_of sorted =
      let n = length sorted in
      let mean = f.div (sum_f sorted) (f.of_nat n) in
      let median = median_of_sorted sorted in
      let stddev = stddev_of sorted mean in
      record {
        n = n;
        min = at sorted 0;
        max = at sorted (n - 1);
        mean = mean;
        median = median;
        stddev = stddev;
        cv = if f.flt f.epsilon (f.abs mean) then some (f.div stddev mean) else none;
        ci95 = median_ci95 sorted;
        mad = mad_of sorted median;
      }

  unfoldable pub summarize : List F → Option (Summary F)
  unfolding summary_of
  summarize samples =
      if is_nil samples || any (λ v. not (f.is_finite v)) samples
      then none
      else some (summary_of (sort_f samples))

  -- a value that the logarithm must not see
  abbrev pub is_unusable : F → Bool
  is_unusable v = not (f.is_finite v) || f.fle v zero_f

  unfoldable pub geometric_mean : List F → Option F
  geometric_mean values =
      if is_nil values || any is_unusable values
      then none
      else some (f.exp (f.div (sum_f (map f.ln values)) (f.of_nat (length values))))

  -- the loop over the pairs; `none` is its early return
  pub log_sum_from : F → List (F × F) → Option F
  log_sum_from acc [] = some acc
  log_sum_from acc ((value, weight) ∷ pairs) =
      let rest = log_sum_from (f.add acc (f.mul weight (f.ln value))) pairs in
      if is_unusable value || is_unusable weight then none else rest

  -- the sum of the weighted logarithms, brought back to the scale of the values
  pub rescaled : F → Option F → Option F
  rescaled total_weight none = none
  rescaled total_weight (some log_sum) = some (f.exp (f.div log_sum total_weight))

  pub weighted_mean : List (F × F) → Option F
  unfolding log_sum_from rescaled
  weighted_mean pairs =
      let total_weight = sum_f (map (λ (p : F × F). p.1) pairs) in
      if is_unusable total_weight then none else rescaled total_weight (log_sum_from zero_f pairs)

  unfoldable pub weighted_geometric_mean : List (F × F) → Option F
  unfolding weighted_mean
  weighted_geometric_mean [] = none
  weighted_geometric_mean (p ∷ ps) = weighted_mean (p ∷ ps)

  -- the indices, from `i` on, of the values that pass the test
  indices_from : ℕ → (F → Bool) → List F → List ℕ
  indices_from i test [] = []
  indices_from i test (x ∷ xs) =
      let rest = indices_from (suc i) test xs in if test x then i ∷ rest else rest

  unfoldable pub outlier_indices : List F → F → List ℕ
  unfolding indices_from
  outlier_indices samples threshold =
      let med = median_of_sorted (sort_f samples) in
      let mad = median_of_sorted (sort_f (map (λ v. f.abs (f.sub v med)) samples)) in
      if ltb (length samples) 4
      then []
      else if f.fle mad f.epsilon
      then []
      else indices_from 0
          (λ v. f.flt threshold (f.abs (f.div (f.mul (f.lit 6745 4) (f.sub v med)) mad))) samples
