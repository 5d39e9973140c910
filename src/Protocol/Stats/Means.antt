-- ===== src/Protocol/Stats/Means.antt =====
-- When the weighted geometric mean of crates/darcbench-protocol/src/stats.rs has a value.
use darcbench.Base.{
  ◌≡◌, refl, Bool, not, ◌&&◌, ◌||◌, Option, none, some, is_some, List, [], ◌∷◌, map, any, is_nil,
  ◌∙◌, Bool-cases, inl, inr,
}
use darcbench.Base.Num.{Float, zero_f, sum_f}
use darcbench.Protocol.Stats.{
  is_unusable, log_sum_from, rescaled, weighted_mean, weighted_geometric_mean,
}

module _ {F : Type 0} ⦃f : Float F⦄ where
  abbrev pub is_unusable_pair : F × F → Bool
  is_unusable_pair p = is_unusable (p.0) || is_unusable (p.1)

  is_some-log_sum_from :
      (acc : F) (ps : List (F × F)) → is_some (log_sum_from acc ps) ≡ not (any is_unusable_pair ps)
  unfolding log_sum_from
  is_some-log_sum_from acc [] = refl
  is_some-log_sum_from acc ((v, w) ∷ ps) = elim (Bool-cases (is_unusable v || is_unusable w)) [
    | inl h ↦ rw h refl
    | inr h ↦ rw h (is_some-log_sum_from (f.add acc (f.mul w (f.ln v))) ps)
  ]

  is_some-rescaled : (total : F) (sum : Option F) → is_some (rescaled total sum) ≡ is_some sum
  unfolding rescaled
  is_some-rescaled total none = refl
  is_some-rescaled total (some x) = refl

  is_some-weighted_mean :
      (ps : List (F × F))
      → is_some (weighted_mean ps)
        ≡ (not (is_unusable (sum_f (map (λ (p : F × F). p.1) ps))) && not (any is_unusable_pair ps))
  unfolding weighted_mean
  is_some-weighted_mean ps = elim (Bool-cases (is_unusable (sum_f (map (λ (p : F × F). p.1) ps)))) [
    | inl h ↦ rw h refl
    | inr h ↦ rw h (
        is_some-rescaled (sum_f (map (λ (p : F × F). p.1) ps)) (log_sum_from zero_f ps)
        ∙ is_some-log_sum_from zero_f ps)
  ]

  -- The weighted geometric mean of some pairs has a value exactly when there is a pair, the sum of
  -- the weights is finite and above 0, and the value and the weight of every pair are.
  pub is_some-weighted_geometric_mean :
      (ps : List (F × F))
      → is_some (weighted_geometric_mean ps) ≡ (
          not (is_nil ps)
          && (not (is_unusable (sum_f (map (λ (p : F × F). p.1) ps)))
              && not (any is_unusable_pair ps)))
  unfolding weighted_geometric_mean
  is_some-weighted_geometric_mean [] = refl
  is_some-weighted_geometric_mean (p ∷ ps) = is_some-weighted_mean (p ∷ ps)
