-- ===== src/Report/Validate/Steady.antt =====
-- Which metrics are no evidence of an unsteady machine.
use darcbench.Base.{
  ◌≡◌, refl, sym, ap, ◌∙◌, ◌↔◌, Bool, true, false, Option, none, some, List, [], ◌∷◌, any, All,
  Bool-cases, inl, inr, if◌then◌else◌, arith,
}
use darcbench.Base.Num.{Float}
use darcbench.Protocol.Metrics.{Metric}
use darcbench.Protocol.Stats.{Summary, robust_spread, is_unstable}
use darcbench.Report.Validate.{has_excess}
use darcbench.Report.Verdict.{cv_is_evidence_of_instability}

module _ {F : Type 0} ⦃f : Float F⦄ where
  -- A metric of a dispersion or of a tail, one without a CV, one with a CV of at most 0.25, or one
  -- whose robust spread is known and not above 0.25.
  pub data IsSteady (m : Metric F) : Type 0 where
    dispersion : m.measures_dispersion ≡ true → IsSteady m
    tail : m.tail_quantile ≡ true → IsSteady m
    unmeasured : m.summary.cv ≡ none → IsSteady m
    narrow : (cv : F) → m.summary.cv ≡ some cv → f.fle cv (f.lit 25 2) ≡ true → IsSteady m
    determined :
        (spread : F)
        → robust_spread m.summary ≡ some spread
        → f.flt (f.lit 25 2) spread ≡ false
        → IsSteady m

  -- `is_unstable` as a function of what it reads
  abbrev verdict : Option F → Option F → Bool
  verdict cv o = elim cv [
    | none ↦ false
    | some c ↦
        if f.fle c (f.lit 25 2)
        then false
        else elim o [ some relative ↦ f.flt (f.lit 25 2) relative | none ↦ true ]
  ]

  verdict_lem : (s : Summary F) → is_unstable s (f.lit 25 2) ≡ verdict (s.cv) (robust_spread s)
  unfolding is_unstable
  verdict_lem s = refl

  narrow_or :
      (m : Metric F) (cv o : Option F)
      → m.summary.cv ≡ cv
      → robust_spread m.summary ≡ o
      → verdict cv o ≡ false
      → IsSteady m
  narrow_or m none o p q h = unmeasured p
  narrow_or m (some c) none p q h = elim (Bool-cases (f.fle c (f.lit 25 2))) [
    | inl l ↦ narrow c p l
    | inr l ↦ absurd (ground arith)
  ]
  narrow_or m (some c) (some r) p q h = elim (Bool-cases (f.fle c (f.lit 25 2))) [
    | inl l ↦ narrow c p l
    | inr l ↦ determined r q (ground arith)
  ]

  stable-IsSteady : (m : Metric F) → is_unstable m.summary (f.lit 25 2) ≡ false → IsSteady m
  stable-IsSteady m h =
      narrow_or m (m.summary.cv) (robust_spread m.summary) refl refl
        (sym (verdict_lem m.summary) ∙ h)

  clear : (cv : Option F) (r : F) → f.flt (f.lit 25 2) r ≡ false → verdict cv (some r) ≡ false
  clear none r l = refl
  clear (some c) r l = ground arith

  determined_lem :
      (s : Summary F) (r : F)
      → robust_spread s ≡ some r
      → f.flt (f.lit 25 2) r ≡ false
      → is_unstable s (f.lit 25 2) ≡ false
  determined_lem s r n l = verdict_lem s ∙ ap (verdict (s.cv)) n ∙ clear (s.cv) r l

  unmeasured_lem : (s : Summary F) → s.cv ≡ none → is_unstable s (f.lit 25 2) ≡ false
  unmeasured_lem s e = verdict_lem s ∙ ap (λ o. verdict o (robust_spread s)) e

  narrow_lem :
      (s : Summary F) (c : F)
      → s.cv ≡ some c
      → f.fle c (f.lit 25 2) ≡ true
      → is_unstable s (f.lit 25 2) ≡ false
  narrow_lem s c e l = verdict_lem s ∙ ap (λ o. verdict o (robust_spread s)) e ∙ rw l refl

  calm : (m : Metric F) → IsSteady m → has_excess m ≡ false
  unfolding cv_is_evidence_of_instability
  calm m (dispersion e) = ground arith
  calm m (tail e) = ground arith
  calm m (unmeasured e) = ground (arith, unmeasured_lem m.summary e)
  calm m (narrow cv e l) = ground (arith, narrow_lem m.summary cv e l)
  calm m (determined r n l) = ground (arith, determined_lem m.summary r n l)

  excess-IsSteady : (m : Metric F) → has_excess m ≡ false → IsSteady m
  unfolding cv_is_evidence_of_instability
  excess-IsSteady m h = elim (Bool-cases (m.measures_dispersion)) [
    | inl d ↦ dispersion d
    | inr d ↦ elim (Bool-cases (m.tail_quantile)) [
      | inl t ↦ tail t
      | inr t ↦ stable-IsSteady m (rw (d, t) at h)
    ]
  ]

  pub any_excess_iff : (ms : List (Metric F)) → (any has_excess ms ≡ false) ↔ All IsSteady ms
  any_excess_iff [] = (λ h. tt, λ h. refl)
  any_excess_iff (m ∷ ms) = (
    λ h. (excess-IsSteady m (ground arith), (any_excess_iff ms).0 (ground arith)),
    λ h. ground (arith, calm m (h.0), (any_excess_iff ms).1 (h.1)),
  )
