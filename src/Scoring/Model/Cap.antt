-- ===== src/Scoring/Model/Cap.antt =====
-- The weak-link cap: what it takes from a total.
use darcbench.Base.{
  ◌≡◌, refl, ap, sym, ◌∙◌, ◌⊎◌, true, not, ◌||◌, All, none, some, List, [], ◌∷◌, map, In, keep,
  keep-In, Bool-cases, inl, inr, arith,
}
use darcbench.Base.Num.{Float, zero_f, IsOrdered}
use darcbench.Protocol.Run.{Profile}
use darcbench.Protocol.Metrics.{ModuleResult}
use darcbench.Scoring.Card.{ScoringModel, CategoryOutcome}
use darcbench.Scoring.Model.{
  fold_weakest, weakest, apply_weak_link_cap, cap_by, capped_total_of, score_run, card_of,
}

module _ {F : Type 0} ⦃f : Float F⦄ (o : IsOrdered F) where
  abbrev IsLeast : List F → F → Type 0
  IsLeast scores w = (f.is_finite w ≡ true) × ((s : F) → In s scores → f.fle w s ≡ true)

  abbrev AllFinite : List F → Type 0
  AllFinite vs = (v : F) → In v vs → f.is_finite v ≡ true

  min_finite :
      (x y : F) → f.is_finite x ≡ true → f.is_finite y ≡ true → f.is_finite (f.fmin x y) ≡ true
  min_finite x y a b = elim (o.fmin_choice x y) [ inl e ↦ rw e a | inr e ↦ rw e b ]

  fold_weakest_lem :
      (cur : F) (vs : List F) (w : F)
      → f.is_finite cur ≡ true
      → AllFinite vs
      → fold_weakest (some cur) vs ≡ some w
      → IsLeast (cur ∷ vs) w
  unfolding fold_weakest
  fold_weakest_lem cur [] w c h e =
      let q : cur ≡ w = ground arith in
      rw (sym q) (c, λ s m. elim m [ inl k ↦ rw k (o.fle_refl cur c) | inr k ↦ absurd k ])
  fold_weakest_lem cur (v ∷ vs) w c h e =
      let d = h v (inl refl) in
      let low = min_finite cur v c d in
      let (p, least) = fold_weakest_lem (f.fmin cur v) vs w low (λ s m. h s (inr m)) e in
      let below = least (f.fmin cur v) (inl refl) in
      (
        p,
        λ s m. elim m [
          | inl k ↦ rw k (o.fle_trans w (f.fmin cur v) cur below (o.fmin-fle_left cur v c d))
          | inr n ↦ elim n [
            | inl k ↦ rw k (o.fle_trans w (f.fmin cur v) v below (o.fmin-fle_right cur v c d))
            | inr k ↦ least s (inr k)
          ]
        ],
      )

  weakest_of : (vs : List F) (w : F) → AllFinite vs → fold_weakest none vs ≡ some w → IsLeast vs w
  unfolding fold_weakest
  weakest_of [] w h e = absurd (ground arith)
  weakest_of (v ∷ vs) w h e = fold_weakest_lem v vs w (h v (inl refl)) (λ s m. h s (inr m)) e

  pub weakest_lem :
      (scores : List F) (w : F)
      → weakest scores ≡ some w
      → (f.is_finite w ≡ true) × ((s : F) → In s scores → f.is_finite s ≡ true → f.fle w s ≡ true)
  unfolding weakest
  weakest_lem scores w e =
      let good = keep f.is_finite scores in
      let (p, least) = weakest_of good w (λ v m. ((keep-In f.is_finite scores v).0 m).1) e in
      (p, λ s m h. least s ((keep-In f.is_finite scores s).1 (m, h)))

  capped_lem :
      (factor u w : F) (scores : List F)
      → weakest scores ≡ some w
      → f.flt zero_f factor ≡ true
      → capped_total_of factor scores (some u) ≡ some (f.fmin u (f.mul w factor))
  unfolding capped_total_of apply_weak_link_cap cap_by
  capped_lem factor u w scores e h = rw (e, h) refl

  total_capped :
      (model : ScoringModel F) (profile : Profile) (ms : List (ModuleResult F)) (u : F)
      → (score_run model profile ms).uncapped_total ≡ some u
      → (score_run model profile ms).total
        ≡ capped_total_of model.weak_link_cap_factor
            (map (λ (c : CategoryOutcome F). c.score) (score_run model profile ms).categories)
            (some u)
  unfolding score_run card_of
  total_capped model profile ms u e = ap (capped_total_of _ _) e

  In-scores :
      (cs : List (CategoryOutcome F)) (c : CategoryOutcome F)
      → In c cs
      → In c.score (map (λ (d : CategoryOutcome F). d.score) cs)
  In-scores [] c m = absurd m
  In-scores (d ∷ cs) c (inl e) = inl (ap (λ (x : CategoryOutcome F). x.score) e)
  In-scores (d ∷ cs) c (inr m) = inr (In-scores cs c m)

  below_all :
      (scores : List F) (w : F)
      → ((s : F) → In s scores → f.is_finite s ≡ true → f.fle w s ≡ true)
      → (cs : List (CategoryOutcome F)) → ((c : CategoryOutcome F) → In c cs → In c.score scores)
      → All (λ (c : CategoryOutcome F). (not (f.is_finite c.score) || f.fle w c.score) ≡ true) cs
  below_all scores w h [] m = tt
  below_all scores w h (c ∷ cs) m = (
    elim (Bool-cases (f.is_finite c.score)) [
      | inl e ↦ rw e (h c.score (m c (inl refl)) e)
      | inr e ↦ rw e refl
    ],
    below_all scores w h cs (λ d i. m d (inr i)),
  )

  -- For a model whose cap factor is positive: where a card has a total before the cap, and the weakest
  -- of its finite category scores, w, lies below every other, the published total is at most the total
  -- before the cap and at most w times the factor, and it is one of these two numbers, so the cap
  -- never raises a total and takes off no more than it must. The two numbers are taken to be finite.
  pub total-score_run :
      (model : ScoringModel F) (profile : Profile) (ms : List (ModuleResult F)) (u w : F)
      → f.flt zero_f model.weak_link_cap_factor ≡ true
      → (score_run model profile ms).uncapped_total ≡ some u
      → weakest (map (λ (c : CategoryOutcome F). c.score) (score_run model profile ms).categories)
        ≡ some w
      → f.is_finite u ≡ true
      → f.is_finite (f.mul w model.weak_link_cap_factor) ≡ true
      → (t : F) × ((score_run model profile ms).total ≡ some t)
        × (f.fle t u ≡ true)
        × (f.fle t (f.mul w model.weak_link_cap_factor) ≡ true)
        × ((t ≡ u) ⊎ (t ≡ f.mul w model.weak_link_cap_factor))
        × All
            (λ (c : CategoryOutcome F). (not (f.is_finite c.score) || f.fle w c.score) ≡ true)
            (score_run model profile ms).categories
  total-score_run model profile ms u w h e k a b =
      let m = f.mul w model.weak_link_cap_factor in
      let scores =
        map (λ (c : CategoryOutcome F). c.score) (score_run model profile ms).categories in
      (
        f.fmin u m,
        total_capped model profile ms u e ∙ capped_lem model.weak_link_cap_factor u w scores k h,
        o.fmin-fle_left u m a b,
        o.fmin-fle_right u m a b,
        o.fmin_choice u m,
        below_all scores w (weakest_lem scores w k).1 (score_run model profile ms).categories
            (In-scores (score_run model profile ms).categories),
      )
