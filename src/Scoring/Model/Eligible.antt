-- ===== src/Scoring/Model/Eligible.antt =====
-- Which modules a card is made of.
use darcbench.Base.{
  ◌≢◌, ◌==◌, In, ap, sym, ◌∙◌, eq_of_beq, beq_false, ℕ, ◌≡◌, refl, ◌↔◌, Bool, true, false, not,
  List, [], ◌∷◌, keep, Bool-cases, inl, inr, arith, nat_eq, All, is_nil, is_some, and_left,
  and_right,
}
use darcbench.Base.Map.{lookup}
use darcbench.Base.Num.{Float}
use darcbench.Protocol.Run.{
  Profile, quick, standard, deep, endurance, read_only, web_only, custom, is_standard,
}
use darcbench.Protocol.Metrics.{ModuleResult, is_scoreable}
use darcbench.Scoring.Category.{
  CategoryKey, category_eq, compute, memory, storage, network, web, required_for_standard_total,
}
use darcbench.Scoring.Reference.{ReferenceProfile}
use darcbench.Scoring.Sustained.{scoring_cycle}
use darcbench.Scoring.Sustained.Eligible.{scoreable, scoring_cycle-scoreable, analyse-scoreable}
use darcbench.Scoring.Card.{ScoringModel, CategoryOutcome}
use darcbench.Scoring.Buckets.{Buckets, no_buckets, add_module, bucket_all}
use darcbench.Scoring.Model.{score_run, card_of, missing_required_of, present_of}

is_standard_iff : (p : Profile) → (is_standard p ≡ true) ↔ ((p ≢ custom) × (p ≢ read_only))
unfolding is_standard
is_standard_iff quick = (λ h. (λ e. cc e, λ e. cc e), λ h. refl)
is_standard_iff standard = (λ h. (λ e. cc e, λ e. cc e), λ h. refl)
is_standard_iff deep = (λ h. (λ e. cc e, λ e. cc e), λ h. refl)
is_standard_iff endurance = (λ h. (λ e. cc e, λ e. cc e), λ h. refl)
is_standard_iff web_only = (λ h. (λ e. cc e, λ e. cc e), λ h. refl)
is_standard_iff read_only = (λ h. cc h, λ h. absurd (h.1 refl))
is_standard_iff custom = (λ h. cc h, λ h. absurd (h.0 refl))

All-imp :
    {A : Type 0} (P Q : A → Type 0) → ((a : A) → P a → Q a) → (xs : List A) → All P xs → All Q xs
All-imp P Q g [] h = tt
All-imp P Q g (x ∷ xs) h = (g x (h.0), All-imp P Q g xs (h.1))

missing_nil :
    (g : CategoryKey → Bool) (ks : List CategoryKey)
    → (is_nil (keep (λ k. not (g k)) ks) ≡ true) ↔ All (λ k. g k ≡ true) ks
missing_nil g [] = (λ h. tt, λ h. refl)
missing_nil g (k ∷ ks) = elim (Bool-cases (g k)) [
  | inl e ↦ rw e (λ h. (refl, (missing_nil g ks).0 h), λ h. (missing_nil g ks).1 (h.1))
  | inr e ↦ rw e (λ h. absurd (ground arith), λ h. absurd (ground (arith, h.0)))
]

module _ {F : Type 0} ⦃f : Float F⦄ where
  add_module_skipped :
      (reference : ReferenceProfile F) (c : ℕ) (m : ModuleResult F) (b : Buckets F)
      → is_scoreable m.status ≡ false
      → add_module reference c m b ≡ b
  unfolding add_module
  add_module_skipped reference c m b e = rw e refl

  bucket_all-scoreable :
      (reference : ReferenceProfile F) (c : ℕ) (ms : List (ModuleResult F)) (b : Buckets F)
      → bucket_all reference c (scoreable ms) b ≡ bucket_all reference c ms b
  unfolding bucket_all
  bucket_all-scoreable reference c [] b = refl
  bucket_all-scoreable reference c (m ∷ ms) b = elim (Bool-cases (is_scoreable m.status)) [
    | inl e ↦ rw e (bucket_all-scoreable reference c ms (add_module reference c m b))
    | inr e ↦ rw (e, add_module_skipped reference c m b e) (bucket_all-scoreable reference c ms b)
  ]

  -- A module that failed, was cancelled or was skipped has no influence on any field of the card: the
  -- card of a run is the card of its modules that completed.
  pub score_run-scoreable :
      (model : ScoringModel F) (profile : Profile) (ms : List (ModuleResult F))
      → score_run model profile (scoreable ms) ≡ score_run model profile ms
  unfolding score_run card_of
  score_run-scoreable model profile ms =
      rw
        (
          scoring_cycle-scoreable ms,
          bucket_all-scoreable model.reference (scoring_cycle ms) ms no_buckets,
          analyse-scoreable ms,
        )
        refl

  -- A card's outcome for a category.
  abbrev pub HasScore : List (CategoryOutcome F) → CategoryKey → Type 0
  HasScore cs k = (c : CategoryOutcome F) × In c cs × (c.key ≡ k)

  tail_of :
      (c : CategoryOutcome F) (cs : List (CategoryOutcome F)) (k : CategoryKey)
      → (c.key == k) ≡ false
      → HasScore (c ∷ cs) k
      → HasScore cs k
  tail_of c cs k e (d, inr i, q) = (d, i, q)
  tail_of c cs k e (d, inl i, q) =
      absurd (beq_false c.key k e (ap (λ (x : CategoryOutcome F). x.key) (sym i) ∙ q))

  missing_required_of_nil :
      (cs : List (CategoryOutcome F))
      → (is_nil (missing_required_of cs) ≡ true)
        ↔ All (λ k. is_some (present_of cs k) ≡ true) required_for_standard_total
  unfolding missing_required_of
  missing_required_of_nil cs =
      missing_nil (λ k. is_some (present_of cs k)) required_for_standard_total

  present_of_iff :
      (cs : List (CategoryOutcome F)) (k : CategoryKey)
      → (is_some (present_of cs k) ≡ true) ↔ HasScore cs k
  unfolding present_of lookup
  present_of_iff [] k = (λ h. cc h, λ h. let (c, i, q) = h in absurd i)
  present_of_iff (c ∷ cs) k = elim (Bool-cases (c.key == k)) [
    | inl e ↦ rw e (λ h. (c, inl refl, eq_of_beq c.key k e), λ h. refl)
    | inr e ↦ rw e (
      λ h. let (d, i, q) = (present_of_iff cs k).0 h in (d, inr i, q),
      λ h. (present_of_iff cs k).1 (tail_of c cs k e h),
    )
  ]

  -- The total of a card is a standard one exactly when the profile is neither `custom` nor `read_only`
  -- and the card has a score for each of the five categories: compute, memory, storage, network and
  -- web. The status of the modules is not looked at beyond what makes a category have a score.
  pub total_is_standard-score_run :
      (model : ScoringModel F) (profile : Profile) (ms : List (ModuleResult F))
      → ((score_run model profile ms).total_is_standard ≡ true) ↔ (
          (profile ≢ custom)
          × (profile ≢ read_only)
          × All
              (HasScore (score_run model profile ms).categories)
              (compute ∷ memory ∷ storage ∷ network ∷ web ∷ []))
  unfolding score_run card_of
  total_is_standard-score_run model profile ms =
      let cs = (score_run model profile ms).categories in
      let whole = missing_required_of_nil cs in
      (
        λ h.
            let (a, b) = (is_standard_iff profile).0 (and_right _ _ h) in
            (
              a,
              b,
              All-imp _ (HasScore cs) (λ k. (present_of_iff cs k).0) required_for_standard_total
                  (whole.0 (and_left _ _ h)),
            ),
        λ h.
            let (a, b, all) = h in
            let full =
              All-imp (HasScore cs) (λ k. is_some (present_of cs k) ≡ true)
                (λ k. (present_of_iff cs k).1) required_for_standard_total all in
            ground (arith, whole.1 full, (is_standard_iff profile).1 (a, b)),
      )
