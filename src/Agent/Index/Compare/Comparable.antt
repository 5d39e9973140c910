-- ===== src/Agent/Index/Compare/Comparable.antt =====
-- When two runs are said to be comparable.
use darcbench.Base.{
  ◌≡◌, refl, ap, sym, ◌∙◌, ◌↔◌, ◌≢◌, inl, inr, Bool, true, false, not, ◌&&◌, ◌||◌, Option, none,
  some, String, List, [], ◌∷◌, ◌++◌, is_nil, All, Bool-cases, ◌==◌, string_eq, nat_eq, list_eq,
  eq_of_beq, beq_of_eq, beq_false, arith, and_left, and_right,
}
use darcbench.Base.Map.{Map, lookup}
use darcbench.Base.Num.{Float}
use darcbench.Agent.Index.{IndexedRun}
use darcbench.Agent.Index.Compare.{
  Stored, Basket, Gap, gap_if, comparability_gaps, basket_gap, basket_gaps, baskets_of, compare,
}

is_nil-append : {A : Type 0} (xs ys : List A) → is_nil (xs ++ ys) ≡ (is_nil xs && is_nil ys)
is_nil-append [] ys = refl
is_nil-append (x ∷ xs) ys = refl

is_nil-gap_if : (b : Bool) (g : Gap) → is_nil (gap_if b g) ≡ not b
is_nil-gap_if true g = refl
is_nil-gap_if false g = refl

is_nil_iff : {A : Type 0} (xs : List A) → (is_nil xs ≡ true) ↔ (xs ≡ [])
is_nil_iff [] = ground arith
is_nil_iff (x ∷ xs) = ground arith

-- What the two records of the runs agree on.
pub record IsSameSetting (b c : IndexedRun) : Type 0 where
  pub environment : b.environment_digest ≡ c.environment_digest
  pub model : b.scoring_model ≡ c.scoring_model
  pub profile : b.profile ≡ c.profile
  pub once : b.profile ≢ "endurance"
  pub target : b.build_target ≡ c.build_target
  pub version : b.agent_version ≡ c.agent_version

-- A category that the other run lacks, has from the same modules, or for which a run recorded none.
pub data IsAlike (before : Basket) (o : Option Basket) : Type 0 where
  lacking : o ≡ none → IsAlike before o
  same : o ≡ some before → IsAlike before o
  unrecorded : before ≡ [] → IsAlike before o
  unrecorded_after : o ≡ some [] → IsAlike before o

not_equal : (s t : String) → s ≢ t → (s == t) ≡ false
not_equal s t h = elim (Bool-cases (s == t)) [ inl e ↦ absurd (h (eq_of_beq s t e)) | inr e ↦ e ]

settings : IndexedRun → IndexedRun → Bool
settings b c =
    b.environment_digest == c.environment_digest
    && (b.scoring_model == c.scoring_model
        && (b.profile == c.profile
            && (not (b.profile == "endurance" || c.profile == "endurance")
                && (b.build_target == c.build_target && b.agent_version == c.agent_version))))

is_nil-comparability_gaps : (b c : IndexedRun) → is_nil (comparability_gaps b c) ≡ settings b c
unfolding comparability_gaps settings
is_nil-comparability_gaps b c = ground arith

settings-IsSameSetting : (b c : IndexedRun) → (settings b c ≡ true) ↔ IsSameSetting b c
unfolding settings
settings-IsSameSetting b c = (
  λ h. record {
    environment = eq_of_beq b.environment_digest c.environment_digest (ground arith);
    model = eq_of_beq b.scoring_model c.scoring_model (ground arith);
    profile = eq_of_beq b.profile c.profile (ground arith);
    once = beq_false b.profile "endurance" (ground arith);
    target = eq_of_beq b.build_target c.build_target (ground arith);
    version = eq_of_beq b.agent_version c.agent_version (ground arith);
  },
  λ h. ground (
    arith,
    beq_of_eq b.environment_digest c.environment_digest h.environment,
    beq_of_eq b.scoring_model c.scoring_model h.model,
    beq_of_eq b.profile c.profile h.profile,
    not_equal b.profile "endurance" h.once,
    not_equal c.profile "endurance" (λ e. h.once (h.profile ∙ e)),
    beq_of_eq b.build_target c.build_target h.target,
    beq_of_eq b.agent_version c.agent_version h.version,
  ),
)

is_nil-basket_gap :
    (key : String) (before : Basket) (o : Option Basket)
    → (is_nil (basket_gap key before o) ≡ true) ↔ IsAlike before o
unfolding basket_gap
is_nil-basket_gap key before none = (λ h. lacking refl, λ h. refl)
is_nil-basket_gap key before (some after) = (
  λ h. elim (Bool-cases (before == after)) [
    | inl e ↦ same (ap some (sym (eq_of_beq before after e)))
    | inr e ↦ elim (Bool-cases (is_nil before)) [
      | inl n ↦ unrecorded ((is_nil_iff before).0 n)
      | inr n ↦ unrecorded_after (ap some ((is_nil_iff after).0 (rest h e n)))
    ]
  ],
  λ h.
      is_nil-gap_if (not (before == after || is_nil before || is_nil after))
        (Gap.basket key before after)
      ∙ elim h [
        | lacking e ↦ absurd (cc e)
        | same e ↦ ground (arith, beq_of_eq before after (cc e))
        | unrecorded e ↦ ground (arith, (is_nil_iff before).1 e)
        | unrecorded_after e ↦ ground (arith, (is_nil_iff after).1 (cc e))
      ],
)
  where
    rest :
        is_nil (
            gap_if
              (not (before == after || is_nil before || is_nil after))
              (Gap.basket key before after))
          ≡ true
        → (before == after) ≡ false
        → is_nil before ≡ false
        → is_nil after ≡ true
    rest h e n = ground arith

is_nil-basket_gaps :
    (other m : Map String Basket)
    → (is_nil (basket_gaps other m) ≡ true)
      ↔ All (λ (p : String × Basket). IsAlike (p.1) (lookup (p.0) other)) m
unfolding basket_gaps
is_nil-basket_gaps other [] = (λ h. tt, λ h. refl)
is_nil-basket_gaps other ((key, before) ∷ m) =
    let first = basket_gap key before (lookup key other) in
    let e = is_nil-append first (basket_gaps other m) in
    let ih = is_nil-basket_gaps other m in
    let one = is_nil-basket_gap key before (lookup key other) in
    (
      λ h. (
        one.0 (and_left (is_nil first) (is_nil (basket_gaps other m)) (sym e ∙ h)),
        ih.0 (and_right (is_nil first) (is_nil (basket_gaps other m)) (sym e ∙ h)),
      ),
      λ h. ground (arith, e, one.1 (h.0), ih.1 (h.1)),
    )

module _ {F : Type 0} ⦃f : Float F⦄ where
  -- Two runs are said to be comparable exactly where they agree on the machine's inventory, the
  -- scoring model, the profile, the build target and the agent's version, the profile is not
  -- `endurance`, and each category of the baseline has the same modules in the candidate, or is
  -- lacking there, or has no modules recorded in one of the two; and where they are not, a reason is
  -- given. The build profile, the reference profile and the versions of the modules are not looked at,
  -- so two debug builds that agree on the rest are said to be comparable.
  pub compare-comparable :
      (b c : Stored F)
      → (((compare b c).comparable ≡ true) ↔ (
          IsSameSetting b.run c.run
          × All
              (λ (p : String × Basket). IsAlike (p.1) (lookup (p.0) (baskets_of c.categories)))
              (baskets_of b.categories)))
        × ((compare b c).comparable ≡ is_nil (compare b c).incomparable_reasons)
  unfolding compare
  compare-comparable b c =
      let gaps = basket_gaps (baskets_of c.categories) (baskets_of b.categories) in
      let e = is_nil-append (comparability_gaps b.run c.run) gaps in
      let q = is_nil-comparability_gaps b.run c.run in
      let one = settings-IsSameSetting b.run c.run in
      let all = is_nil-basket_gaps (baskets_of c.categories) (baskets_of b.categories) in
      (
        (
          λ h. (one.0 (ground (arith, e, q)), all.0 (ground (arith, e))),
          λ h. ground (arith, e, q, one.1 (h.0), all.1 (h.1)),
        ),
        refl,
      )
