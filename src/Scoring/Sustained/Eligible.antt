-- ===== src/Scoring/Sustained/Eligible.antt =====
-- What the sustained analysis makes of a module that did not complete: nothing.
use darcbench.Base.{
  ℕ, ◌≡◌, refl, ap, sym, keep_yes, keep_no, ◌∙◌, false, List, [], ◌∷◌, keep, Bool-cases, inl, inr,
  arith, String, last?, some, none, nat_eq,
}
use darcbench.Base.Num.{Float}
use darcbench.Base.Map.{Map}
use darcbench.Protocol.Metrics.{ModuleResult, is_scoreable}
use darcbench.Scoring.Sustained.{
  Seen, see, see_all, seen_in, full_cycles, complete_cycles, scoring_cycle, Point, add_eligible,
  series_of, analyse_in, analyse,
}

module _ {F : Type 0} where
  -- the modules that completed, degraded or not
  abbrev pub scoreable : List (ModuleResult F) → List (ModuleResult F)
  scoreable = keep λ m. is_scoreable m.status

  see_all-scoreable :
      (s : Seen) (ms : List (ModuleResult F)) → see_all s (scoreable ms) ≡ see_all s ms
  unfolding see_all see
  see_all-scoreable s [] = refl
  see_all-scoreable s (m ∷ ms) = ground (arith, see_all-scoreable (see s m) ms)

  complete_cycles-scoreable :
      (ms : List (ModuleResult F)) → complete_cycles (scoreable ms) ≡ complete_cycles ms
  unfolding complete_cycles seen_in
  complete_cycles-scoreable ms = ap full_cycles (see_all-scoreable _ ms)

  pub scoring_cycle-scoreable :
      (ms : List (ModuleResult F)) → scoring_cycle (scoreable ms) ≡ scoring_cycle ms
  unfolding scoring_cycle
  scoring_cycle-scoreable ms =
      ap (λ cs. elim (last? cs) [ some c ↦ c | none ↦ 0 ]) (complete_cycles-scoreable ms)

module _ {F : Type 0} ⦃f : Float F⦄ where
  add_eligible_skipped :
      (cs : List ℕ) (series : Map String (List (Point F))) (m : ModuleResult F)
      → is_scoreable m.status ≡ false
      → add_eligible cs series m ≡ series
  unfolding add_eligible
  add_eligible_skipped cs series m e = ground arith

  series_of-scoreable :
      (cs : List ℕ) (series : Map String (List (Point F))) (ms : List (ModuleResult F))
      → series_of cs series (scoreable ms) ≡ series_of cs series ms
  unfolding series_of
  series_of-scoreable cs series [] = refl
  series_of-scoreable cs series (m ∷ ms) = elim (Bool-cases (is_scoreable m.status)) [
    | inl e ↦
        ap (series_of cs series) (keep_yes (λ (x : ModuleResult F). is_scoreable x.status) m ms e)
        ∙ series_of-scoreable cs (add_eligible cs series m) ms
    | inr e ↦
        ap (series_of cs series) (keep_no (λ (x : ModuleResult F). is_scoreable x.status) m ms e)
        ∙ (series_of-scoreable cs series ms
            ∙ ap (λ s. series_of cs s ms) (sym (add_eligible_skipped cs series m e)))
  ]

  analyse_in-scoreable :
      (cs : List ℕ) (ms : List (ModuleResult F)) → analyse_in cs (scoreable ms) ≡ analyse_in cs ms
  unfolding analyse_in
  analyse_in-scoreable cs ms = rw (series_of-scoreable cs [] ms) refl

  pub analyse-scoreable : (ms : List (ModuleResult F)) → analyse (scoreable ms) ≡ analyse ms
  unfolding analyse
  analyse-scoreable ms =
      ap (λ cs. analyse_in cs (scoreable ms)) (complete_cycles-scoreable ms)
      ∙ analyse_in-scoreable (complete_cycles ms) ms
