-- ===== src/Report/Validate/Fatal.antt =====
-- What makes the server call a bundle invalid.
use darcbench.Base.{
  ◌≡◌, ap, sym, ◌∙◌, ◌↔◌, Bool, true, false, not, ◌||◌, Option, none, some, String, List, [], ◌∷◌,
  any, ltb, ◌==◌, string_eq, arith,
}
use darcbench.Base.Num.{Float}
use darcbench.Base.Result.{Result, ok, err, is_ok}
use darcbench.Protocol.Run.{RunState, ResultState, VerdictReason}
use darcbench.Protocol.Metrics.{ModuleStatus, Metric, ModuleResult}
use darcbench.Scoring.Card.{ScoringModel, ScoreCard}
use darcbench.Scoring.Model.{for_version, score_run}
use darcbench.Report.Signing.{Crypto, SigningError}
use darcbench.Report.Bundle.{Bundle, verify_signature}
use darcbench.Report.Match.{scores_match}
use darcbench.Report.Verdict.{Findings, check_state, check_missing}
use darcbench.Report.Validate.{
  bundle_schema_version, check_status, check_metrics, check_modules, check_schema, check_build,
  check_metadata, check_clock, check_profile, check_local, check_signature, match_result, recompute,
  check_server, state_of, validate_bundle,
}

abbrev is_complete_state : RunState → Bool
is_complete_state RunState.completed = true
is_complete_state _ = false

abbrev is_cancelled_status : ModuleStatus → Bool
is_cancelled_status ModuleStatus.cancelled = true
is_cancelled_status _ = false

or_assoc : (x y z : Bool) → ((x || y) || z) ≡ (x || (y || z))
or_assoc x y z = ground arith

fatal-check_state :
    (st : RunState) (s : Findings)
    → (check_state st s).fatal ≡ (s.fatal || not (is_complete_state st))
unfolding check_state
fatal-check_state RunState.completed s = ground arith
fatal-check_state _ s = ground arith

fatal-check_signature :
    (r : Result SigningError (Unit {0})) (s : Findings)
    → (check_signature r s).fatal ≡ (s.fatal || not (is_ok r))
unfolding check_signature
fatal-check_signature (ok u) s = ground arith
fatal-check_signature (err e) s = ground arith

module _ {F : Type 0} ⦃f : Float F⦄ where
  fatal-check_status :
      (st : ModuleStatus) (m : ModuleResult F) (s : Findings)
      → (check_status st m s).fatal ≡ (s.fatal || is_cancelled_status st)
  unfolding check_status
  fatal-check_status ModuleStatus.completed m s = ground arith
  fatal-check_status ModuleStatus.degraded m s = ground arith
  fatal-check_status ModuleStatus.failed m s = ground arith
  fatal-check_status ModuleStatus.cancelled m s = ground arith
  fatal-check_status ModuleStatus.skipped m s = ground arith

  fatal-check_metrics :
      (id : String) (ms : List (Metric F)) (s : Findings) → (check_metrics id ms s).fatal ≡ s.fatal
  unfolding check_metrics
  fatal-check_metrics id ms s = ground arith

  abbrev is_cancelled : ModuleResult F → Bool
  is_cancelled m = is_cancelled_status m.status

  fatal-check_modules :
      (ms : List (ModuleResult F)) (s : Findings)
      → (check_modules ms s).fatal ≡ (s.fatal || any is_cancelled ms)
  unfolding check_modules
  fatal-check_modules [] s = ground arith
  fatal-check_modules (m ∷ ms) s =
      let next = check_status m.status m s in
      ground (
        arith,
        fatal-check_modules ms (check_metrics m.id m.metrics next),
        fatal-check_metrics m.id m.metrics next,
        fatal-check_status m.status m s,
      )

  fatal-check_metadata : (b : Bundle F) (s : Findings) → (check_metadata b s).fatal ≡ s.fatal
  unfolding check_metadata check_missing
  fatal-check_metadata b s = ground arith

  -- the fatal conditions before the signature
  abbrev pub is_spoiled : Bundle F → Bool
  is_spoiled b =
      not (is_complete_state b.run.state)
      || (not (b.meta.schema == bundle_schema_version)
          || (any is_cancelled b.modules || ltb b.run.finished_at b.run.started_at))

  fatal-check_schema :
      (b : Bundle F) (s : Findings)
      → (check_schema b s).fatal ≡ (s.fatal || not (b.meta.schema == bundle_schema_version))
  unfolding check_schema
  fatal-check_schema b s = ground arith

  fatal-check_build : (b : Bundle F) (s : Findings) → (check_build b s).fatal ≡ s.fatal
  unfolding check_build
  fatal-check_build b s = ground arith

  fatal-check_clock :
      (b : Bundle F) (s : Findings)
      → (check_clock b s).fatal ≡ (s.fatal || ltb b.run.finished_at b.run.started_at)
  unfolding check_clock
  fatal-check_clock b s = ground arith

  fatal-check_profile : (b : Bundle F) (s : Findings) → (check_profile b s).fatal ≡ s.fatal
  unfolding check_profile
  fatal-check_profile b s = ground arith

  fatal-check_local : (b : Bundle F) → (check_local b).fatal ≡ is_spoiled b
  unfolding check_local
  fatal-check_local b =
      let s1 = check_state b.run.state (record { reasons = []; fatal = false }) in
      let s2 = check_schema b s1 in
      let s3 = check_build b s2 in
      let s4 = check_modules b.modules s3 in
      let s5 = check_metadata b s4 in
      let s6 = check_clock b s5 in
      fatal-check_profile b s6
      ∙ rw
          (
            fatal-check_clock b s5,
            fatal-check_metadata b s4,
            fatal-check_modules b.modules s3,
            fatal-check_build b s2,
            fatal-check_schema b s1,
            fatal-check_state b.run.state (record { reasons = []; fatal = false }),
          )
          (ground arith)

  -- The declared model is not known, or the card recomputed by it is not the claimed one.
  abbrev pub is_contradicted : Bundle F → Option (ScoringModel F) → Bool
  is_contradicted b none = true
  is_contradicted b (some model) =
      not (is_ok (scores_match (score_run model b.run.profile b.modules) b.scores))

  fatal-match_result :
      (s : Findings) (card : ScoreCard F) (r : Result String (Unit {0}))
      → (match_result s card r).findings.fatal ≡ (s.fatal || not (is_ok r))
  unfolding match_result
  fatal-match_result s card (ok u) = ground arith
  fatal-match_result s card (err e) = ground arith

  fatal-recompute :
      (b : Bundle F) (o : Option (ScoringModel F)) (s : Findings)
      → (recompute b o s).findings.fatal ≡ (s.fatal || is_contradicted b o)
  unfolding recompute
  fatal-recompute b none s = ground arith
  fatal-recompute b (some model) s = fatal-match_result s _ _

  fatal-state_of :
      (b : Bundle F) (fatal missing : Bool) (rs : List VerdictReason)
      → (state_of b true fatal missing rs ≡ ResultState.invalid) ↔ (fatal ≡ true)
  unfolding state_of
  fatal-state_of b fatal missing rs = ground arith

  -- The server calls a bundle invalid exactly when the run did not complete, or the schema is another,
  -- or a module was cancelled, or the clock ran back, or the signature does not verify, or the declared
  -- model is not known, or the card recomputed by it does not agree with the claimed one. Nothing else
  -- makes a bundle invalid, and none of these is forgiven.
  pub validate_bundle-invalid :
      (c : Crypto (Bundle F)) (b : Bundle F)
      → ((validate_bundle c b true).verdict.state ≡ ResultState.invalid) ↔ (
          (is_spoiled b
            || (not (is_ok (verify_signature c b))
                || is_contradicted b (for_version b.scores.scoring_model)))
          ≡ true)
  unfolding validate_bundle check_server
  validate_bundle-invalid c b =
      let s = check_local b in
      let signed = check_signature (verify_signature c b) s in
      let e =
        fatal-state_of b (recompute b (for_version b.scores.scoring_model) signed).findings.fatal _
          _ in
      let q =
        fatal-recompute b (for_version b.scores.scoring_model) signed
        ∙ (ap (λ x. x || is_contradicted b (for_version b.scores.scoring_model))
              (fatal-check_signature (verify_signature c b) s)
            ∙ (ap
                  (λ x.
                    (x || not (is_ok (verify_signature c b)))
                    || is_contradicted b (for_version b.scores.scoring_model))
                  (fatal-check_local b)
                ∙ or_assoc (is_spoiled b) (not (is_ok (verify_signature c b)))
                    (is_contradicted b (for_version b.scores.scoring_model)))) in
      (λ h. sym q ∙ e.0 h, λ h. e.1 (q ∙ h))
