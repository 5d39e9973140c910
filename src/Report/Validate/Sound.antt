-- ===== src/Report/Validate/Sound.antt =====
-- What a verdict of `validate_bundle` rests on.
use darcbench.Base.{
  ◌≡◌, refl, ◌↔◌, Bool, true, false, not, Option, none, some, String, List, [], ◌∷◌, any, is_nil,
  arith, ap, sym, ◌∙◌,
}
use mathlib.Core.Path.{subst}
use mathlib.Core.Option.{some-injective}
use darcbench.Base.Num.{Float}
use darcbench.Base.Result.{Result, ok, err}
use darcbench.Protocol.Run.{ResultState, VerdictReason, is_standard}
use darcbench.Scoring.Card.{ScoringModel, ScoreCard}
use darcbench.Scoring.Model.{for_version, score_run}
use darcbench.Report.Signing.{Crypto, SigningError}
use darcbench.Report.Bundle.{Bundle, verify_signature, local_result_state}
use darcbench.Report.Match.{scores_match}
use darcbench.Report.Verdict.{Findings, is_partial_reason, dedup_onto, note_categories}
use darcbench.Report.Verdict.Dedup.{any-dedup_onto}
use darcbench.Report.Validate.{
  Recomputation, check_local, check_signature, recompute, match_result, check_server, authoritative,
  state_of, all_reasons, validate_bundle,
}
use darcbench.Report.Validate.Quiet.{IsQuiet, IsLocallyClean, IsQuiet-check_local, not-IsQuiet-fail}

IsQuiet-check_signature :
    (r : Result SigningError (Unit {0})) (s : Findings)
    → IsQuiet (check_signature r s) ↔ (IsQuiet s × (r ≡ ok tt))
unfolding check_signature
IsQuiet-check_signature (ok u) s = ground arith
IsQuiet-check_signature (err e) s = ground arith

nil_of_is_nil : {A : Type 0} (xs : List A) → is_nil xs ≡ true → xs ≡ []
nil_of_is_nil [] h = refl
nil_of_is_nil (x ∷ xs) h = cc

module _ {F : Type 0} ⦃f : Float F⦄ where
  -- The score card follows from the metrics by a model this build implements, and lacks nothing.
  pub record IsRecomputed (b : Bundle F) : Type 0 where
    pub model : ScoringModel F
    pub known : for_version b.scores.scoring_model ≡ some model
    pub agrees : scores_match (score_run model b.run.profile b.modules) b.scores ≡ ok tt
    pub complete : (score_run model b.run.profile b.modules).missing_required_categories ≡ []

  IsQuiet-match_result :
      (s : Findings) (card : ScoreCard F) (r : Result String (Unit {0}))
      → IsQuiet ((match_result s card r).findings) ↔ (IsQuiet s × (r ≡ ok tt))
  unfolding match_result
  IsQuiet-match_result s card (ok u) = ground arith
  IsQuiet-match_result s card (err e) = ground arith

  abbrev is_complete : Bundle F → Recomputation F → Bool
  is_complete b r = is_nil ((authoritative b r).missing_required_categories)

  is_complete-match_result :
      (b : Bundle F) (s : Findings) (card : ScoreCard F) (r : Result String (Unit {0}))
      → is_complete b (match_result s card r) ≡ is_nil card.missing_required_categories
  unfolding match_result authoritative
  is_complete-match_result b s card (ok u) = refl
  is_complete-match_result b s card (err e) = refl

  IsQuiet-recompute :
      (b : Bundle F) (m : Option (ScoringModel F)) (s : Findings)
      → for_version b.scores.scoring_model ≡ m
      → (IsQuiet ((recompute b m s).findings) × (is_complete b (recompute b m s) ≡ true))
        ↔ (IsQuiet s × IsRecomputed b)
  unfolding recompute
  IsQuiet-recompute b none s e =
      (λ h. absurd (not-IsQuiet-fail _ s h.0), λ h. absurd (cc (e, (h.1).known)))
  IsQuiet-recompute b (some model) s e =
      let card = score_run model b.run.profile b.modules in
      let r = scores_match card b.scores in
      let same = is_complete-match_result b s card r in
      (
        λ h. (
          ((IsQuiet-match_result s card r).0 h.0).0,
          record {
            model = model;
            known = e;
            agrees = ((IsQuiet-match_result s card r).0 h.0).1;
            complete = nil_of_is_nil _ (sym same ∙ h.1);
          },
        ),
        λ h.
            let q = h.1 in
            let eq : q.model ≡ model = some-injective _ _ (sym q.known ∙ e) in
            (
              (IsQuiet-match_result s card r).1 (
                h.0,
                subst (λ m. scores_match (score_run m b.run.profile b.modules) b.scores ≡ ok tt) eq
                    q.agrees,
              ),
              same
                  ∙ ap is_nil (
                      subst
                        (λ m.
                          (score_run m b.run.profile b.modules).missing_required_categories ≡ [])
                        eq q.complete),
            ),
      )

  not-validated-local : (b : Bundle F) → local_result_state b ≡ ResultState.validated → ⊥
  unfolding local_result_state
  not-validated-local b h = ground arith

  -- The conditions that the server asks of a bundle it calls validated.
  pub record IsEligible (c : Crypto (Bundle F)) (b : Bundle F) : Type 0 where
    pub locally : IsLocallyClean b
    pub standard : is_standard b.run.profile ≡ true
    pub signed : verify_signature c b ≡ ok tt
    pub recomputed : IsRecomputed b

  state_validated :
      (b : Bundle F) (server fatal missing : Bool) (rs : List VerdictReason)
      → (state_of b server fatal missing rs ≡ ResultState.validated) ↔ (
          (fatal ≡ false)
          × (is_standard b.run.profile ≡ true)
          × (missing ≡ false)
          × (any is_partial_reason rs ≡ false)
          × (server ≡ true))
  unfolding state_of
  state_validated b server fatal missing rs = ground (arith, not-validated-local b)

  module _ (c : Crypto (Bundle F)) where
    IsQuiet-check_server :
        (b : Bundle F) (s : Findings)
        → (IsQuiet ((check_server c b true s).findings)
            × (is_complete b (check_server c b true s) ≡ true))
          ↔ (IsQuiet s × (verify_signature c b ≡ ok tt) × IsRecomputed b)
    unfolding check_server
    IsQuiet-check_server b s =
        let v = verify_signature c b in
        let once = check_signature v s in
        let e = IsQuiet-recompute b (for_version b.scores.scoring_model) once refl in
        (
          λ h.
              let (q, r) = e.0 h in
              let (q', sig) = (IsQuiet-check_signature v s).0 q in (q', sig, r),
          λ h. e.1 ((IsQuiet-check_signature v s).1 (h.0, h.1), h.2),
        )

    all_reasons_of_complete :
        (b : Bundle F) (r : Recomputation F)
        → is_complete b r ≡ true
        → all_reasons b r ≡ r.findings.reasons
    unfolding all_reasons note_categories
    all_reasons_of_complete b r h =
        ap (λ ks. (note_categories ks r.findings).reasons)
          (nil_of_is_nil ((authoritative b r).missing_required_categories) h)

    -- The server calls a bundle validated exactly when the run completed under the current schema in a
    -- release build, every module completed, each metric is of a dispersion or of a tail, or has no CV
    -- or one of at most 0.25, or has a known robust spread (the relative MAD, or else the relative
    -- width of the median's interval) not above 0.25, so that a CV above 0.25 alone does not stand in
    -- the way; the metadata is there, the clock did not run back, the profile is standard, the signature
    -- verifies, the declared scoring model is known, and the card recomputed by it from the raw metrics
    -- agrees with the claimed one and misses no required category.
    pub validate_bundle-validated :
        (b : Bundle F)
        → ((validate_bundle c b true).verdict.state ≡ ResultState.validated) ↔ IsEligible c b
    unfolding validate_bundle
    validate_bundle-validated b =
        let s = check_local b in
        let r = check_server c b true s in
        let rs = all_reasons b r in
        let st =
          state_validated b true r.findings.fatal (not (is_complete b r)) (dedup_onto [] rs) in
        let loc = IsQuiet-check_local b in
        let srv = IsQuiet-check_server b s in
        let same = any-dedup_onto is_partial_reason [] rs in
        (
          λ h.
              let (calm, std, whole, none_partial, _) = st.0 h in
              let complete : is_complete b r ≡ true = ground arith in
              let quiet : IsQuiet r.findings = record {
                calm = calm;
                whole =
                    ap (any is_partial_reason) (sym (all_reasons_of_complete b r complete))
                    ∙ (sym same ∙ none_partial);
              } in
              let (q, sig, rec) = srv.0 (quiet, complete) in
              record { locally = loc.0 q; standard = std; signed = sig; recomputed = rec },
          λ e.
              let (q, complete) = srv.1 (loc.1 e.locally, e.signed, e.recomputed) in
              st.1 (
                q.calm,
                e.standard,
                ap not complete,
                same
                    ∙ (ap (any is_partial_reason) (all_reasons_of_complete b r complete) ∙ q.whole),
                refl,
              ),
        )
