-- ===== src/Agent/Server/Started.antt =====
-- What holds of a run that a request has started.
use darcbench.Base.{
  ℕ, ◌*◌, ◌≤◌, ◌≡◌, refl, sym, ap, subst, ◌∙◌, Bool, true, false, ◌||◌, Option, none, some, is_some,
  String, List, [], ◌∷◌, keep, collect, All, if◌then◌else◌, Bool-cases, inl, inr, arith, string_eq,
}
use darcbench.Base.Map.{lookup}
use darcbench.Base.Result.{Result, ok, err, >>=-ok}
use darcbench.Protocol.Run.{Profile, custom, endurance_max_minutes}
use darcbench.Measure.Registry
use darcbench.Measure.Registry.{Registry}
use darcbench.Agent.Access.{AccessToken, Headers, ApiError, require}
use darcbench.Agent.Runs.{
  RunHandle, RunError, is_live, start, start_with, resolve, claim, claim_unless, cycle_target_of,
  capped_target, target_or,
}
use darcbench.Agent.Server.{
  CreateRunRequest, create_run, start_parsed, parse_request, answer, modules_of, profile_of,
  parse_profile, check_module_ids, parse_duration,
}

abbrev pub Within : ℕ → Option ℕ → Type 0
Within n none = Unit
Within n (some t) = t ≤ n

if_true : {b : Bool} {id : String} → b ≡ true → (if b then some id else none) ≡ some id
if_true h = rw h refl

if_false : {b : Bool} (id : String) → b ≡ false → (if b then some id else none) ≡ none
if_false id h = rw h refl

module _ {M : Type 0} (registry : Registry M) where
  abbrev pub IsKnown : String → Type 0
  IsKnown id = is_some (lookup id registry.modules) ≡ true

  capped-Within : (o : Option ℕ) → Within (endurance_max_minutes * 60) (capped_target registry o)
  unfolding capped_target
  capped-Within none = tt
  capped-Within (some t) = ground arith

  cycle_target_of-Within :
      (p : Profile) (o : Option ℕ)
      → Within (endurance_max_minutes * 60) (cycle_target_of registry p o)
  unfolding cycle_target_of
  cycle_target_of-Within p o = capped-Within (target_or registry p o)

  has_yes :
      (id : String) (ids : List String)
      → IsKnown id
      → collect (Registry.has registry) (id ∷ ids) ≡ id ∷ collect (Registry.has registry) ids
  unfolding Registry.has
  has_yes id ids h =
      ap
        (λ o. elim o [
          | some y ↦ y ∷ collect (Registry.has registry) ids
          | none ↦ collect (Registry.has registry) ids
        ])
        (if_true h)

  has_no :
      (id : String) (ids : List String)
      → is_some (lookup id registry.modules) ≡ false
      → collect (Registry.has registry) (id ∷ ids) ≡ collect (Registry.has registry) ids
  unfolding Registry.has
  has_no id ids h =
      ap
        (λ o. elim o [
          | some y ↦ y ∷ collect (Registry.has registry) ids
          | none ↦ collect (Registry.has registry) ids
        ])
        (if_false id h)

  has-IsKnown : (ids : List String) → All IsKnown (collect (Registry.has registry) ids)
  has-IsKnown [] = tt
  has-IsKnown (id ∷ ids) = elim (Bool-cases (is_some (lookup id registry.modules))) [
    | inl e ↦ subst (λ l. All IsKnown l) (sym (has_yes id ids e)) (e, has-IsKnown ids)
    | inr e ↦ subst (λ l. All IsKnown l) (sym (has_no id ids e)) (has-IsKnown ids)
  ]

  -- A run that was started.
  pub record IsStarted (id : String) (runs : List RunHandle) (h : RunHandle) : Type 0 where
    pub idle : keep is_live runs ≡ []
    pub named : h.id ≡ id
    pub known : All IsKnown h.modules
    pub bounded : Within (endurance_max_minutes * 60) h.cycle_target
    pub live : is_live h ≡ true

  claim-idle :
      (f : String → Bool) (live : List RunHandle) (h h' : RunHandle) (runs runs' : List RunHandle)
      → claim_unless f live h runs ≡ (ok h', runs')
      → (live ≡ []) × (h ≡ h')
  unfolding claim_unless
  claim-idle f [] h h' runs runs' e = (refl, ok_inj refl (ap (λ r. r.0) e))
    where
      ok_inj : {x : Result RunError RunHandle} → x ≡ ok h → x ≡ ok h' → h ≡ h'
      ok_inj q r = cc
  claim-idle f (a ∷ as') h h' runs runs' e = absurd (clash (ap (λ r. r.0) e))
    where
      clash : {x : RunError} → err x ≡ ok h' → ⊥
      clash q = cc

  start_with-IsStarted :
      (f : String → Bool) (id : String) (p : Profile) (d : Option ℕ)
      (modules : Result RunError (List String)) (runs runs' : List RunHandle) (h : RunHandle)
      → start_with registry f id p d modules runs ≡ (ok h, runs')
      → IsStarted id runs h × (h.profile ≡ p)
  unfolding start_with claim
  start_with-IsStarted f id p d (err x) runs runs' h e = absurd (clash (ap (λ r. r.0) e))
    where
      clash : err x ≡ ok h → ⊥
      clash q = cc
  start_with-IsStarted f id p d (ok []) runs runs' h e = absurd (clash (ap (λ r. r.0) e))
    where
      clash : {x : RunError} → err x ≡ ok h → ⊥
      clash q = cc
  start_with-IsStarted f id p d (ok (m ∷ ms)) runs runs' h e =
      let (idle, q) = claim-idle f (keep is_live runs) _ h runs runs' e in
      (
        subst (λ x. IsStarted id runs x) q
            (record {
              idle = idle;
              named = refl;
              known = has-IsKnown (m ∷ ms);
              bounded = cycle_target_of-Within p d;
              live = refl;
            }),
        ap (λ (x : RunHandle). x.profile) (sym q),
      )

  answer_inv :
      (r : Result RunError RunHandle × List RunHandle) (h : RunHandle) (runs : List RunHandle)
      → answer registry r ≡ (ok h, runs)
      → r ≡ (ok h, runs)
  unfolding answer
  answer_inv (ok h', runs') h runs e =
      λ i. (ok (ok_eq h' h (ok h') (ok h) refl refl (ap (λ r. r.0) e) i), (e i).1)
    where
      ok_eq :
          (a b : RunHandle) (x y : Result ApiError RunHandle) → x ≡ ok a → y ≡ ok b → x ≡ y → a ≡ b
      ok_eq a b x y p q r = cc
  answer_inv (err x, runs') h runs e = absurd (clash (ap (λ r. r.0) e))
    where
      clash : {y : ApiError} → err y ≡ ok h → ⊥
      clash q = cc

  parse_inv :
      (hs : Headers) (q : Option (List ℕ)) (t : AccessToken) (request : CreateRunRequest)
      (p : Profile) (d : Option ℕ)
      → parse_request registry hs q t request ≡ ok (p, d)
      → (require hs q t true ≡ ok tt)
        × (parse_profile request.profile ≡ ok p)
        × (parse_duration p request.duration_minutes ≡ ok d)
  unfolding parse_request
  parse_inv hs q t request p d e =
      let (_, e1, r1) = >>=-ok (require hs q t true) _ (p, d) e in
      let (p', e2, r2) = >>=-ok (parse_profile request.profile) _ (p, d) r1 in
      let (_, e3, r3) = >>=-ok (check_module_ids request.modules) _ (p, d) r2 in
      let (d', e4, r4) = >>=-ok (parse_duration p' request.duration_minutes) _ (p, d) r3 in
      let same = pair_inj p' p d' d _ _ refl refl r4 in
      (
        e1,
        e2 ∙ ap ok (same.0),
        ap (λ x. parse_duration x request.duration_minutes) (sym (same.0)) ∙ e4 ∙ ap ok (same.1),
      )
    where
      pair_inj :
          (a b : Profile) (x y : Option ℕ) (l r : Result ApiError (Profile × Option ℕ))
          → l ≡ ok (a, x)
          → r ≡ ok (b, y)
          → l ≡ r
          → (a ≡ b) × (x ≡ y)
      pair_inj a b x y l r el er e = (ap fst_of (sym el ∙ e ∙ er), ap snd_of (sym el ∙ e ∙ er))
        where
          fst_of : Result ApiError (Profile × Option ℕ) → Profile
          fst_of (ok z) = z.0
          fst_of (err z) = a

          snd_of : Result ApiError (Profile × Option ℕ) → Option ℕ
          snd_of (ok z) = z.1
          snd_of (err z) = x

  start_parsed_inv :
      (f : String → Bool) (id : String) (requested : Option (List String))
      (runs runs' : List RunHandle) (r : Result ApiError (Profile × Option ℕ)) (h : RunHandle)
      → start_parsed registry f id requested runs r ≡ (ok h, runs')
      → (p : Profile) × (d : Option ℕ) × (r ≡ ok (p, d))
        × IsStarted id runs h
        × (h.profile ≡ profile_of p (modules_of registry p d requested))
  unfolding start_parsed start
  start_parsed_inv f id requested runs runs' (err x) h e = absurd (clash (ap (λ r. r.0) e))
    where
      clash : err x ≡ ok h → ⊥
      clash q = cc
  start_parsed_inv f id requested runs runs' (ok (p, d)) h e =
      let modules = modules_of registry p d requested in
      let (s, q) =
        start_with-IsStarted f id (profile_of p modules) d
          (resolve registry (profile_of p modules) modules) runs runs' h (answer_inv _ h runs' e) in
      (p, d, refl, s, q)

  profile_of-custom :
      (p : Profile) (minutes d : Option ℕ) (ids : Option (List String))
      → parse_duration p minutes ≡ ok d
      → (is_some ids || is_some minutes) ≡ true
      → profile_of p (modules_of registry p d ids) ≡ custom
  unfolding profile_of modules_of parse_duration
  profile_of-custom p minutes none (some ids) e h = refl
  profile_of-custom p minutes (some t) (some ids) e h = refl
  profile_of-custom p minutes (some t) none e h = refl
  profile_of-custom p none none none e h = cc
  profile_of-custom p (some m) none none e h = ground arith

  -- A run that a request starts was asked for with the token in the `Authorization` header, at a time
  -- when no run was in flight. It has the id that was drawn, runs modules of the registry only, and
  -- cycles for a day at most. And where the request names modules or a duration it is a custom run,
  -- whatever profile it names, so it cannot pass for a standard one.
  pub create_run-IsStarted :
      (hs : Headers) (q : Option (List ℕ)) (t : AccessToken) (request : CreateRunRequest)
      (f : String → Bool) (id : String) (runs runs' : List RunHandle) (h : RunHandle)
      → create_run registry hs q t request f id runs ≡ (ok h, runs')
      → (require hs q t true ≡ ok tt)
        × IsStarted id runs h
        × ((is_some request.modules || is_some request.duration_minutes) ≡ true
            → h.profile ≡ custom)
  unfolding create_run
  create_run-IsStarted hs q t request f id runs runs' h e =
      let (p, d, e1, s, pr) =
        start_parsed_inv f id request.modules runs runs' (parse_request registry hs q t request) h
          e in
      let (r, _, ed) = parse_inv hs q t request p d e1 in
      (r, s, λ c. pr ∙ profile_of-custom p request.duration_minutes d request.modules ed c)
