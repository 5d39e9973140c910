-- ===== src/Agent/Server.antt =====
-- crates/darcbench-agent/src/server.rs: the request that starts a run, from its credentials to the run.
-- The JSON of the request is decoded by the framework.
use darcbench.Base.{
  ℕ, ◌*◌, Bool, true, false, not, ◌&&◌, Option, none, some, String, List, [], ◌∷◌, is_some,
  if◌then◌else◌, ltb, leb,
}
use darcbench.Base.Result.{Result, ok, err, is_ok, check, ◌>>=◌, ◌>>◌}
use darcbench.Base.Text.{codes}
use darcbench.Protocol.Run.{
  Profile, quick, custom, profile_from_str, cycle_target_minutes, endurance_min_minutes,
  endurance_max_minutes,
}
use darcbench.Protocol.Ids.{module_id_from_str}
use darcbench.Measure.Registry
use darcbench.Measure.Registry.{Registry}
use darcbench.Agent.Access.{AccessToken, Headers, ApiError, require}
use darcbench.Agent.Runs.{RunHandle, RunError, already_running, no_modules, unknown_modules, start}
pub mod Started

pub record CreateRunRequest : Type 0 where
  pub profile : Option String
  pub modules : Option (List String)
  pub force : Bool
  pub duration_minutes : Option ℕ

abbrev pub bad_request : String → ApiError
bad_request code = record { status = 400; code = code }

unfoldable pub api_error : RunError → ApiError
api_error (already_running id) = record { status = 409; code = "run_in_progress" }
api_error (unknown_modules ids) = bad_request "unknown_module"
api_error (no_modules p) = bad_request "profile_unavailable"

unfoldable pub parse_profile : Option String → Result ApiError Profile
parse_profile none = ok quick
parse_profile (some raw) = elim (profile_from_str (codes raw)) [
  | none ↦ err (bad_request "unknown_profile")
  | some p ↦ ok p
]

-- the loop with its `?`
unfoldable pub check_ids : List String → Result ApiError (Unit {0})
check_ids [] = ok tt
check_ids (id ∷ ids) =
    let rest = check_ids ids in
    check (is_ok (module_id_from_str (codes id))) (bad_request "invalid_module_id") >> rest

unfoldable pub check_module_ids : Option (List String) → Result ApiError (Unit {0})
unfolding check_ids
check_module_ids none = ok tt
check_module_ids (some ids) = check_ids ids

-- The seconds that the run is to cycle for.
unfoldable pub parse_duration : Profile → Option ℕ → Result ApiError (Option ℕ)
parse_duration p none = ok none
parse_duration p (some minutes) =
    if not (is_some (cycle_target_minutes p))
    then err (bad_request "duration_not_supported")
    else if leb endurance_min_minutes minutes && leb minutes endurance_max_minutes
    then ok (some (minutes * 60))
    else err (bad_request "invalid_duration")

unfoldable pub profile_of : Profile → Option (List String) → Profile
profile_of p (some _) = custom
profile_of p none = p

module _ {M : Type 0} (registry : Registry M) where
  unfoldable pub modules_of : Profile → Option ℕ → Option (List String) → Option (List String)
  modules_of p (some _) none = some (Registry.modules_for_profile registry p)
  modules_of p (some _) (some ids) = some ids
  modules_of p none requested = requested

  answer : Result RunError RunHandle × List RunHandle → Result ApiError RunHandle × List RunHandle
  answer (ok handle, runs) = (ok handle, runs)
  answer (err e, runs) = (err (api_error e), runs)

  unfoldable pub start_parsed :
      (String → Bool)
      → String
      → Option (List String)
      → List RunHandle
      → Result ApiError (Profile × Option ℕ)
      → Result ApiError RunHandle × List RunHandle
  unfolding modules_of profile_of answer api_error start
  start_parsed is_stored id requested runs (err e) = (err e, runs)
  start_parsed is_stored id requested runs (ok (p, duration)) =
      let modules = modules_of p duration requested in
      answer (start registry is_stored id (profile_of p modules) modules duration runs)

  unfoldable pub parse_request :
      Headers
      → Option (List ℕ)
      → AccessToken
      → CreateRunRequest
      → Result ApiError (Profile × Option ℕ)
  unfolding require parse_profile check_module_ids parse_duration
  parse_request headers query t request = do
    require headers query t true
    p ← parse_profile request.profile
    check_module_ids request.modules
    duration ← parse_duration p request.duration_minutes
    ok (p, duration)

  -- With the id that is drawn, and the runs in memory.
  unfoldable pub create_run :
      Headers
      → Option (List ℕ)
      → AccessToken
      → CreateRunRequest
      → (String → Bool)
      → String
      → List RunHandle
      → Result ApiError RunHandle × List RunHandle
  unfolding parse_request start_parsed
  create_run headers query t request is_stored id runs =
      start_parsed is_stored id request.modules runs (parse_request headers query t request)
