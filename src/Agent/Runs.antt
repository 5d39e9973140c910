-- ===== src/Agent/Runs.antt =====
-- crates/darcbench-agent/src/runner.rs: the runs that the agent has in memory, the slot that one of
-- them may have, and the states that `execute` takes a run through. Which bundles are on disk is an
-- argument; a time is a number of seconds.
use darcbench.Base.{
  ℕ, suc, ◌+◌, ◌-◌, ◌*◌, Bool, true, false, not, ◌&&◌, Option, none, some, String, List, [], ◌∷◌,
  ◌++◌, map, length, keep, collect, is_nil, if◌then◌else◌, ltb, leb, ◌==◌, string_eq,
}
use darcbench.Base.Result.{Result, ok, err}
use darcbench.Base.Words.{at_most}
use darcbench.Protocol.Run.{
  RunState, created, preflight, running, finalizing, completed, failed, cancelled, is_terminal,
  Profile, cycle_target_minutes, endurance_max_minutes,
}
use darcbench.Measure.Registry
use darcbench.Measure.Registry.{Registry}
pub mod Slot
pub mod Evicted
pub mod Cycles

abbrev pub retained_runs_in_memory : ℕ
retained_runs_in_memory = 8

-- The fields of `RunHandle` that the manager reads, with the state that `finalise` is given.
pub record RunHandle : Type 0 where
  pub id : String
  pub profile : Profile
  pub modules : List String
  pub cycle_target : Option ℕ
  pub state : RunState
  pub ending : RunState

pub data RunError : Type 0 where
  already_running : String → RunError
  no_modules : Profile → RunError
  unknown_modules : List String → RunError

abbrev pub is_live : RunHandle → Bool
is_live r = not (is_terminal r.state)

module _ (is_stored : String → Bool) where
  abbrev pub is_replayable : RunHandle → Bool
  is_replayable r = is_terminal r.state && is_stored r.id

  -- `retain`, whose closure counts down
  unfoldable pub retain_from : ℕ → List RunHandle → List RunHandle
  retain_from evictable [] = []
  retain_from evictable (r ∷ rs) =
      let drops = ltb retained_runs_in_memory evictable && is_replayable r in
      let rest = retain_from (if drops then evictable - 1 else evictable) rs in
      if drops then rest else r ∷ rest

  unfoldable pub evict_replayable : List RunHandle → List RunHandle
  unfolding retain_from
  evict_replayable runs =
      let evictable = length (keep is_replayable runs) in
      if leb evictable retained_runs_in_memory then runs else retain_from evictable runs

  -- What is done under the lock of the runs, by the runs that are not terminal.
  unfoldable pub claim_unless :
      List RunHandle → RunHandle → List RunHandle → Result RunError RunHandle × List RunHandle
  unfolding evict_replayable
  claim_unless (active ∷ _) handle runs = (err (already_running active.id), runs)
  claim_unless [] handle runs = (ok handle, evict_replayable (runs ++ (handle ∷ [])))

  unfoldable pub claim : RunHandle → List RunHandle → Result RunError RunHandle × List RunHandle
  unfolding claim_unless
  claim handle runs = claim_unless (keep is_live runs) handle runs

module _ {M : Type 0} (registry : Registry M) where
  unfoldable pub resolve : Profile → Option (List String) → Result RunError (List String)
  resolve p none = ok (Registry.modules_for_profile registry p)
  resolve p (some ids) = elim (Registry.validate registry ids) [
    | ok _ ↦ ok ids
    | err unknown ↦ err (unknown_modules unknown)
  ]

  abbrev pub longest : ℕ
  longest = endurance_max_minutes * 60

  abbrev pub target_or : Profile → Option ℕ → Option ℕ
  target_or p (some t) = some t
  target_or p none = elim (cycle_target_minutes p) [ some m ↦ some (m * 60) | none ↦ none ]

  unfoldable pub capped_target : Option ℕ → Option ℕ
  capped_target none = none
  capped_target (some t) = some (at_most t longest)

  unfoldable pub cycle_target_of : Profile → Option ℕ → Option ℕ
  unfolding cycle_target_minutes capped_target
  cycle_target_of p override = capped_target (target_or p override)

  unfoldable pub start_with :
      (String → Bool)
      → String
      → Profile
      → Option ℕ
      → Result RunError (List String)
      → List RunHandle
      → Result RunError RunHandle × List RunHandle
  unfolding cycle_target_of claim
  start_with is_stored id p override (err e) runs = (err e, runs)
  start_with is_stored id p override (ok modules) runs =
      if is_nil modules
      then (err (no_modules p), runs)
      else claim is_stored
          (record {
            id = id;
            profile = p;
            modules = collect (Registry.has registry) modules;
            cycle_target = cycle_target_of p override;
            state = created;
            ending = created;
          })
          runs

  -- `start`, once an id is drawn; `execute` is spawned with the run that it returns.
  unfoldable pub start :
      (String → Bool)
      → String
      → Profile
      → Option (List String)
      → Option ℕ
      → List RunHandle
      → Result RunError RunHandle × List RunHandle
  unfolding resolve start_with
  start is_stored id p requested override runs =
      start_with is_stored id p override (resolve p requested) runs

-- The next state that `execute` and `finalise` set. The Boolean is whether the preflight passed, and
-- then whether the run was cancelled.
unfoldable pub next_state : Bool → RunState → RunState → RunState × RunState
next_state b created ending = (preflight, ending)
next_state true preflight ending = (running, ending)
next_state false preflight ending = (finalizing, failed)
next_state true running ending = (finalizing, cancelled)
next_state false running ending = (finalizing, completed)
next_state b finalizing ending = (ending, ending)
next_state b completed ending = (completed, ending)
next_state b failed ending = (failed, ending)
next_state b cancelled ending = (cancelled, ending)

unfoldable pub step_run : Bool → RunHandle → RunHandle
unfolding next_state
step_run b r =
    let (state, ending) = next_state b r.state r.ending in
    record r { state = state; ending = ending }
