-- ===== src/Agent/Runs/Slot.antt =====
-- The slot of the one run that may be in flight.
use darcbench.Base.{
  ℕ, ◌+◌, ◌-◌, ◌≤◌, ◌≡◌, refl, ap, Bool, true, Option, String, List, [], ◌∷◌, ◌++◌, map, length,
  keep, if◌then◌else◌, ◌==◌, string_eq, arith,
}
use darcbench.Base.Result.{Result, ok, err}
use darcbench.Protocol.Run.{Profile}
use darcbench.Measure.Registry.{Registry}
use darcbench.Agent.Runs.{
  RunHandle, RunError, is_live, claim_unless, start_with, retain_from, evict_replayable, claim,
  start, resolve, next_state, step_run, is_replayable,
}

-- What can happen to the runs: a request to start one, with the bundles that are on disk then, or a
-- step of the task of one.
pub data Event : Type 0 where
  begin : (String → Bool) → String → Profile → Option (List String) → Option ℕ → Event
  move : String → Bool → Event

abbrev pub live_runs : List RunHandle → ℕ
live_runs runs = length (keep is_live runs)

step_one : String → Bool → RunHandle → RunHandle
step_one id b r = if r.id == id then step_run b r else r

module _ {M : Type 0} (registry : Registry M) where
  unfoldable pub act : Event → List RunHandle → List RunHandle
  unfolding step_one
  act (begin is_stored id p requested override) runs =
      (start registry is_stored id p requested override runs).1
  act (move id b) runs = map (step_one id b) runs

  unfoldable pub run : List Event → List RunHandle → List RunHandle
  unfolding act
  run [] runs = runs
  run (e ∷ es) runs = run es (act e runs)

step_run-is_live : (b : Bool) (r : RunHandle) → is_live (step_run b r) ≡ true → is_live r ≡ true
unfolding step_run next_state
step_run-is_live b r h = ground arith

step_one-is_live :
    (id : String) (b : Bool) (r : RunHandle) → is_live (step_one id b r) ≡ true → is_live r ≡ true
unfolding step_one
step_one-is_live id b r h = ground (arith, step_run-is_live b r)

live_runs-map :
    (id : String) (b : Bool) (runs : List RunHandle)
    → live_runs (map (step_one id b) runs) ≤ live_runs runs
live_runs-map id b [] = omega arith
live_runs-map id b (r ∷ rs) = ground (arith, step_one-is_live id b r, live_runs-map id b rs)

live_runs-retain_from :
    (d : String → Bool) (n : ℕ) (runs : List RunHandle)
    → live_runs (retain_from d n runs) ≤ live_runs runs
unfolding retain_from
live_runs-retain_from d n [] = omega arith
live_runs-retain_from d n (r ∷ rs) =
    ground (arith, live_runs-retain_from d n rs, live_runs-retain_from d (n - 1) rs)

live_runs-append :
    (runs : List RunHandle) (r : RunHandle) → live_runs (runs ++ (r ∷ [])) ≤ live_runs runs + 1
live_runs-append [] r = ground arith
live_runs-append (q ∷ qs) r = ground (arith, live_runs-append qs r)

live_runs-evict_replayable :
    (d : String → Bool) (runs : List RunHandle)
    → live_runs (evict_replayable d runs) ≤ live_runs runs
unfolding evict_replayable
live_runs-evict_replayable d runs =
    ground (arith, live_runs-retain_from d (length (keep (is_replayable d) runs)) runs)

live_runs-claim :
    (d : String → Bool) (h : RunHandle) (runs live : List RunHandle)
    → live ≡ keep is_live runs
    → live_runs runs ≤ 1
    → live_runs (claim_unless d live h runs).1 ≤ 1
unfolding claim_unless
live_runs-claim d h runs [] e l =
    omega
      (arith, ap length e, live_runs-append runs h, live_runs-evict_replayable d (runs ++ (h ∷ [])))
live_runs-claim d h runs (a ∷ as') e l = l

module _ {M : Type 0} (registry : Registry M) where
  live_runs-start_with :
      (d : String → Bool) (id : String) (p : Profile) (override : Option ℕ)
      (modules : Result RunError (List String)) (runs : List RunHandle)
      → live_runs runs ≤ 1
      → live_runs (start_with registry d id p override modules runs).1 ≤ 1
  unfolding start_with claim
  live_runs-start_with d id p override (err e) runs l = l
  live_runs-start_with d id p override (ok []) runs l = l
  live_runs-start_with d id p override (ok (x ∷ xs)) runs l =
      live_runs-claim d _ runs (keep is_live runs) refl l

  live_runs-act :
      (e : Event) (runs : List RunHandle) → live_runs runs ≤ 1 → live_runs (act registry e runs) ≤ 1
  unfolding act start
  live_runs-act (begin d id p requested override) runs l =
      live_runs-start_with d id p override (resolve registry p requested) runs l
  live_runs-act (move id b) runs l = omega (arith, l, live_runs-map id b runs)

  -- However many runs are asked for, and however the tasks of the runs move on in between, at most one
  -- run is in flight.
  pub live_runs-run :
      (es : List Event) (runs : List RunHandle)
      → live_runs runs ≤ 1
      → live_runs (run registry es runs) ≤ 1
  unfolding run
  live_runs-run [] runs l = l
  live_runs-run (e ∷ es) runs l = live_runs-run es (act registry e runs) (live_runs-act e runs l)
