-- ===== src/Tests/Runs.antt =====
-- Runs, requests and paths of the agent at concrete inputs.
use darcbench.Base.{
  ℕ, ◌+◌, ◌-◌, ◌*◌, ◌/◌, ◌≤◌, ◌≡◌, ◌↔◌, ◌||◌, refl, Bool, true, false, not, some, none, is_some,
  String, List, [], ◌∷◌, length, keep, drop, All, if◌then◌else◌, arith,
}
use darcbench.Base.Result.{ok, err}
use darcbench.Base.Text.{codes, after_prefix, trim}
use darcbench.Protocol.Run.{completed, created, ResultState, custom, quick, profile_from_str}
use darcbench.Base.Map.{lookup}
use darcbench.Protocol.Ids.{module_id_from_str, check_segments, check_segment, split_dots}
use darcbench.Measure.Registry
use darcbench.Measure.Registry.{Registry}
use darcbench.Measure.Repeat.Outcome.{count_from}
use darcbench.Agent.Runs.{RunHandle, evict_replayable, is_replayable, retained_runs_in_memory}
use darcbench.Agent.Runs.Slot.{Event, begin, move, live_runs, run, live_runs-run}
use darcbench.Agent.Runs.Evicted.{evict_replayable_lem}
use darcbench.Agent.Runs.Cycles.{Look, cycles_from, IsOver, HasRoom, cycles_from_lem}
use darcbench.Agent.Index.{
  IndexedRun, RetentionPolicy, PruneOutcome, Store, World, Removal, prune, partial_view, is_empty,
}
use darcbench.Agent.Index.Pruned.{IsState, selected_ids, prune-IsState}
use darcbench.Agent.Access.{AccessToken, Headers, bearer, require, token_matches}
use darcbench.Agent.Access.Granted.{require_iff}
use darcbench.Agent.Server.{CreateRunRequest, create_run}
use darcbench.Agent.Server.Started.{IsStarted, create_run-IsStarted}
use darcbench.Agent.Paths.{join, validate_location}

abbrev registry : Registry ℕ
registry = record { modules = ("cpu.mixed", 1) ∷ ("memory.bandwidth", 2) ∷ [] }

abbrev all_stored : String → Bool
all_stored _ = true

abbrev events : List Event
events =
    begin all_stored "a" quick none none
    ∷ begin all_stored "b" quick none none
    ∷ move "a" false
    ∷ move "a" false
    ∷ move "a" false
    ∷ begin all_stored "c" quick none none
    ∷ []

live_runs-run_example : live_runs (run registry events []) ≤ 1
live_runs-run_example = live_runs-run registry events [] (omega arith)

abbrev done : String → RunHandle
done id = record {
  id = id;
  profile = quick;
  modules = [];
  cycle_target = none;
  state = completed;
  ending = completed;
}

abbrev nine : List RunHandle
nine =
    done "1"
    ∷ done "2"
    ∷ done "3"
    ∷ done "4"
    ∷ done "5"
    ∷ done "6"
    ∷ done "7"
    ∷ done "8"
    ∷ done "9"
    ∷ []

evict_replayable_lem_example :
    (keep (λ r. not (is_replayable all_stored r)) (evict_replayable all_stored nine)
      ≡ keep (λ r. not (is_replayable all_stored r)) nine)
    × (keep (is_replayable all_stored) (evict_replayable all_stored nine)
        ≡ drop
            (length (keep (is_replayable all_stored) nine) - retained_runs_in_memory)
            (keep (is_replayable all_stored) nine))
evict_replayable_lem_example = evict_replayable_lem all_stored nine

-- Cycles of two milliseconds, for five.
abbrev looks : ℕ → Look
looks n = record { is_cancelled = false; elapsed = n * 2_000_000 }

cycles_from_lem_example :
    (n d : ℕ) × (n ≡ 1 + d)
    × (cycles_from (some 5_000_000) looks (5_000_000 / 1_000_000 + 2) 0 ≡ some n)
    × IsOver 5_000_000 looks n
    × All (HasRoom 5_000_000 looks) (count_from 1 d)
    × (n ≤ 5_000_000 / 1_000_000 + 2)
cycles_from_lem_example = cycles_from_lem 5_000_000 looks (λ (n : ℕ). omega arith) (omega arith)

abbrev row : String → Bool → IndexedRun
row id fine = record {
  run_id = id;
  profile = "standard";
  result_state = if fine then ResultState.validated else ResultState.invalid;
  finished_at = 0;
  scoring_model = "1.0.0";
  agent_version = "0.1.0";
  build_target = "x86_64-unknown-linux-gnu";
  environment_digest = "sha256:00";
}

abbrev store : Store
store = record {
  rows = row "c" true ∷ row "b" false ∷ row "a" true ∷ [];
  dirs = "a" ∷ "b" ∷ "c" ∷ [];
}

abbrev keep_one : RetentionPolicy
keep_one = record { older_than_days = none; keep_last = some 1 }

abbrev world : World
world = record {
  now = 0;
  directory_bytes = λ _. 10;
  remove_dir = λ _. Removal.removed;
  forget_error = λ _. none;
}

prune-IsState_example :
    (prune world keep_one false 2 store ≡ (err (partial_view 2), store))
    × (out : PruneOutcome) × (s : Store) × (prune world keep_one false 0 store ≡ (ok out, s))
    × IsState world keep_one false store
        (selected_ids world keep_one false false 0 store.rows)
        (selected_ids world keep_one false true 0 store.rows)
        (out, s)
unfolding is_empty
prune-IsState_example = prune-IsState world keep_one false store refl 1

abbrev token : AccessToken
token = record { text = codes "s3cret" }

abbrev headers : Headers
headers = record { authorization = some (codes "Bearer  s3cret "); cookie = none }

require_iff_example : (require headers none token true ≡ ok tt) ↔ (
    (value rest : List ℕ) × (headers.authorization ≡ some value)
    × (after_prefix bearer value ≡ some rest)
    × (trim rest ≡ token.text))
require_iff_example = require_iff headers none token (omega arith) (omega arith)

abbrev request : CreateRunRequest
request = record {
  profile = some "standard";
  modules = some ("cpu.mixed" ∷ []);
  force = false;
  duration_minutes = none;
}

abbrev begun : RunHandle
begun = record {
  id = "d";
  profile = custom;
  modules = "cpu.mixed" ∷ [];
  cycle_target = none;
  state = created;
  ending = created;
}

create_run-IsStarted_example :
    (require headers none token true ≡ ok tt)
    × IsStarted registry "d" [] begun
    × ((is_some request.modules || is_some request.duration_minutes) ≡ true
        → begun.profile ≡ custom)
unfolding create_run token_matches profile_from_str module_id_from_str check_segments split_dots
    check_segment Registry.validate lookup Registry.has
create_run-IsStarted_example =
    create_run-IsStarted registry headers none token request all_stored "d" [] (begun ∷ []) begun
      refl

joined : join (codes "root" ∷ []) (codes "runs" ∷ []) ≡ ok (codes "root" ∷ codes "runs" ∷ [])
unfolding join
joined = refl

prefix_kept : validate_location (codes "/bench/") ≡ ok (codes "/bench/")
unfolding validate_location
prefix_kept = refl
