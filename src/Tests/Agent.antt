-- ===== src/Tests/Agent.antt =====
-- The agent and the measuring code at concrete runs.
use darcbench.Base.{
  ℕ, ◌-◌, ◌*◌, ◌≤◌, ◌≡◌, refl, ◌↔◌, ◌&&◌, ◌||◌, not, true, false, none, some, String, List, [], ◌∷◌,
  length, keep, any, ltb, if◌then◌else◌, arith,
}
use darcbench.Base.Num.Fixed.{Fixed, fixed, fixed_float}
use darcbench.Protocol.Run.{Profile}
use darcbench.Agent.Watchdog.{
  Message, Tick, HostView, Scope, hard_runtime_ceiling, proc_stat_may_describe_the_host, is_hot,
  is_heavy, check, watch, thermal_abort_samples, external_load_abort_samples,
}
use darcbench.Agent.Watchdog.Tallies.{
  streak, fresh, is_thermal_abort, is_load_abort, thermal_abort_iff,
}
use darcbench.Agent.Watchdog.Verdicts.{
  is_measured, IsArmed, IsPlain, load_abort_iff, IsSilent, unarmed-IsSilent,
}
use darcbench.Agent.Stream.{new, emit_all, events_since, succ_saturating}
use darcbench.Agent.Stream.Numbered.{Numbered, newer}
use darcbench.Agent.Stream.Resume.{events_since-emit_all, emit_all-Numbered}
use darcbench.Agent.Preflight.Defs.{
  Declared, Host, PreflightInput, PreflightFinding, is_warning, risk_rank, production_risk,
  unlikely, compute_intensive,
}
use darcbench.Agent.Preflight.{run}
use darcbench.Agent.Preflight.Blocking.{HasSpace, HasMemory, passed-run}
use darcbench.Agent.Preflight.Risk.{risk-run}
use darcbench.Measure.Budget
use darcbench.Measure.Budget.Ceiling.{held_by, spent-run}
use darcbench.Protocol.Metrics.{validation_failed}
use darcbench.Measure.Repeat.{Rep, time_reps}
use darcbench.Measure.Repeat.Outcome.{flagged, time_reps_lem}
use darcbench.Base.Result.{ok}
use darcbench.Measure.Harness.{Turn, calibrate_with, max_calibration_iterations}
use darcbench.Measure.Harness.Terminates.{IsAnswer, calibrate_with-IsAnswer}

abbrev render : Message Fixed → String
render _ = "warning"

abbrev machine : HostView Fixed
machine = record { scope = Scope.bare_metal; cgroup_cpu_limit = none; logical_cpus = 4 }

abbrev jail : HostView Fixed
jail = record { scope = Scope.container; cgroup_cpu_limit = none; logical_cpus = 4 }

abbrev tick_of : ℕ → ℕ → Tick Fixed
tick_of temp busy = record {
  elapsed = 1000;
  cycle_target = none;
  load_ceiling_suspended = false;
  snapshot = record {
    cpu_temp_c = some (fixed (temp * 1_000_000));
    cpu_unavailable = false;
    cpu_external_busy_pct = fixed (busy * 1_000_000);
  };
}

thermal_abort_iff_example :
    (is_thermal_abort
        (check render (tick_of 101 0) (watch render (fresh render machine) (tick_of 60 0 ∷ []))).1
      ≡ true)
    ↔ (thermal_abort_samples ≤ streak is_hot (tick_of 101 0 ∷ tick_of 60 0 ∷ []))
thermal_abort_iff_example =
    thermal_abort_iff render machine (tick_of 101 0) (tick_of 60 0 ∷ [])
      (unfold hard_runtime_ceiling in (omega arith, (omega arith, tt)))

armed : IsArmed render machine
unfolding proc_stat_may_describe_the_host
armed = refl

shared : proc_stat_may_describe_the_host jail ≡ true
unfolding proc_stat_may_describe_the_host
shared = refl

plain : (busy : ℕ) → IsPlain render (tick_of 60 busy)
unfolding hard_runtime_ceiling
plain busy = record { in_time = omega arith; cool = refl; armed = refl }

load_abort_iff_example :
    (is_load_abort
        (check render (tick_of 60 50) (watch render (fresh render machine) (tick_of 60 0 ∷ []))).1
      ≡ true)
    ↔ ((is_measured render (tick_of 60 50) ≡ true)
        × (external_load_abort_samples
            ≤ streak is_heavy (keep (is_measured render) (tick_of 60 50 ∷ tick_of 60 0 ∷ []))))
load_abort_iff_example =
    load_abort_iff render machine (tick_of 60 50) (tick_of 60 0 ∷ []) armed
      (plain 50, (plain 0, tt))

unarmed-IsSilent_example :
    IsSilent render
      (check render (tick_of 60 99) (watch render (fresh render jail) (tick_of 60 99 ∷ [])))
unarmed-IsSilent_example = unarmed-IsSilent render jail (tick_of 60 99) (tick_of 60 99 ∷ []) shared

events_since-emit_all_example :
    events_since (some 0) (emit_all ((5, true) ∷ (6, false) ∷ []) new) ≡ (
      if ltb 4096 2 && ltb (succ_saturating 0) (2 - 4096)
      then none
      else some (newer 0 (emit_all ((5, true) ∷ (6, false) ∷ []) new).log))
events_since-emit_all_example = events_since-emit_all 0 ((5, true) ∷ (6, false) ∷ []) (omega arith)

emit_all-Numbered_example :
    Numbered 0 (emit_all ((5, true) ∷ (6, false) ∷ []) new).log
    × (length (emit_all ((5, true) ∷ (6, false) ∷ []) new).log ≡ 2)
emit_all-Numbered_example = emit_all-Numbered ((5, true) ∷ (6, false) ∷ []) (omega arith)

abbrev host : Host Fixed
host = record {
  logical_cpus = 4;
  load1 = some (fixed 500_000);
  governor = none;
  production_likelihood = unlikely;
  available_bytes = 8_000_000_000;
  total_bytes = 16_000_000_000;
  swap_total_bytes = 0;
  swap_free_bytes = 0;
  scope = Scope.bare_metal;
  cgroup_cpu_limit = none;
  complex_stack = false;
  running_as_root = false;
}

abbrev cpu_module : Declared
cpu_module = record {
  id = "cpu.mixed";
  max_bytes_written = 0;
  max_network_bytes = 0;
  safety_class = compute_intensive;
  dependencies = [];
  duration_s = 60;
  peak_memory_bytes = 1_000_000;
  write_volume_bytes = 0;
}

abbrev input : PreflightInput Fixed
input = record {
  host = host;
  get = λ _. some cpu_module;
  free_bytes = some 10_000_000_000;
  modules = "cpu.mixed" ∷ [];
  profile = Profile.quick;
  force = false;
  cycle_target = none;
}

passed-run_example : ((run input).passed ≡ true) ↔ (
    (false ≡ false)
    × ((true ≡ true) × Unit {0})
    × HasSpace (some 10_000_000_000) (run input).estimated_bytes_written
    × HasMemory Fixed (run input).estimated_peak_memory_bytes 8_000_000_000
    × ((false
          || (not (any (λ (x : PreflightFinding Fixed). is_warning x.severity) (run input).findings)
              || ltb (risk_rank (run input).risk) (risk_rank production_risk)))
        ≡ true))
passed-run_example = passed-run input

risk-run_example :
    risk_rank (run input).risk
    ≤ risk_rank (run (record input { modules = "cpu.mixed" ∷ "memory.bandwidth" ∷ [] })).risk
risk-run_example = risk-run input ("memory.bandwidth" ∷ [])

abbrev steps : List (ℕ × Budget.Action)
steps =
    (0, Budget.begin 700)
    ∷ (1, Budget.begin 700)
    ∷ (0, Budget.attempt false)
    ∷ (1, Budget.attempt false)
    ∷ (1, Budget.attempt false)
    ∷ (0, Budget.refund 100)
    ∷ []

spent-run_example :
    ((Budget.run 1000 steps (Budget.new 2)).spent
      ≡ held_by (Budget.run 1000 steps (Budget.new 2)).threads)
    × ((Budget.run 1000 steps (Budget.new 2)).spent ≤ 1000)
spent-run_example = spent-run 1000 (omega arith) 2 steps

abbrev turn : Turn Fixed
turn = record { is_cancelled = false; probe = λ n. fixed (n * 100) }

calibrate_with-IsAnswer_example :
    IsAnswer (calibrate_with max_calibration_iterations 200 (λ (n : ℕ). turn))
calibrate_with-IsAnswer_example =
    calibrate_with-IsAnswer max_calibration_iterations 200 (λ (n : ℕ). turn) (omega arith)

-- The second measured repetition is too short, and so is the warm-up.
abbrev timed : ℕ → Rep Fixed
timed n = record {
  is_cancelled = false;
  value = fixed (n * 100);
  duration_ms = if ltb 0 n && ltb n 2 then fixed 25_000_000 else fixed 10_000_000;
}

abbrev show_duration : Fixed → String
show_duration _ = "short"

time_reps_lem_example :
    time_reps "key" show_duration timed 1 2
    ≡ ok (record {
      samples =
          flagged "key" show_duration timed 1 true 0
          ∷ flagged "key" show_duration timed 1 false 1
          ∷ flagged "key" show_duration timed 1 false 2
          ∷ [];
      measured = fixed 100 ∷ fixed 200 ∷ [];
      warnings =
          record {
            code = validation_failed;
            message = show_duration (timed 2).duration_ms;
            metric_key = some "key";
          }
          ∷ [];
    })
time_reps_lem_example =
    time_reps_lem "key" show_duration timed 1 2 (omega arith) (refl, (refl, (refl, tt)))
