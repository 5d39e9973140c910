-- ===== src/Agent/Preflight.antt =====
-- crates/darcbench-agent/src/preflight.rs: whether a run may start now.
use darcbench.Base.{
  ℕ, ◌+◌, ◌*◌, ◌/◌, ◌-◌, Bool, true, false, not, ◌&&◌, ◌||◌, Option, none, some, String, List, [],
  ◌∷◌, ◌++◌, concat, map, any, if◌then◌else◌, ltb, leb, ◌==◌, nat_eq, list_eq,
}
use darcbench.Base.Num.{Float}
use darcbench.Base.Text.{codes, to_lower}
use darcbench.Agent.Watchdog.{Scope}
pub mod Defs
pub mod Estimates
pub mod Blocking
pub mod Risk
use Defs.{
  SafetyClass, observational, safety_rank, RiskClass, safe, heavy_load, production_risk, risk_rank,
  ProductionLikelihood, likely, Severity, is_warning, Notice, PreflightFinding, Host,
  PreflightInput, PreflightCompleted, Estimate,
}
use Estimates.{
  max, add_saturating, no_modules_finding, no_estimate, estimate_all, cycles_of, repeat_cycles,
}

abbrev pub min_free_bytes : ℕ
min_free_bytes = 2 * 1024 * 1024 * 1024

abbrev is_likely : ProductionLikelihood → Bool
is_likely likely = true
is_likely _ = false

abbrev is_container : Scope → Bool
is_container Scope.container = true
is_container _ = false

base_risk : SafetyClass → RiskClass
base_risk observational = safe
base_risk _ = heavy_load

module _ {F : Type 0} where
  unfoldable pub warn : String → Notice F → List (PreflightFinding F)
  warn check message =
      record { check = check; severity = Severity.warning; message = message; blocking = false }
      ∷ []

  unfoldable pub inform : String → Notice F → List (PreflightFinding F)
  inform check message =
      record { check = check; severity = Severity.info; message = message; blocking = false } ∷ []

  unfoldable pub refuse : String → Notice F → List (PreflightFinding F)
  refuse check message =
      record { check = check; severity = Severity.error; message = message; blocking = true } ∷ []

  unfoldable pub duration_finding : Option ℕ → ℕ → List (PreflightFinding F)
  duration_finding none cycles = []
  duration_finding (some target) cycles =
      warn "run.duration" (Notice.long_run (target / 1000 / 60) cycles)

  unfoldable pub space_finding : Option ℕ → ℕ → List (PreflightFinding F)
  space_finding (some free) written =
      let required = add_saturating written min_free_bytes in
      if ltb free required then refuse "storage.free_space" (Notice.low_space free required) else []
  space_finding none written =
      if ltb 0 written then refuse "storage.free_space" Notice.unknown_space else []

  unfoldable pub wear_finding : ℕ → List (PreflightFinding F)
  wear_finding volume = if ltb 0 volume then warn "storage.wear" (Notice.wear volume) else []

  unfoldable pub egress_finding : ℕ → List (PreflightFinding F)
  egress_finding bytes = if ltb 0 bytes then warn "network.egress" (Notice.egress bytes) else []

  unfoldable pub governor_finding : Option (List ℕ) → List (PreflightFinding F)
  governor_finding none = []
  governor_finding (some governor) =
      if map to_lower governor == codes "performance"
      then []
      else warn "cpu.governor" (Notice.governed governor)

  unfoldable pub production_finding : ProductionLikelihood → List (PreflightFinding F)
  production_finding production =
      if is_likely production then warn "system.production" Notice.serving else []

  unfoldable pub swap_finding : Host F → List (PreflightFinding F)
  swap_finding h =
      if ltb (h.total_bytes / 10) (h.swap_total_bytes - h.swap_free_bytes)
      then warn "memory.swap" Notice.swapping
      else []

  unfoldable pub scope_finding : Host F → List (PreflightFinding F)
  scope_finding h = if is_container h.scope then warn "environment.scope" Notice.contained else []

  unfoldable pub stack_finding : Host F → List (PreflightFinding F)
  stack_finding h = if h.complex_stack then inform "storage.stack" Notice.stacked else []

  unfoldable pub root_finding : Host F → List (PreflightFinding F)
  root_finding h = if h.running_as_root then inform "process.privileges" Notice.as_root else []

module _ {F : Type 0} ⦃f : Float F⦄ where
  unfoldable pub cpus_of : Host F → F
  cpus_of h = f.of_nat (max h.logical_cpus 1)

  unfoldable pub load_finding : F → Option F → List (PreflightFinding F)
  load_finding cpus none = []
  load_finding cpus (some load) =
      if f.flt (f.lit 70 2) (f.div load cpus) then warn "system.load" (Notice.busy load) else []

  unfoldable pub memory_share : ℕ → ℕ → F
  memory_share peak available =
      if ltb 0 available then f.div (f.of_nat peak) (f.of_nat available) else f.lit 1 0

  unfoldable pub is_over_ceiling : F → Bool
  is_over_ceiling share = f.flt (f.lit 60 2) share

  unfoldable pub memory_finding : ℕ → ℕ → List (PreflightFinding F)
  memory_finding peak available =
      let share = memory_share peak available in
      let over = is_over_ceiling share in
      if ltb 0 peak && f.flt (f.lit 10 2) share
      then record {
        check = "memory.allocation";
        severity = if over then Severity.error else Severity.warning;
        message = Notice.holds_memory peak available over;
        blocking = over;
      }
        ∷ []
      else []

  unfoldable pub cgroup_finding : F → Option F → List (PreflightFinding F)
  cgroup_finding cpus none = []
  cgroup_finding cpus (some limit) =
      if f.flt limit cpus then warn "environment.cgroup_cpu" (Notice.cgroup_limited limit) else []

  overloaded : F → Option F → Bool
  overloaded cpus none = false
  overloaded cpus (some load) = f.flt (f.lit 2 0) (f.div load cpus)

  unfoldable pub classify : SafetyClass → ProductionLikelihood → Host F → RiskClass
  unfolding base_risk overloaded
  classify max_safety production h =
      if is_likely production && ltb (safety_rank observational) (safety_rank max_safety)
      then production_risk
      else if overloaded (cpus_of h) h.load1
      then production_risk
      else base_risk max_safety

  -- the findings after the loop over the modules, in order
  unfoldable pub sections : PreflightInput F → ℕ → Estimate F → List (List (PreflightFinding F))
  sections i cycles e =
      duration_finding i.cycle_target cycles
      ∷ space_finding i.free_bytes e.bytes_written
      ∷ wear_finding e.write_volume_bytes
      ∷ egress_finding e.network_bytes
      ∷ load_finding (cpus_of i.host) i.host.load1
      ∷ governor_finding i.host.governor
      ∷ production_finding i.host.production_likelihood
      ∷ memory_finding e.peak_memory_bytes i.host.available_bytes
      ∷ swap_finding i.host
      ∷ scope_finding i.host
      ∷ cgroup_finding (cpus_of i.host) i.host.cgroup_cpu_limit
      ∷ stack_finding i.host
      ∷ root_finding i.host
      ∷ []

  unfoldable pub host_findings : PreflightInput F → ℕ → Estimate F → List (PreflightFinding F)
  host_findings i cycles e = concat (sections i cycles e)

  unfoldable pub run : PreflightInput F → PreflightCompleted F
  run i =
      let once : Estimate F =
        estimate_all i.get i.modules (no_estimate (no_modules_finding i.profile i.modules)) in
      let cycles = cycles_of i.cycle_target once.duration_s in
      let e = repeat_cycles cycles once in
      let findings = e.findings ++ host_findings i cycles e in
      let risk = classify e.max_safety i.host.production_likelihood i.host in
      let blocking_present = any (λ (x : PreflightFinding F). x.blocking) findings in
      let warnings_present = any (λ (x : PreflightFinding F). is_warning x.severity) findings in
      record {
        risk = risk;
        passed =
            not blocking_present
            && (i.force
                || (not warnings_present || ltb (risk_rank risk) (risk_rank production_risk)));
        findings = findings;
        estimated_duration_s = e.duration_s;
        estimated_bytes_written = e.bytes_written;
        estimated_network_bytes = e.network_bytes;
        estimated_peak_memory_bytes = e.peak_memory_bytes;
        estimated_write_volume_bytes = e.write_volume_bytes;
      }
