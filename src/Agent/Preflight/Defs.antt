-- ===== src/Agent/Preflight/Defs.antt =====
-- crates/darcbench-agent/src/preflight.rs and the types it uses from crates/darcbench-protocol/src/events.rs,
-- crates/darcbench-core/src/module.rs and crates/darcbench-inventory/src/software.rs. The text of a
-- finding is kept as the data that it is formatted from.
use darcbench.Base.{ℕ, Bool, Option, String, List}
use darcbench.Protocol.Run.{Profile}
use darcbench.Agent.Watchdog.{Scope}

pub data SafetyClass : Type 0 where
  observational compute_intensive writes_temporary_files uses_network provisions_services :
      SafetyClass

-- The derived order.
abbrev pub safety_rank : SafetyClass → ℕ
safety_rank observational = 0
safety_rank compute_intensive = 1
safety_rank writes_temporary_files = 2
safety_rank uses_network = 3
safety_rank provisions_services = 4

pub data RiskClass : Type 0 where
  safe moderate_load heavy_load production_risk unsupported : RiskClass

abbrev pub risk_rank : RiskClass → ℕ
risk_rank safe = 0
risk_rank moderate_load = 1
risk_rank heavy_load = 2
risk_rank production_risk = 3
risk_rank unsupported = 4

pub data ProductionLikelihood : Type 0 where
  unlikely possible likely : ProductionLikelihood

pub data Severity : Type 0 where
  info warning error : Severity

abbrev pub is_warning : Severity → Bool
is_warning warning = Bool.true
is_warning _ = Bool.false

pub data Notice (F : Type 0) : Type 0 where
  no_modules : Profile → Notice F
  unknown_module : String → Notice F
  requires : String → String → Notice F
  long_run : ℕ → ℕ → Notice F
  low_space : ℕ → ℕ → Notice F
  unknown_space : Notice F
  wear : ℕ → Notice F
  egress : ℕ → Notice F
  busy : F → Notice F
  governed : List ℕ → Notice F
  serving : Notice F
  holds_memory : ℕ → ℕ → Bool → Notice F
  swapping contained : Notice F
  cgroup_limited : F → Notice F
  stacked as_root : Notice F

pub record PreflightFinding (F : Type 0) : Type 0 where
  pub check : String
  pub severity : Severity
  pub message : Notice F
  pub blocking : Bool

-- What a module declares, its estimates taken at the parameters of the run.
pub record Declared : Type 0 where
  pub id : String
  pub max_bytes_written : ℕ
  pub max_network_bytes : ℕ
  pub safety_class : SafetyClass
  pub dependencies : List String
  pub duration_s : ℕ
  pub peak_memory_bytes : ℕ
  pub write_volume_bytes : ℕ

-- The fields of the inventory that are read.
pub record Host (F : Type 0) : Type 0 where
  pub logical_cpus : ℕ
  pub load1 : Option F
  pub governor : Option (List ℕ)
  pub production_likelihood : ProductionLikelihood
  pub available_bytes : ℕ
  pub total_bytes : ℕ
  pub swap_total_bytes : ℕ
  pub swap_free_bytes : ℕ
  pub scope : Scope
  pub cgroup_cpu_limit : Option F
  pub complex_stack : Bool
  pub running_as_root : Bool

-- `registry.get` and the free space of the file system are the two things that are looked up.
pub record PreflightInput (F : Type 0) : Type 0 where
  pub host : Host F
  pub get : String → Option Declared
  pub free_bytes : Option ℕ
  pub modules : List String
  pub profile : Profile
  pub force : Bool
  pub cycle_target : Option ℕ

pub record PreflightCompleted (F : Type 0) : Type 0 where
  pub risk : RiskClass
  pub passed : Bool
  pub findings : List (PreflightFinding F)
  pub estimated_duration_s : ℕ
  pub estimated_bytes_written : ℕ
  pub estimated_network_bytes : ℕ
  pub estimated_peak_memory_bytes : ℕ
  pub estimated_write_volume_bytes : ℕ

-- The locals of the loop over the modules.
pub record Estimate (F : Type 0) : Type 0 where
  pub findings : List (PreflightFinding F)
  pub duration_s : ℕ
  pub bytes_written : ℕ
  pub network_bytes : ℕ
  pub peak_memory_bytes : ℕ
  pub write_volume_bytes : ℕ
  pub max_safety : SafetyClass
