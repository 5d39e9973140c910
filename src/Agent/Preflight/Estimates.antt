-- ===== src/Agent/Preflight/Estimates.antt =====
-- crates/darcbench-agent/src/preflight.rs: what the selected modules will cost.
use darcbench.Base.{
  ℕ, ◌+◌, ◌*◌, ◌/◌, ◌-◌, ◌%◌, ◌^◌, true, false, Option, none, some, String, List, [], ◌∷◌, ◌++◌,
  map, if◌then◌else◌, ltb, leb,
}
use darcbench.Protocol.Run.{Profile}
use darcbench.Agent.Preflight.Defs.{
  SafetyClass, observational, safety_rank, Severity, no_modules, unknown_module, requires,
  PreflightFinding, Declared, Estimate,
}

abbrev pub min_endurance_cycles : ℕ
min_endurance_cycles = 2

-- `a + b` on u64, in a release build
abbrev pub add64 : ℕ → ℕ → ℕ
add64 a b = (a + b) % 2 ^ 64

-- `saturating_mul`, `saturating_add`
abbrev pub mul_saturating : ℕ → ℕ → ℕ
mul_saturating a b = if ltb (a * b) (2 ^ 64) then a * b else 2 ^ 64 - 1

abbrev pub add_saturating : ℕ → ℕ → ℕ
add_saturating a b = if ltb (a + b) (2 ^ 64) then a + b else 2 ^ 64 - 1

abbrev pub max : ℕ → ℕ → ℕ
max a b = if leb b a then a else b

abbrev pub max_class : SafetyClass → SafetyClass → SafetyClass
max_class a b = if leb (safety_rank b) (safety_rank a) then a else b

unfoldable pub no_modules_finding : {F : Type 0} → Profile → List String → List (PreflightFinding F)
no_modules_finding profile [] =
    record {
      check = "modules.selected";
      severity = Severity.error;
      message = no_modules profile;
      blocking = true;
    }
    ∷ []
no_modules_finding profile (_ ∷ _) = []

unfoldable pub no_estimate : {F : Type 0} → List (PreflightFinding F) → Estimate F
no_estimate findings = record {
  findings = findings;
  duration_s = 0;
  bytes_written = 0;
  network_bytes = 0;
  peak_memory_bytes = 0;
  write_volume_bytes = 0;
  max_safety = observational;
}

module _ {F : Type 0} where
  unfoldable pub dependency : String → String → PreflightFinding F
  dependency id d = record {
    check = "modules.dependencies";
    severity = Severity.info;
    message = requires id d;
    blocking = false;
  }

  unfoldable pub unknown_finding : String → PreflightFinding F
  unknown_finding id = record {
    check = "modules.known";
    severity = Severity.error;
    message = unknown_module id;
    blocking = true;
  }

  -- one turn of the loop, with its `continue` for a module that is not known
  unfoldable pub add_estimate : String → Option Declared → Estimate F → Estimate F
  unfolding dependency unknown_finding
  add_estimate id none e = record e { findings = e.findings ++ (unknown_finding id ∷ []) }
  add_estimate id (some m) e = record {
    findings = e.findings ++ map (dependency m.id) m.dependencies;
    duration_s = add64 e.duration_s m.duration_s;
    bytes_written = add64 e.bytes_written m.max_bytes_written;
    network_bytes = add64 e.network_bytes m.max_network_bytes;
    peak_memory_bytes = max e.peak_memory_bytes m.peak_memory_bytes;
    write_volume_bytes = add64 e.write_volume_bytes m.write_volume_bytes;
    max_safety = max_class e.max_safety m.safety_class;
  }

  unfoldable pub estimate_all : (String → Option Declared) → List String → Estimate F → Estimate F
  estimate_all get [] e = e
  estimate_all get (id ∷ ids) e = estimate_all get ids (add_estimate id (get id) e)

-- How often the module set will repeat.
unfoldable pub cycles_of : Option ℕ → ℕ → ℕ
cycles_of none duration_s = 1
cycles_of (some target) duration_s =
    if ltb 0 duration_s
    then max (target / 1000 / max duration_s 1) min_endurance_cycles
    else min_endurance_cycles

unfoldable pub repeat_cycles : {F : Type 0} → ℕ → Estimate F → Estimate F
repeat_cycles cycles e = record e {
  duration_s = mul_saturating e.duration_s cycles;
  write_volume_bytes = mul_saturating e.write_volume_bytes cycles;
  network_bytes = mul_saturating e.network_bytes cycles;
}
