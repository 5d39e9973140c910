-- ===== src/Report/Validate/Quiet.antt =====
-- Findings that leave a run rankable, and when each section of `validate_bundle` keeps them so.
use Prim.Native.String
use darcbench.Base.{
  ◌≤◌, ◌<◌, ◌≡◌, refl, ◌≢◌, ◌↔◌, Bool, true, false, not, Option, none, some, String, List, [], ◌∷◌,
  any, All, any-append, if◌then◌else◌, Bool-cases, inl, inr, ltb, ◌==◌, string_eq, arith,
}
use darcbench.Base.Num.{Float}
use darcbench.Protocol.Run.{RunState, VerdictReason, is_standard}
use darcbench.Protocol.Metrics.{degrades_result, ModuleStatus, Metric, ModuleResult, Warning}
use darcbench.Report.Verdict.{
  Findings, note, fail, degradation_reason, degradation_from, is_partial_reason, check_state,
  check_missing,
}
use darcbench.Report.Bundle.{Bundle}
use darcbench.Report.Validate.Steady.{IsSteady, any_excess_iff}
use darcbench.Report.Validate.{
  check_status, has_excess, check_metrics, check_modules, check_schema, check_build, check_metadata,
  check_clock, check_profile, check_local, bundle_schema_version,
}

pub record IsQuiet (s : Findings) : Type 0 where
  pub calm : s.fatal ≡ false
  pub whole : any is_partial_reason s.reasons ≡ false

pub IsQuiet-note :
    (r : VerdictReason) (s : Findings)
    → IsQuiet (note r s) ↔ (IsQuiet s × (is_partial_reason r ≡ false))
IsQuiet-note r s = ground (arith, any-append is_partial_reason s.reasons (r ∷ []))

pub not-IsQuiet-fail : (r : VerdictReason) (s : Findings) → ¬ (IsQuiet (fail r s))
not-IsQuiet-fail r s q = cc (q.calm)

pub IsQuiet-check_state :
    (st : RunState) (s : Findings)
    → IsQuiet (check_state st s) ↔ (IsQuiet s × (st ≡ RunState.completed))
unfolding check_state
IsQuiet-check_state RunState.completed s = ground arith
IsQuiet-check_state _ s = ground arith

pub IsQuiet-check_missing :
    (field : String) (present : Bool) (s : Findings)
    → IsQuiet (check_missing field present s) ↔ (IsQuiet s × (present ≡ true))
unfolding check_missing is_partial_reason
IsQuiet-check_missing field true s = ground arith
IsQuiet-check_missing field false s =
    ground (arith, IsQuiet-note (VerdictReason.missing_metadata field) s)

degradation_from-partial :
    (id : String) (declared : Option String) (ws : List Warning)
    → is_partial_reason (degradation_from id declared ws) ≡ true
unfolding degradation_from is_partial_reason
degradation_from-partial id none [] = refl
degradation_from-partial id (some d) [] = refl
degradation_from-partial id declared (w ∷ ws) = ground (
  arith,
  degradation_from-partial id
      (if degrades_result w.code
        then elim declared [ some m ↦ some m | none ↦ some w.message ]
        else declared)
      ws,
)

module _ {F : Type 0} ⦃f : Float F⦄ where
  IsQuiet-check_status :
      (st : ModuleStatus) (m : ModuleResult F) (s : Findings)
      → IsQuiet (check_status st m s) ↔ (IsQuiet s × (st ≡ ModuleStatus.completed))
  unfolding check_status is_partial_reason degradation_reason
  IsQuiet-check_status ModuleStatus.completed m s = ground arith
  IsQuiet-check_status ModuleStatus.degraded m s =
      ground (
        arith,
        IsQuiet-note (degradation_reason m) s,
        degradation_from-partial m.id none m.warnings,
      )
  IsQuiet-check_status ModuleStatus.failed m s =
      ground (arith, IsQuiet-note (VerdictReason.module_failed m.id) s)
  IsQuiet-check_status ModuleStatus.cancelled m s = ground arith
  IsQuiet-check_status ModuleStatus.skipped m s =
      ground (arith, IsQuiet-note (VerdictReason.required_module_missing m.id) s)

  IsQuiet-check_metrics :
      (id : String) (ms : List (Metric F)) (s : Findings)
      → IsQuiet (check_metrics id ms s) ↔ (IsQuiet s × (any has_excess ms ≡ false))
  unfolding check_metrics is_partial_reason
  IsQuiet-check_metrics id ms s = elim (Bool-cases (any has_excess ms)) [
    | inl e ↦ rw e (ground (arith, IsQuiet-note (VerdictReason.excessive_variance id) s))
    | inr e ↦ rw e (ground arith)
  ]

  -- Completed, with steady metrics.
  pub record IsCleanModule (m : ModuleResult F) : Type 0 where
    pub completed : m.status ≡ ModuleStatus.completed
    pub steady : All IsSteady m.metrics

  pub IsQuiet-check_modules :
      (ms : List (ModuleResult F)) (s : Findings)
      → IsQuiet (check_modules ms s) ↔ (IsQuiet s × All IsCleanModule ms)
  unfolding check_modules
  IsQuiet-check_modules [] s = ground arith
  IsQuiet-check_modules (m ∷ ms) s =
      let once = check_status m.status m s in
      ground (
        arith,
        IsQuiet-check_modules ms (check_metrics m.id m.metrics once),
        IsQuiet-check_metrics m.id m.metrics once,
        any_excess_iff m.metrics,
        IsQuiet-check_status m.status m s,
      )

  IsQuiet-check_schema :
      (b : Bundle F) (s : Findings)
      → IsQuiet (check_schema b s) ↔ (IsQuiet s × (b.meta.schema ≡ bundle_schema_version))
  unfolding check_schema
  IsQuiet-check_schema b s = ground (arith, string_eq.beq_iff b.meta.schema bundle_schema_version)

  IsQuiet-check_build :
      (b : Bundle F) (s : Findings)
      → IsQuiet (check_build b s) ↔ (IsQuiet s × (b.meta.build_profile ≡ "release"))
  unfolding check_build is_partial_reason
  IsQuiet-check_build b s =
      let r =
        VerdictReason.incompatible_benchmark_version
          (String.◌++◌ "build_profile=" b.meta.build_profile) "build_profile=release" in
      ground (arith, string_eq.beq_iff b.meta.build_profile "release", IsQuiet-note r s)

  IsQuiet-check_clock :
      (b : Bundle F) (s : Findings)
      → IsQuiet (check_clock b s) ↔ (IsQuiet s × (b.run.started_at ≤ b.run.finished_at))
  unfolding check_clock
  IsQuiet-check_clock b s = ground arith

  IsQuiet-check_profile : (b : Bundle F) (s : Findings) → IsQuiet (check_profile b s) ↔ IsQuiet s
  unfolding check_profile is_partial_reason
  IsQuiet-check_profile b s = elim (Bool-cases (is_standard b.run.profile)) [
    | inl e ↦ rw e (ground arith)
    | inr e ↦ rw e (ground (arith, IsQuiet-note VerdictReason.custom_profile s))
  ]

  -- The required metadata is there.
  pub record HasMetadata (b : Bundle F) : Type 0 where
    pub cpus : 0 < b.environment.logical_cpus
    pub memory : 0 < b.environment.total_bytes
    pub environment_digest : b.run.environment_digest ≢ ""
    pub events_digest : b.run.events_digest ≢ ""

  IsQuiet-check_metadata :
      (b : Bundle F) (s : Findings) → IsQuiet (check_metadata b s) ↔ (IsQuiet s × HasMetadata b)
  unfolding check_metadata
  IsQuiet-check_metadata b s =
      let s1 = check_missing "environment.cpu.logical_cpus" (ltb 0 b.environment.logical_cpus) s in
      let s2 =
        check_missing "environment.memory.total_bytes" (ltb 0 b.environment.total_bytes) s1 in
      let has_env = not (b.run.environment_digest == "") in
      let s3 = check_missing "run.environment_digest" has_env s2 in
      ground (
        arith,
        IsQuiet-check_missing "environment.cpu.logical_cpus" (ltb 0 b.environment.logical_cpus) s,
        IsQuiet-check_missing "environment.memory.total_bytes" (ltb 0 b.environment.total_bytes) s1,
        IsQuiet-check_missing "run.environment_digest" has_env s2,
        IsQuiet-check_missing "run.events_digest" (not (b.run.events_digest == "")) s3,
        string_eq.beq_iff b.run.environment_digest "",
        string_eq.beq_iff b.run.events_digest "",
      )

  -- What the sections before the signature establish.
  pub record IsLocallyClean (b : Bundle F) : Type 0 where
    pub completed : b.run.state ≡ RunState.completed
    pub schema : b.meta.schema ≡ bundle_schema_version
    pub release : b.meta.build_profile ≡ "release"
    pub modules : All IsCleanModule b.modules
    pub metadata : HasMetadata b
    pub clock : b.run.started_at ≤ b.run.finished_at

  pub IsQuiet-check_local : (b : Bundle F) → IsQuiet (check_local b) ↔ IsLocallyClean b
  unfolding check_local
  IsQuiet-check_local b =
      let s0 : Findings = record { reasons = []; fatal = false } in
      let s1 = check_state b.run.state s0 in
      let s2 = check_schema b s1 in
      let s3 = check_build b s2 in
      let s4 = check_modules b.modules s3 in
      let s5 = check_metadata b s4 in
      let s6 = check_clock b s5 in
      let e1 = IsQuiet-check_state b.run.state s0 in
      let e2 = IsQuiet-check_schema b s1 in
      let e3 = IsQuiet-check_build b s2 in
      let e4 = IsQuiet-check_modules b.modules s3 in
      let e5 = IsQuiet-check_metadata b s4 in
      let e6 = IsQuiet-check_clock b s5 in
      let e7 = IsQuiet-check_profile b s6 in
      (
        λ q.
            let (q5, clock) = e6.0 (e7.0 q) in
            let (q4, metadata) = e5.0 q5 in
            let (q3, modules) = e4.0 q4 in
            let (q2, release) = e3.0 q3 in
            let (q1, schema) = e2.0 q2 in
            record {
              completed = (e1.0 q1).1;
              schema = schema;
              release = release;
              modules = modules;
              metadata = metadata;
              clock = clock;
            },
        λ c. e7.1 (
            e6.1 (
              e5.1 (
                e4.1 (
                  e3.1 (
                    e2.1 (e1.1 (record { calm = refl; whole = refl }, c.completed), c.schema),
                    c.release,
                  ),
                  c.modules,
                ),
                c.metadata,
              ),
              c.clock,
            )),
      )
