-- ===== src/Agent/Watchdog.antt =====
-- crates/darcbench-agent/src/runner.rs: the watchdog that a run's telemetry task asks once a second.
-- A duration is in milliseconds. The tallies are u32 in the source and count seconds of a run that the
-- runtime ceiling stops after 25 hours, so no wrap-around is written. `render` is `format!`.
use darcbench.Base.{
  ℕ, ◌+◌, ◌*◌, ◌/◌, Bool, true, false, not, ◌||◌, ◌&&◌, Option, none, some, String, List, [], ◌∷◌,
  if◌then◌else◌, ltb, leb,
}
use darcbench.Base.Num.{Float, zero_f}
use darcbench.Protocol.Run.{endurance_max_minutes}
use darcbench.Protocol.Metrics.{
  Warning, WarningCode, validation_failed, thermal_throttle, external_load,
}
pub mod Tallies
pub mod Verdicts

abbrev pub thermal_abort_samples : ℕ
thermal_abort_samples = 30

abbrev pub external_load_warn_samples : ℕ
external_load_warn_samples = 20

abbrev pub external_load_abort_samples : ℕ
external_load_abort_samples = 300

-- What the four messages are built from.
pub data Message (F : Type 0) : Type 0 where
  past_ceiling : ℕ → ℕ → Message F
  held_hot : F → Message F
  load_ceiling : F → Message F
  contended : F → Message F

pub data WatchdogVerdict : Type 0 where
  abort degrade : Warning → WatchdogVerdict

pub data Scope : Type 0 where
  bare_metal virtual_machine container unknown : Scope

pub record HostView (F : Type 0) : Type 0 where
  pub scope : Scope
  pub cgroup_cpu_limit : Option F
  pub logical_cpus : ℕ

pub record Watchdog : Type 0 where
  pub consecutive_hot : ℕ
  pub consecutive_contended : ℕ
  pub consecutive_heavily_contended : ℕ
  pub contention_reported : Bool
  pub external_load_enforced : Bool

pub record Snapshot (F : Type 0) : Type 0 where
  pub cpu_temp_c : Option F
  pub cpu_unavailable : Bool
  pub cpu_external_busy_pct : F

-- One call of the watchdog: the sample, and what it reads from the handle of the run.
pub record Tick (F : Type 0) : Type 0 where
  pub elapsed : ℕ
  pub cycle_target : Option ℕ
  pub load_ceiling_suspended : Bool
  pub snapshot : Snapshot F

-- What a call changes: the watchdog, and the slot of the handle that `note_contention` overwrites.
pub record Guarded : Type 0 where
  pub dog : Watchdog
  pub contention : Option Warning

abbrev hour : ℕ
hour = 3_600_000

unfoldable pub hard_runtime_ceiling : Option ℕ → ℕ
hard_runtime_ceiling target =
    let requested : ℕ = elim target [ some t ↦ t | none ↦ hour ] in
    let most : ℕ = endurance_max_minutes * 60_000 + hour in
    if leb (requested * 2) most then requested * 2 else most

in_container : Scope → Bool
in_container container = true
in_container _ = false

-- `disclosures` is one fixed sentence where the load ceiling is not enforced.
unfoldable pub discloses : Watchdog → Bool
discloses w = not w.external_load_enforced

module _ {F : Type 0} ⦃f : Float F⦄ where
  abbrev pub thermal_abort_c : F
  thermal_abort_c = f.lit 100 0

  abbrev pub external_load_warn_pct : F
  external_load_warn_pct = f.lit 10 0

  abbrev pub external_load_abort_pct : F
  external_load_abort_pct = f.lit 40 0

  quota_below : ℕ → Option F → Bool
  quota_below cpus none = false
  quota_below cpus (some limit) = f.flt zero_f limit && f.flt limit (f.of_nat cpus)

  unfoldable pub proc_stat_may_describe_the_host : HostView F → Bool
  unfolding quota_below in_container
  proc_stat_may_describe_the_host h =
      if in_container h.scope then true else quota_below h.logical_cpus h.cgroup_cpu_limit

  unfoldable pub new : HostView F → Watchdog
  new host = record {
    consecutive_hot = 0;
    consecutive_contended = 0;
    consecutive_heavily_contended = 0;
    contention_reported = false;
    external_load_enforced = not (proc_stat_may_describe_the_host host);
  }

  abbrev pub is_hot_temp : Option F → Bool
  is_hot_temp none = false
  is_hot_temp (some t) = f.fle thermal_abort_c t

  -- the sample is hot, heavily contended, contended
  abbrev pub is_hot : Tick F → Bool
  is_hot t = is_hot_temp t.snapshot.cpu_temp_c

  abbrev pub is_heavy : Tick F → Bool
  is_heavy t = f.fle external_load_abort_pct t.snapshot.cpu_external_busy_pct

  abbrev pub is_contended : Tick F → Bool
  is_contended t = f.fle external_load_warn_pct t.snapshot.cpu_external_busy_pct

  module _ (render : Message F → String) where
    warning : WarningCode → Message F → Warning
    warning code m = record { code = code; message = render m; metric_key = none }

    load_warning : Tick F → Warning
    unfolding warning
    load_warning t = warning external_load (contended t.snapshot.cpu_external_busy_pct)

    -- the second half of `check_external_load`, past the abort threshold
    warn_external_load : Tick F → Guarded → Guarded × Option WatchdogVerdict
    unfolding load_warning
    warn_external_load t g =
        let d = g.dog in
        let tally = d.consecutive_contended + 1 in
        let counted = record d { consecutive_contended = tally } in
        if not (is_contended t)
        then (
          record g { dog = record d { consecutive_contended = 0; contention_reported = false } },
          none,
        )
        else if ltb tally external_load_warn_samples
        then (record g { dog = counted }, none)
        else if d.contention_reported
        then (record { dog = counted; contention = some (load_warning t) }, none)
        else (
          record {
            dog = record counted { contention_reported = true };
            contention = some (load_warning t);
          },
          some (degrade (load_warning t)),
        )

    unfoldable pub check_external_load : Tick F → Guarded → Guarded × Option WatchdogVerdict
    unfolding warn_external_load warning
    check_external_load t g =
        let d = g.dog in
        let heavy = if is_heavy t then d.consecutive_heavily_contended + 1 else 0 in
        let g' = record g { dog = record d { consecutive_heavily_contended = heavy } } in
        if not d.external_load_enforced
        then (g, none)
        else if t.load_ceiling_suspended
        then (
          record g {
            dog = record d {
              consecutive_contended = 0;
              consecutive_heavily_contended = 0;
              contention_reported = false;
            };
          },
          none,
        )
        else if t.snapshot.cpu_unavailable
        then (g, none)
        else if leb external_load_abort_samples heavy
        then (
          g',
          some (abort (warning external_load (load_ceiling t.snapshot.cpu_external_busy_pct))),
        )
        else warn_external_load t g'

    -- the temperature, then the load
    check_temperature : Tick F → Option F → Guarded → Guarded × Option WatchdogVerdict
    unfolding warning
    check_temperature t none g =
        check_external_load t (record g { dog = record (g.dog) { consecutive_hot = 0 } })
    check_temperature t (some temp) g =
        let hot = g.dog.consecutive_hot + 1 in
        let g' = record g { dog = record (g.dog) { consecutive_hot = hot } } in
        if not (f.fle thermal_abort_c temp)
        then check_external_load t (record g { dog = record (g.dog) { consecutive_hot = 0 } })
        else if leb thermal_abort_samples hot
        then (g', some (abort (warning thermal_throttle (held_hot temp))))
        else check_external_load t g'

    unfoldable pub check : Tick F → Guarded → Guarded × Option WatchdogVerdict
    unfolding check_temperature warning
    check t g =
        let ceiling = hard_runtime_ceiling t.cycle_target in
        if ltb ceiling t.elapsed
        then (
          g,
          some (
              abort
                (warning validation_failed (past_ceiling (t.elapsed / 60_000) (ceiling / 60_000)))),
        )
        else check_temperature t t.snapshot.cpu_temp_c g

    -- The guard after a run's ticks, the newest first.
    unfoldable pub watch : Guarded → List (Tick F) → Guarded
    watch g [] = g
    watch g (t ∷ older) = (check t (watch g older)).0
