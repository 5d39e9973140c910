-- ===== src/Agent/Watchdog/Verdicts.antt =====
-- When the load ceiling stops a run, degrades a module, or stays silent.
use darcbench.Base.{
  ℕ, ◌∙◌, ap, ◌+◌, ◌*◌, ◌≤◌, ◌≡◌, refl, ◌↔◌, ◌⊎◌, Bool, true, false, not, Option, none, some,
  String, List, [], ◌∷◌, All, keep, if◌then◌else◌, Bool-cases, inl, inr, ltb, arith,
}
use darcbench.Base.Num.{Float}
use darcbench.Protocol.Run.{endurance_max_minutes}
use darcbench.Agent.Watchdog.{
  Message, Tick, Guarded, WatchdogVerdict, HostView, hard_runtime_ceiling, is_hot, is_heavy,
  is_contended, is_hot_temp, proc_stat_may_describe_the_host, new, check_external_load,
  check_temperature, check, watch, external_load_abort_samples,
}
use darcbench.Agent.Watchdog.Tallies.{streak, fresh, is_load_abort, is_degrade}

-- A run that was asked to last up to a day is not stopped before its target, and neither it nor a run
-- without a target may last longer than twenty-five hours.
hard_runtime_ceiling_lem :
    (target : ℕ)
    → target ≤ endurance_max_minutes * 60_000
    → (target ≤ hard_runtime_ceiling (some target))
      × (hard_runtime_ceiling (some target) ≤ 25 * 3_600_000)
      × (hard_runtime_ceiling none ≤ 25 * 3_600_000)
unfolding hard_runtime_ceiling
hard_runtime_ceiling_lem target h = ground arith

module _ {F : Type 0} ⦃f : Float F⦄ (render : Message F → String) where
  abbrev pub is_measured : Tick F → Bool
  is_measured t = not t.snapshot.cpu_unavailable

  -- In time, cool, and with the ceiling not suspended: only the load can decide.
  pub record IsPlain (t : Tick F) : Type 0 where
    pub in_time : t.elapsed ≤ hard_runtime_ceiling t.cycle_target
    pub cool : is_hot t ≡ false
    pub armed : t.load_ceiling_suspended ≡ false

  enforced-check_external_load :
      (t : Tick F) (g : Guarded)
      → (check_external_load render t g).0.dog.external_load_enforced ≡ g.dog.external_load_enforced
  unfolding check_external_load
  enforced-check_external_load t g = ground arith

  heavy-check_external_load :
      (t : Tick F) (g : Guarded)
      → g.dog.external_load_enforced ≡ true
      → t.load_ceiling_suspended ≡ false
      → (check_external_load render t g).0.dog.consecutive_heavily_contended ≡ (
          if is_measured t
          then (if is_heavy t then g.dog.consecutive_heavily_contended + 1 else 0)
          else g.dog.consecutive_heavily_contended)
  unfolding check_external_load
  heavy-check_external_load t g e s = ground arith

  abort-check_external_load :
      (t : Tick F) (g : Guarded)
      → g.dog.external_load_enforced ≡ true
      → t.load_ceiling_suspended ≡ false
      → (is_load_abort (check_external_load render t g).1 ≡ true) ↔ (
          (is_measured t ≡ true)
          × (external_load_abort_samples
              ≤ (if is_heavy t then g.dog.consecutive_heavily_contended + 1 else 0)))
  unfolding check_external_load
  abort-check_external_load t g e s = ground arith

  abbrev cooled : Guarded → Guarded
  cooled g = record g { dog = record (g.dog) { consecutive_hot = 0 } }

  plain-check_temperature :
      (t : Tick F) (temp : Option F) (g : Guarded)
      → is_hot_temp temp ≡ false
      → check_temperature render t temp g ≡ check_external_load render t (cooled g)
  unfolding check_temperature
  plain-check_temperature t none g h = refl
  plain-check_temperature t (some temp) g h = rw h refl

  plain-check :
      (t : Tick F) (g : Guarded)
      → IsPlain t
      → check render t g ≡ check_external_load render t (cooled g)
  unfolding check
  plain-check t g p = elim (Bool-cases (ltb (hard_runtime_ceiling t.cycle_target) t.elapsed)) [
    | inl late ↦ absurd (ground (arith, late, p.in_time))
    | inr e ↦ rw e (plain-check_temperature t t.snapshot.cpu_temp_c g p.cool)
  ]

  -- A host whose CPU accounting can be trusted.
  abbrev pub IsArmed : HostView F → Type 0
  IsArmed host = proc_stat_may_describe_the_host host ≡ false

  enforced-watch :
      (host : HostView F) (ts : List (Tick F))
      → IsArmed host
      → All IsPlain ts
      → (watch render (fresh render host) ts).dog.external_load_enforced ≡ true
  unfolding watch new
  enforced-watch host [] a h = rw a refl
  enforced-watch host (t ∷ ts) a (p, ps) =
      let older = watch render (fresh render host) ts in
      ap (λ r. r.0.dog.external_load_enforced) (plain-check t older p)
      ∙ (enforced-check_external_load t (cooled older) ∙ enforced-watch host ts a ps)

  heavy-watch :
      (host : HostView F) (ts : List (Tick F))
      → IsArmed host
      → All IsPlain ts
      → (watch render (fresh render host) ts).dog.consecutive_heavily_contended
        ≡ streak is_heavy (keep is_measured ts)
  unfolding watch new
  heavy-watch host [] a h = refl
  heavy-watch host (t ∷ ts) a (p, ps) =
      let older = watch render (fresh render host) ts in
      ap (λ r. r.0.dog.consecutive_heavily_contended) (plain-check t older p)
      ∙ ground (
        arith,
        heavy-check_external_load t (cooled older),
        enforced-watch host ts a ps,
        p.armed,
        heavy-watch host ts a ps,
      )

  -- On a host with trusted CPU accounting, over any cool samples in time with the ceiling not
  -- suspended, the run is stopped for external load exactly when the sample at hand was read and the
  -- newest three hundred samples that were read, it among them, were all heavily contended: a sample
  -- whose reading failed neither counts nor breaks the row.
  pub load_abort_iff :
      (host : HostView F) (t : Tick F) (ts : List (Tick F))
      → IsArmed host
      → All IsPlain (t ∷ ts)
      → (is_load_abort (check render t (watch render (fresh render host) ts)).1 ≡ true) ↔ (
          (is_measured t ≡ true)
          × (external_load_abort_samples ≤ streak is_heavy (keep is_measured (t ∷ ts))))
  load_abort_iff host t ts a (p, ps) =
      let older = watch render (fresh render host) ts in
      rw (plain-check t older p) (
        ground (
          arith,
          abort-check_external_load t (cooled older),
          enforced-watch host ts a ps,
          p.armed,
          heavy-watch host ts a ps,
        ))

  -- Nothing that the load ceiling writes, or says.
  pub record IsSilent (r : Guarded × Option WatchdogVerdict) : Type 0 where
    pub unenforced : r.0.dog.external_load_enforced ≡ false
    pub unwritten : r.0.contention ≡ none
    pub no_abort : is_load_abort r.1 ≡ false
    pub no_degrade : is_degrade r.1 ≡ false

  IsSilent-check_temperature :
      (t : Tick F) (temp : Option F) (g : Guarded)
      → g.dog.external_load_enforced ≡ false
      → g.contention ≡ none
      → IsSilent (check_temperature render t temp g)
  unfolding check_temperature check_external_load
  IsSilent-check_temperature t none g e c = ground arith
  IsSilent-check_temperature t (some temp) g e c = ground arith

  IsSilent-check :
      (t : Tick F) (g : Guarded)
      → g.dog.external_load_enforced ≡ false
      → g.contention ≡ none
      → IsSilent (check render t g)
  unfolding check
  IsSilent-check t g e c = elim (Bool-cases (ltb (hard_runtime_ceiling t.cycle_target) t.elapsed)) [
    | inl late ↦
        rw late (record { unenforced = e; unwritten = c; no_abort = refl; no_degrade = refl })
    | inr e' ↦ rw e' (IsSilent-check_temperature t t.snapshot.cpu_temp_c g e c)
  ]

  -- On a host whose CPU accounting may describe other tenants, no samples whatever make the watchdog
  -- stop the run for external load, degrade a module, or charge a module with contention.
  pub unarmed-IsSilent :
      (host : HostView F) (t : Tick F) (ts : List (Tick F))
      → proc_stat_may_describe_the_host host ≡ true
      → IsSilent (check render t (watch render (fresh render host) ts))
  unfolding watch new
  unarmed-IsSilent host t [] u = IsSilent-check t (fresh render host) (rw u refl) refl
  unarmed-IsSilent host t (s ∷ ts) u =
      let before = unarmed-IsSilent host s ts u in
      IsSilent-check t (watch render (fresh render host) (s ∷ ts)) before.unenforced
        before.unwritten

  -- The load ceiling announces a contended stretch only if it has not yet, and then remembers it; the
  -- memory is cleared only by a suspension or by a sample that was read and is not contended.
  pub announce-check_external_load :
      (t : Tick F) (g : Guarded)
      → let r = check_external_load render t g in
        (is_degrade r.1 ≡ true
          → (g.dog.contention_reported ≡ false) × (r.0.dog.contention_reported ≡ true))
        × (g.dog.contention_reported ≡ true
            → r.0.dog.contention_reported ≡ false
            → (t.load_ceiling_suspended ≡ true)
              ⊎ ((is_measured t ≡ true) × (is_contended t ≡ false)))
  unfolding check_external_load
  announce-check_external_load t g = ground arith
