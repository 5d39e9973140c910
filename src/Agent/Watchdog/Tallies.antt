-- ===== src/Agent/Watchdog/Tallies.antt =====
-- What the tallies of the watchdog count.
use darcbench.Base.{
  ℕ, ◌+◌, ◌≤◌, ◌≡◌, refl, ◌↔◌, Bool, true, false, Option, none, some, String, List, [], ◌∷◌, All,
  if◌then◌else◌, Bool-cases, inl, inr, ltb, arith,
}
use darcbench.Base.Num.{Float}
use darcbench.Protocol.Metrics.{WarningCode, thermal_throttle, external_load}
use darcbench.Agent.Watchdog.{
  Message, Tick, Guarded, WatchdogVerdict, abort, degrade, HostView, hard_runtime_ceiling, is_hot,
  new, check_external_load, check_temperature, check, watch, thermal_abort_samples, is_hot_temp,
}

-- How many of the newest elements pass the test without a break.
abbrev pub streak : {A : Type 0} → (A → Bool) → List A → ℕ
streak p [] = 0
streak p (x ∷ xs) = if p x then streak p xs + 1 else 0

abbrev is_thermal : WarningCode → Bool
is_thermal thermal_throttle = true
is_thermal _ = false

-- The run is stopped, for its temperature.
abbrev pub is_thermal_abort : Option WatchdogVerdict → Bool
is_thermal_abort (some (abort w)) = is_thermal w.code
is_thermal_abort _ = false

abbrev is_external : WarningCode → Bool
is_external external_load = true
is_external _ = false

-- The run is stopped, or the module degraded, for work that is not the benchmark's.
abbrev pub is_load_abort : Option WatchdogVerdict → Bool
is_load_abort (some (abort w)) = is_external w.code
is_load_abort _ = false

abbrev pub is_degrade : Option WatchdogVerdict → Bool
is_degrade (some (degrade w)) = true
is_degrade _ = false

module _ {F : Type 0} ⦃f : Float F⦄ (render : Message F → String) where
  abbrev pub InTime : Tick F → Type 0
  InTime t = t.elapsed ≤ hard_runtime_ceiling t.cycle_target

  abbrev pub fresh : HostView F → Guarded
  fresh host = record { dog = new host; contention = none }

  hot-check_external_load :
      (t : Tick F) (g : Guarded)
      → (check_external_load render t g).0.dog.consecutive_hot ≡ g.dog.consecutive_hot
  unfolding check_external_load
  hot-check_external_load t g = ground arith

  abbrev with_hot : ℕ → Guarded → Guarded
  with_hot n g = record g { dog = record (g.dog) { consecutive_hot = n } }

  hot-check_temperature :
      (t : Tick F) (temp : Option F) (g : Guarded)
      → (check_temperature render t temp g).0.dog.consecutive_hot
        ≡ (if is_hot_temp temp then g.dog.consecutive_hot + 1 else 0)
  unfolding check_temperature
  hot-check_temperature t none g = hot-check_external_load t (with_hot 0 g)
  hot-check_temperature t (some temp) g = ground (
    arith,
    hot-check_external_load t (with_hot 0 g),
    hot-check_external_load t (with_hot (g.dog.consecutive_hot + 1) g),
  )

  -- the tally after a sample that is in time
  hot-check :
      (t : Tick F) (g : Guarded)
      → InTime t
      → (check render t g).0.dog.consecutive_hot
        ≡ (if is_hot t then g.dog.consecutive_hot + 1 else 0)
  unfolding check
  hot-check t g h = elim (Bool-cases (ltb (hard_runtime_ceiling t.cycle_target) t.elapsed)) [
    | inl late ↦ absurd (ground (arith, late))
    | inr e ↦ rw e (hot-check_temperature t t.snapshot.cpu_temp_c g)
  ]

  hot-watch :
      (host : HostView F) (ts : List (Tick F))
      → All InTime ts
      → (watch render (fresh host) ts).dog.consecutive_hot ≡ streak is_hot ts
  unfolding watch new
  hot-watch host [] h = refl
  hot-watch host (t ∷ ts) (h, hs) =
      let older = watch render (fresh host) ts in
      rw (hot-check t older h, hot-watch host ts hs) refl

  not_thermal-check_external_load :
      (t : Tick F) (g : Guarded) → is_thermal_abort (check_external_load render t g).1 ≡ false
  unfolding check_external_load
  not_thermal-check_external_load t g = ground arith

  thermal-check_temperature :
      (t : Tick F) (temp : Option F) (g : Guarded)
      → (is_thermal_abort (check_temperature render t temp g).1 ≡ true)
        ↔ (thermal_abort_samples ≤ (if is_hot_temp temp then g.dog.consecutive_hot + 1 else 0))
  unfolding check_temperature
  thermal-check_temperature t none g =
      ground (arith, not_thermal-check_external_load t (with_hot 0 g))
  thermal-check_temperature t (some temp) g = ground (
    arith,
    not_thermal-check_external_load t (with_hot 0 g),
    not_thermal-check_external_load t (with_hot (g.dog.consecutive_hot + 1) g),
  )

  -- Whatever samples a run saw, all within its runtime ceiling, the watchdog stops it for its
  -- temperature exactly when the newest thirty in a row, the one at hand among them, were hot.
  pub thermal_abort_iff :
      (host : HostView F) (t : Tick F) (ts : List (Tick F))
      → All InTime (t ∷ ts)
      → (is_thermal_abort (check render t (watch render (fresh host) ts)).1 ≡ true)
        ↔ (thermal_abort_samples ≤ streak is_hot (t ∷ ts))
  unfolding check
  thermal_abort_iff host t ts (h, hs) =
      let older = watch render (fresh host) ts in
      elim (Bool-cases (ltb (hard_runtime_ceiling t.cycle_target) t.elapsed)) [
        | inl late ↦ absurd (ground (arith, late))
        | inr e ↦ rw e (
            ground (
              arith,
              thermal-check_temperature t t.snapshot.cpu_temp_c older,
              hot-watch host ts hs,
            ))
      ]
