-- ===== src/Agent/Preflight/Blocking.antt =====
-- What keeps a run from starting.
use darcbench.Base.{
  ℕ, ◌≤◌, ◌≡◌, refl, ap, ◌∙◌, ◌↔◌, Bool, true, false, not, ◌&&◌, ◌||◌, Option, none, some, String,
  List, [], ◌∷◌, map, any, All, any-append, any-concat, is_nil, is_some, ltb, arith,
}
use darcbench.Base.Num.{Float}
use darcbench.Protocol.Run.{Profile}
use darcbench.Agent.Preflight.Defs.{
  PreflightFinding, PreflightInput, Estimate, Declared, is_warning, production_risk, risk_rank,
  Host, ProductionLikelihood,
}
use darcbench.Agent.Preflight.Estimates.{
  add_saturating, no_modules_finding, no_estimate, dependency, unknown_finding, add_estimate,
  estimate_all, cycles_of, repeat_cycles,
}
use darcbench.Agent.Preflight.{
  min_free_bytes, warn, inform, refuse, duration_finding, space_finding, wear_finding,
  egress_finding, governor_finding, production_finding, swap_finding, scope_finding, stack_finding,
  root_finding, cpus_of, load_finding, memory_share, is_over_ceiling, memory_finding,
  cgroup_finding, sections, host_findings, run,
}

or_left : (a b : Bool) → (a || b) ≡ false → a ≡ false
or_left a b h = ground arith

or_right : (a b : Bool) → (a || b) ≡ false → b ≡ false
or_right a b h = ground arith

gate :
    (x a b w : Bool)
    → x ≡ (a || b)
    → ((not x && w) ≡ true) ↔ ((a ≡ false) × (b ≡ false) × (w ≡ true))
gate x a b w h = ground arith

or_false : (a : Bool) → (a || false) ≡ a
or_false a = ground arith

-- The disk has room for what will be written and for the margin; unknown room is none.
abbrev pub HasSpace : Option ℕ → ℕ → Type 0
HasSpace (some free) written = add_saturating written min_free_bytes ≤ free
HasSpace none written = written ≡ 0

-- The modules hold no more of the available memory than the ceiling allows.
abbrev pub HasMemory : (F : Type 0) ⦃f : Float F⦄ → ℕ → ℕ → Type 0
HasMemory F ⦃f⦄ peak available =
    ((ltb 0 peak && f.flt (f.lit 10 2) (memory_share peak available))
      && f.flt (f.lit 60 2) (memory_share peak available))
    ≡ false

abbrev blocks : {F : Type 0} → List (PreflightFinding F) → Bool
blocks = any λ x. x.blocking

module _ (F : Type 0) where
  calm-duration : (t : Option ℕ) (c : ℕ) → blocks {F = F} (duration_finding t c) ≡ false
  unfolding duration_finding warn
  calm-duration none c = refl
  calm-duration (some t) c = refl

  calm-wear : (n : ℕ) → blocks {F = F} (wear_finding n) ≡ false
  unfolding wear_finding warn
  calm-wear n = ground arith

  calm-egress : (n : ℕ) → blocks {F = F} (egress_finding n) ≡ false
  unfolding egress_finding warn
  calm-egress n = ground arith

  calm-governor : (g : Option (List ℕ)) → blocks {F = F} (governor_finding g) ≡ false
  unfolding governor_finding warn
  calm-governor none = refl
  calm-governor (some g) = ground arith

  calm-production : (p : ProductionLikelihood) → blocks {F = F} (production_finding p) ≡ false
  unfolding production_finding warn
  calm-production p = ground arith

  calm-swap : (h : Host F) → blocks {F = F} (swap_finding h) ≡ false
  unfolding swap_finding warn
  calm-swap h = ground arith

  calm-scope : (h : Host F) → blocks {F = F} (scope_finding h) ≡ false
  unfolding scope_finding warn
  calm-scope h = ground arith

  calm-stack : (h : Host F) → blocks {F = F} (stack_finding h) ≡ false
  unfolding stack_finding inform
  calm-stack h = ground arith

  calm-root : (h : Host F) → blocks {F = F} (root_finding h) ≡ false
  unfolding root_finding inform
  calm-root h = ground arith

  blocks-space :
      (free : Option ℕ) (written : ℕ)
      → (blocks {F = F} (space_finding free written) ≡ false) ↔ HasSpace free written
  unfolding space_finding refuse
  blocks-space none written = ground arith
  blocks-space (some free) written = ground arith

  calm-dependencies :
      (id : String) (ds : List String) → blocks {F = F} (map (dependency id) ds) ≡ false
  unfolding dependency
  calm-dependencies id [] = refl
  calm-dependencies id (d ∷ ds) = calm-dependencies id ds

no_modules_calm :
    (F : Type 0) (p : Profile) (ids : List String)
    → (blocks (no_modules_finding {F = F} p ids) ≡ false) ↔ (is_nil ids ≡ false)
unfolding no_modules_finding
no_modules_calm F p [] = ground arith
no_modules_calm F p (id ∷ ids) = ground arith

module _ {F : Type 0} where
  blocks-add_estimate :
      (id : String) (m : Option Declared) (e : Estimate F)
      → blocks ((add_estimate id m e).findings) ≡ (blocks e.findings || not (is_some m))
  unfolding add_estimate unknown_finding
  blocks-add_estimate id none e = ground (
    arith,
    any-append (λ (x : PreflightFinding F). x.blocking) e.findings (unknown_finding id ∷ []),
  )
  blocks-add_estimate id (some m) e =
      any-append (λ (x : PreflightFinding F). x.blocking) e.findings
        (map (dependency m.id) m.dependencies)
      ∙ ap (λ b. blocks e.findings || b) (calm-dependencies F m.id m.dependencies)

  blocks-estimate_all :
      (get : String → Option Declared) (ids : List String) (e : Estimate F)
      → (blocks ((estimate_all get ids e).findings) ≡ false)
        ↔ ((blocks e.findings ≡ false) × All (λ id. is_some (get id) ≡ true) ids)
  unfolding estimate_all
  blocks-estimate_all get [] e = (λ h. (h, tt), λ h. h.0)
  blocks-estimate_all get (id ∷ ids) e =
      let rest = blocks-estimate_all get ids (add_estimate id (get id) e) in
      let here = blocks-add_estimate id (get id) e in
      (
        λ h. let (b, k) = rest.0 h in (ground (arith, here), (ground (arith, here), k)),
        λ (b, (g, k)). rest.1 (ground (arith, here), k),
      )

blocks-memory :
    (F : Type 0) ⦃f : Float F⦄ (peak available : ℕ)
    → (blocks {F = F} (memory_finding {F = F} peak available) ≡ false) ↔ HasMemory F peak available
unfolding memory_finding is_over_ceiling
blocks-memory F peak available = ground arith

module _ {F : Type 0} ⦃f : Float F⦄ where
  calm-load : (c : F) (l : Option F) → blocks (load_finding c l) ≡ false
  unfolding load_finding warn
  calm-load c none = refl
  calm-load c (some l) = ground arith

  calm-cgroup : (c : F) (l : Option F) → blocks (cgroup_finding c l) ≡ false
  unfolding cgroup_finding warn
  calm-cgroup c none = refl
  calm-cgroup c (some l) = ground arith

  blocks_two :
      (i : PreflightInput F) (c : ℕ) (e : Estimate F)
      → blocks (host_findings i c e) ≡ (
          blocks {F = F} (space_finding i.free_bytes e.bytes_written)
          || blocks (memory_finding {F = F} e.peak_memory_bytes i.host.available_bytes))
  unfolding host_findings sections
  blocks_two i c e =
      any-concat (λ (x : PreflightFinding F). x.blocking) (sections i c e)
      ∙ rw
          (
            calm-duration F i.cycle_target c,
            calm-wear F e.write_volume_bytes,
            calm-egress F e.network_bytes,
            calm-load (cpus_of i.host) i.host.load1,
            calm-governor F i.host.governor,
            calm-production F i.host.production_likelihood,
            calm-swap F i.host,
            calm-scope F i.host,
            calm-cgroup (cpus_of i.host) i.host.cgroup_cpu_limit,
            calm-stack F i.host,
            calm-root F i.host,
          )
          (ap (λ b. blocks {F = F} (space_finding i.free_bytes e.bytes_written) || b) (or_false _))

  blocks-host_findings :
      (i : PreflightInput F) (c : ℕ) (e : Estimate F)
      → (blocks (host_findings i c e) ≡ false) ↔ (
          HasSpace i.free_bytes e.bytes_written
          × HasMemory F e.peak_memory_bytes i.host.available_bytes)
  unfolding host_findings
  blocks-host_findings i c e =
      let space = blocks-space F i.free_bytes e.bytes_written in
      let memory = blocks-memory F e.peak_memory_bytes i.host.available_bytes in
      rw (blocks_two i c e) (
        λ h. (space.0 (or_left _ _ h), memory.0 (or_right _ _ h)),
        λ (s, m). ground (arith, space.1 s, memory.1 m),
      )

  blocks-no_modules :
      (i : PreflightInput F)
      → (blocks (no_modules_finding {F = F} i.profile i.modules) ≡ false)
        ↔ (is_nil i.modules ≡ false)
  blocks-no_modules i = no_modules_calm F i.profile i.modules

  -- A run may start exactly when it has modules, all of them known, the disk has room for what they
  -- write and for the margin, they leave enough of the memory, and either the operator forces it, or
  -- nothing warns, or the risk is below that to a production machine: force lifts warnings only.
  pub passed-run :
      (i : PreflightInput F)
      → ((run i).passed ≡ true) ↔ (
          (is_nil i.modules ≡ false)
          × All (λ id. is_some (i.get id) ≡ true) i.modules
          × HasSpace i.free_bytes (run i).estimated_bytes_written
          × HasMemory F (run i).estimated_peak_memory_bytes i.host.available_bytes
          × ((i.force
                || (not (any (λ (x : PreflightFinding F). is_warning x.severity) (run i).findings)
                    || ltb (risk_rank (run i).risk) (risk_rank production_risk)))
              ≡ true))
  unfolding run repeat_cycles no_estimate
  passed-run i =
      let start : Estimate F = no_estimate (no_modules_finding i.profile i.modules) in
      let once : Estimate F = estimate_all i.get i.modules start in
      let cycles = cycles_of i.cycle_target once.duration_s in
      let e : Estimate F = repeat_cycles cycles once in
      let own = blocks-estimate_all i.get i.modules start in
      let none = blocks-no_modules i in
      let host = blocks-host_findings i cycles e in
      let g = gate _ (blocks once.findings) (blocks (host_findings i cycles e)) _ (
        any-append (λ (x : PreflightFinding F). x.blocking) once.findings
          (host_findings i cycles e)) in
      (
        λ h.
            let (a, b, w) = g.0 h in
            let (n, k) = own.0 a in let (s, m) = host.0 b in (none.0 n, k, s, m, w),
        λ (n, k, s, m, w). g.1 (own.1 (none.1 n, k), host.1 (s, m), w),
      )
