-- ===== src/Agent/Preflight/Risk.antt =====
-- The risk shown to the operator never falls as a run grows more invasive.
use darcbench.Base.{◌≤◌, Option, none, some, String, List, [], ◌∷◌, ◌++◌, arith}
use darcbench.Base.Num.{Float}
use darcbench.Agent.Preflight.Defs.{
  SafetyClass, safety_rank, risk_rank, ProductionLikelihood, PreflightInput, Estimate, Declared,
  Host,
}
use darcbench.Agent.Preflight.Estimates.{no_estimate, add_estimate, estimate_all, repeat_cycles}
use darcbench.Agent.Preflight.{base_risk, classify, run}

base_risk_mono :
    (a b : SafetyClass)
    → safety_rank a ≤ safety_rank b
    → risk_rank (base_risk a) ≤ risk_rank (base_risk b)
unfolding base_risk
base_risk_mono a b h = ground arith

module _ {F : Type 0} where
  safety-add_estimate :
      (id : String) (m : Option Declared) (d e : Estimate F)
      → safety_rank d.max_safety ≤ safety_rank e.max_safety
      → safety_rank (add_estimate id m d).max_safety ≤ safety_rank (add_estimate id m e).max_safety
  unfolding add_estimate
  safety-add_estimate id none d e h = h
  safety-add_estimate id (some m) d e h = ground arith

  safety_grows-add_estimate :
      (id : String) (m : Option Declared) (e : Estimate F)
      → safety_rank e.max_safety ≤ safety_rank (add_estimate id m e).max_safety
  unfolding add_estimate
  safety_grows-add_estimate id none e = omega arith
  safety_grows-add_estimate id (some m) e = ground arith

  safety_grows-estimate_all :
      (get : String → Option Declared) (ids : List String) (d e : Estimate F)
      → safety_rank d.max_safety ≤ safety_rank e.max_safety
      → safety_rank d.max_safety ≤ safety_rank (estimate_all get ids e).max_safety
  unfolding estimate_all
  safety_grows-estimate_all get [] d e h = h
  safety_grows-estimate_all get (id ∷ ids) d e h =
      safety_grows-estimate_all get ids d (add_estimate id (get id) e)
        (omega (arith, safety_grows-add_estimate id (get id) e))

  safety-estimate_all :
      (get : String → Option Declared) (ids more : List String) (d e : Estimate F)
      → safety_rank d.max_safety ≤ safety_rank e.max_safety
      → safety_rank (estimate_all get ids d).max_safety
        ≤ safety_rank (estimate_all get (ids ++ more) e).max_safety
  unfolding estimate_all
  safety-estimate_all get [] more d e h = safety_grows-estimate_all get more d e h
  safety-estimate_all get (id ∷ ids) more d e h =
      safety-estimate_all get ids more (add_estimate id (get id) d) (add_estimate id (get id) e)
        (safety-add_estimate id (get id) d e h)

module _ {F : Type 0} ⦃f : Float F⦄ where
  classify_mono :
      (a b : SafetyClass) (p : ProductionLikelihood) (h : Host F)
      → safety_rank a ≤ safety_rank b
      → risk_rank (classify a p h) ≤ risk_rank (classify b p h)
  unfolding classify
  classify_mono a b p h k = ground (arith, base_risk_mono a b k)

  -- Adding modules to a selection never lowers the risk that the preflight shows.
  pub risk-run :
      (i : PreflightInput F) (more : List String)
      → risk_rank (run i).risk ≤ risk_rank (run (record i { modules = i.modules ++ more })).risk
  unfolding run repeat_cycles no_estimate
  risk-run i more =
      classify_mono _ _ i.host.production_likelihood i.host
        (safety-estimate_all i.get i.modules more _ _ (omega arith))
