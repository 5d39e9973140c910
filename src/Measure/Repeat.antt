-- ===== src/Measure/Repeat.antt =====
-- crates/darcbench-core/src/harness.rs: the loop that repeats a measurement. What a repetition yields
-- and whether the run is cancelled before it are arguments; progress is streamed to the operator and
-- is not modelled.
use darcbench.Base.{
  ℕ, zero, suc, ◌+◌, ◌%◌, ◌^◌, Bool, not, ◌&&◌, String, List, [], ◌∷◌, ◌++◌, some, if◌then◌else◌,
  ltb,
}
use darcbench.Base.Num.{Float}
use darcbench.Base.Result.{Result, ok, err}
use darcbench.Protocol.Metrics.{MetricSample, Warning, validation_failed}
use darcbench.Measure.Harness.{ModuleError, cancelled}
pub mod Outcome

-- What a repetition yields: the value, and how long it took.
pub record Rep (F : Type 0) : Type 0 where
  pub is_cancelled : Bool
  pub value : F
  pub duration_ms : F

pub record RepOutcome (F : Type 0) : Type 0 where
  pub samples : List (MetricSample F)
  pub measured : List F
  pub warnings : List Warning

module _ {F : Type 0} ⦃f : Float F⦄ where
  abbrev pub min_rep_ms : F
  min_rep_ms = f.lit 20 0

  -- The arguments: the metric's key, how a warning reads, the repetitions, how many are warm-ups.
  module _ (key : String) (render : F → String) (reps : ℕ → Rep F) (warmup_reps : ℕ) where
    unfoldable pub sample_of : ℕ → MetricSample F
    sample_of rep = record {
      rep = rep;
      value = (reps rep).value;
      duration_ms = (reps rep).duration_ms;
      warmup = ltb rep warmup_reps;
    }

    unfoldable pub warning_of : ℕ → Warning
    warning_of rep = record {
      code = validation_failed;
      message = render (reps rep).duration_ms;
      metric_key = some key;
    }

    unfoldable pub is_short : ℕ → Bool
    is_short rep = f.flt (reps rep).duration_ms min_rep_ms

    unfoldable pub add_rep : ℕ → RepOutcome F → RepOutcome F
    add_rep rep o = record {
      samples = o.samples ++ (sample_of rep ∷ []);
      measured = if ltb rep warmup_reps then o.measured else o.measured ++ ((reps rep).value ∷ []);
      warnings =
          if not (ltb rep warmup_reps) && is_short rep
          then o.warnings ++ (warning_of rep ∷ [])
          else o.warnings;
    }

    -- the repetitions that are left, from the one given on
    unfoldable pub time_from : ℕ → ℕ → RepOutcome F → Result ModuleError (RepOutcome F)
    time_from zero rep o = ok o
    time_from (suc left) rep o =
        let rest = time_from left (suc rep) (add_rep rep o) in
        if (reps rep).is_cancelled then err cancelled else rest

    unfoldable pub time_reps : ℕ → Result ModuleError (RepOutcome F)
    time_reps measured_reps =
        time_from ((warmup_reps + measured_reps) % 2 ^ 32) 0
          (record { samples = []; measured = []; warnings = [] })
