-- ===== src/Measure/Harness.antt =====
-- crates/darcbench-core/src/harness.rs: the search for the number of iterations that a repetition
-- should contain. The clock and the operator are outside: what the n-th turn of the loop is told, whether the run
-- is cancelled and how long the probe took, are arguments.
use darcbench.Base.{ℕ, zero, suc, ◌+◌, ◌^◌, Bool, Option, none, some, if◌then◌else◌, ltb, leb}
use darcbench.Base.Num.{Float, clamp, zero_f}
use darcbench.Base.Result.{Result, ok, err}
pub mod Terminates

abbrev pub max_calibration_iterations : ℕ
max_calibration_iterations = 2 ^ 24

pub data ModuleError : Type 0 where
  cancelled : ModuleError

abbrev pub clamp_nat : ℕ → ℕ → ℕ → ℕ
clamp_nat x lo hi = if ltb x lo then lo else if ltb hi x then hi else x

-- What one turn of the loop is told.
pub record Turn (F : Type 0) : Type 0 where
  pub is_cancelled : Bool
  pub probe : ℕ → F

module _ {F : Type 0} ⦃f : Float F⦄ where
  -- linear extrapolation from a reading that can be trusted
  unfoldable pub extrapolate : F → F → ℕ → ℕ
  extrapolate target elapsed iterations =
      let scale = f.div target (f.fmax elapsed (f.lit 1 3)) in
      clamp_nat (f.to_nat (f.round (f.mul (f.of_nat iterations) scale))) 1
        max_calibration_iterations

  growth_of : F → F → F
  growth_of trustworthy elapsed =
      if f.flt zero_f elapsed
      then clamp (f.div trustworthy elapsed) (f.lit 2 0) (f.lit 16 0)
      else f.lit 16 0

  unfoldable pub next_iterations : F → F → ℕ → ℕ
  unfolding growth_of
  next_iterations trustworthy elapsed iterations =
      let next = f.to_nat (f.mul (f.of_nat iterations) (growth_of trustworthy elapsed)) in
      let more = if ltb (iterations + 1) next then next else iterations + 1 in
      if ltb max_calibration_iterations more then max_calibration_iterations else more

  -- The loop from its n-th turn on; `none` when the fuel is spent.
  unfoldable pub calibrate_from : (ℕ → Turn F) → F → F → ℕ → ℕ → ℕ → Option (Result ModuleError ℕ)
  calibrate_from turns target trustworthy zero n iterations = none
  calibrate_from turns target trustworthy (suc fuel) n iterations =
      let elapsed = (turns n).probe iterations in
      let rest =
        calibrate_from turns target trustworthy fuel (n + 1)
          (next_iterations trustworthy elapsed iterations) in
      if (turns n).is_cancelled
      then some (err cancelled)
      else if f.fle trustworthy elapsed
      then some (ok (extrapolate target elapsed iterations))
      else if leb max_calibration_iterations iterations
      then some (ok max_calibration_iterations)
      else rest

  unfoldable pub calibrate_with : ℕ → ℕ → (ℕ → Turn F) → Option (Result ModuleError ℕ)
  calibrate_with fuel target_ms turns =
      let target = f.of_nat target_ms in
      calibrate_from turns target (f.div target (f.lit 4 0)) fuel 0 1
