-- ===== src/Measure/Harness/Terminates.antt =====
-- The search ends, within its bounds.
use darcbench.Base.{
  ℕ, zero, suc, ◌+◌, ◌≤◌, ◌<◌, Option, none, some, leb, Bool-cases, inl, inr, arith,
}
use darcbench.Base.Num.{Float}
use darcbench.Base.Result.{Result, ok, err}
use darcbench.Measure.Harness.{
  max_calibration_iterations, ModuleError, clamp_nat, extrapolate, next_iterations, Turn,
  calibrate_from, calibrate_with,
}

-- A result of the search is within the bounds, and there is one.
abbrev pub IsAnswer : Option (Result ModuleError ℕ) → Type 0
IsAnswer none = ⊥
IsAnswer (some (ok n)) = (1 ≤ n) × (n ≤ max_calibration_iterations)
IsAnswer (some (err e)) = Unit

clamp_nat_lem : (x hi : ℕ) → 1 ≤ hi → (1 ≤ clamp_nat x 1 hi) × (clamp_nat x 1 hi ≤ hi)
clamp_nat_lem x hi h = ground arith

module _ {F : Type 0} ⦃f : Float F⦄ where
  grows :
      (trustworthy elapsed : F) (iterations : ℕ)
      → iterations < max_calibration_iterations
      → iterations < next_iterations trustworthy elapsed iterations
  unfolding next_iterations
  grows trustworthy elapsed iterations h = ground arith

  bounded :
      (target elapsed : F) (iterations : ℕ)
      → (1 ≤ extrapolate target elapsed iterations)
        × (extrapolate target elapsed iterations ≤ max_calibration_iterations)
  unfolding extrapolate
  bounded target elapsed iterations =
      clamp_nat_lem
        (f.to_nat
          (f.round (f.mul (f.of_nat iterations) (f.div target (f.fmax elapsed (f.lit 1 3))))))
        max_calibration_iterations (omega arith)

  capped :
      (trustworthy elapsed : F) (iterations : ℕ)
      → next_iterations trustworthy elapsed iterations ≤ max_calibration_iterations
  unfolding next_iterations
  capped trustworthy elapsed iterations = ground arith

  calibrate_from-IsAnswer :
      (turns : ℕ → Turn F) (target trustworthy : F) (fuel n iterations : ℕ)
      → max_calibration_iterations < fuel + iterations
      → 1 ≤ iterations
      → iterations ≤ max_calibration_iterations
      → IsAnswer (calibrate_from turns target trustworthy fuel n iterations)
  unfolding calibrate_from
  calibrate_from-IsAnswer turns target trustworthy zero n iterations h l u =
      absurd (omega (arith, h))
  calibrate_from-IsAnswer turns target trustworthy (suc fuel) n iterations h l u =
      let elapsed = (turns n).probe iterations in
      let next : ℕ = next_iterations trustworthy elapsed iterations in
      elim (Bool-cases ((turns n).is_cancelled)) [
        | inl c ↦ rw c tt
        | inr c ↦ elim (Bool-cases (f.fle trustworthy elapsed)) [
          | inl t ↦ rw (c, t) (bounded target elapsed iterations)
          | inr t ↦ elim (Bool-cases (leb max_calibration_iterations iterations)) [
            | inl e ↦ rw (c, t, e) (omega arith, omega arith)
            | inr e ↦
                let below : iterations < max_calibration_iterations = ground (arith, e) in
                let more = grows trustworthy elapsed iterations below in
                rw (c, t, e)
                  (calibrate_from-IsAnswer turns target trustworthy fuel (n + 1) next
                    (omega (arith, h, more)) (omega (arith, more))
                    (capped trustworthy elapsed iterations))
          ]
        ]
      ]

  -- The search ends: 2^24 turns are enough whatever the clock says and however the machine behaves,
  -- and unless it is cancelled it answers with a count between 1 and 2^24.
  pub calibrate_with-IsAnswer :
      (fuel target_ms : ℕ) (turns : ℕ → Turn F)
      → max_calibration_iterations ≤ fuel
      → IsAnswer (calibrate_with fuel target_ms turns)
  unfolding calibrate_with
  calibrate_with-IsAnswer fuel target_ms turns h =
      calibrate_from-IsAnswer turns _ _ fuel 0 1 (omega (arith, h)) (omega arith) (omega arith)
