-- ===== src/Agent/Runs/Cycles.antt =====
-- crates/darcbench-agent/src/runner.rs: the loop of `execute` that repeats the modules of a run. What a
-- look after the n-th cycle shows, whether the run is cancelled and how many nanoseconds have
-- passed, is an argument.
use darcbench.Base.{
  ℕ, zero, suc, ◌+◌, ◌*◌, ◌/◌, ◌%◌, ◌^◌, ◌≤◌, ◌<◌, ◌≡◌, refl, ap, sym, subst, ◌∙◌, ◌⊎◌, Bool, true,
  false, not, ◌&&◌, ◌||◌, Option, none, some, List, [], ◌∷◌, All, if◌then◌else◌, ltb, Bool-cases,
  inl, inr, arith,
}
use darcbench.Agent.Preflight.Estimates.{min_endurance_cycles}
use darcbench.Measure.Repeat.Outcome.{count_from}

pub record Look : Type 0 where
  pub is_cancelled : Bool
  pub elapsed : ℕ

module _ (target : Option ℕ) (looks : ℕ → Look) where
  -- whether one of the three `break`s is reached after the cycle
  unfoldable pub is_last : ℕ → Bool
  is_last cycle = elim target [
    | none ↦ true
    | some t ↦
        (looks cycle).is_cancelled
        || (not (ltb cycle min_endurance_cycles)
            && ltb t ((looks cycle).elapsed + (looks cycle).elapsed / cycle))
  ]

  -- The number of cycles that are run; `none` is the end of the fuel.
  unfoldable pub cycles_from : ℕ → ℕ → Option ℕ
  unfolding is_last
  cycles_from zero cycle = none
  cycles_from (suc fuel) cycle =
      let next = (cycle + 1) % 2 ^ 32 in
      let rest = cycles_from fuel next in if is_last next then some next else rest

  next_cycle : (c : ℕ) → c + 1 < 2 ^ 32 → (c + 1) % 2 ^ 32 ≡ c + 1
  next_cycle c w = omega (arith, w)

  step_last :
      (fuel c : ℕ)
      → c + 1 < 2 ^ 32
      → is_last (c + 1) ≡ true
      → cycles_from (suc fuel) c ≡ some (c + 1)
  unfolding cycles_from
  step_last fuel c w y = rw (next_cycle c w, y) refl

  step_more :
      (fuel c : ℕ)
      → c + 1 < 2 ^ 32
      → is_last (c + 1) ≡ false
      → cycles_from (suc fuel) c ≡ cycles_from fuel (c + 1)
  unfolding cycles_from
  step_more fuel c w n = rw (next_cycle c w, n) refl

  -- The loop from a number of cycles on, with a later one that would be the last.
  first_last :
      (fuel c bound : ℕ)
      → bound ≤ c + fuel
      → c < bound
      → bound < 2 ^ 32
      → is_last bound ≡ true
      → (n d : ℕ) × (n ≡ c + 1 + d)
        × (cycles_from fuel c ≡ some n)
        × (is_last n ≡ true)
        × All (λ k. is_last k ≡ false) (count_from (c + 1) d)
        × (n ≤ bound)
  first_last zero c bound h l w e = absurd (omega arith)
  first_last (suc fuel) c bound h l w e = elim (Bool-cases (is_last (c + 1))) [
    | inl y ↦
        (c + 1, 0, omega arith, step_last fuel c (omega (arith, l, w)) y, y, tt, omega (arith, l))
    | inr x ↦
        let below : c + 1 < bound = other c bound l x e in
        let (n, d, q, r, y, a, b) = first_last fuel (c + 1) bound (omega (arith, h)) below w e in
        (
          n,
          suc d,
          omega (arith, q),
          step_more fuel c (omega (arith, l, w)) x ∙ r,
          y,
          (x, subst (λ k. All (λ j. is_last j ≡ false) (count_from k d)) (sym (suc_lem (c + 1))) a),
          b,
        )
  ]
    where
      suc_lem : (k : ℕ) → suc k ≡ k + 1
      suc_lem k = omega arith

      other : (k b : ℕ) → k < b → is_last (k + 1) ≡ false → is_last b ≡ true → k + 1 < b
      other k b p f t = elim (Bool-cases (ltb (k + 1) b)) [
        | inl y ↦ ground (arith, y)
        | inr y ↦ absurd (clash (k + 1) b (ground (arith, p, y)) f t)
      ]
        where
          clash : (i j : ℕ) → i ≡ j → is_last i ≡ false → is_last j ≡ true → ⊥
          clash i j q f t = cc (ap is_last q)

-- After the cycle there is room for another one.
abbrev pub HasRoom : ℕ → (ℕ → Look) → ℕ → Type 0
HasRoom t looks k =
    ((looks k).is_cancelled ≡ false)
    × ((k < min_endurance_cycles) ⊎ ((looks k).elapsed + (looks k).elapsed / k ≤ t))

-- The run is over after the cycle: cancelled, or the second one at least and no room for another.
abbrev pub IsOver : ℕ → (ℕ → Look) → ℕ → Type 0
IsOver t looks k =
    ((looks k).is_cancelled ≡ true)
    ⊎ ((min_endurance_cycles ≤ k) × (t < (looks k).elapsed + (looks k).elapsed / k))

module _ (t : ℕ) (looks : ℕ → Look) where
  room : (k : ℕ) → is_last (some t) looks k ≡ false → HasRoom t looks k
  unfolding is_last
  room k h = (
    ground arith,
    elim (Bool-cases (ltb k min_endurance_cycles)) [
      | inl y ↦ inl (ground (arith, y))
      | inr n ↦ inr (ground arith)
    ],
  )

  over : (k : ℕ) → is_last (some t) looks k ≡ true → IsOver t looks k
  unfolding is_last
  over k h = elim (Bool-cases (looks k).is_cancelled) [
    | inl y ↦ inl y
    | inr n ↦ inr (ground arith, ground arith)
  ]

  rooms : (l : List ℕ) → All (λ k. is_last (some t) looks k ≡ false) l → All (HasRoom t looks) l
  rooms [] h = tt
  rooms (k ∷ l) (h, hs) = (room k h, rooms l hs)

  last_bound : (n : ℕ) → 2 ≤ n → t < (looks n).elapsed → is_last (some t) looks n ≡ true
  unfolding is_last
  last_bound n h l = ground arith

  -- A run with a target, whose cycles take a millisecond or more each on average, ends. After every
  -- cycle but the last it was not cancelled, and either it had run one cycle only or the average
  -- of its cycles still fitted the target; after the last it was cancelled, or it had run two
  -- cycles at least and another would have overrun. It runs two cycles more at most than the
  -- target has milliseconds.
  pub cycles_from_lem :
      ((n : ℕ) → n * 1_000_000 ≤ (looks n).elapsed)
      → t / 1_000_000 + 2 < 2 ^ 32
      → (n d : ℕ) × (n ≡ 1 + d)
        × (cycles_from (some t) looks (t / 1_000_000 + 2) 0 ≡ some n)
        × IsOver t looks n
        × All (HasRoom t looks) (count_from 1 d)
        × (n ≤ t / 1_000_000 + 2)
  cycles_from_lem slow w =
      let b = t / 1_000_000 + 2 in
      let e : is_last (some t) looks b ≡ true =
        last_bound b (omega arith) (omega (arith, slow b)) in
      let (n, d, q, r, y, a, m) = first_last (some t) looks b 0 b (omega arith) (omega arith) w e in
      (n, d, omega (arith, q), r, over n y, rooms (count_from 1 d) a, m)
