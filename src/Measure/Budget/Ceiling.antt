-- ===== src/Measure/Budget/Ceiling.antt =====
-- Whatever the interleaving, the allowance holds.
use darcbench.Base.{
  ℕ, ◌+◌, ◌-◌, ◌%◌, ◌^◌, ◌≤◌, ◌<◌, ◌≡◌, refl, zero, suc, Bool, not, ◌&&◌, Option, none, some, List,
  [], ◌∷◌, if◌then◌else◌, leb, ◌==◌, nat_eq, Bool-cases, inl, inr, arith, eq_of_beq, and_right,
}
use darcbench.Measure.Budget.{
  Thread, Budget, Action, begin, attempt, refund, min, reserve_turn, act, act_at, cons_thread,
  head_thread, run, new, budget_of, idle_threads,
}

-- what the streams hold between them
abbrev pub held_by : List Thread → ℕ
held_by [] = 0
held_by (t ∷ ts) = t.held + held_by ts

module _ (ceiling : ℕ) (h : ceiling < 2 ^ 64) where
  -- One action of a stream, while the others hold `others`.
  abbrev Kept : ℕ → ℕ × Thread → Type 0
  Kept others (spent, t) = (spent ≡ t.held + others) × (spent ≤ ceiling)

  granted_lem :
      (bytes current held others spent : ℕ)
      → spent ≡ held + others
      → spent ≤ ceiling
      → spent ≡ current
      → ((current + min bytes (ceiling - current)) % 2 ^ 64
          ≡ held + min bytes (ceiling - current) + others)
        × ((current + min bytes (ceiling - current)) % 2 ^ 64 ≤ ceiling)
  granted_lem bytes current held others spent e l q = ground arith

  reserve_turn-Kept :
      (spurious : Bool) (r : ℕ × ℕ) (held others spent : ℕ)
      → spent ≡ held + others
      → spent ≤ ceiling
      → Kept others (reserve_turn ceiling spurious r held spent)
  unfolding reserve_turn
  reserve_turn-Kept spurious (bytes, current) held others spent e l =
      let granted : ℕ = min bytes (ceiling - current) in
      elim (Bool-cases (granted == 0)) [
        | inl z ↦ rw z (e, l)
        | inr z ↦ elim (Bool-cases (not spurious && spent == current)) [
          | inl s ↦
              rw (z, s)
                (granted_lem bytes current held others spent e l
                  (eq_of_beq spent current (and_right _ _ s)))
          | inr s ↦ rw (z, s) (e, l)
        ]
      ]

  refund_lem :
      (n held others spent : ℕ)
      → spent ≡ held + others
      → spent ≤ ceiling
      → Kept others (
          if leb n held
          then ((spent + 2 ^ 64 - n) % 2 ^ 64, record { reserving = none; held = held - n })
          else (spent, record { reserving = none; held = held }))
  refund_lem n held others spent e l = elim (Bool-cases (leb n held)) [
    | inl k ↦ rw k (ground (arith, k), ground (arith, k))
    | inr k ↦ rw k (e, l)
  ]

  act-Kept :
      (a : Action) (r : Option (ℕ × ℕ)) (held others spent : ℕ)
      → spent ≡ held + others
      → spent ≤ ceiling
      → Kept others (act ceiling a r held spent)
  unfolding act
  act-Kept (begin b) none held others spent e l = (e, l)
  act-Kept (begin b) (some r) held others spent e l = (e, l)
  act-Kept (attempt s) none held others spent e l = (e, l)
  act-Kept (attempt s) (some r) held others spent e l = reserve_turn-Kept s r held others spent e l
  act-Kept (refund n) none held others spent e l = refund_lem n held others spent e l
  act-Kept (refund n) (some r) held others spent e l = (e, l)

  -- The streams of a list that are not acting are part of what the others hold.
  abbrev KeptAll : ℕ → ℕ × List Thread → Type 0
  KeptAll others (spent, ts) = (spent ≡ held_by ts + others) × (spent ≤ ceiling)

  act_at-KeptAll :
      (i : ℕ) (a : Action) (spent others : ℕ) (ts : List Thread)
      → spent ≡ held_by ts + others
      → spent ≤ ceiling
      → KeptAll others (act_at ceiling i a spent ts)
  unfolding act_at head_thread cons_thread
  act_at-KeptAll i a spent others [] e l = (e, l)
  act_at-KeptAll zero a spent others (t ∷ ts) e l =
      let (q, k) = act-Kept a t.reserving t.held (held_by ts + others) spent (omega (arith, e)) l in
      (omega (arith, q), k)
  act_at-KeptAll (suc i) a spent others (t ∷ ts) e l =
      let (q, k) = act_at-KeptAll i a spent (t.held + others) ts (omega (arith, e)) l in
      (omega (arith, q), k)

  run-Kept :
      (steps : List (ℕ × Action)) (b : Budget)
      → KeptAll 0 (b.spent, b.threads)
      → KeptAll 0 ((run ceiling steps b).spent, (run ceiling steps b).threads)
  unfolding run budget_of
  run-Kept [] b k = k
  run-Kept ((i, a) ∷ steps) b (e, l) =
      run-Kept steps (budget_of (act_at ceiling i a b.spent b.threads))
        (act_at-KeptAll i a b.spent 0 b.threads e l)

  held_by-idle_threads : (n : ℕ) → held_by (idle_threads n) ≡ 0
  unfolding idle_threads
  held_by-idle_threads zero = refl
  held_by-idle_threads (suc n) = omega (arith, held_by-idle_threads n)

  -- However many streams share an allowance below 2^64 and however their reads, exchanges and refunds
  -- interleave, what is spent is exactly what the streams hold between them, and never more than the
  -- ceiling, not even for a moment.
  pub spent-run :
      (streams : ℕ) (steps : List (ℕ × Action))
      → ((run ceiling steps (new streams)).spent
          ≡ held_by (run ceiling steps (new streams)).threads)
        × ((run ceiling steps (new streams)).spent ≤ ceiling)
  unfolding new
  spent-run streams steps =
      let (q, l) =
        run-Kept steps (new streams) (omega (arith, held_by-idle_threads streams), omega arith) in
      (omega (arith, q), l)
