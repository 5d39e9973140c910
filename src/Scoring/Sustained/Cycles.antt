-- ===== src/Scoring/Sustained/Cycles.antt =====
-- What makes a cycle complete.
use darcbench.Base.{
  Option, none, some, last?, In-All, ap, ◌⊎◌, ℕ, ◌≡◌, refl, sym, subst, Bool, true, ◌&&◌, String,
  List, [], ◌∷◌, any, keep, keep-In, All, All-In, In, In-map, In-any, is_nil, Bool-cases, inl, inr,
  ◌==◌, nat_eq, string_eq, list_eq, eq_of_beq, beq_refl, arith,
}
use darcbench.Base.Map.{set_insert, nat_lt, string_lt}
use darcbench.Base.Map.Entries.{has_key, has_key-set_insert, modify-All}
use darcbench.Protocol.Metrics.{ModuleResult, is_scoreable}
use darcbench.Scoring.Sustained.{
  Seen, see, see_all, seen_in, is_complete, full_cycles, complete_cycles, scoring_cycle,
}

full_cycles-In :
    (s : Seen) (c : ℕ)
    → In c (full_cycles s)
    → (ids : List String) × In (c, ids) s.by_cycle × (ids ≡ s.expected)
unfolding full_cycles
full_cycles-In s c i = elim (Bool-cases (is_nil s.expected)) [
  | inl e ↦ absurd (rw e at i)
  | inr e ↦
      let (p, k, q) =
        In-map (λ (x : ℕ × List String). x.0) (keep (is_complete s.expected) s.by_cycle) c
          (rw e at i) in
      let (l, same) = (keep-In (is_complete s.expected) s.by_cycle p).0 k in
      (p.1, subst (λ n. In (n, p.1) s.by_cycle) (sym q) l, eq_of_beq p.1 s.expected same)
]

abbrev or_zero : Option ℕ → ℕ
or_zero o = elim o [ some c ↦ c | none ↦ 0 ]

abbrev last_or : List ℕ → ℕ
last_or cs = or_zero (last? cs)

-- A list is empty, or has a last element.
last_cases : (cs : List ℕ) → (cs ≡ []) ⊎ ((c : ℕ) × In c cs × (last? cs ≡ some c))
last_cases [] = inl refl
last_cases (c ∷ []) = inr (c, inl refl, refl)
last_cases (b ∷ c ∷ cs) = elim (last_cases (c ∷ cs)) [
  | inl e ↦ absurd (cc e)
  | inr (d, i, e) ↦ inr (d, inr i, e)
]

module _ {F : Type 0} (full : List (ModuleResult F)) where
  -- some module of the run completed in the cycle under the id
  abbrev is_in : ℕ → String → ModuleResult F → Bool
  is_in c id m = is_scoreable m.status && ((m.cycle == c) && (m.id == id))

  abbrev pub completed_in : ℕ → String → Bool
  completed_in c id = any (is_in c id) full

  abbrev IsSound : ℕ × List String → Type 0
  IsSound (c, ids) = (id : String) → has_key id ids ≡ true → completed_in c id ≡ true

  completed_here :
      (m : ModuleResult F)
      → In m full
      → is_scoreable m.status ≡ true
      → completed_in m.cycle m.id ≡ true
  completed_here m i e =
      In-any (is_in m.cycle m.id) full m i (ground (arith, e, beq_refl m.cycle, beq_refl m.id))

  grown-IsSound :
      (m : ModuleResult F) (ids : List String)
      → In m full
      → is_scoreable m.status ≡ true
      → IsSound (m.cycle, ids)
      → IsSound (m.cycle, set_insert m.id ids)
  grown-IsSound m ids i e h id k = elim (Bool-cases (m.id == id)) [
    | inl q ↦
        subst (λ x. completed_in m.cycle x ≡ true) (eq_of_beq m.id id q) (completed_here m i e)
    | inr q ↦ h id (ground (arith, has_key-set_insert id m.id ids, k, q))
  ]

  see-IsSound :
      (s : Seen) (m : ModuleResult F)
      → In m full
      → All IsSound s.by_cycle
      → All IsSound (see s m).by_cycle
  unfolding see
  see-IsSound s m i h = elim (Bool-cases (is_scoreable m.status)) [
    | inl e ↦ rw e (
        modify-All IsSound m.cycle [] (set_insert m.id) s.by_cycle
          (grown-IsSound m [] i e (λ id k. absurd (ground arith)))
          (λ ids k. grown-IsSound m ids i e k) h)
    | inr e ↦ rw e h
  ]

  see_all-IsSound :
      (ms : List (ModuleResult F)) (s : Seen)
      → ((m : ModuleResult F) → In m ms → In m full)
      → All IsSound s.by_cycle
      → All IsSound (see_all s ms).by_cycle
  unfolding see_all
  see_all-IsSound [] s i h = h
  see_all-IsSound (m ∷ ms) s i h =
      see_all-IsSound ms (see s m) (λ n k. i n (inr k)) (see-IsSound s m (i m (inl refl)) h)

module _ {F : Type 0} where
  kept-see :
      (s : Seen) (m : ModuleResult F) (id : String)
      → has_key id s.expected ≡ true
      → has_key id (see s m).expected ≡ true
  unfolding see
  kept-see s m id h = elim (Bool-cases (is_scoreable m.status)) [
    | inl e ↦ rw e (ground (arith, has_key-set_insert id m.id s.expected, h))
    | inr e ↦ rw e h
  ]

  kept-see_all :
      (ms : List (ModuleResult F)) (s : Seen) (id : String)
      → has_key id s.expected ≡ true
      → has_key id (see_all s ms).expected ≡ true
  unfolding see_all
  kept-see_all [] s id h = h
  kept-see_all (m ∷ ms) s id h = kept-see_all ms (see s m) id (kept-see s m id h)

  added-see :
      (s : Seen) (m : ModuleResult F)
      → is_scoreable m.status ≡ true
      → has_key m.id (see s m).expected ≡ true
  unfolding see
  added-see s m e = rw e (ground (arith, has_key-set_insert m.id m.id s.expected, beq_refl m.id))

  expected-see_all :
      (ms : List (ModuleResult F)) (s : Seen) (m : ModuleResult F)
      → In m ms
      → is_scoreable m.status ≡ true
      → has_key m.id (see_all s ms).expected ≡ true
  unfolding see_all
  expected-see_all [] s m i e = absurd i
  expected-see_all (n ∷ ms) s m (inl q) e =
      kept-see_all ms (see s n) m.id
        (subst (λ x. has_key m.id (see s x).expected ≡ true) q (added-see s m e))
  expected-see_all (n ∷ ms) s m (inr i) e = expected-see_all ms (see s n) m i e

  completed_in_complete :
      (ms : List (ModuleResult F)) (c : ℕ) (m : ModuleResult F)
      → In c (complete_cycles ms)
      → In m ms
      → is_scoreable m.status ≡ true
      → completed_in ms c m.id ≡ true
  unfolding complete_cycles seen_in
  completed_in_complete ms c m i k e =
      let s = seen_in ms in
      let (ids, l, q) = full_cycles-In s c i in
      All-In (IsSound ms) s.by_cycle (c, ids) (see_all-IsSound ms ms _ (λ n j. j) tt) l m.id
        (subst (λ x. has_key m.id x ≡ true) (sym q) (expected-see_all ms _ m k e))

  -- Where a module of the run completed under an id, a module completed under that id in every cycle
  -- that counts as complete; the cycle that is scored is one of these, or, where there are none, it is
  -- the cycle 0, complete or not.
  pub complete_cycles_lem :
      (ms : List (ModuleResult F)) (m : ModuleResult F)
      → In m ms
      → is_scoreable m.status ≡ true
      → All (λ c. completed_in ms c m.id ≡ true) (complete_cycles ms)
        × (In (scoring_cycle ms) (complete_cycles ms)
            ⊎ ((complete_cycles ms ≡ []) × (scoring_cycle ms ≡ 0)))
  unfolding scoring_cycle
  complete_cycles_lem ms m k e = (
    In-All (λ c. completed_in ms c m.id ≡ true) (complete_cycles ms)
        (λ c i. completed_in_complete ms c m i k e),
    elim (last_cases (complete_cycles ms)) [
      | inl n ↦ inr (n, ap last_or n)
      | inr (c, i, q) ↦ inl (subst (λ x. In x (complete_cycles ms)) (sym (ap or_zero q)) i)
    ],
  )
