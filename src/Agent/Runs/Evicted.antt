-- ===== src/Agent/Runs/Evicted.antt =====
-- Which runs are dropped from memory.
use darcbench.Base.{
  ℕ, zero, suc, ◌-◌, ◌≡◌, refl, ap, sym, ◌∙◌, Bool, true, false, not, ◌&&◌, String, List, [], ◌∷◌,
  length, keep, drop, keep_yes, keep_no, if◌then◌else◌, ltb, leb, Bool-cases, inl, inr, arith,
}
use darcbench.Agent.Runs.{
  RunHandle, retain_from, evict_replayable, is_replayable, retained_runs_in_memory,
}

drop_none : {A : Type 0} (n : ℕ) (xs : List A) → n ≡ 0 → drop n xs ≡ xs
drop_none n xs e = rw e refl

drop_one : {A : Type 0} (n m : ℕ) (x : A) (xs : List A) → n ≡ suc m → drop n (x ∷ xs) ≡ drop m xs
drop_one n m x xs e = rw e refl

drop-nil : {A : Type 0} (n : ℕ) → drop {A = A} n [] ≡ []
drop-nil zero = refl
drop-nil (suc n) = refl

module _ (d : String → Bool) where
  abbrev p : RunHandle → Bool
  p = is_replayable d

  abbrev other : RunHandle → Bool
  other r = not (p r)

  retain_drop :
      (n : ℕ) (r : RunHandle) (rs : List RunHandle)
      → (ltb retained_runs_in_memory n && p r) ≡ true
      → retain_from d n (r ∷ rs) ≡ retain_from d (n - 1) rs
  unfolding retain_from
  retain_drop n r rs h = rw h refl

  retain_keep :
      (n : ℕ) (r : RunHandle) (rs : List RunHandle)
      → (ltb retained_runs_in_memory n && p r) ≡ false
      → retain_from d n (r ∷ rs) ≡ r ∷ retain_from d n rs
  unfolding retain_from
  retain_keep n r rs h = rw h refl

  keep-retain_from :
      (n : ℕ) (runs : List RunHandle)
      → keep p (retain_from d n runs) ≡ drop (n - retained_runs_in_memory) (keep p runs)
  unfolding retain_from
  keep-retain_from n [] = sym (drop-nil (n - retained_runs_in_memory))
  keep-retain_from n (r ∷ rs) = elim (Bool-cases (p r)) [
    | inl e ↦ elim (Bool-cases (ltb retained_runs_in_memory n)) [
      | inl h ↦
          ap (keep p) (retain_drop n r rs (ground arith))
          ∙ keep-retain_from (n - 1) rs
          ∙ sym (
              ap (drop (n - retained_runs_in_memory)) (keep_yes p r rs e)
              ∙ drop_one (n - retained_runs_in_memory) (n - 1 - retained_runs_in_memory) r
                  (keep p rs) (ground arith))
      | inr h ↦
          ap (keep p) (retain_keep n r rs (ground arith))
          ∙ keep_yes p r (retain_from d n rs) e
          ∙ ap (λ l. r ∷ l)
              (keep-retain_from n rs
                ∙ drop_none (n - retained_runs_in_memory) (keep p rs) (ground arith))
          ∙ sym (
              ap (drop (n - retained_runs_in_memory)) (keep_yes p r rs e)
              ∙ drop_none (n - retained_runs_in_memory) (r ∷ keep p rs) (ground arith))
    ]
    | inr e ↦
        ap (keep p) (retain_keep n r rs (ground arith))
        ∙ keep_no p r (retain_from d n rs) e
        ∙ keep-retain_from n rs
        ∙ sym (ap (drop (n - retained_runs_in_memory)) (keep_no p r rs e))
  ]

  others-retain_from :
      (n : ℕ) (runs : List RunHandle) → keep other (retain_from d n runs) ≡ keep other runs
  unfolding retain_from
  others-retain_from n [] = refl
  others-retain_from n (r ∷ rs) = elim (Bool-cases (ltb retained_runs_in_memory n && p r)) [
    | inl h ↦
        ap (keep other) (retain_drop n r rs h)
        ∙ others-retain_from (n - 1) rs
        ∙ sym (keep_no other r rs (ground arith))
    | inr h ↦
        ap (keep other) (retain_keep n r rs h)
        ∙ cons_other r (retain_from d n rs) rs (others-retain_from n rs)
  ]
    where
      cons_other :
          (q : RunHandle) (xs ys : List RunHandle)
          → keep other xs ≡ keep other ys
          → keep other (q ∷ xs) ≡ keep other (q ∷ ys)
      cons_other q xs ys e = ap (λ l. if other q then q ∷ l else l) e

  -- Of the runs in memory, no run that is in flight or has no bundle on disk is dropped, and of the
  -- others the newest eight stay, in their order.
  pub evict_replayable_lem :
      (runs : List RunHandle)
      → (keep (λ r. not (is_replayable d r)) (evict_replayable d runs)
          ≡ keep (λ r. not (is_replayable d r)) runs)
        × (keep (is_replayable d) (evict_replayable d runs)
            ≡ drop
                (length (keep (is_replayable d) runs) - retained_runs_in_memory)
                (keep (is_replayable d) runs))
  unfolding evict_replayable
  evict_replayable_lem runs =
      elim (Bool-cases (leb (length (keep p runs)) retained_runs_in_memory)) [
        | inl e ↦ rw e (
          refl,
          sym (
              drop_none (length (keep p runs) - retained_runs_in_memory) (keep p runs)
                (ground arith)),
        )
        | inr e ↦ rw e (
          others-retain_from (length (keep p runs)) runs,
          keep-retain_from (length (keep p runs)) runs,
        )
      ]
