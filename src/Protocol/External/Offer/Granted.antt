-- ===== src/Protocol/External/Offer/Granted.antt =====
-- What is granted.
use darcbench.Base.{
  ℕ, ◌+◌, ◌-◌, ◌*◌, ◌/◌, ◌≤◌, ◌≡◌, refl, sym, ap, ◌∙◌, true, false, List, [], ◌∷◌, ◌++◌,
  if◌then◌else◌, ltb, nat_beq, Bool-cases, inl, inr, arith,
}
use darcbench.Base.Num.{Float, IsOrdered}
use darcbench.Base.Result.{ok}
use darcbench.Base.Words.{at_least, at_most}
use darcbench.Protocol.External.{session_overhead_ms, min_phase_ms}
use darcbench.Protocol.External.Offer.{
  SessionOffer, LoadRequest, AcceptedSession, Terms, share_of, settle, limit_rate, limit_duration,
  fill_duration, limit_workers, fill_workers, limit_phase, share, check_offer, accept, is_rate,
}

append-ne-nil : {A : Type 0} (xs : List A) (x : A) → xs ++ (x ∷ []) ≡ [] → ⊥
append-ne-nil [] x h = cc
append-ne-nil (y ∷ xs) x h = cc

div_mul_le : (b n : ℕ) → 1 ≤ n → n * (b / n) ≤ b
div_mul_le b n h = grind arith

mul_mono : (n a b : ℕ) → a ≤ b → n * a ≤ n * b
mul_mono n a b h = grind arith

-- n phases of a length that fits each one's share fit the session.
fits :
    (e n d : ℕ)
    → 1 ≤ n
    → min_phase_ms ≤ at_least (e - session_overhead_ms) 1 / n
    → d ≤ at_least (e - session_overhead_ms) 1 / n
    → n * d + session_overhead_ms ≤ e
fits e n d p least h = ground (
  arith,
  mul_mono n d (at_least (e - session_overhead_ms) 1 / n) h,
  mul_mono n min_phase_ms (at_least (e - session_overhead_ms) 1 / n) least,
  div_mul_le (at_least (e - session_overhead_ms) 1) n p,
)

module _ {F : Type 0} ⦃f : Float F⦄ (o : SessionOffer F) where
  -- What a plan keeps to on this offer.
  pub record IsGranted (w g : LoadRequest F) : Type 0 where
    pub rate : (f.fle g.rate_per_s o.max_rate_per_s ≡ true)
    pub rate_positive : is_rate g.rate_per_s ≡ true
    pub rate_asked : f.fle g.rate_per_s w.rate_per_s ≡ true
    pub duration : g.duration_ms ≤ o.max_duration_ms
    pub workers : g.workers ≤ o.max_workers
    pub workers_positive : 1 ≤ g.workers
    pub duration_positive : 1 ≤ g.duration_ms
    pub phases_asked : g.phases ≡ at_least w.phases 1
    pub in_time : g.phases * g.duration_ms + session_overhead_ms ≤ o.expires_in_ms

  pub settle_lem :
      (w : LoadRequest F)
      → nat_beq o.max_duration_ms 0 ≡ false
      → nat_beq o.max_workers 0 ≡ false
      → (1 ≤ (settle o w).granted.duration_ms)
        × ((settle o w).granted.duration_ms ≤ o.max_duration_ms)
        × (1 ≤ (settle o w).granted.workers)
        × ((settle o w).granted.workers ≤ o.max_workers)
        × ((settle o w).granted.phases ≡ w.phases)
        × ((settle o w).granted.rate_per_s
            ≡ (if f.flt o.max_rate_per_s w.rate_per_s then o.max_rate_per_s else w.rate_per_s))
  unfolding settle limit_rate limit_duration fill_duration limit_workers fill_workers
  settle_lem w d k = ground arith

  settle_silent : (w : LoadRequest F) → (settle o w).clamps ≡ [] → (settle o w).granted ≡ w
  unfolding settle limit_rate limit_duration fill_duration limit_workers fill_workers
  settle_silent w h = ground arith

  share_lem :
      (t : Terms F) (a : AcceptedSession F)
      → share o t ≡ ok a
      → (min_phase_ms ≤ share_of o (at_least t.granted.phases 1))
        × (a.granted.phases ≡ at_least t.granted.phases 1)
        × (a.granted.workers ≡ t.granted.workers)
        × (a.granted.rate_per_s ≡ t.granted.rate_per_s)
        × (a.granted.duration_ms
            ≡ at_most t.granted.duration_ms (share_of o (at_least t.granted.phases 1)))
  unfolding share limit_phase
  share_lem t a h = ground arith

  limit_phase_silent :
      (n : ℕ) (t : Terms F)
      → (limit_phase o n t).clamps ≡ []
      → (t.clamps ≡ []) × (limit_phase o n t ≡ t)
  unfolding limit_phase
  limit_phase_silent n t h = elim (Bool-cases (ltb n t.granted.duration_ms)) [
    | inl e ↦ absurd (append-ne-nil t.clamps _ (rw e at h))
    | inr e ↦ rw e (rw e at h, refl)
  ]

  share_final :
      (t : Terms F) (a : AcceptedSession F)
      → share o t ≡ ok a
      → let n = at_least t.granted.phases 1 in
        let u =
          limit_phase o (share_of o n) (record t { granted = record t.granted { phases = n } }) in
        (a.clamps ≡ u.clamps) × (a.granted ≡ u.granted)
  unfolding share
  share_final t a h = ground arith

  share_silent :
      (t : Terms F) (a : AcceptedSession F)
      → share o t ≡ ok a
      → a.clamps ≡ []
      → (t.clamps ≡ []) × (a.granted ≡ record t.granted { phases = at_least t.granted.phases 1 })
  share_silent t a h k =
      let n = at_least t.granted.phases 1 in
      let (c, g) = share_final t a h in
      let (c', e) =
        limit_phase_silent (share_of o n) (record t { granted = record t.granted { phases = n } })
          (sym c ∙ k) in
      (c', g ∙ ap (λ (u : Terms F). u.granted) e)

  accept_inv :
      (w : LoadRequest F) (a : AcceptedSession F)
      → accept o w ≡ ok a
      → (is_rate o.max_rate_per_s ≡ true)
        × (is_rate w.rate_per_s ≡ true)
        × (nat_beq o.max_duration_ms 0 ≡ false)
        × (nat_beq o.max_workers 0 ≡ false)
        × (share o (settle o w) ≡ ok a)
  unfolding accept check_offer
  accept_inv w a h = ground arith

  rate_lem :
      IsOrdered F
      → (x : F) → is_rate x ≡ true
      → is_rate o.max_rate_per_s ≡ true
      → (r : F) → r ≡ (if f.flt o.max_rate_per_s x then o.max_rate_per_s else x)
      → (f.fle r o.max_rate_per_s ≡ true) × (is_rate r ≡ true) × (f.fle r x ≡ true)
  rate_lem law x hx hm r e = ground (
    arith,
    law.flt-fle o.max_rate_per_s x,
    law.fle_refl x,
    law.fle_refl o.max_rate_per_s,
    law.fle_of_not_flt o.max_rate_per_s x,
  )

  -- A plan that the target grants keeps to every ceiling of the offer: its rate is a rate, and no
  -- more than was asked; its phases last at least a millisecond and it has at least one connection;
  -- all its phases together, with ten seconds to spare, fit what is left of the session; and when
  -- no note was taken, the plan is the one that was asked for, with at least one phase.
  pub accept-IsGranted :
      IsOrdered F
      → (w : LoadRequest F) (a : AcceptedSession F) → accept o w ≡ ok a
      → IsGranted w a.granted
        × (a.clamps ≡ [] → a.granted ≡ record w { phases = at_least w.phases 1 })
  accept-IsGranted law w a h =
      let (om, wm, d, k, sh) = accept_inv w a h in
      let (d1, d2, w1, w2, ph, r) = settle_lem w d k in
      let (least, gp, gw, gr, gd) = share_lem (settle o w) a sh in
      let (r1, r2, r3) = rate_lem law w.rate_per_s wm om a.granted.rate_per_s (gr ∙ r) in
      (
        record {
          rate = r1;
          rate_positive = r2;
          rate_asked = r3;
          duration = ground arith;
          workers = ground arith;
          workers_positive = ground arith;
          duration_positive = ground arith;
          phases_asked = ground arith;
          in_time =
              fits o.expires_in_ms a.granted.phases a.granted.duration_ms (ground arith)
                (ground arith) (ground arith);
        },
        λ c. let (c', g) = share_silent (settle o w) a sh c in rw (settle_silent w c') at g,
      )
