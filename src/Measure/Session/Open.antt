-- ===== src/Measure/Session/Open.antt =====
-- When a generator may use the ticket that a target prints.
use darcbench.Base.{
  ℕ, ◌+◌, ◌-◌, ◌*◌, ◌/◌, ◌≤◌, ◌≡◌, ◌↔◌, sym, ap, ◌∙◌, Bool, true, false, not, ◌&&◌, Option, is_some,
  String, List, is_nil, leb, string_eq, beq_refl, arith,
}
use darcbench.Base.Num.{Float}
use darcbench.Base.Result.{ok, is_ok}
use darcbench.Base.Words.{at_least}
use darcbench.Protocol.External.{
  external_protocol_version, session_overhead_ms, min_phase_ms, min_session_secs, max_session_secs,
}
use darcbench.Protocol.External.Offer.{
  SessionOffer, LoadRequest, Terms, is_rate, share_of, share, settle, check_offer, accept,
}
use darcbench.Protocol.External.Offer.Granted.{settle_lem}
use darcbench.Measure.Session.{offer_of, max_offered_rate_per_s, max_offered_workers}

le_div_iff : (k b n : ℕ) → 1 ≤ n → (k ≤ b / n) ↔ (n * k ≤ b)
le_div_iff k b n h = ((λ e. grind arith), (λ e. grind arith))

time_lem :
    (e n : ℕ)
    → 30_000 ≤ e
    → (leb min_phase_ms (at_least (e - session_overhead_ms) 1 / at_least n 1) ≡ true)
      ↔ (at_least n 1 * min_phase_ms + session_overhead_ms ≤ e)
time_lem e n h =
    let d =
      le_div_iff min_phase_ms (at_least (e - session_overhead_ms) 1) (at_least n 1)
        (ground arith) in
    ((λ x. ground (arith, d.0)), (λ x. ground (arith, d.1)))

module _ {F : Type 0} ⦃f : Float F⦄ where
  is_ok-share :
      (o : SessionOffer F) (t : Terms F)
      → is_ok (share o t) ≡ leb min_phase_ms (share_of o (at_least t.granted.phases 1))
  unfolding share
  is_ok-share o t = ground arith

  is_ok-accept :
      (o : SessionOffer F) (w : LoadRequest F)
      → check_offer o ≡ ok tt
      → is_rate w.rate_per_s ≡ true
      → is_ok (accept o w) ≡ is_ok (share o (settle o w))
  unfolding accept
  is_ok-accept o w c r = ground arith

  -- A target whose session lasts between thirty seconds and four hours offers it, and a generator that
  -- asks for a rate may then use the offer exactly when the session has a second for each phase and
  -- ten to spare; what it asks for in time and connections never matters to that. The offer must
  -- have an object, and a certificate where it is served over TLS.
  pub accept-offer_of :
      (agent session : String) (sizes : List ℕ) (tls : Bool) (cert : Option String) (ttl : ℕ)
      → min_session_secs ≤ ttl / 1000
      → ttl / 1000 ≤ max_session_secs
      → is_nil sizes ≡ false
      → (tls && not (is_some cert)) ≡ false
      → is_rate (max_offered_rate_per_s {F = F}) ≡ true
      → (w : LoadRequest F) → is_rate w.rate_per_s ≡ true
      → (o : SessionOffer F) × (offer_of agent session sizes tls cert ttl ≡ ok o)
        × ((is_ok (accept o w) ≡ true)
            ↔ (at_least w.phases 1 * min_phase_ms + session_overhead_ms ≤ ttl))
  unfolding offer_of check_offer
  accept-offer_of agent session sizes tls cert ttl lo hi n c mr w r =
      let o : SessionOffer F = record {
        protocol = external_protocol_version;
        agent_version = agent;
        session_id = session;
        object_sizes = sizes;
        tls = tls;
        certificate_der = cert;
        expires_in_ms = ttl;
        max_duration_ms = ttl;
        max_rate_per_s = max_offered_rate_per_s;
        max_workers = max_offered_workers;
      } in
      let t : 30_000 ≤ ttl = omega (arith, lo) in
      let made : offer_of agent session sizes tls cert ttl ≡ ok o = ground arith in
      let checked : check_offer o ≡ ok tt = ground (arith, beq_refl external_protocol_version) in
      let (_, _, _, _, ph, _) = settle_lem o w (ground arith) (ground arith) in
      let same : is_ok (accept o w) ≡ leb min_phase_ms (share_of o (at_least w.phases 1)) =
        is_ok-accept o w checked r
        ∙ is_ok-share o (settle o w)
        ∙ ap (λ n. leb min_phase_ms (share_of o (at_least n 1))) ph in
      let lem = time_lem ttl w.phases t in
      (o, made, ((λ e. lem.0 (sym same ∙ e)), (λ e. same ∙ lem.1 e)))
