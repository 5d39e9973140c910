-- ===== src/Protocol/External/Offer.antt =====
-- crates/darcbench-protocol/src/external.rs: what the target offers, and what the generator may make of
-- it. A message is kept as what it says, before it is formatted.
use darcbench.Base.{
  ℕ, ◌+◌, ◌-◌, ◌/◌, Bool, not, ◌&&◌, ◌||◌, Option, none, some, is_some, String, List, [], ◌∷◌, ◌++◌,
  is_nil, if◌then◌else◌, ltb, nat_beq, ◌==◌, string_eq,
}
use darcbench.Base.Num.{Float, zero_f}
use darcbench.Base.Result.{Result, ok, err, check, ◌>>=◌, ◌>>◌}
use darcbench.Base.Words.{at_least}
use darcbench.Protocol.External.{external_protocol_version, session_overhead_ms, min_phase_ms}
pub mod Granted

pub record SessionOffer (F : Type 0) : Type 0 where
  pub protocol : String
  pub agent_version : String
  pub session_id : String
  pub object_sizes : List ℕ
  pub tls : Bool
  pub certificate_der : Option String
  pub expires_in_ms : ℕ
  pub max_duration_ms : ℕ
  pub max_rate_per_s : F
  pub max_workers : ℕ

pub data Detail (F : Type 0) : Type 0 where
  text : String → Detail F
  max_rate : F → Detail F
  max_duration_and_workers : ℕ → ℕ → Detail F
  not_a_rate : F → Detail F

pub data Refusal (F : Type 0) : Type 0 where
  not_a_target : Detail F → Refusal F
  unsupported_protocol : String → String → Refusal F
  expired : Refusal F
  session_too_short : ℕ → ℕ → ℕ → Refusal F
  nothing_served : Refusal F
  unpinnable_certificate : Refusal F
  implausible_offer : Detail F → Refusal F
  implausible_request : Detail F → Refusal F

pub record LoadRequest (F : Type 0) : Type 0 where
  pub rate_per_s : F
  pub duration_ms : ℕ
  pub workers : ℕ
  pub phases : ℕ

-- A note on a ceiling that bound.
pub data Clamp (F : Type 0) : Type 0 where
  rate : F → F → Clamp F
  duration : ℕ → ℕ → Clamp F
  zero_length_phase : Clamp F
  connections : ℕ → ℕ → Clamp F
  zero_connections : Clamp F
  session_left : ℕ → ℕ → ℕ → ℕ → Clamp F

pub record AcceptedSession (F : Type 0) : Type 0 where
  pub session_id : String
  pub object_sizes : List ℕ
  pub tls : Bool
  pub certificate_der : Option String
  pub granted : LoadRequest F
  pub clamps : List (Clamp F)

-- The two variables that the body of `accept` changes.
pub record Terms (F : Type 0) : Type 0 where
  pub clamps : List (Clamp F)
  pub granted : LoadRequest F

abbrev pub is_rate : {F : Type 0} ⦃f : Float F⦄ → F → Bool
is_rate ⦃f⦄ r = f.is_finite r && not (f.fle r zero_f)

module _ {F : Type 0} ⦃f : Float F⦄ (o : SessionOffer F) where
  unfoldable pub limit_rate : Terms F → Terms F
  limit_rate t =
      if f.flt o.max_rate_per_s t.granted.rate_per_s
      then record {
        clamps = t.clamps ++ (rate t.granted.rate_per_s o.max_rate_per_s ∷ []);
        granted = record t.granted { rate_per_s = o.max_rate_per_s };
      }
      else t

  unfoldable pub limit_duration : Terms F → Terms F
  limit_duration t =
      if ltb o.max_duration_ms t.granted.duration_ms
      then record {
        clamps = t.clamps ++ (duration t.granted.duration_ms o.max_duration_ms ∷ []);
        granted = record t.granted { duration_ms = o.max_duration_ms };
      }
      else t

  unfoldable pub fill_duration : Terms F → Terms F
  fill_duration t =
      if nat_beq t.granted.duration_ms 0
      then record {
        clamps = t.clamps ++ (zero_length_phase ∷ []);
        granted = record t.granted { duration_ms = o.max_duration_ms };
      }
      else t

  unfoldable pub limit_workers : Terms F → Terms F
  limit_workers t =
      if ltb o.max_workers t.granted.workers
      then record {
        clamps = t.clamps ++ (connections t.granted.workers o.max_workers ∷ []);
        granted = record t.granted { workers = o.max_workers };
      }
      else t

  unfoldable pub fill_workers : Terms F → Terms F
  fill_workers t =
      if nat_beq t.granted.workers 0
      then record {
        clamps = t.clamps ++ (zero_connections ∷ []);
        granted = record t.granted { workers = 1 };
      }
      else t

  -- what is left of the session for each phase
  abbrev pub share_of : ℕ → ℕ
  share_of phases = at_least (o.expires_in_ms - session_overhead_ms) 1 / phases

  unfoldable pub limit_phase : ℕ → Terms F → Terms F
  limit_phase per_phase t =
      if ltb per_phase t.granted.duration_ms
      then record {
        clamps =
            t.clamps
            ++ (session_left o.expires_in_ms t.granted.phases per_phase t.granted.duration_ms ∷ []);
        granted = record t.granted { duration_ms = per_phase };
      }
      else t

  unfoldable pub settle : LoadRequest F → Terms F
  unfolding limit_rate limit_duration fill_duration limit_workers fill_workers
  settle wanted = fill_workers (
      limit_workers
        (fill_duration (limit_duration (limit_rate (record { clamps = []; granted = wanted })))))

  -- from `granted.phases.max(1)` on
  unfoldable pub share : Terms F → Result (Refusal F) (AcceptedSession F)
  unfolding limit_phase
  share t =
      let phases = at_least t.granted.phases 1 in
      let per_phase = share_of phases in
      let final =
        limit_phase per_phase (record t { granted = record t.granted { phases = phases } }) in
      if ltb per_phase min_phase_ms
      then err (session_too_short o.expires_in_ms phases per_phase)
      else ok (record {
        session_id = o.session_id;
        object_sizes = o.object_sizes;
        tls = o.tls;
        certificate_der = o.certificate_der;
        granted = final.granted;
        clamps = final.clamps;
      })

  -- the refusals before the plan is looked at, in their order
  unfoldable pub check_offer : Result (Refusal F) (Unit {0})
  check_offer =
      check (o.protocol == external_protocol_version)
        (unsupported_protocol o.protocol external_protocol_version)
      >> check (not (nat_beq o.expires_in_ms 0)) expired
      >> check (not (is_nil o.object_sizes)) nothing_served
      >> check (not (o.tls && not (is_some o.certificate_der))) unpinnable_certificate
      >> check (is_rate o.max_rate_per_s) (implausible_offer (max_rate o.max_rate_per_s))
      >> check (not (nat_beq o.max_duration_ms 0 || nat_beq o.max_workers 0))
          (implausible_offer (max_duration_and_workers o.max_duration_ms o.max_workers))

  unfoldable pub accept : LoadRequest F → Result (Refusal F) (AcceptedSession F)
  unfolding check_offer settle share
  accept wanted = do
    check_offer
    check (is_rate wanted.rate_per_s) (implausible_request (not_a_rate wanted.rate_per_s))
    share (settle wanted)
