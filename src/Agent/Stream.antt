-- ===== src/Agent/Stream.antt =====
-- crates/darcbench-agent/src/runner.rs: the event stream of a run, with its complete record and the
-- bounded buffer that a client which reconnects is served from. An event is any payload; the record is
-- kept as envelopes here, where the source keeps their two encodings.
use darcbench.Base.{
  ℕ, suc, ◌+◌, ◌-◌, ◌%◌, ◌^◌, Bool, true, false, ◌&&◌, Option, none, some, List, [], ◌∷◌, ◌++◌,
  length, drop, if◌then◌else◌, ltb, leb,
}
pub mod Numbered
pub mod Resume

abbrev pub replay_buffer : ℕ
replay_buffer = 4096

pub record Envelope (E : Type 0) : Type 0 where
  pub seq : ℕ
  pub mono_ms : ℕ
  pub event : E

-- The fields of `RunHandle` that the stream uses.
pub record Stream (E : Type 0) : Type 0 where
  pub seq : ℕ
  pub events : List (Envelope E)
  pub truncated : Bool
  pub log : List (Envelope E)

unfoldable pub new : {E : Type 0} → Stream E
new = record { seq = 0; events = []; truncated = false; log = [] }

-- `slice::partition_point` on a buffer that is ordered by the test, and `skip`.
unfoldable pub skip_seen : {E : Type 0} → ℕ → List (Envelope E) → List (Envelope E)
skip_seen after [] = []
skip_seen after (e ∷ es) = let rest = skip_seen after es in if leb e.seq after then rest else e ∷ es

-- `u64::saturating_add(1)`
abbrev pub succ_saturating : ℕ → ℕ
succ_saturating n = if ltb n (2 ^ 64 - 1) then n + 1 else 2 ^ 64 - 1

module _ {E : Type 0} where
  -- all of it under the lock of the buffer
  unfoldable pub emit : ℕ → E → Stream E → Stream E
  emit now event s =
      let envelope : Envelope E = record { seq = s.seq; mono_ms = now; event = event } in
      let full = leb replay_buffer (length s.events) in
      record {
        seq = (s.seq + 1) % 2 ^ 64;
        events = (if full then drop 1 s.events else s.events) ++ (envelope ∷ []);
        truncated = if full then true else s.truncated;
        log = s.log ++ (envelope ∷ []);
      }

  first_after : ℕ → List (Envelope E) → Bool
  first_after needed [] = false
  first_after needed (e ∷ _) = ltb needed e.seq

  unfoldable pub events_since : Option ℕ → Stream E → Option (List (Envelope E))
  unfolding first_after
  events_since none s = some s.events
  events_since (some after) s =
      if s.truncated && first_after (succ_saturating after) s.events
      then none
      else some (skip_seen after s.events)

  unfoldable pub last_seq : Stream E → ℕ
  last_seq s = s.seq - 1

  -- the events of a run, with the times at which they are emitted
  unfoldable pub emit_all : List (ℕ × E) → Stream E → Stream E
  emit_all [] s = s
  emit_all ((now, e) ∷ es) s = emit_all es (emit now e s)
