-- ===== src/Measure/Session.antt =====
-- crates/darcbench-modules/src/external_session.rs: the machine that is measured, from the offer in its
-- ticket to the verdict on the report that is posted to it. The control thread, the origin and the
-- thread that waits act in any order. The JSON and hex codecs, the origin's counters and the clock are
-- outside: what they say is an argument or an event.
use darcbench.Base.{
  ℕ, ◌+◌, ◌/◌, ◌%◌, ◌^◌, ◌*◌, Bool, true, false, not, ◌&&◌, ◌||◌, Option, none, some, String, List,
  [], ◌∷◌, if◌then◌else◌, ltb, leb, ◌==◌, string_eq,
}
use darcbench.Base.Num.{Float}
use darcbench.Base.Result.{Result, ok, err}
use darcbench.Base.Words.{u64_max, at_most}
use darcbench.Protocol.External.{external_protocol_version, min_session_secs, max_session_secs}
use darcbench.Protocol.External.Token.{SessionToken, matches}
use darcbench.Protocol.External.Offer.{SessionOffer, Refusal}
use darcbench.Protocol.External.Report.{SessionReport, ReportRejected, reconcile}
pub mod Verdict
pub mod Open

pub data SessionError (F : Type 0) : Type 0 where
  ticket : String → SessionError F
  origin : String → SessionError F
  control : String → SessionError F
  session_length : ℕ → SessionError F
  refused : Refusal F → SessionError F
  rejected : ReportRejected → SessionError F
  transport : String → SessionError F
  expired : SessionError F

pub record SessionResult (F : Type 0) : Type 0 where
  pub report : SessionReport F
  pub served : ℕ
  pub refused : ℕ

pub record ControlRequest : Type 0 where
  pub post : Bool
  pub path : String
  pub token : Option SessionToken
  pub body : List ℕ

-- A `Mutex<Option<SessionReport>>`.
pub data Inbox (F : Type 0) : Type 0 where
  poisoned : Inbox F
  holding : Option (SessionReport F) → Inbox F

abbrev pub max_offered_workers : ℕ
max_offered_workers = 256

module _ {F : Type 0} ⦃f : Float F⦄ where
  abbrev pub max_offered_rate_per_s : F
  max_offered_rate_per_s = f.lit 5_000_000 0

  -- What `start` puts into its ticket, once it has a token, a session id and an origin.
  unfoldable pub offer_of :
      String → String → List ℕ → Bool → Option String → ℕ → Result (SessionError F) (SessionOffer F)
  offer_of agent_version session_id object_sizes tls certificate_der ttl_ms =
      let seconds = ttl_ms / 1000 in
      if ltb seconds min_session_secs || ltb max_session_secs seconds
      then err (session_length seconds)
      else ok (record {
        protocol = external_protocol_version;
        agent_version = agent_version;
        session_id = session_id;
        object_sizes = object_sizes;
        tls = tls;
        certificate_der = certificate_der;
        expires_in_ms = at_most ttl_ms u64_max;
        max_duration_ms = at_most ttl_ms u64_max;
        max_rate_per_s = max_offered_rate_per_s;
        max_workers = max_offered_workers;
      })

module _ {F : Type 0} (parse : List ℕ → Result String (SessionReport F))
    (json_error : String → String) where
  -- `request.token.as_ref().is_some_and(...)`
  unfoldable pub is_authorised : SessionToken → ControlRequest → Bool
  is_authorised token r = elim (r.token) [ none ↦ false | some presented ↦ matches token presented ]

  -- The end of the handler, under the lock: the status, the body and what the inbox holds then.
  unfoldable pub deliver : SessionReport F → Inbox F → (String × String) × Inbox F
  deliver report poisoned =
      (("500 Internal Server Error", json_error "session state lost"), poisoned)
  deliver report (holding (some r)) =
      (("409 Conflict", json_error "this session already has a report"), holding (some r))
  deliver report (holding none) = (("202 Accepted", "{\"accepted\":true}"), holding (some report))

  unfoldable pub post : Result String (SessionReport F) → Inbox F → (String × String) × Inbox F
  unfolding deliver
  post (err e) inbox = (("400 Bad Request", json_error e), inbox)
  post (ok report) inbox = deliver report inbox

  unfoldable pub handle_control_request :
      ControlRequest → SessionToken → Inbox F → (String × String) × Inbox F
  unfolding is_authorised post
  handle_control_request r token inbox =
      if not (is_authorised token r)
      then (("401 Unauthorized", json_error "unauthorized"), inbox)
      else if not r.post || not (r.path == "/report")
      then (("404 Not Found", json_error "no such endpoint"), inbox)
      else post (parse r.body) inbox

  -- The threads of a session: the inbox that two of them share, the origin's counters, the clock, what
  -- `wait` has in hand, and what it has returned.
  pub record Target : Type 0 where
    pub inbox : Inbox F
    pub served : ℕ
    pub refused : ℕ
    pub now : ℕ
    pub hand : Option (SessionReport F)
    pub outcome : Option (Result (SessionError F) (SessionResult F))

  abbrev pub started : Target
  started = record {
    inbox = holding none;
    served = 0;
    refused = 0;
    now = 0;
    hand = none;
    outcome = none;
  }

  pub data Event : Type 0 where
    request : ControlRequest → Event
    serve : Event
    refuse : Event
    pass : ℕ → Event
    turn : Event

  -- `take_report`: what is taken, and what the inbox holds then.
  unfoldable pub take_report : Inbox F → Option (SessionReport F) × Inbox F
  take_report poisoned = (none, poisoned)
  take_report (holding o) = (o, holding none)

  module _ (session : String) (token : SessionToken) (deadline : ℕ) where
    -- `report.reconcile(..)?` and what follows it
    unfoldable pub judge : SessionReport F → ℕ → ℕ → Result (SessionError F) (SessionResult F)
    judge r answered strangers = elim (reconcile r session answered) [
      | ok _ ↦ ok (record { report = r; served = answered; refused = strangers })
      | err e ↦ err (rejected e)
    ]

    -- The first half of a turn of `wait`: take a report, or look at the clock.
    unfoldable pub look : Option (SessionReport F) × Inbox F → Target → Target
    look (some r, inbox) t = record t { inbox = inbox; hand = some r }
    look (none, inbox) t = record t {
      inbox = inbox;
      outcome = if leb deadline t.now then some (err expired) else none;
    }

    -- A turn of the loop of `wait`, in two steps: with a report in hand, the verdict.
    unfoldable pub wait_turn : Option (SessionReport F) → Target → Target
    unfolding judge look take_report
    wait_turn (some r) t = record t { hand = none; outcome = some (judge r t.served t.refused) }
    wait_turn none t = look (take_report t.inbox) t

    unfoldable pub act : Event → Target → Target
    unfolding wait_turn handle_control_request
    act (request r) t = record t { inbox = (handle_control_request r token t.inbox).1 }
    act serve t = record t { served = (t.served + 1) % 2 ^ 64 }
    act refuse t = record t { refused = (t.refused + 1) % 2 ^ 64 }
    act (pass n) t = record t { now = t.now + n }
    act turn t = elim (t.outcome) [ some _ ↦ t | none ↦ wait_turn t.hand t ]

    unfoldable pub run : List Event → Target → Target
    unfolding act
    run [] t = t
    run (e ∷ es) t = run es (act e t)
