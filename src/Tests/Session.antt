-- ===== src/Tests/Session.antt =====
-- A session between two machines, at concrete runs.
use darcbench.Base.{
  ℕ, ◌+◌, ◌*◌, ◌≤◌, ◌≡◌, refl, ◌↔◌, true, false, some, none, is_some, is_nil, String, List, [], ◌∷◌,
  arith,
}
use darcbench.Base.Num.Fixed.{Fixed, fixed, fixed_float, Fixed-IsOrdered}
use darcbench.Base.Result.{Result, ok, err, is_ok}
use darcbench.Base.Words.{at_least}
use darcbench.Protocol.External.{
  external_protocol_version, reconcile_slack_requests, min_phase_ms, session_overhead_ms,
}
use darcbench.Protocol.External.Token.{SessionToken, to_hex, token_from_str, matches}
use darcbench.Protocol.External.Token.Matches.{IsHex, IsToken, matches-token_from_str}
use darcbench.Protocol.External.Offer.{
  SessionOffer, LoadRequest, AcceptedSession, connections, accept,
}
use darcbench.Protocol.External.Offer.Granted.{IsGranted, accept-IsGranted}
use darcbench.Protocol.External.Report.{LatencySummary, ShapeReport, SessionReport, reconcile}
use darcbench.Protocol.External.Report.Reconcile.{reconcile_iff, sum_over, answered, attempted}
use darcbench.Measure.Session.{
  SessionResult, ControlRequest, Event, is_authorised, handle_control_request, request, serve, turn,
  pass, offer_of, act, run, started,
}
use darcbench.Measure.Session.Verdict.{first_brought, outcome-run, is_some-run}
use darcbench.Measure.Session.Open.{accept-offer_of}
use darcbench.Tests.Toy.{unary, read, read-unary, zeros}

abbrev token : SessionToken
token = record { bytes = zeros 32 }

token-IsToken : IsToken token
token-IsToken = (refl, omega arith)

toy_hex : IsHex unary (λ s. read s 0) (λ s. s)
toy_hex = record { decode-encode = λ bs _. read-unary bs; trim-encode = λ bs _. refl }

matches-token_from_str_example :
    (r : SessionToken) × (token_from_str unary
        (λ s. read s 0)
        (λ s. s)
        (to_hex unary (λ s. read s 0) (λ s. s) token)
      ≡ ok r)
    × ((matches token r ≡ true) ↔ (token ≡ token))
matches-token_from_str_example =
    matches-token_from_str unary (λ s. read s 0) (λ s. s) toy_hex token token token-IsToken
      token-IsToken

abbrev offer : SessionOffer Fixed
offer = record {
  protocol = external_protocol_version;
  agent_version = "0.1.0";
  session_id = "s-1";
  object_sizes = 1024 ∷ [];
  tls = false;
  certificate_der = none;
  expires_in_ms = 600_000;
  max_duration_ms = 60_000;
  max_rate_per_s = fixed 5_000_000_000;
  max_workers = 64;
}

abbrev wanted : LoadRequest Fixed
wanted = record { rate_per_s = fixed 1_000_000; duration_ms = 10_000; workers = 100; phases = 0 }

abbrev accepted : AcceptedSession Fixed
accepted = record {
  session_id = "s-1";
  object_sizes = 1024 ∷ [];
  tls = false;
  certificate_der = none;
  granted = record { rate_per_s = fixed 1_000_000; duration_ms = 10_000; workers = 64; phases = 1 };
  clamps = connections 100 64 ∷ [];
}

accept-IsGranted_example :
    IsGranted offer wanted accepted.granted
    × (accepted.clamps ≡ []
        → accepted.granted ≡ record wanted { phases = at_least wanted.phases 1 })
unfolding accept
accept-IsGranted_example = accept-IsGranted offer Fixed-IsOrdered wanted accepted refl

abbrev no_latency : LatencySummary Fixed
no_latency = record {
  count = 0;
  mean_ms = fixed 0;
  p50_ms = fixed 0;
  p90_ms = fixed 0;
  p99_ms = fixed 0;
  max_ms = fixed 0;
}

abbrev shape : ShapeReport Fixed
shape = record {
  shape = "small.keepalive";
  object_bytes = 1024;
  requests_scheduled = 3;
  requests_completed = 2;
  requests_failed = 1;
  requests_warmup = 1;
  error_examples = [];
  bytes = 2048;
  offered_rate_per_s = fixed 1_000_000;
  achieved_rate_per_s = fixed 1_000_000;
  service_ms = no_latency;
  response_ms = no_latency;
  saturation = none;
  generator_cpu_pct = fixed 0;
}

abbrev report : SessionReport Fixed
report = record {
  protocol = external_protocol_version;
  session_id = "s-1";
  generator = record { agent_version = "0.1.0"; os = "linux"; arch = "x86_64"; cpus = 4 };
  shapes = shape ∷ [];
  clamps = [];
}

reconcile_iff_example : (reconcile report "s-1" 3 ≡ ok tt) ↔ (
    (report.protocol ≡ external_protocol_version)
    × (report.session_id ≡ "s-1")
    × (is_nil report.shapes ≡ false)
    × (sum_over answered report.shapes ≤ 3)
    × (3 ≤ sum_over attempted report.shapes + reconcile_slack_requests))
reconcile_iff_example = reconcile_iff report "s-1" 3 (omega arith)

-- The body of a request is a report when it is not empty.
abbrev parse : List ℕ → Result String (SessionReport Fixed)
parse [] = err "empty"
parse (_ ∷ _) = ok report

abbrev json_error : String → String
json_error s = s

abbrev posted : ControlRequest
posted = record { post = true; path = "/report"; token = some token; body = 1 ∷ [] }

abbrev stranger : ControlRequest
stranger = record { post = true; path = "/report"; token = none; body = 1 ∷ [] }

abbrev history : List (Event parse json_error)
history = serve ∷ request stranger ∷ turn ∷ serve ∷ serve ∷ request posted ∷ turn ∷ turn ∷ []

abbrev ended : SessionResult Fixed
ended = record { report = report; served = 3; refused = 0 }

outcome-run_example :
    (first_brought parse json_error "s-1" token 60_000 history ≡ some report)
    × (reconcile report "s-1" 3 ≡ ok tt)
unfolding run is_authorised handle_control_request reconcile matches
outcome-run_example = outcome-run parse json_error "s-1" token 60_000 history ended refl

is_some-run_example :
    is_some
      (act parse json_error "s-1" token 60_000 turn (
        run parse json_error "s-1" token 60_000 (turn ∷ serve ∷ []) (
          run parse json_error "s-1" token 60_000
            (pass 70_000 ∷ [])
            (started parse json_error)))).outcome
    ≡ true
unfolding run
is_some-run_example =
    is_some-run parse json_error "s-1" token 60_000 (pass 70_000 ∷ []) (serve ∷ []) (omega arith)

accept-offer_of_example :
    (o : SessionOffer Fixed) × (offer_of "0.1.0" "s-1" (1024 ∷ []) false none 60_000 ≡ ok o)
    × ((is_ok (accept o wanted) ≡ true)
        ↔ (at_least wanted.phases 1 * min_phase_ms + session_overhead_ms ≤ 60_000))
accept-offer_of_example =
    accept-offer_of "0.1.0" "s-1" (1024 ∷ []) false none 60_000 (omega arith) (omega arith) refl
      refl refl wanted refl
