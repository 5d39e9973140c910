-- ===== src/Protocol/External/Report/Reconcile.antt =====
-- When a report reconciles.
use darcbench.Base.{
  ℕ, ◌+◌, ◌-◌, ◌≤◌, ◌<◌, ◌≡◌, ◌↔◌, ◌∙◌, Bool, true, false, not, String, List, [], ◌∷◌, is_nil,
  if◌then◌else◌, ap, ltb, ◌==◌, string_eq, eq_of_beq, beq_of_eq, arith,
}
use darcbench.Base.Result.{ok, check, ◌>>◌}
use darcbench.Base.Words.{u64_max, saturating_add}
use darcbench.Protocol.External.{external_protocol_version, reconcile_slack_requests}
use darcbench.Protocol.External.Report.{
  ShapeReport, SessionReport, ReportRejected, successful_from, claimed_from, successful_requests,
  claimed_requests, reconcile,
}

-- a sum that stopped at the bound
abbrev pub capped : ℕ → ℕ
capped n = if ltb u64_max n then u64_max else n

saturating_add-capped : (n a : ℕ) → saturating_add (capped n) a ≡ capped (n + a)
saturating_add-capped n a = ground arith

capped_eq : (n m : ℕ) → n ≡ m → capped n ≡ capped m
capped_eq n m e = ap capped e

five_checks :
    (a b c d e : Bool) (ea eb ec ed ee : ReportRejected)
    → ((check a ea >> check b eb >> check c ec >> check d ed >> check e ee) ≡ ok tt)
      ↔ ((a ≡ true) × (b ≡ true) × (c ≡ true) × (d ≡ true) × (e ≡ true))
five_checks a b c d e ea eb ec ed ee = ground arith

add_two : (n a b : ℕ) → saturating_add (saturating_add (capped n) a) b ≡ capped (n + (a + b))
add_two n a b =
    ap (λ t. saturating_add t b) (saturating_add-capped n a)
    ∙ saturating_add-capped (n + a) b
    ∙ capped_eq (n + a + b) (n + (a + b)) (omega arith)

module _ {F : Type 0} where
  abbrev pub sum_over : (ShapeReport F → ℕ) → List (ShapeReport F) → ℕ
  sum_over g [] = 0
  sum_over g (s ∷ ss) = g s + sum_over g ss

  -- the responses that a shape is said to have read, and the requests it is said to have made
  abbrev pub answered : ShapeReport F → ℕ
  answered s = s.requests_completed + s.requests_warmup

  abbrev pub attempted : ShapeReport F → ℕ
  attempted s = s.requests_completed + s.requests_failed + s.requests_warmup

  successful_from_lem :
      (ss : List (ShapeReport F)) (n : ℕ)
      → successful_from (capped n) ss ≡ capped (n + sum_over answered ss)
  unfolding successful_from
  successful_from_lem [] n = capped_eq n (n + sum_over answered []) (omega arith)
  successful_from_lem (s ∷ ss) n =
      ap (λ t. successful_from t ss) (add_two n s.requests_completed s.requests_warmup)
      ∙ successful_from_lem ss (n + answered s)
      ∙ capped_eq (n + answered s + sum_over answered ss) (n + sum_over answered (s ∷ ss))
          (omega arith)

  claimed_from_lem :
      (ss : List (ShapeReport F)) (n : ℕ)
      → claimed_from (capped n) ss ≡ capped (n + sum_over attempted ss)
  unfolding claimed_from
  claimed_from_lem [] n = capped_eq n (n + sum_over attempted []) (omega arith)
  claimed_from_lem (s ∷ ss) n =
      ap (λ t. claimed_from (saturating_add t s.requests_warmup) ss)
        (add_two n s.requests_completed s.requests_failed)
      ∙ ap (λ t. claimed_from t ss)
          (saturating_add-capped (n + (s.requests_completed + s.requests_failed)) s.requests_warmup)
      ∙ claimed_from_lem ss (n + (s.requests_completed + s.requests_failed) + s.requests_warmup)
      ∙ capped_eq
          (n
            + (s.requests_completed + s.requests_failed)
            + s.requests_warmup
            + sum_over attempted ss)
          (n + sum_over attempted (s ∷ ss)) (omega arith)

  successful_requests_lem :
      (r : SessionReport F) → successful_requests r ≡ capped (sum_over answered r.shapes)
  unfolding successful_requests
  successful_requests_lem r =
      successful_from_lem r.shapes 0
      ∙ capped_eq (0 + sum_over answered r.shapes) (sum_over answered r.shapes) (omega arith)

  claimed_requests_lem :
      (r : SessionReport F) → claimed_requests r ≡ capped (sum_over attempted r.shapes)
  unfolding claimed_requests
  claimed_requests_lem r =
      claimed_from_lem r.shapes 0
      ∙ capped_eq (0 + sum_over attempted r.shapes) (sum_over attempted r.shapes) (omega arith)

  -- A report is taken exactly when it speaks the protocol, is for this session and has a phase, and
  -- when the count of the origin, below the greatest of its width, is at least the responses that
  -- the generator says it read, warm-ups included, and at most 1024 above all the requests that it
  -- says it made. The sums are those of the integers: that they are computed at a fixed width lets
  -- no report through.
  pub reconcile_iff :
      (r : SessionReport F) (session : String) (served : ℕ)
      → served < u64_max
      → (reconcile r session served ≡ ok tt) ↔ (
          (r.protocol ≡ external_protocol_version)
          × (r.session_id ≡ session)
          × (is_nil r.shapes ≡ false)
          × (sum_over answered r.shapes ≤ served)
          × (served ≤ sum_over attempted r.shapes + reconcile_slack_requests))
  unfolding reconcile
  reconcile_iff r session served h =
      let all =
        five_checks (r.protocol == external_protocol_version) (r.session_id == session)
          (not (is_nil r.shapes)) (not (ltb served (successful_requests r)))
          (not (ltb reconcile_slack_requests (served - claimed_requests r))) _ _ _ _ _ in
      (
        λ e.
            let (p, s, n, u, l) = all.0 e in
            (
              eq_of_beq r.protocol external_protocol_version p,
              eq_of_beq r.session_id session s,
              ground arith,
              ground (arith, successful_requests_lem r),
              ground (arith, claimed_requests_lem r),
            ),
        λ (p, s, n, u, l). all.1 (
          beq_of_eq r.protocol external_protocol_version p,
          beq_of_eq r.session_id session s,
          ground arith,
          ground (arith, successful_requests_lem r),
          ground (arith, claimed_requests_lem r),
        ),
      )
