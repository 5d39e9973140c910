-- ===== src/Measure/Session/Verdict.antt =====
-- Which report a session ends with.
use darcbench.Base.{
  ℕ, ◌≤◌, ◌≡◌, refl, sym, ap, ◌∙◌, Bool, true, ◌&&◌, ◌||◌, Option, none, some, String, List, [],
  ◌∷◌, if◌then◌else◌, is_some, leb, ◌==◌, string_eq, Bool-cases, Option-cases, inl, inr, arith,
}
use darcbench.Base.Result.{Result, ok, err}
use darcbench.Protocol.External.Token.{SessionToken}
use darcbench.Protocol.External.Report.{SessionReport, reconcile}
use darcbench.Measure.Session.{
  expired, SessionResult, ControlRequest, holding, Event, Target, request, serve, refuse, pass,
  turn, is_authorised, post, deliver, handle_control_request, take_report, judge, look, wait_turn,
  act, run, started,
}

module _ {F : Type 0} (parse : List ℕ → Result String (SessionReport F))
    (json_error : String → String) (session : String) (token : SessionToken) (deadline : ℕ) where
  abbrev to_option : Result String (SessionReport F) → Option (SessionReport F)
  to_option (ok r) = some r
  to_option (err e) = none

  -- The report that a request brings, where it holds the token and asks for the one endpoint.
  abbrev pub brought : ControlRequest → Option (SessionReport F)
  brought r =
      if is_authorised parse json_error token r && r.post && (r.path == "/report")
      then to_option (parse r.body)
      else none

  abbrev pub first_brought : List (Event parse json_error) → Option (SessionReport F)
  first_brought [] = none
  first_brought (request r ∷ es) = elim (brought r) [
    | some report ↦ some report
    | none ↦ first_brought es
  ]
  first_brought (serve ∷ es) = first_brought es
  first_brought (refuse ∷ es) = first_brought es
  first_brought (pass n ∷ es) = first_brought es
  first_brought (turn ∷ es) = first_brought es

  abbrev S : Type 0
  S = Target parse json_error

  abbrev go : List (Event parse json_error) → S → S
  go = run parse json_error session token deadline

  handle_full :
      (q : ControlRequest) (x : SessionReport F)
      → (handle_control_request parse json_error q token (holding (some x))).1 ≡ holding (some x)
  unfolding handle_control_request post deliver
  handle_full q x = ground arith

  handle_empty :
      (q : ControlRequest)
      → (handle_control_request parse json_error q token (holding none)).1 ≡ holding (brought q)
  unfolding handle_control_request post deliver
  handle_empty q = ground arith

  abbrev one : Event parse json_error → S → S
  one = act parse json_error session token deadline

  full_request :
      (q : ControlRequest) (t : S) (r : SessionReport F)
      → t.inbox ≡ holding (some r)
      → (one (request q) t).inbox ≡ holding (some r)
  unfolding act
  full_request q t r i = rw i (handle_full q r)

  empty_request :
      (q : ControlRequest) (t : S)
      → t.inbox ≡ holding none
      → (one (request q) t).inbox ≡ holding (brought q)
  unfolding act
  empty_request q t i = rw i (handle_empty q)

  -- What a successful end says of the report that was taken.
  abbrev Ends : SessionReport F → SessionResult F → Type 0
  Ends r res = (res.report ≡ r) × (reconcile res.report session res.served ≡ ok tt)

  done_turn : (t : S) → is_some t.outcome ≡ true → one turn t ≡ t
  unfolding act
  done_turn t h = ground arith

  hand_turn :
      (t : S) (r : SessionReport F)
      → t.outcome ≡ none
      → t.hand ≡ some r
      → (one turn t).outcome
        ≡ some (judge parse json_error session token deadline r t.served t.refused)
  unfolding act wait_turn
  hand_turn t r o h = ground arith

  full_turn :
      (t : S) (r : SessionReport F)
      → t.outcome ≡ none
      → t.hand ≡ none
      → t.inbox ≡ holding (some r)
      → ((one turn t).outcome ≡ none) × ((one turn t).hand ≡ some r)
  unfolding act wait_turn look take_report
  full_turn t r o h i = ground arith

  empty_turn :
      (t : S)
      → t.outcome ≡ none
      → t.hand ≡ none
      → t.inbox ≡ holding none
      → ((one turn t).outcome ≡ (if leb deadline t.now then some (err expired) else none))
        × ((one turn t).hand ≡ none)
        × ((one turn t).inbox ≡ holding none)
  unfolding act wait_turn look take_report
  empty_turn t o h i = ground arith

  judge_lem :
      (r : SessionReport F) (n m : ℕ) (res : SessionResult F)
      → judge parse json_error session token deadline r n m ≡ ok res
      → Ends r res
  unfolding judge
  judge_lem r n m res h = ground arith

  settled :
      (es : List (Event parse json_error)) (t : S)
      → is_some t.outcome ≡ true
      → (go es t).outcome ≡ t.outcome
  unfolding run act
  settled [] t h = refl
  settled (request q ∷ es) t h = settled es _ h
  settled (serve ∷ es) t h = settled es _ h
  settled (refuse ∷ es) t h = settled es _ h
  settled (pass n ∷ es) t h = settled es _ h
  settled (turn ∷ es) t h = ap (λ (u : S). (go es u).outcome) (done_turn t h) ∙ settled es t h

  in_hand :
      (es : List (Event parse json_error)) (t : S) (r : SessionReport F) (res : SessionResult F)
      → t.outcome ≡ none
      → t.hand ≡ some r
      → (go es t).outcome ≡ some (ok res)
      → Ends r res
  unfolding run act
  in_hand [] t r res o h e = absurd (cc)
  in_hand (request q ∷ es) t r res o h e = in_hand es _ r res o h e
  in_hand (serve ∷ es) t r res o h e = in_hand es _ r res o h e
  in_hand (refuse ∷ es) t r res o h e = in_hand es _ r res o h e
  in_hand (pass n ∷ es) t r res o h e = in_hand es _ r res o h e
  in_hand (turn ∷ es) t r res o h e =
      let j = hand_turn t r o h in
      judge_lem r t.served t.refused res (cc (settled es (one turn t) (ap is_some j)))

  waiting :
      (es : List (Event parse json_error)) (t : S) (r : SessionReport F) (res : SessionResult F)
      → t.outcome ≡ none
      → t.hand ≡ none
      → t.inbox ≡ holding (some r)
      → (go es t).outcome ≡ some (ok res)
      → Ends r res
  unfolding run act
  waiting [] t r res o h i e = absurd (cc)
  waiting (request q ∷ es) t r res o h i e =
      waiting es (one (request q) t) r res o h (full_request q t r i) e
  waiting (serve ∷ es) t r res o h i e = waiting es _ r res o h i e
  waiting (refuse ∷ es) t r res o h i e = waiting es _ r res o h i e
  waiting (pass n ∷ es) t r res o h i e = waiting es _ r res o h i e
  waiting (turn ∷ es) t r res o h i e =
      let (o', h') = full_turn t r o h i in in_hand es (one turn t) r res o' h' e

  first_step :
      (q : ControlRequest) (es : List (Event parse json_error)) (o : Option (SessionReport F))
      → brought q ≡ o
      → first_brought (request q ∷ es) ≡ (elim o [ some r ↦ some r | none ↦ first_brought es ])
  first_step q es o b = ap (λ x. elim x [ some r ↦ some r | none ↦ first_brought es ]) b

  late :
      (t : S) (es : List (Event parse json_error)) (res : SessionResult F)
      → (one turn t).outcome ≡ some (err expired)
      → (go es (one turn t)).outcome ≡ some (ok res)
      → ⊥
  late t es res l e = not_both (sym l ∙ sym (settled es (one turn t) (ap is_some l)) ∙ e)
    where
      not_both : {E A : Type 0} {x : E} {y : A} → some (err x) ≡ some (ok y) → ⊥
      not_both q = cc

  empty :
      (es : List (Event parse json_error)) (t : S) (res : SessionResult F)
      → t.outcome ≡ none
      → t.hand ≡ none
      → t.inbox ≡ holding none
      → (go es t).outcome ≡ some (ok res)
      → (first_brought es ≡ some res.report) × (reconcile res.report session res.served ≡ ok tt)
  unfolding run act
  empty [] t res o h i e = absurd (cc)
  empty (request q ∷ es) t res o h i e =
      let i' = empty_request q t i in
      elim (Option-cases (brought q)) [
        | inl b ↦
            let (p, x) = empty es (one (request q) t) res o h (i' ∙ ap holding b) e in
            (first_step q es none b ∙ p, x)
        | inr (r, b) ↦
            let (p, x) = waiting es (one (request q) t) r res o h (i' ∙ ap holding b) e in
            (first_step q es (some r) b ∙ ap some (sym p), x)
      ]
  empty (serve ∷ es) t res o h i e = empty es _ res o h i e
  empty (refuse ∷ es) t res o h i e = empty es _ res o h i e
  empty (pass n ∷ es) t res o h i e = empty es _ res o h i e
  empty (turn ∷ es) t res o h i e =
      let (o', h', i') = empty_turn t o h i in
      elim (Bool-cases (leb deadline t.now)) [
        | inl l ↦ absurd (late t es res (rw l at o') e)
        | inr l ↦ empty es (one turn t) res (rw l at o') h' i' e
      ]

  -- However the requests, the origin, the clock and the turns of `wait` interleave, a session that ends
  -- with a result ends with the first report that a request brought: one that presented the session's
  -- token, posted to the one endpoint and carried a report in its body. And that report reconciles
  -- with the count of the origin that is published beside it.
  pub outcome-run :
      (es : List (Event parse json_error)) (res : SessionResult F)
      → (run parse json_error session token deadline es (started parse json_error)).outcome
        ≡ some (ok res)
      → (first_brought es ≡ some res.report) × (reconcile res.report session res.served ≡ ok tt)
  outcome-run es res e = empty es (started parse json_error) res refl refl refl e

  -- The wait is over, or has a report in hand.
  abbrev is_ready : S → Bool
  is_ready t = is_some t.outcome || is_some t.hand

  one-is_ready :
      (e : Event parse json_error) (t : S) → is_ready t ≡ true → is_ready (one e t) ≡ true
  unfolding act wait_turn
  one-is_ready (request q) t h = h
  one-is_ready serve t h = h
  one-is_ready refuse t h = h
  one-is_ready (pass n) t h = h
  one-is_ready turn t h = ground arith

  go-is_ready :
      (es : List (Event parse json_error)) (t : S) → is_ready t ≡ true → is_ready (go es t) ≡ true
  unfolding run
  go-is_ready [] t h = h
  go-is_ready (e ∷ es) t h = go-is_ready es (one e t) (one-is_ready e t h)

  late_turn : (t : S) → deadline ≤ t.now → is_ready (one turn t) ≡ true
  unfolding act wait_turn look take_report
  late_turn t d = ground arith

  last_turn : (t : S) → is_ready t ≡ true → is_some (one turn t).outcome ≡ true
  unfolding act wait_turn
  last_turn t h = ground arith

  -- Once the deadline is past, the wait is over after two more of its turns, whatever the inbox holds
  -- and whatever happens between the two: it does not hang.
  pub is_some-run :
      (es ds : List (Event parse json_error))
      → deadline ≤ (run parse json_error session token deadline es (started parse json_error)).now
      → is_some
          (act parse json_error session token deadline turn (
            run parse json_error session token deadline
              (turn ∷ ds)
              (run parse json_error session token deadline es (started parse json_error)))).outcome
        ≡ true
  unfolding run
  is_some-run es ds d =
      let t = go es (started parse json_error) in
      last_turn (go ds (one turn t)) (go-is_ready ds (one turn t) (late_turn t d))
