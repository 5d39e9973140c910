-- ===== src/Agent/Stream/Resume.antt =====
-- What a client that reconnects to the event stream is served.
use darcbench.Base.{
  ℕ, suc, ◌+◌, ◌-◌, ◌<◌, ◌^◌, ◌≡◌, refl, ap, ◌∙◌, sym, true, false, ◌&&◌, none, some, List, [], ◌∷◌,
  ◌++◌, length, drop, length-append, if◌then◌else◌, Bool-cases, inl, inr, ltb, leb, arith,
}
use darcbench.Agent.Stream.{
  Envelope, Stream, new, emit, emit_all, events_since, first_after, skip_seen, succ_saturating,
}
use darcbench.Agent.Stream.Numbered.{
  Numbered, newer, Numbered-append_one, Numbered-drop, skip_seen-newer, newer-drop, drop-drop_one,
  drop-append, length-drop,
}

shift : (n : ℕ) → leb 4096 n ≡ true → suc (n - 4096) ≡ n + 1 - 4096
shift n h = ground arith

stay : (n : ℕ) → leb 4096 n ≡ false → n - 4096 ≡ n + 1 - 4096
stay n h = ground arith

module _ {E : Type 0} where
  -- The buffer holds the newest events of a record without a gap.
  pub record IsStream (s : Stream E) : Type 0 where
    pub numbered : Numbered 0 s.log
    pub seq_eq : s.seq ≡ length s.log
    pub events_eq : s.events ≡ drop (length s.log - 4096) s.log
    pub truncated_eq : s.truncated ≡ ltb 4096 (length s.log)

  pub new-IsStream : IsStream (new {E = E})
  unfolding new
  new-IsStream = record { numbered = tt; seq_eq = refl; events_eq = refl; truncated_eq = refl }

  slide :
      (n : ℕ) (log : List (Envelope E)) (e : Envelope E)
      → n ≡ length log
      → (if leb 4096 (length (drop (n - 4096) log))
            then drop 1 (drop (n - 4096) log)
            else drop (n - 4096) log)
          ++ (e ∷ [])
        ≡ drop (n + 1 - 4096) (log ++ (e ∷ []))
  slide n log e q = elim (Bool-cases (leb 4096 n)) [
    | inl full ↦
        let count : leb 4096 (length (drop (n - 4096) log)) ≡ true =
          ground (arith, length-drop (n - 4096) log) in
        rw count (
          ap (λ es. es ++ (e ∷ [])) (drop-drop_one (n - 4096) log)
          ∙ sym (drop-append (suc (n - 4096)) log (e ∷ []) (ground arith))
          ∙ ap (λ k. drop k (log ++ (e ∷ []))) (shift n full))
    | inr room ↦
        let count : leb 4096 (length (drop (n - 4096) log)) ≡ false =
          ground (arith, length-drop (n - 4096) log) in
        rw count (
          sym (drop-append (n - 4096) log (e ∷ []) (omega arith))
          ∙ ap (λ k. drop k (log ++ (e ∷ []))) (stay n room))
  ]

  pub emit-IsStream :
      (now : ℕ) (event : E) (s : Stream E)
      → length s.log + 1 < 2 ^ 64
      → IsStream s
      → IsStream (emit now event s)
  unfolding emit
  emit-IsStream now event s h i = record {
    numbered = Numbered-append_one 0 s.log _ i.numbered (omega (arith, i.seq_eq));
    seq_eq = omega (
      arith,
      i.seq_eq,
      length-append s.log (record { seq = s.seq; mono_ms = now; event = event } ∷ []),
    );
    events_eq =
        rw
          (
            i.events_eq,
            length-append s.log (record { seq = s.seq; mono_ms = now; event = event } ∷ []),
          )
          (slide (length s.log) s.log _ refl);
    truncated_eq =
        rw (i.events_eq, i.truncated_eq)
          (ground (
            arith,
            length-drop (length s.log - 4096) s.log,
            length-append s.log (record { seq = s.seq; mono_ms = now; event = event } ∷ []),
          ));
  }

  pub emit_all-IsStream :
      (es : List (ℕ × E)) (s : Stream E)
      → length s.log + length es < 2 ^ 64
      → IsStream s
      → IsStream (emit_all es s)
  unfolding emit_all emit
  emit_all-IsStream [] s h i = i
  emit_all-IsStream ((now, e) ∷ es) s h i =
      emit_all-IsStream es (emit now e s)
        (omega (arith, length-append s.log (record { seq = s.seq; mono_ms = now; event = e } ∷ [])))
        (emit-IsStream now e s (omega arith) i)

  first_after-Numbered :
      (needed j : ℕ) (es : List (Envelope E))
      → Numbered j es
      → 0 < length es
      → first_after needed es ≡ ltb needed j
  unfolding first_after
  first_after-Numbered needed j [] n h = absurd (omega (arith, h))
  first_after-Numbered needed j (e ∷ es) (q, n) h = ap (ltb needed) q

  served :
      (a n : ℕ) (log : List (Envelope E))
      → Numbered 0 log
      → n ≡ length log
      → (if ltb 4096 n && first_after (succ_saturating a) (drop (n - 4096) log)
          then none
          else some (skip_seen a (drop (n - 4096) log)))
        ≡ (if ltb 4096 n && ltb (succ_saturating a) (n - 4096) then none else some (newer a log))
  served a n log h q =
      let from : ℕ = n - 4096 in
      let tail : Numbered from (drop from log) = Numbered-drop from 0 from log (omega arith) h in
      rw (skip_seen-newer a from (drop from log) tail) (elim (Bool-cases (ltb 4096 n)) [
        | inl over ↦
            rw
              (
                over,
                first_after-Numbered (succ_saturating a) from (drop from log) tail
                    (ground (arith, length-drop from log)),
              )
              (elim (Bool-cases (ltb (succ_saturating a) from)) [
                | inl gone ↦ rw gone refl
                | inr kept ↦ rw kept (ap some (newer-drop from a 0 log h (ground arith)))
              ])
        | inr whole ↦ rw whole (ap some (newer-drop from a 0 log h (ground arith)))
      ])

  pub events_since-IsStream :
      (a : ℕ) (s : Stream E)
      → IsStream s
      → events_since (some a) s ≡ (
          if ltb 4096 (length s.log) && ltb (succ_saturating a) (length s.log - 4096)
          then none
          else some (newer a s.log))
  unfolding events_since
  events_since-IsStream a s i =
      rw (i.events_eq, i.truncated_eq) (served a (length s.log) s.log i.numbered refl)

  length-emit_all :
      (es : List (ℕ × E)) (s : Stream E) → length (emit_all es s).log ≡ length s.log + length es
  unfolding emit_all emit
  length-emit_all [] s = omega arith
  length-emit_all ((now, e) ∷ es) s = omega (
    arith,
    length-emit_all es (emit now e s),
    length-append s.log (record { seq = s.seq; mono_ms = now; event = e } ∷ []),
  )

  -- A client that reconnects after a run of fewer than 2^64 events, naming the last number it saw, is
  -- served exactly the events of the complete record that are newer, unless the buffer, which keeps the
  -- newest 4096, has dropped the event that follows the one it saw: then it is told that there is a gap.
  pub events_since-emit_all :
      (a : ℕ) (es : List (ℕ × E))
      → length es < 2 ^ 64
      → events_since (some a) (emit_all es new) ≡ (
          if ltb 4096 (length es) && ltb (succ_saturating a) (length es - 4096)
          then none
          else some (newer a (emit_all es new).log))
  unfolding new
  events_since-emit_all a es h =
      let s : Stream E = emit_all es new in
      let count : length s.log ≡ length es = omega (arith, length-emit_all es new) in
      let i : IsStream s = emit_all-IsStream es new (omega (arith, h)) new-IsStream in
      rw (sym (count)) (events_since-IsStream a s i)

  -- The record of a run of fewer than 2^64 events numbers them 0, 1, 2 and on without a gap, with one
  -- entry for each.
  pub emit_all-Numbered :
      (es : List (ℕ × E))
      → length es < 2 ^ 64
      → Numbered 0 (emit_all es new).log × (length (emit_all es new).log ≡ length es)
  unfolding new
  emit_all-Numbered es h = (
    (emit_all-IsStream es new (omega (arith, h)) new-IsStream).numbered,
    omega (arith, length-emit_all es new),
  )
