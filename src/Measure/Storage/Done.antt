-- ===== src/Measure/Storage/Done.antt =====
-- What a repetition comes to where no access fails.
use Prim.Native.Nat.{bit_xor}
use darcbench.Base.{
  ℕ, zero, suc, ◌+◌, ◌-◌, ◌*◌, ◌/◌, ◌%◌, ◌≤◌, ◌<◌, ◌≡◌, refl, ap, ◌∙◌, Bool, true, false, Option,
  none, some, String, List, [], ◌∷◌, ◌++◌, length, length-append, if◌then◌else◌, ltb, ltb→lt,
  Bool-cases, inl, inr, arith,
}
use darcbench.Base.Result.{Result, ok}
use darcbench.Base.Words.{at_least}
use darcbench.Measure.Random.{mask}
use darcbench.Measure.Fixture.{Access, Workload, block_bytes}
use darcbench.Measure.Storage.{
  Io, Completed, Cursor, Outcome, next_block, ios_of, tried, attempt_all, followed, ops_from,
  thread_ops, sum_up, threads_from, run_ops,
}

attempt_quiet :
    (fails : Io → Option String) (ios : List Io)
    → ((io : Io) → fails io ≡ none)
    → (attempt_all fails ios).1 ≡ none
unfolding attempt_all tried
attempt_quiet fails [] h = refl
attempt_quiet fails (io ∷ ios) h = rw (h io) (attempt_quiet fails ios h)

followed_quiet :
    {F : Type 0} (one : List Io × Option String) (rest : Outcome F)
    → one.1 ≡ none
    → (followed one rest).1 ≡ rest.1
unfolding followed
followed_quiet (done, some e) rest h = cc
followed_quiet (done, none) (more, result) h = refl

wrapped_step :
    (b block left : ℕ) → ((b + block) % mask + left * block) % mask ≡ (b + suc left * block) % mask
wrapped_step b block left = omega arith

length_step :
    {F : Type 0} (capture : Bool) (xs : List F) (x : F) (left : ℕ)
    → length (xs ++ (if capture then x ∷ [] else [])) + (if capture then left else 0)
      ≡ length xs + (if capture then suc left else 0)
length_step true xs x left = omega (arith, length-append xs (x ∷ []))
length_step false xs x left = omega (arith, length-append xs [])

module _ {F : Type 0} (capture : Bool) (a : Access) (blocks : ℕ) where
  -- A result that counts some operations, on bytes and latencies counted before.
  pub record IsDone (n : ℕ) (before : Completed F) (r : Result String (Completed F)) : Type 0 where
    pub completed : Completed F
    pub result : r ≡ ok completed
    pub ops : completed.ops ≡ before.ops
    pub bytes : completed.bytes ≡ (before.bytes + n * block_bytes a) % mask
    pub latencies :
        length completed.latencies ≡ length before.latencies + (if capture then n else 0)

  ops_from-IsDone :
      (fails : ℕ → Io → Option String) (elapsed : ℕ → F) (left i : ℕ) (c : Cursor) (t : Completed F)
      → ((j : ℕ) (io : Io) → fails j io ≡ none)
      → t.bytes % mask ≡ t.bytes
      → IsDone left t ((ops_from capture a blocks fails elapsed left i c t).1)
  unfolding ops_from
  ops_from-IsDone fails elapsed zero i c t h e = record {
    completed = t;
    result = refl;
    ops = refl;
    bytes = omega (arith, e);
    latencies = ground arith;
  }
  ops_from-IsDone fails elapsed (suc left) i c t h e =
      let block = block_bytes a in
      let next = next_block a blocks c in
      let ios = ios_of a (next.0 * block) block next.1.rng in
      let more = if capture then elapsed i ∷ [] else [] in
      let u = record t { bytes = (t.bytes + block) % mask; latencies = t.latencies ++ more } in
      let ih =
        ops_from-IsDone fails elapsed left (i + 1) (record (next.1) { rng = ios.1 }) u h
          (omega arith) in
      let q =
        followed_quiet (attempt_all (fails i) (ios.0))
          (ops_from capture a blocks fails elapsed left (i + 1) (record (next.1) { rng = ios.1 }) u)
          (attempt_quiet (fails i) (ios.0) (h i)) in
      record {
        completed = ih.completed;
        result = q ∙ ih.result;
        ops = ih.ops;
        bytes = ih.bytes ∙ wrapped_step t.bytes block left;
        latencies = ih.latencies ∙ length_step capture t.latencies (elapsed i) left;
      }

  thread_ops-IsDone :
      (fails : ℕ → Io → Option String) (elapsed : ℕ → F) (ops seed : ℕ)
      → ((j : ℕ) (io : Io) → fails j io ≡ none)
      → IsDone ops
          (record { ops = ops; bytes = 0; latencies = [] })
          ((thread_ops capture a blocks fails elapsed ops seed).1)
  unfolding thread_ops
  thread_ops-IsDone fails elapsed ops seed h =
      ops_from-IsDone fails elapsed ops 0 _ (record { ops = ops; bytes = 0; latencies = [] }) h refl

-- The sums over the threads.
pub record IsTotal {F : Type 0} (capture : Bool) (a : Access) (n : ℕ) (before : Completed F)
    (r : Result String (Completed F)) : Type 0 where
  pub completed : Completed F
  pub result : r ≡ ok completed
  pub ops : completed.ops ≡ (before.ops + n) % mask
  pub bytes : completed.bytes ≡ (before.bytes + n * block_bytes a) % mask
  pub latencies : length completed.latencies ≡ length before.latencies + (if capture then n else 0)

joined :
    (b d n left block : ℕ)
    → d ≡ (0 + n * block) % mask
    → ((b + d) % mask + left * n * block) % mask ≡ (b + suc left * n * block) % mask
joined b d n left block e = omega (arith, e)

length_joined :
    {F : Type 0} (capture : Bool) (xs ys : List F) (n left : ℕ)
    → length ys ≡ 0 + (if capture then n else 0)
    → length (xs ++ ys) + (if capture then left * n else 0)
      ≡ length xs + (if capture then suc left * n else 0)
length_joined true xs ys n left e = omega (arith, length-append xs ys, e)
length_joined false xs ys n left e = omega (arith, length-append xs ys, e)

enough :
    (ops threads : ℕ) → 0 < threads → ops ≤ threads * at_least ((ops + threads - 1) / threads) 1
enough ops zero h = absurd (omega arith)
enough ops (suc k) h =
    let q = (ops + suc k - 1) / suc k in
    elim (Bool-cases (ltb q 1)) [
      | inl e ↦ rw e (
          let zero_q : q ≡ 0 = omega (arith, ltb→lt q 1 e) in
          let none_left : suc k * q ≡ suc k * 0 = ap (λ x. suc k * x) zero_q in
          omega (arith, none_left))
      | inr e ↦ rw e omega arith
    ]

module _ {F : Type 0} (fails : ℕ → ℕ → Io → Option String) (elapsed : ℕ → ℕ → F)
    (quiet : (t i : ℕ) (io : Io) → fails t i io ≡ none) where
  threads_from-IsTotal :
      (capture : Bool) (a : Access) (blocks n seed left t : ℕ) (before : Completed F)
      → before.ops % mask ≡ before.ops
      → before.bytes % mask ≡ before.bytes
      → IsTotal capture a
          (left * n)
          before
          ((threads_from fails elapsed capture a blocks n seed left t (ok before)).1)
  unfolding threads_from sum_up
  threads_from-IsTotal capture a blocks n seed zero t before o b = record {
    completed = before;
    result = refl;
    ops = omega (arith, o);
    bytes = omega (arith, b);
    latencies = ground arith;
  }
  threads_from-IsTotal capture a blocks n seed (suc left) t before o b =
      let seed_t = bit_xor seed (t * 0x9E37_79B9_7F4A_7C15 % mask) in
      let one = thread_ops-IsDone capture a blocks (fails t) (elapsed t) n seed_t (quiet t) in
      let r = (thread_ops capture a blocks (fails t) (elapsed t) n seed_t).1 in
      let c = one.completed in
      let u = record before {
        ops = (before.ops + c.ops) % mask;
        bytes = (before.bytes + c.bytes) % mask;
        latencies = before.latencies ++ c.latencies;
      } in
      let ih =
        threads_from-IsTotal capture a blocks n seed left (t + 1) u (omega arith) (omega arith) in
      record {
        completed = ih.completed;
        result =
            ap
              (λ x.
                (threads_from fails elapsed capture a blocks n seed left (t + 1)
                  (sum_up fails elapsed (ok before) x)).1)
              one.result
            ∙ ih.result;
        ops = ih.ops ∙ omega (arith, one.ops);
        bytes = ih.bytes ∙ joined before.bytes c.bytes n left (block_bytes a) one.bytes;
        latencies =
            ih.latencies ∙ length_joined capture before.latencies c.latencies n left one.latencies;
      }

  -- Where no access fails, a repetition has a result: each thread, of which there is at least one,
  -- does the same number of operations, so that together they do at least as many as were asked for,
  -- and the result counts these operations, a block of the workload for each of them, both modulo
  -- 2 ^ 64, and a latency for each where latencies are captured and none otherwise.
  pub run_ops-IsTotal :
      (fixture_bytes : ℕ) (w : Workload) (ops : ℕ) (capture : Bool) (seed : ℕ)
      → (n : ℕ) × (ops ≤ at_least w.queue_depth 1 * n)
        × IsTotal capture w.access
            (at_least w.queue_depth 1 * n)
            (record { ops = 0; bytes = 0; latencies = [] })
            ((run_ops fails elapsed fixture_bytes w ops capture seed).1)
  unfolding run_ops
  run_ops-IsTotal fixture_bytes w ops capture seed =
      let threads = at_least w.queue_depth 1 in
      let n = at_least ((ops + threads - 1) / threads) 1 in
      (
        n,
        enough ops threads (ground arith),
        threads_from-IsTotal capture w.access (at_least (fixture_bytes / block_bytes w.access) 1) n
            seed threads 0 (record { ops = 0; bytes = 0; latencies = [] }) refl refl,
      )
