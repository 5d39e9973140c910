-- ===== src/Measure/Storage/Inside.antt =====
-- Where a repetition reads and writes.
use Prim.Native.Nat.{bit_xor}
use darcbench.Base.{
  ℕ, zero, suc, ◌+◌, ◌-◌, ◌*◌, ◌/◌, ◌%◌, ◌≤◌, ◌<◌, ◌≡◌, refl, Bool, Option, none, some, String,
  List, [], ◌∷◌, ◌++◌, All, ltb, nat_beq, Bool-cases, inl, inr, arith,
}
use darcbench.Base.Num.{Float}
use darcbench.Base.Result.{Result, ok}
use darcbench.Base.Words.{at_least, at_most}
use darcbench.Measure.Random.{SplitMix64, next_u64, mask}
use darcbench.Measure.Fixture.{
  Access, sequential_read, sequential_write, random_read, random_write, random_mixed, fsync,
  Workload, min_fixture_bytes, preferred_fixture_bytes, block_bytes, for_known, for_free_space,
}
use darcbench.Measure.Storage.{
  Io, read, write, sync, Completed, Cursor, next_block, ios_of, tried, attempt_all, followed,
  Outcome, ops_from, thread_ops, threads_from, run_ops,
}

-- An access that stays inside a file of some bytes, at a whole number of its blocks.
abbrev pub IsInside : ℕ → Io → Type 0
IsInside bytes (read offset len) = (offset + len ≤ bytes) × (offset % len ≡ 0)
IsInside bytes (write offset len) = (offset + len ≤ bytes) × (offset % len ≡ 0)
IsInside bytes sync = Unit

abbrev IsPlanned : ℕ → Type 0
IsPlanned bytes = (1_048_576 ≤ bytes) × (bytes ≤ preferred_fixture_bytes) × (bytes % 1_048_576 ≡ 0)

size_lem :
    (n : ℕ)
    → IsPlanned (
        at_least
          (at_most (at_least n min_fixture_bytes) preferred_fixture_bytes / 1_048_576 * 1_048_576)
          1_048_576)
size_lem n = ground arith

module _ (F : Type 0) ⦃f : Float F⦄ where
  for_free_space-IsPlanned : (free : Option ℕ) → IsPlanned (for_free_space F free).fixture_bytes
  unfolding for_free_space for_known
  for_free_space-IsPlanned none = (omega arith, omega arith, refl)
  for_free_space-IsPlanned (some free) = elim (Bool-cases (nat_beq free 0)) [
    | inl e ↦ rw e (omega arith, omega arith, refl)
    | inr e ↦ rw e (size_lem (f.to_nat (f.mul (f.of_nat free) (f.lit 125 3))))
  ]

-- The block that an operation works on.
block_lem :
    (a : Access) (bytes n : ℕ)
    → 1_048_576 ≤ bytes
    → n < at_least (bytes / block_bytes a) 1
    → (n * block_bytes a + block_bytes a ≤ bytes) × ((n * block_bytes a) % block_bytes a ≡ 0)
unfolding block_bytes
block_lem sequential_read bytes n h l = (ground arith, omega arith)
block_lem sequential_write bytes n h l = (ground arith, omega arith)
block_lem random_read bytes n h l = (ground arith, omega arith)
block_lem random_write bytes n h l = (ground arith, omega arith)
block_lem random_mixed bytes n h l = (ground arith, omega arith)
block_lem fsync bytes n h l = (ground arith, omega arith)

All-append : {A : Type 0} (P : A → Type 0) (xs ys : List A) → All P xs → All P ys → All P (xs ++ ys)
All-append P [] ys h k = k
All-append P (x ∷ xs) ys h k = (h.0, All-append P xs ys (h.1) k)

next_block-below :
    (a : Access) (blocks : ℕ) (c : Cursor)
    → 0 < blocks
    → c.at < blocks
    → ((next_block a blocks c).0 < blocks) × ((next_block a blocks c).1.at < blocks)
unfolding next_block
next_block-below sequential_read blocks c h l = (l, omega arith)
next_block-below sequential_write blocks c h l = (l, omega arith)
next_block-below random_read blocks c h l = (omega arith, l)
next_block-below random_write blocks c h l = (omega arith, l)
next_block-below random_mixed blocks c h l = (omega arith, l)
next_block-below fsync blocks c h l = (omega arith, l)

ios_of-IsInside :
    (a : Access) (bytes offset block : ℕ) (g : SplitMix64)
    → offset + block ≤ bytes
    → offset % block ≡ 0
    → All (IsInside bytes) ((ios_of a offset block g).0)
unfolding ios_of
ios_of-IsInside sequential_read bytes offset block g h e = ((h, e), tt)
ios_of-IsInside sequential_write bytes offset block g h e = ((h, e), tt)
ios_of-IsInside random_read bytes offset block g h e = ((h, e), tt)
ios_of-IsInside random_write bytes offset block g h e = ((h, e), tt)
ios_of-IsInside random_mixed bytes offset block g h e =
    elim (Bool-cases (ltb ((next_u64 g).0 % 100) 70)) [
      | inl q ↦ rw q ((h, e), tt)
      | inr q ↦ rw q ((h, e), tt)
    ]
ios_of-IsInside fsync bytes offset block g h e = ((h, e), (tt, tt))

tried-All :
    (P : Io → Type 0) (io : Io) (o : Option String) (rest : List Io × Option String)
    → P io
    → All P (rest.0)
    → All P ((tried io o rest).0)
unfolding tried
tried-All P io (some e) rest h hs = (h, tt)
tried-All P io none (done, bad) h hs = (h, hs)

attempt_all-All :
    (P : Io → Type 0) (fails : Io → Option String) (ios : List Io)
    → All P ios
    → All P ((attempt_all fails ios).0)
unfolding attempt_all
attempt_all-All P fails [] h = tt
attempt_all-All P fails (io ∷ ios) h =
    tried-All P io (fails io) (attempt_all fails ios) (h.0) (attempt_all-All P fails ios (h.1))

followed-All :
    {F : Type 0} (P : Io → Type 0) (one : List Io × Option String) (rest : Outcome F)
    → All P (one.0)
    → All P (rest.0)
    → All P ((followed one rest).0)
unfolding followed
followed-All P (done, some e) rest h hs = h
followed-All P (done, none) (more, result) h hs = All-append P done more h hs

abbrev blocks_of : Access → ℕ → ℕ
blocks_of a bytes = at_least (bytes / block_bytes a) 1

blocks_positive : (a : Access) (bytes : ℕ) → 0 < blocks_of a bytes
blocks_positive a bytes = ground arith

module _ {F : Type 0} (capture : Bool) (a : Access) (bytes : ℕ) (large : 1_048_576 ≤ bytes) where
  ops_from-IsInside :
      (fails : ℕ → Io → Option String) (elapsed : ℕ → F) (left i : ℕ) (c : Cursor) (t : Completed F)
      → c.at < blocks_of a bytes
      → All (IsInside bytes) ((ops_from capture a (blocks_of a bytes) fails elapsed left i c t).0)
  unfolding ops_from
  ops_from-IsInside fails elapsed zero i c t l = tt
  ops_from-IsInside fails elapsed (suc left) i c t l =
      let block = block_bytes a in
      let n = blocks_of a bytes in
      let next = next_block a n c in
      let (below, kept) = next_block-below a n c (blocks_positive a bytes) l in
      let (inside, whole) = block_lem a bytes (next.0) large below in
      let ios = ios_of a (next.0 * block) block next.1.rng in
      let one =
        attempt_all-All (IsInside bytes) (fails i) (ios.0)
          (ios_of-IsInside a bytes (next.0 * block) block next.1.rng inside whole) in
      followed-All (IsInside bytes) (attempt_all (fails i) (ios.0)) _ one
        (ops_from-IsInside fails elapsed left (i + 1) _ _ kept)

  thread_ops-IsInside :
      (fails : ℕ → Io → Option String) (elapsed : ℕ → F) (ops seed : ℕ)
      → All (IsInside bytes) ((thread_ops capture a (blocks_of a bytes) fails elapsed ops seed).0)
  unfolding thread_ops
  thread_ops-IsInside fails elapsed ops seed =
      let p = blocks_positive a bytes in ops_from-IsInside fails elapsed ops 0 _ _ (omega arith)

  threads_from-IsInside :
      (fails : ℕ → ℕ → Io → Option String) (elapsed : ℕ → ℕ → F) (n seed left t : ℕ)
      (r : Result String (Completed F))
      → All
          (IsInside bytes)
          ((threads_from fails elapsed capture a (blocks_of a bytes) n seed left t r).0)
  unfolding threads_from
  threads_from-IsInside fails elapsed n seed zero t r = tt
  threads_from-IsInside fails elapsed n seed (suc left) t r =
      All-append (IsInside bytes) _ _
        (thread_ops-IsInside (fails t) (elapsed t) n
          (bit_xor seed (t * 0x9E37_79B9_7F4A_7C15 % mask)))
        (threads_from-IsInside fails elapsed n seed left (t + 1) _)

module _ {F : Type 0} ⦃f : Float F⦄ (fails : ℕ → ℕ → Io → Option String) (elapsed : ℕ → ℕ → F) where
  -- Whatever space is free, known or not, the planned file has from one MiB to 2 GiB, in whole MiB; and
  -- whatever the workload, the number of operations, the seed and the accesses that fail, each access
  -- of a repetition to a file of the planned size ends within it and starts at a multiple of its own
  -- length.
  pub run_ops-IsInside :
      (free : Option ℕ) (w : Workload) (ops : ℕ) (capture : Bool) (seed : ℕ)
      → (1_048_576 ≤ (for_free_space F free).fixture_bytes)
        × ((for_free_space F free).fixture_bytes ≤ preferred_fixture_bytes)
        × ((for_free_space F free).fixture_bytes % 1_048_576 ≡ 0)
        × All
            (IsInside (for_free_space F free).fixture_bytes)
            ((run_ops fails elapsed (for_free_space F free).fixture_bytes w ops capture seed).0)
  unfolding run_ops
  run_ops-IsInside free w ops capture seed =
      let (low, high, whole) = for_free_space-IsPlanned F free in
      let threads = at_least w.queue_depth 1 in
      (
        low,
        high,
        whole,
        threads_from-IsInside capture w.access (for_free_space F free).fixture_bytes low fails
            elapsed (at_least ((ops + threads - 1) / threads) 1) seed threads 0
            (ok (record { ops = 0; bytes = 0; latencies = [] })),
      )
