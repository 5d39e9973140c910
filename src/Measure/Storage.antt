-- ===== src/Measure/Storage.antt =====
-- crates/darcbench-modules/src/storage_mixed.rs: the reads and writes of a repetition. The file is
-- outside: what each access comes to and how long it takes are arguments. The threads of a repetition
-- are run one after the other, as none sees what another does. The buffer of a thread is aligned by the
-- way it is cut, so the refusal of one that is not has no clause.
use Prim.Native.Nat.{bit_xor}
use darcbench.Base.{
  ℕ, zero, suc, ◌+◌, ◌-◌, ◌*◌, ◌/◌, ◌%◌, ◌^◌, Bool, true, false, not, Option, none, some, String,
  List, [], ◌∷◌, ◌++◌, length, keep, if◌then◌else◌, ltb, nat_beq,
}
use darcbench.Base.Num.{Float}
use darcbench.Base.Result.{Result, ok, err}
use darcbench.Base.Words.{at_least, at_most}
use darcbench.Measure.Random.{SplitMix64, next_u64, mask}
use darcbench.Measure.Fixture.{
  Access, sequential_read, sequential_write, random_read, random_write, random_mixed, fsync,
  mixed_read_share, block_bytes, Workload,
}
pub mod Inside
pub mod Done

-- One access to the file: where, and how many bytes.
pub data Io : Type 0 where
  read write : ℕ → ℕ → Io
  sync : Io

pub record Completed (F : Type 0) : Type 0 where
  pub ops : ℕ
  pub bytes : ℕ
  pub latencies : List F

-- The variables of the loop of `thread_ops` that decide the offsets.
pub record Cursor : Type 0 where
  pub rng : SplitMix64
  pub at : ℕ

-- The block of the next operation.
unfoldable pub next_block : Access → ℕ → Cursor → ℕ × Cursor
unfolding next_u64
next_block sequential_read blocks c = (c.at, record c { at = (c.at + 1) % blocks })
next_block sequential_write blocks c = (c.at, record c { at = (c.at + 1) % blocks })
next_block _ blocks c = let (n, g) = next_u64 c.rng in (n % blocks, record c { rng = g })

-- What an operation does at an offset.
unfoldable pub ios_of : Access → ℕ → ℕ → SplitMix64 → List Io × SplitMix64
unfolding next_u64
ios_of sequential_read offset block g = (read offset block ∷ [], g)
ios_of random_read offset block g = (read offset block ∷ [], g)
ios_of sequential_write offset block g = (write offset block ∷ [], g)
ios_of random_write offset block g = (write offset block ∷ [], g)
ios_of random_mixed offset block g =
    let (n, h) = next_u64 g in
    if ltb (n % 100) mixed_read_share
    then (read offset block ∷ [], h)
    else (write offset block ∷ [], h)
ios_of fsync offset block g = (write offset block ∷ sync ∷ [], g)

unfoldable pub tried : Io → Option String → List Io × Option String → List Io × Option String
tried io (some e) rest = (io ∷ [], some e)
tried io none (done, bad) = (io ∷ done, bad)

-- The accesses up to the first that fails, and its error.
unfoldable pub attempt_all : (Io → Option String) → List Io → List Io × Option String
unfolding tried
attempt_all fails [] = ([], none)
attempt_all fails (io ∷ ios) = tried io (fails io) (attempt_all fails ios)

-- A repetition's accesses, and what it comes to.
abbrev pub Outcome : Type 0 → Type 0
Outcome F = List Io × Result String (Completed F)

-- `?` after an access: what follows is done only where the access has not failed.
unfoldable pub followed : {F : Type 0} → List Io × Option String → Outcome F → Outcome F
followed (done, some e) rest = (done, err e)
followed (done, none) (more, result) = (done ++ more, result)

module _ {F : Type 0} (capture : Bool) (access : Access) (blocks : ℕ) where
  module _ (fails : ℕ → Io → Option String) (elapsed : ℕ → F) where
    -- The accesses of the operations that are left from the i-th on, and the outcome.
    unfoldable pub ops_from : ℕ → ℕ → Cursor → Completed F → Outcome F
    unfolding next_block ios_of attempt_all followed block_bytes
    ops_from zero i c total = ([], ok total)
    ops_from (suc left) i c total =
        let block = block_bytes access in
        let (n, c1) = next_block access blocks c in
        let (ios, g) = ios_of access (n * block) block c1.rng in
        let more = if capture then elapsed i ∷ [] else [] in
        let rest =
          ops_from left (i + 1) (record c1 { rng = g })
            (record total {
              bytes = (total.bytes + block) % mask;
              latencies = total.latencies ++ more;
            }) in
        followed (attempt_all (fails i) ios) rest

    unfoldable pub thread_ops : ℕ → ℕ → Outcome F
    unfolding ops_from
    thread_ops ops seed =
        ops_from ops 0 (record { rng = record { state = seed }; at = seed % blocks })
          (record { ops = ops; bytes = 0; latencies = [] })

module _ {F : Type 0} (fails : ℕ → ℕ → Io → Option String) (elapsed : ℕ → ℕ → F) where
  -- The results are added up in the threads' order, up to the first error.
  unfoldable pub sum_up :
      Result String (Completed F) → Result String (Completed F) → Result String (Completed F)
  sum_up (ok a) (ok b) = ok (record {
    ops = (a.ops + b.ops) % mask;
    bytes = (a.bytes + b.bytes) % mask;
    latencies = a.latencies ++ b.latencies;
  })
  sum_up (ok a) (err e) = err e
  sum_up (err e) b = err e

  -- The threads from the t-th on.
  unfoldable pub threads_from :
      Bool → Access → ℕ → ℕ → ℕ → ℕ → ℕ → Result String (Completed F) → Outcome F
  unfolding thread_ops sum_up
  threads_from capture access blocks per_thread seed zero t total = ([], total)
  threads_from capture access blocks per_thread seed (suc left) t total =
      let (done, result) =
        thread_ops capture access blocks (fails t) (elapsed t) per_thread
          (bit_xor seed (t * 0x9E37_79B9_7F4A_7C15 % mask)) in
      let (more, final) =
        threads_from capture access blocks per_thread seed left (t + 1) (sum_up total result) in
      (done ++ more, final)

  unfoldable pub run_ops : ℕ → Workload → ℕ → Bool → ℕ → Outcome F
  unfolding threads_from block_bytes
  run_ops fixture_bytes w ops capture seed =
      let threads = at_least w.queue_depth 1 in
      let per_thread = at_least ((ops + threads - 1) / threads) 1 in
      let blocks = at_least (fixture_bytes / block_bytes w.access) 1 in
      threads_from capture w.access blocks per_thread seed threads 0
        (ok (record { ops = 0; bytes = 0; latencies = [] }))
