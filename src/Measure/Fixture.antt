-- ===== src/Measure/Fixture.antt =====
-- crates/darcbench-modules/src/storage_mixed.rs: the workloads, the size of the test file, and what the
-- module says beforehand of its duration and of what it writes.
use darcbench.Base.{
  ℕ, ◌+◌, ◌-◌, ◌*◌, ◌/◌, ◌%◌, ◌^◌, Bool, true, false, Option, none, some, String, List, [], ◌∷◌,
  length, keep, if◌then◌else◌, ltb, nat_beq,
}
use darcbench.Base.Num.{Float}
use darcbench.Base.Words.{at_least, at_most}
use darcbench.Measure.Random.{mask}

abbrev pub small_block : ℕ
small_block = 4096

abbrev pub large_block : ℕ
large_block = 1_048_576

abbrev pub preferred_fixture_bytes : ℕ
preferred_fixture_bytes = 2_147_483_648

abbrev pub min_fixture_bytes : ℕ
min_fixture_bytes = 67_108_864

abbrev pub deep_queue : ℕ
deep_queue = 16

abbrev pub mixed_read_share : ℕ
mixed_read_share = 70

abbrev pub assumed_write_mib_s : ℕ
assumed_write_mib_s = 600

pub data Access : Type 0 where
  sequential_read sequential_write random_read random_write random_mixed fsync : Access

unfoldable pub writes : Access → Bool
writes sequential_read = false
writes random_read = false
writes _ = true

unfoldable pub block_bytes : Access → ℕ
block_bytes sequential_read = large_block
block_bytes sequential_write = large_block
block_bytes _ = small_block

pub record Workload : Type 0 where
  pub access : Access
  pub queue_depth : ℕ
  pub key : String
  pub latency_key : Option String

abbrev workload : Access → ℕ → String → Option String → Workload
workload access depth key latency_key = record {
  access = access;
  queue_depth = depth;
  key = key;
  latency_key = latency_key;
}

abbrev pub workloads : List Workload
workloads =
    workload sequential_read 1 "sequential_read.qd1" none
    ∷ workload sequential_write 1 "sequential_write.qd1" none
    ∷ workload random_read 1 "random_read_4k.qd1" (some "latency_read_4k.p99")
    ∷ workload random_read deep_queue "random_read_4k.qd16" none
    ∷ workload random_write 1 "random_write_4k.qd1" (some "latency_write_4k.p99")
    ∷ workload random_write deep_queue "random_write_4k.qd16" none
    ∷ workload random_mixed deep_queue "random_mixed_4k.qd16" none
    ∷ workload fsync 1 "latency_fsync.mean" none
    ∷ []

pub record Plan : Type 0 where
  pub fixture_bytes : ℕ
  pub constrained : Bool

-- Whole large blocks: the mask of a power of two, as a division.
abbrev pub whole_blocks : ℕ → ℕ
whole_blocks n = n / large_block * large_block

module _ (F : Type 0) ⦃f : Float F⦄ where
  -- an eighth of what is free
  abbrev affordable : ℕ → ℕ
  affordable free = f.to_nat (f.mul (f.of_nat free) (f.lit 125 3))

  unfoldable pub for_known : ℕ → Plan
  for_known free =
      let size = at_most (at_least (affordable free) min_fixture_bytes) preferred_fixture_bytes in
      record {
        fixture_bytes = at_least (whole_blocks size) large_block;
        constrained = ltb (affordable free) preferred_fixture_bytes;
      }

  unfoldable pub for_free_space : Option ℕ → Plan
  unfolding for_known
  for_free_space none = record { fixture_bytes = min_fixture_bytes; constrained = true }
  for_free_space (some free) =
      if nat_beq free 0
      then record { fixture_bytes = min_fixture_bytes; constrained = true }
      else for_known free

unfoldable pub fits_in : Plan → Option ℕ → Bool
fits_in plan none = false
fits_in plan (some free) = ltb plan.fixture_bytes free

-- The shapes that write.
abbrev write_shapes : ℕ
write_shapes = length (keep (λ (w : Workload). writes w.access) workloads)

abbrev div_ceil : ℕ → ℕ → ℕ
div_ceil a b = (a + b - 1) / b

module _ (F : Type 0) ⦃f : Float F⦄ where
  -- From the free space, the repetitions, warm-up and measured, and how long each should take.
  unfoldable pub estimated_write_volume_bytes : Option ℕ → ℕ → ℕ → ℕ → ℕ
  unfolding for_free_space writes
  estimated_write_volume_bytes free warmup_reps measured_reps target_rep_ms =
      let reps = (warmup_reps + measured_reps + 2) % 2 ^ 32 in
      let per_rep = assumed_write_mib_s * 1_048_576 * target_rep_ms % mask / 1000 in
      ((for_free_space F free).fixture_bytes + write_shapes * reps * per_rep) % mask

  unfoldable pub estimated_duration_s : Option ℕ → ℕ → ℕ → ℕ → ℕ
  unfolding for_free_space
  estimated_duration_s free warmup_reps measured_reps target_rep_ms =
      let reps = (warmup_reps + measured_reps) % 2 ^ 32 in
      let measuring = div_ceil (length workloads * (reps + 2) * target_rep_ms % mask) 1000 in
      let mib = (for_free_space F free).fixture_bytes / 1_048_576 in
      (measuring + div_ceil mib assumed_write_mib_s) % mask
