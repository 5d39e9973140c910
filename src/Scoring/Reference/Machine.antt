-- ===== src/Scoring/Reference/Machine.antt =====
-- crates/darcbench-scoring/src/reference.rs: the anchors of `provisional_reference` for the machine itself.
use darcbench.Base.{String, none, some, List, [], ◌∷◌}
use darcbench.Base.Num.{Float}
use darcbench.Scoring.Category.{compute, memory, storage, network}
use darcbench.Scoring.Reference.Defs.{ReferencePoint, single_core, multi_core, point, latency_point}

module _ {F : Type 0} ⦃f : Float F⦄ where
  unfoldable pub cpu_mixed_points : List (String × ReferencePoint F)
  cpu_mixed_points =
      (
        "cpu.mixed/crypto_sha256.single",
        point (f.lit 1900 0) (f.lit 1 0) compute (some single_core),
      )
      ∷ (
        "cpu.mixed/compress_deflate.single",
        point (f.lit 85 0) (f.lit 1 0) compute (some single_core),
      )
      ∷ (
        "cpu.mixed/json_roundtrip.single",
        point (f.lit 9500 0) (f.lit 1 0) compute (some single_core),
      )
      ∷ ("cpu.mixed/integer_sort.single", point (f.lit 24 0) (f.lit 1 0) compute (some single_core))
      ∷ (
        "cpu.mixed/float_matmul.single",
        point (f.lit 4800 0) (f.lit 1 0) compute (some single_core),
      )
      ∷ (
        "cpu.mixed/crypto_sha256.multi",
        point (f.lit 24000 0) (f.lit 1 0) compute (some multi_core),
      )
      ∷ (
        "cpu.mixed/compress_deflate.multi",
        point (f.lit 1050 0) (f.lit 1 0) compute (some multi_core),
      )
      ∷ (
        "cpu.mixed/json_roundtrip.multi",
        point (f.lit 118000 0) (f.lit 1 0) compute (some multi_core),
      )
      ∷ ("cpu.mixed/integer_sort.multi", point (f.lit 280 0) (f.lit 1 0) compute (some multi_core))
      ∷ (
        "cpu.mixed/float_matmul.multi",
        point (f.lit 58000 0) (f.lit 1 0) compute (some multi_core),
      )
      ∷ []

  unfoldable pub memory_bandwidth_points : List (String × ReferencePoint F)
  memory_bandwidth_points =
      ("memory.bandwidth/sequential_read.single", point (f.lit 18000 0) (f.lit 1 0) memory none)
      ∷ ("memory.bandwidth/sequential_read.multi", point (f.lit 42000 0) (f.lit 1 0) memory none)
      ∷ ("memory.bandwidth/sequential_write.single", point (f.lit 12000 0) (f.lit 1 0) memory none)
      ∷ ("memory.bandwidth/sequential_write.multi", point (f.lit 28000 0) (f.lit 1 0) memory none)
      ∷ ("memory.bandwidth/sequential_copy.single", point (f.lit 16000 0) (f.lit 1 0) memory none)
      ∷ ("memory.bandwidth/sequential_copy.multi", point (f.lit 38000 0) (f.lit 1 0) memory none)
      ∷ ("memory.bandwidth/triad.single", point (f.lit 17000 0) (f.lit 1 0) memory none)
      ∷ ("memory.bandwidth/triad.multi", point (f.lit 40000 0) (f.lit 1 0) memory none)
      ∷ ("memory.bandwidth/random_read.single", point (f.lit 1800 0) (f.lit 15 1) memory none)
      ∷ ("memory.bandwidth/random_read.multi", point (f.lit 9000 0) (f.lit 15 1) memory none)
      ∷ ("memory.bandwidth/cache_read.single", point (f.lit 80000 0) (f.lit 5 1) memory none)
      ∷ ("memory.bandwidth/cache_read.multi", point (f.lit 500000 0) (f.lit 5 1) memory none)
      ∷ (
        "memory.bandwidth/latency_random.single",
        latency_point (f.lit 85 0) (f.lit 15 1) memory none,
      )
      ∷ []

  unfoldable pub storage_mixed_points : List (String × ReferencePoint F)
  storage_mixed_points =
      ("storage.mixed/sequential_read.qd1", point (f.lit 3500 0) (f.lit 75 2) storage none)
      ∷ ("storage.mixed/sequential_write.qd1", point (f.lit 1800 0) (f.lit 75 2) storage none)
      ∷ ("storage.mixed/random_read_4k.qd1", point (f.lit 18000 0) (f.lit 15 1) storage none)
      ∷ ("storage.mixed/random_read_4k.qd16", point (f.lit 230000 0) (f.lit 1 0) storage none)
      ∷ ("storage.mixed/random_write_4k.qd1", point (f.lit 30000 0) (f.lit 15 1) storage none)
      ∷ ("storage.mixed/random_write_4k.qd16", point (f.lit 180000 0) (f.lit 1 0) storage none)
      ∷ ("storage.mixed/random_mixed_4k.qd16", point (f.lit 160000 0) (f.lit 125 2) storage none)
      ∷ ("storage.mixed/latency_read_4k.p99", latency_point (f.lit 12 2) (f.lit 125 2) storage none)
      ∷ ("storage.mixed/latency_write_4k.p99", latency_point (f.lit 1 1) (f.lit 125 2) storage none)
      ∷ ("storage.mixed/latency_fsync.mean", latency_point (f.lit 5 2) (f.lit 15 1) storage none)
      ∷ []

  unfoldable pub network_transfer_points : List (String × ReferencePoint F)
  network_transfer_points =
      ("network.transfer/download.single", point (f.lit 800 0) (f.lit 15 1) network none)
      ∷ ("network.transfer/download.multi", point (f.lit 940 0) (f.lit 15 1) network none)
      ∷ []
