-- ===== src/Tests/Storage.antt =====
-- A repetition of a storage workload.
use darcbench.Base.{
  ℕ, suc, ◌*◌, ◌%◌, ◌≤◌, ◌≡◌, refl, true, Option, none, some, String, [], All, length,
}
use darcbench.Base.Num.Fixed.{Fixed, fixed, fixed_float}
use darcbench.Base.Words.{at_least}
use darcbench.Measure.Fixture.{
  Workload, random_mixed, fsync, preferred_fixture_bytes, for_free_space,
}
use darcbench.Measure.Storage.{Io, write, run_ops}
use darcbench.Measure.Storage.Inside.{IsInside, run_ops-IsInside}
use darcbench.Measure.Storage.Done.{IsTotal, run_ops-IsTotal}

abbrev mixed_load : Workload
mixed_load = record {
  access = random_mixed;
  queue_depth = 16;
  key = "random_mixed_4k.qd16";
  latency_key = none;
}

abbrev barrier : Workload
barrier = record { access = fsync; queue_depth = 1; key = "latency_fsync.mean"; latency_key = none }

abbrev never : ℕ → ℕ → Io → Option String
never t i io = none

-- The write before the second barrier fails.
abbrev full : ℕ → ℕ → Io → Option String
full t (suc _) (write _ _) = some "No space left on device"
full t _ _ = none

abbrev tick : ℕ → ℕ → Fixed
tick t i = fixed 1_000

stops : length ((run_ops full tick 67_108_864 barrier 5 true 7).0) ≡ 3
unfolding run_ops
stops = refl

run_ops-IsInside_example :
    (1_048_576 ≤ (for_free_space Fixed (some 1_000_000_000)).fixture_bytes)
    × ((for_free_space Fixed (some 1_000_000_000)).fixture_bytes ≤ preferred_fixture_bytes)
    × ((for_free_space Fixed (some 1_000_000_000)).fixture_bytes % 1_048_576 ≡ 0)
    × All (IsInside (for_free_space Fixed (some 1_000_000_000)).fixture_bytes) (
        (run_ops never tick
          (for_free_space Fixed (some 1_000_000_000)).fixture_bytes
          mixed_load
          40
          true
          7).0)
run_ops-IsInside_example = run_ops-IsInside never tick (some 1_000_000_000) mixed_load 40 true 7

run_ops-IsTotal_example :
    (n : ℕ) × (40 ≤ at_least 16 1 * n)
    × IsTotal true random_mixed
        (at_least 16 1 * n)
        (record { ops = 0; bytes = 0; latencies = [] })
        ((run_ops never tick 67_108_864 mixed_load 40 true 7).1)
run_ops-IsTotal_example =
    run_ops-IsTotal never tick (λ (t i : ℕ) (io : Io). refl) 67_108_864 mixed_load 40 true 7
