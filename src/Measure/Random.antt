-- ===== src/Measure/Random.antt =====
-- crates/darcbench-core/src/workloads.rs: the generator of the offsets and of the corpora.
use Prim.Native.Nat.{bit_xor}
use darcbench.Base.{ℕ, ◌+◌, ◌*◌, ◌/◌, ◌%◌, ◌^◌}

pub record SplitMix64 : Type 0 where
  pub state : ℕ

abbrev pub mask : ℕ
mask = 2 ^ 64

-- `z ^ (z >> n)`
abbrev mixed : ℕ → ℕ → ℕ
mixed z n = bit_xor z (z / 2 ^ n)

-- The number, and the generator after it.
unfoldable pub next_u64 : SplitMix64 → ℕ × SplitMix64
next_u64 g =
    let s = (g.state + 0x9E37_79B9_7F4A_7C15) % mask in
    let y = mixed s 30 * 0xBF58_476D_1CE4_E5B9 % mask in
    let z = mixed y 27 * 0x94D0_49BB_1331_11EB % mask in (mixed z 31, record { state = s })

abbrev pub corpus_seed : ℕ
corpus_seed = 0x0DA2_C8E0_C4A1_5EED
