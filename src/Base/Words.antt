-- ===== src/Base/Words.antt =====
-- Unsigned machine arithmetic that stops at its bounds: `saturating_add`, and `max` and `min`.
use Prim.Native.Nat.{ℕ, ◌+◌, ◌-◌, ◌^◌}
use darcbench.Base.Tests.{if◌then◌else◌, ltb}

abbrev pub u64_max : ℕ
u64_max = 2 ^ 64 - 1

abbrev pub u32_max : ℕ
u32_max = 2 ^ 32 - 1

abbrev pub saturating_add : ℕ → ℕ → ℕ
saturating_add a b = if ltb u64_max (a + b) then u64_max else a + b

abbrev pub at_least : ℕ → ℕ → ℕ
at_least a b = if ltb a b then b else a

abbrev pub at_most : ℕ → ℕ → ℕ
at_most a b = if ltb b a then b else a
