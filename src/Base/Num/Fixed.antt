-- ===== src/Base/Num/Fixed.antt =====
-- Numbers that run, for tests and for showing that the laws can be met: millionths from 0 up, with
-- `none` for what is not finite. A difference below 0 stands at 0; `ln` and `exp` are the identity.
use Prim.Native.Nat.{ℕ, ◌+◌, ◌-◌, ◌*◌, ◌/◌, ◌^◌}
use mathlib.Core.Bool.{Bool, false}
use mathlib.Core.Option.{Option, none, some}
use native.Mathlib.Omega.{arith}
use darcbench.Base.Tests.{if◌then◌else◌, ltb, leb, nat_beq, is_some}
use darcbench.Base.Num.Defs.{Float, IsOrdered}

abbrev pub Fixed : Type 0
Fixed = Option ℕ

abbrev unit : ℕ
unit = 1_000_000

abbrev pub fixed : ℕ → Fixed
fixed n = some n

abbrev lift : (ℕ → ℕ → ℕ) → Fixed → Fixed → Fixed
lift g (some a) (some b) = some (g a b)
lift g _ _ = none

abbrev test : (ℕ → ℕ → Bool) → Fixed → Fixed → Bool
test g (some a) (some b) = g a b
test g _ _ = false

abbrev quotient : Fixed → Fixed → Fixed
quotient (some a) (some b) = if nat_beq b 0 then none else some (a * unit / b)
quotient _ _ = none

-- `min` and `max` ignore what is not a number.
abbrev choose : (ℕ → ℕ → Bool) → Fixed → Fixed → Fixed
choose g (some a) (some b) = if g a b then some a else some b
choose g (some a) none = some a
choose g none b = b

abbrev on_one : (ℕ → ℕ) → Fixed → Fixed
on_one g (some a) = some (g a)
on_one g none = none

abbrev whole : Fixed → ℕ
whole (some a) = a / unit
whole none = 0

instance abbrev pub fixed_float : Float Fixed
fixed_float = record {
  add = lift λ a b. a + b;
  sub = lift λ a b. a - b;
  mul = lift λ a b. a * b / unit;
  div = quotient;
  fmin = choose leb;
  fmax = choose λ a b. leb b a;
  abs = λ x. x;
  sqrt = λ x. x;
  ln = λ x. x;
  exp = λ x. x;
  flt = test ltb;
  fle = test leb;
  is_finite = is_some;
  lit = λ m k. some (m * unit / 10 ^ k);
  of_nat = λ n. some (n * unit);
  to_nat = whole;
  round = on_one λ a. (a + unit / 2) / unit * unit;
  floor = on_one λ a. a / unit * unit;
  epsilon = some 0;
}

pub Fixed-IsOrdered : IsOrdered Fixed
Fixed-IsOrdered = record {
  flt-fle = ground arith;
  fle_refl = ground arith;
  fle_trans = ground arith;
  flt_fle_trans = ground arith;
  fle_of_not_flt = ground arith;
  fmin-fle_left = ground arith;
  fmin-fle_right = ground arith;
  fmin_choice = ground arith;
}
