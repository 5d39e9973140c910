-- ===== src/Base/Num/Defs.antt =====
-- `f64`: the operations that the program uses, over any type of numbers. What a proof relies on is
-- stated as laws, which IEEE 754 and the standard library document; the sibling `Fixed` meets them.
use Prim.Native.Nat.{ℕ}
use mathlib.Core.Path.{◌≡◌}
use mathlib.Core.Logic.{◌⊎◌}
use mathlib.Core.Bool.{Bool, true, false}
use mathlib.Core.List.{List, [], ◌∷◌}
use darcbench.Base.Tests.{if◌then◌else◌}

pub record Float (F : Type 0) : Type 0 where
  -- `a + b`, `a - b`, `a * b`, `a / b`
  pub add : F → F → F
  pub sub : F → F → F
  pub mul : F → F → F
  pub div : F → F → F
  -- `f64::min`, `f64::max`, `abs`, `sqrt`, `ln`, `exp`
  pub fmin : F → F → F
  pub fmax : F → F → F
  pub abs : F → F
  pub sqrt : F → F
  pub ln : F → F
  pub exp : F → F
  -- `a < b`, `a <= b`, false where either is NaN
  pub flt : F → F → Bool
  pub fle : F → F → Bool
  pub is_finite : F → Bool
  -- the literal m / 10 ^ k
  pub lit : ℕ → ℕ → F
  -- `n as f64`, and `x as u64`, which truncates and saturates; `round` first for the other
  pub of_nat : ℕ → F
  pub to_nat : F → ℕ
  pub round : F → F
  pub floor : F → F
  pub epsilon : F

module _ {F : Type 0} ⦃f : Float F⦄ where
  abbrev pub zero_f : F
  zero_f = f.lit 0 0

  abbrev pub one_f : F
  one_f = f.lit 1 0

  -- `x.clamp(lo, hi)`, for `lo <= hi`
  unfoldable pub clamp : F → F → F → F
  clamp x lo hi = if f.flt x lo then lo else if f.flt hi x then hi else x

  -- `iter().sum::<f64>()`
  unfoldable pub sum_from : F → List F → F
  sum_from acc [] = acc
  sum_from acc (x ∷ xs) = sum_from (f.add acc x) xs

  unfoldable pub sum_f : List F → F
  unfolding sum_from
  sum_f = sum_from zero_f

  -- `sort_by(partial_cmp, or Equal)`, stable: an element goes before the first that is greater.
  unfoldable pub insert_f : F → List F → List F
  insert_f x [] = x ∷ []
  insert_f x (y ∷ ys) = if f.flt x y then x ∷ y ∷ ys else y ∷ insert_f x ys

  unfoldable pub sort_onto : List F → List F → List F
  unfolding insert_f
  sort_onto acc [] = acc
  sort_onto acc (x ∷ xs) = sort_onto (insert_f x acc) xs

  unfoldable pub sort_f : List F → List F
  unfolding sort_onto
  sort_f = sort_onto []

-- The comparisons agree on what they say of one another, and `min` and `max` choose an argument.
pub record IsOrdered (F : Type 0) ⦃f : Float F⦄ : Type 0 where
  pub flt-fle : (x y : F) → f.flt x y ≡ true → f.fle x y ≡ true
  pub fle_refl : (x : F) → f.is_finite x ≡ true → f.fle x x ≡ true
  pub fle_trans : (x y z : F) → f.fle x y ≡ true → f.fle y z ≡ true → f.fle x z ≡ true
  pub flt_fle_trans : (x y z : F) → f.flt x y ≡ true → f.fle y z ≡ true → f.flt x z ≡ true
  pub fle_of_not_flt :
      (x y : F) → f.is_finite x ≡ true → f.is_finite y ≡ true → f.flt x y ≡ false → f.fle y x ≡ true
  pub fmin-fle_left :
      (x y : F) → f.is_finite x ≡ true → f.is_finite y ≡ true → f.fle (f.fmin x y) x ≡ true
  pub fmin-fle_right :
      (x y : F) → f.is_finite x ≡ true → f.is_finite y ≡ true → f.fle (f.fmin x y) y ≡ true
  pub fmin_choice : (x y : F) → (f.fmin x y ≡ x) ⊎ (f.fmin x y ≡ y)
