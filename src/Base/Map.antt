-- ===== src/Base/Map.antt =====
-- `BTreeMap` and `BTreeSet`: lists of entries in ascending key order.
use Prim.Native.Nat.{ℕ}
use Prim.Native.String.{String, compare}
use text.Mathlib.Text.{is_lt}
use mathlib.Core.Bool.{Bool}
use mathlib.Core.Option.{Option, none, some}
use mathlib.Core.List.{List, [], ◌∷◌}
use darcbench.Base.Tests.{if◌then◌else◌, ltb}
use darcbench.Base.Eq.{HasEq, ◌==◌}
pub mod Entries

-- The strict part of `Ord`.
pub record HasLt (A : Type 0) : Type 0 where
  pub lt : A → A → Bool

instance abbrev pub nat_lt : HasLt ℕ
nat_lt = record { lt = ltb }

-- Strings are ordered by their bytes.
instance abbrev pub string_lt : HasLt String
string_lt = record { lt = λ s t. is_lt (compare s t) }

abbrev pub Map : Type 0 → Type 0 → Type 0
Map K V = List (K × V)

module _ {K V : Type 0} ⦃e : HasEq K⦄ where
  -- `get`
  unfoldable pub lookup : K → Map K V → Option V
  lookup k [] = none
  lookup k ((j, v) ∷ m) = if j == k then some v else lookup k m

module _ {K V : Type 0} ⦃e : HasEq K⦄ ⦃o : HasLt K⦄ where
  -- `insert`: the value of an existing key is replaced.
  unfoldable pub insert : K → V → Map K V → Map K V
  insert k v [] = (k, v) ∷ []
  insert k v ((j, w) ∷ m) =
      if j == k then (k, v) ∷ m else if o.lt k j then (k, v) ∷ (j, w) ∷ m else (j, w) ∷ insert k v m

  -- `*entry(k).or_insert(d) = f(..)`
  unfoldable pub modify : K → V → (V → V) → Map K V → Map K V
  modify k d f [] = (k, f d) ∷ []
  modify k d f ((j, w) ∷ m) =
      if j == k
      then (j, f w) ∷ m
      else if o.lt k j
      then (k, f d) ∷ (j, w) ∷ m
      else (j, w) ∷ modify k d f m

module _ {K : Type 0} ⦃e : HasEq K⦄ ⦃o : HasLt K⦄ where
  -- `BTreeSet::insert`
  unfoldable pub set_insert : K → List K → List K
  set_insert k [] = k ∷ []
  set_insert k (j ∷ s) =
      if j == k then j ∷ s else if o.lt k j then k ∷ j ∷ s else j ∷ set_insert k s
