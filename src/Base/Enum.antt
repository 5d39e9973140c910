-- ===== src/Base/Enum.antt =====
-- `PartialEq` and `Ord` that are derived for an enumeration: by the position of the constructor.
use darcbench.Base.Tests.{ltb, nat_beq}
use darcbench.Base.Eq.{HasEq, nat_eq, eq_of_beq, beq_refl}
use darcbench.Base.Map.{HasLt}
use Prim.Native.Nat.{ℕ}
use mathlib.Core.Path.{◌≡◌, ap, sym, ◌∙◌}
use mathlib.Core.Bool.{true}
use mathlib.Core.Logic.{◌↔◌}

module _ {A : Type 0} (rank : A → ℕ) where
  -- `nth` is a left inverse of the position, so equal positions mean equal constructors.
  pub rank_beq_iff :
      (nth : ℕ → A)
      → ((a : A) → nth (rank a) ≡ a)
      → (a b : A) → (nat_beq (rank a) (rank b) ≡ true) ↔ (a ≡ b)
  rank_beq_iff nth inv a b = (
    λ h. sym (inv a) ∙ (ap nth (eq_of_beq (rank a) (rank b) h) ∙ inv b),
    λ p. rw p (beq_refl (rank b)),
  )

  abbrev pub by_rank : ((a b : A) → (nat_beq (rank a) (rank b) ≡ true) ↔ (a ≡ b)) → HasEq A
  by_rank law = record { beq = λ a b. nat_beq (rank a) (rank b); beq_iff = law }

  abbrev pub lt_by_rank : HasLt A
  lt_by_rank = record { lt = λ a b. ltb (rank a) (rank b) }
