-- ===== src/Base/Map/Entries.antt =====
-- What `modify` keeps of the entries of a map.
use mathlib.Core.Path.{◌≡◌, refl, ap, sym, subst, ◌∙◌}
use mathlib.Core.List.{List, [], ◌∷◌, ◌++◌}
use mathlib.Core.Bool.{Bool, true, ◌||◌}
use mathlib.Core.Option.{some}
use mathlib.Core.Logic.{inl, inr}
use native.Mathlib.Omega.{arith}
use darcbench.Base.Tests.{Bool-cases, if◌then◌else◌}
use darcbench.Base.Eq.{HasEq, ◌==◌, eq_of_beq, beq_of_eq}
use darcbench.Base.Lists.{All, any}
use darcbench.Base.Map.{Map, HasLt, lookup, insert, modify, set_insert}

module _ {K V : Type 0} ⦃e : HasEq K⦄ ⦃o : HasLt K⦄ where
  abbrev pub AllValues : (V → Type 0) → Map K V → Type 0
  AllValues P = All λ (p : K × V). P p.1

  -- A property of the default's image that the change keeps holds of every value afterwards.
  pub modify-AllValues :
      (P : V → Type 0) (k : K) (d : V) (g : V → V) (m : Map K V)
      → P (g d)
      → ((v : V) → P v → P (g v))
      → AllValues P m
      → AllValues P (modify k d g m)
  unfolding modify
  modify-AllValues P k d g [] base step h = (base, tt)
  modify-AllValues P k d g ((j, w) ∷ m) base step (h, hs) = elim (Bool-cases (j == k)) [
    | inl q ↦ rw q (step w h, hs)
    | inr q ↦ elim (Bool-cases (o.lt k j)) [
      | inl l ↦ rw (q, l) (base, (h, hs))
      | inr l ↦ rw (q, l) (h, modify-AllValues P k d g m base step hs)
    ]
  ]

pub All-append_one :
    {A : Type 0} (P : A → Type 0) (xs : List A) (x : A) → All P xs → P x → All P (xs ++ (x ∷ []))
All-append_one P [] x h p = (p, tt)
All-append_one P (y ∷ ys) x (h, hs) p = (h, All-append_one P ys x hs p)

-- A key that is in a set.
abbrev pub has_key : {K : Type 0} ⦃e : HasEq K⦄ → K → List K → Bool
has_key x = any λ j. j == x

module _ {K : Type 0} ⦃e : HasEq K⦄ ⦃o : HasLt K⦄ where
  clash : (i j k : K) → (i == k) ≡ true → (j == k) ≡ true → (i == j) ≡ true
  clash i j k a b = beq_of_eq i j (eq_of_beq i k a ∙ sym (eq_of_beq j k b))

  pub has_key-set_insert :
      (x k : K) (s : List K) → has_key x (set_insert k s) ≡ ((k == x) || has_key x s)
  unfolding set_insert
  has_key-set_insert x k [] = refl
  has_key-set_insert x k (j ∷ s) = elim (Bool-cases (j == k)) [
    | inl q ↦ rw q (ground (arith, ap (λ i. i == x) (eq_of_beq j k q)))
    | inr q ↦ elim (Bool-cases (o.lt k j)) [
      | inl l ↦ rw (q, l) refl
      | inr l ↦ rw (q, l) (ground (arith, has_key-set_insert x k s))
    ]
  ]

module _ {K V : Type 0} ⦃e : HasEq K⦄ ⦃o : HasLt K⦄ where
  -- A property of entries that the change keeps, and that the new entry has, holds of all of them.
  pub modify-All :
      (P : K × V → Type 0) (k : K) (d : V) (g : V → V) (m : Map K V)
      → P (k, g d)
      → ((w : V) → P (k, w) → P (k, g w))
      → All P m
      → All P (modify k d g m)
  unfolding modify
  modify-All P k d g [] base step h = (base, tt)
  modify-All P k d g ((j, w) ∷ m) base step (h, hs) = elim (Bool-cases (j == k)) [
    | inl q ↦
        let p : j ≡ k = eq_of_beq j k q in
        rw q (subst (λ i. P (i, g w)) (sym p) (step w (subst (λ i. P (i, w)) p h)), hs)
    | inr q ↦ elim (Bool-cases (o.lt k j)) [
      | inl l ↦ rw (q, l) (base, (h, hs))
      | inr l ↦ rw (q, l) (h, modify-All P k d g m base step hs)
    ]
  ]

  -- What a map holds at a key once a value is put at one.
  pub lookup-insert :
      (k j : K) (v : V) (m : Map K V)
      → lookup k (insert j v m) ≡ (if j == k then some v else lookup k m)
  unfolding lookup insert
  lookup-insert k j v [] = refl
  lookup-insert k j v ((i, w) ∷ m) = elim (Bool-cases (i == j)) [
    | inl q ↦ rw q (ground (arith, ap (λ n. n == k) (eq_of_beq i j q)))
    | inr q ↦ elim (Bool-cases (o.lt j i)) [
      | inl l ↦ rw (q, l) refl
      | inr l ↦ rw (q, l) (ground (arith, lookup-insert k j v m, clash i j k))
    ]
  ]
