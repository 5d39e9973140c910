-- ===== src/Base/Lists.antt =====
-- Lists over the native numbers, predicates on them by recursion, and their lemmas.
use Prim.Native.Nat.{ℕ, zero, suc, ◌+◌}
use mathlib.Core.Path.{◌≡◌, refl, ap, ◌∙◌}
use mathlib.Core.Logic.{◌⊎◌, ◌↔◌, inl, inr}
use mathlib.Core.Bool.{Bool, true, false, ◌&&◌, ◌||◌}
use mathlib.Core.Option.{Option, none, some}
use mathlib.Core.List.{List, [], ◌∷◌, ◌++◌, map}
use native.Mathlib.Omega.{arith}
use darcbench.Base.Tests.{if◌then◌else◌, Bool-cases}

module _ {ℓ} {A : Type ℓ} where
  abbrev pub length : List A → ℕ
  length [] = 0
  length (_ ∷ xs) = suc (length xs)

  abbrev pub is_nil : List A → Bool
  is_nil [] = true
  is_nil (_ ∷ _) = false

  abbrev pub get_elem? : List A → ℕ → Option A
  get_elem? [] _ = none
  get_elem? (x ∷ xs) zero = some x
  get_elem? (x ∷ xs) (suc i) = get_elem? xs i

  abbrev pub take : ℕ → List A → List A
  take zero _ = []
  take (suc n) [] = []
  take (suc n) (x ∷ xs) = x ∷ take n xs

  abbrev pub drop : ℕ → List A → List A
  drop zero xs = xs
  drop (suc n) [] = []
  drop (suc n) (x ∷ xs) = drop n xs

  abbrev pub last? : List A → Option A
  last? [] = none
  last? (x ∷ []) = some x
  last? (x ∷ y ∷ xs) = last? (y ∷ xs)

  abbrev pub any : (A → Bool) → List A → Bool
  any p [] = false
  any p (x ∷ xs) = p x || any p xs

  abbrev pub all : (A → Bool) → List A → Bool
  all p [] = true
  all p (x ∷ xs) = p x && all p xs

  -- `Iterator::filter` under a Boolean test.
  abbrev pub keep : (A → Bool) → List A → List A
  keep p [] = []
  keep p (x ∷ xs) = if p x then x ∷ keep p xs else keep p xs

  -- `flatten`
  abbrev pub concat : List (List A) → List A
  concat [] = []
  concat (xs ∷ xss) = xs ++ concat xss

  abbrev pub All {κ} : (A → Type κ) → List A → Type κ
  All P [] = Unit
  All P (x ∷ xs) = P x × All P xs

  pub length-append : (xs ys : List A) → length (xs ++ ys) ≡ length xs + length ys
  length-append [] ys = omega arith
  length-append (x ∷ xs) ys = omega (arith, length-append xs ys)

pub append_one : {A : Type 0} (xs ys : List A) (x : A) → (xs ++ (x ∷ [])) ++ ys ≡ xs ++ (x ∷ ys)
append_one [] ys x = refl
append_one (z ∷ xs) ys x = ap (λ l. z ∷ l) (append_one xs ys x)

pub append_nil : {A : Type 0} (xs : List A) → xs ++ [] ≡ xs
append_nil [] = refl
append_nil (x ∷ xs) = ap (λ l. x ∷ l) (append_nil xs)

pub keep_all : {A : Type 0} (xs : List A) → keep (λ x. true) xs ≡ xs
keep_all [] = refl
keep_all (x ∷ xs) = ap (λ l. x ∷ l) (keep_all xs)

-- `filter_map`
abbrev pub collect : {A B : Type 0} → (A → Option B) → List A → List B
collect g [] = []
collect g (x ∷ xs) = let rest = collect g xs in elim (g x) [ some y ↦ y ∷ rest | none ↦ rest ]

module _ {A : Type 0} where
  -- Membership by recursion, which the tactics take apart.
  abbrev pub In : A → List A → Type 0
  In a [] = ⊥
  In a (x ∷ xs) = (a ≡ x) ⊎ In a xs

  pub All-In {κ} : (P : A → Type κ) (xs : List A) (a : A) → All P xs → In a xs → P a
  All-In P (x ∷ xs) a h (inl e) = rw e h.0
  All-In P (x ∷ xs) a h (inr m) = All-In P xs a h.1 m
  All-In P [] a h m = absurd m

  pub In-All {κ} : (P : A → Type κ) (xs : List A) → ((a : A) → In a xs → P a) → All P xs
  In-All P [] h = tt
  In-All P (x ∷ xs) h = (h x (inl refl), In-All P xs (λ a m. h a (inr m)))

  pub any-append : (p : A → Bool) (xs ys : List A) → any p (xs ++ ys) ≡ (any p xs || any p ys)
  any-append p [] ys = refl
  any-append p (x ∷ xs) ys = ground (arith, any-append p xs ys)

  pub any-concat : (p : A → Bool) (xss : List (List A)) → any p (concat xss) ≡ any (any p) xss
  any-concat p [] = refl
  any-concat p (xs ∷ xss) =
      any-append p xs (concat xss) ∙ ap (λ b. any p xs || b) (any-concat p xss)

  pub all→All : (p : A → Bool) (xs : List A) → all p xs ≡ true → All (λ x. p x ≡ true) xs
  all→All p [] h = tt
  all→All p (x ∷ xs) h = (ground arith, all→All p xs (ground arith))

  pub any-false : (p : A → Bool) (xs : List A) → any p xs ≡ false → All (λ x. p x ≡ false) xs
  any-false p [] h = tt
  any-false p (x ∷ xs) h = (ground arith, any-false p xs (ground arith))

  pub any-In : (p : A → Bool) (xs : List A) → any p xs ≡ true → (a : A) × In a xs × (p a ≡ true)
  any-In p [] h = cc
  any-In p (x ∷ xs) h = elim (Bool-cases (p x)) [
    | inl e ↦ (x, inl refl, e)
    | inr e ↦ let (a, m, q) = any-In p xs (rw e at h) in (a, inr m, q)
  ]

  pub In-any : (p : A → Bool) (xs : List A) (a : A) → In a xs → p a ≡ true → any p xs ≡ true
  In-any p [] a m h = absurd m
  In-any p (x ∷ xs) a (inl e) h = ground arith
  In-any p (x ∷ xs) a (inr m) h = ground (arith, In-any p xs a m h)

  pub In-append : (xs ys : List A) (a : A) → In a (xs ++ ys) ↔ (In a xs ⊎ In a ys)
  In-append [] ys a = (λ m. inr m, λ m. elim m [ inl e ↦ absurd e | inr k ↦ k ])
  In-append (x ∷ xs) ys a = (
    λ m. elim m [
      | inl e ↦ inl (inl e)
      | inr k ↦ elim ((In-append xs ys a).0 k) [ inl l ↦ inl (inr l) | inr r ↦ inr r ]
    ],
    λ m. elim m [
      | inl l ↦ elim l [ inl e ↦ inl e | inr k ↦ inr ((In-append xs ys a).1 (inl k)) ]
      | inr r ↦ inr ((In-append xs ys a).1 (inr r))
    ],
  )

  pub keep_yes : (p : A → Bool) (x : A) (xs : List A) → p x ≡ true → keep p (x ∷ xs) ≡ x ∷ keep p xs
  keep_yes p x xs e = rw e refl

  pub keep_no : (p : A → Bool) (x : A) (xs : List A) → p x ≡ false → keep p (x ∷ xs) ≡ keep p xs
  keep_no p x xs e = rw e refl

  pub keep-In : (p : A → Bool) (xs : List A) (a : A) → In a (keep p xs) ↔ (In a xs × (p a ≡ true))
  keep-In p [] a = (λ m. absurd m, λ m. absurd (m.0))
  keep-In p (x ∷ xs) a = elim (Bool-cases (p x)) [
    | inl e ↦ rw e (
      λ m. elim m [
        | inl k ↦ (inl k, rw k e)
        | inr k ↦ let (l, q) = (keep-In p xs a).0 k in (inr l, q)
      ],
      λ m. elim (m.0) [ inl k ↦ inl k | inr k ↦ inr ((keep-In p xs a).1 (k, m.1)) ],
    )
    | inr e ↦ rw e (
      λ m. let (l, q) = (keep-In p xs a).0 m in (inr l, q),
      λ m. elim (m.0) [
        | inl k ↦ absurd (clash a x k (m.1) e)
        | inr k ↦ (keep-In p xs a).1 (k, m.1)
      ],
    )
  ]
    where
      clash : (b y : A) → b ≡ y → p b ≡ true → p y ≡ false → ⊥
      clash b y k t f = cc (ap p k)

pub In-map :
    {A B : Type 0} (g : A → B) (xs : List A) (b : B)
    → In b (map g xs)
    → (a : A) × In a xs × (b ≡ g a)
In-map g [] b m = absurd m
In-map g (x ∷ xs) b (inl e) = (x, inl refl, e)
In-map g (x ∷ xs) b (inr m) = let (a, i, e) = In-map g xs b m in (a, inr i, e)
