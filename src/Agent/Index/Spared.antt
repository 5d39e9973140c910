-- ===== src/Agent/Index/Spared.antt =====
-- Which ids, rows and directories a pruning has spared so far.
use darcbench.Base.{
  ◌∙◌, ℕ, Option, none, some, ◌+◌, ◌≡◌, ◌⊎◌, refl, ap, Bool, true, false, not, ◌||◌, String, List,
  [], ◌∷◌, ◌++◌, keep, keep-In, In-append, any, In, All, if◌then◌else◌, ◌==◌, string_eq, eq_of_beq,
  Bool-cases, inl, inr, arith,
}
use darcbench.Agent.Index.{IndexedRun, without, forget}

abbrev pub has_id : List String → IndexedRun → Bool
has_id ids r = any (λ (i : String). i == r.run_id) ids

pub if_yes : {A : Type 0} {b : Bool} (x y : A) → b ≡ true → (if b then x else y) ≡ x
if_yes x y e = rw e refl

pub if_no : {A : Type 0} {b : Bool} (x y : A) → b ≡ false → (if b then x else y) ≡ y
if_no x y e = rw e refl

-- The ids for which there is no message, and the others with theirs.
abbrev put_gone : String → Option String → List String → List String
put_gone i none rest = i ∷ rest
put_gone i (some m) rest = rest

abbrev pub gone : (String → Option String) → List String → List String
gone fate [] = []
gone fate (i ∷ is) = put_gone i (fate i) (gone fate is)

abbrev put_stuck : String → Option String → List (String × String) → List (String × String)
put_stuck i none rest = rest
put_stuck i (some m) rest = (i, m) ∷ rest

abbrev pub stuck : (String → Option String) → List String → List (String × String)
stuck fate [] = []
stuck fate (i ∷ is) = put_stuck i (fate i) (stuck fate is)

put_gone-append :
    (i : String) (o : Option String) (xs ys : List String)
    → put_gone i o (xs ++ ys) ≡ put_gone i o xs ++ ys
put_gone-append i none xs ys = refl
put_gone-append i (some m) xs ys = refl

put_stuck-append :
    (i : String) (o : Option String) (xs ys : List (String × String))
    → put_stuck i o (xs ++ ys) ≡ put_stuck i o xs ++ ys
put_stuck-append i none xs ys = refl
put_stuck-append i (some m) xs ys = refl

module _ (fate : String → Option String) where
  -- with one id more, and what stands against it
  pub gone_snoc :
      (P : List String) (id : String) (o : Option String)
      → fate id ≡ o
      → gone fate (P ++ (id ∷ [])) ≡ gone fate P ++ put_gone id o []
  gone_snoc [] id o e = ap (λ x. put_gone id x []) e
  gone_snoc (i ∷ is) id o e =
      ap (put_gone i (fate i)) (gone_snoc is id o e)
      ∙ put_gone-append i (fate i) (gone fate is) (put_gone id o [])

  pub stuck_snoc :
      (P : List String) (id : String) (o : Option String)
      → fate id ≡ o
      → stuck fate (P ++ (id ∷ [])) ≡ stuck fate P ++ put_stuck id o []
  stuck_snoc [] id o e = ap (λ x. put_stuck id x []) e
  stuck_snoc (i ∷ is) id o e =
      ap (put_stuck i (fate i)) (stuck_snoc is id o e)
      ∙ put_stuck-append i (fate i) (stuck fate is) (put_stuck id o [])

abbrev pub bytes_of : (String → ℕ) → List String → ℕ
bytes_of size [] = 0
bytes_of size (i ∷ is) = size i + bytes_of size is

pub bytes_snoc :
    (size : String → ℕ) (is : List String) (id : String)
    → bytes_of size (is ++ (id ∷ [])) ≡ bytes_of size is + size id
bytes_snoc size [] id = omega arith
bytes_snoc size (i ∷ is) id = omega (arith, bytes_snoc size is id)

has_id-snoc :
    (ids : List String) (x : String) (r : IndexedRun)
    → has_id (ids ++ (x ∷ [])) r ≡ (has_id ids r || x == r.run_id)
has_id-snoc [] x r = ground arith
has_id-snoc (i ∷ ids) x r = ground (arith, has_id-snoc ids x r)

pub forget-keep :
    (x : String) (ids : List String) (rows : List IndexedRun)
    → forget x (keep (λ r. not (has_id ids r)) rows)
      ≡ keep (λ r. not (has_id (ids ++ (x ∷ [])) r)) rows
unfolding forget
forget-keep x ids [] = refl
forget-keep x ids (r ∷ rs) = ground (
  arith,
  forget-keep x ids rs,
  has_id-snoc ids x r,
  string_eq.beq_iff x r.run_id,
  string_eq.beq_iff r.run_id x,
)

-- A directory of the list, or one that is still there.
abbrev pub Spared : List String → List String → String → Type 0
Spared P dirs d = In d P ⊎ In d dirs

pub Spared-more :
    (P dirs ds : List String) (x : String)
    → All (Spared P dirs) ds
    → All (Spared (P ++ (x ∷ [])) dirs) ds
Spared-more P dirs [] x h = tt
Spared-more P dirs (d ∷ ds) x (h, hs) = (
  elim h [ inl m ↦ inl ((In-append P (x ∷ []) d).1 (inl m)) | inr m ↦ inr m ],
  Spared-more P dirs ds x hs,
)

pub Spared-without :
    (P dirs ds : List String) (x : String)
    → All (Spared P dirs) ds
    → All (Spared (P ++ (x ∷ [])) (without x dirs)) ds
unfolding without
Spared-without P dirs [] x h = tt
Spared-without P dirs (d ∷ ds) x (h, hs) = (
  elim h [
    | inl m ↦ inl ((In-append P (x ∷ []) d).1 (inl m))
    | inr m ↦ elim (Bool-cases (d == x)) [
      | inl e ↦ inl ((In-append P (x ∷ []) d).1 (inr (inl (eq_of_beq d x e))))
      | inr e ↦ inr ((keep-In (λ (c : String). not (c == x)) dirs d).1 (m, ap not e))
    ]
  ],
  Spared-without P dirs ds x hs,
)
