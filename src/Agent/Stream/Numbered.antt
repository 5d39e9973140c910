-- ===== src/Agent/Stream/Numbered.antt =====
-- Envelopes whose sequence numbers count up without a gap.
use darcbench.Base.{
  ℕ, zero, suc, ◌+◌, ◌-◌, ◌≤◌, ◌<◌, ◌≡◌, refl, subst, List, [], ◌∷◌, ◌++◌, length, drop, keep, ltb,
  arith,
}
use darcbench.Agent.Stream.{Envelope, skip_seen}

module _ {E : Type 0} where
  abbrev pub Numbered : ℕ → List (Envelope E) → Type 0
  Numbered i [] = Unit
  Numbered i (e ∷ es) = (e.seq ≡ i) × Numbered (suc i) es

  abbrev pub newer : ℕ → List (Envelope E) → List (Envelope E)
  newer after = keep λ e. ltb after e.seq

  pub Numbered-append_one :
      (i : ℕ) (es : List (Envelope E)) (e : Envelope E)
      → Numbered i es
      → e.seq ≡ i + length es
      → Numbered i (es ++ (e ∷ []))
  Numbered-append_one i [] e n h = (omega arith, tt)
  Numbered-append_one i (x ∷ es) e (h, n) q = (h, Numbered-append_one (suc i) es e n (omega arith))

  pub Numbered-drop :
      (k i j : ℕ) (es : List (Envelope E)) → j ≡ i + k → Numbered i es → Numbered j (drop k es)
  Numbered-drop zero i j es q n = subst (λ m. Numbered m es) (omega (arith, q)) n
  Numbered-drop (suc k) i j [] q n = tt
  Numbered-drop (suc k) i j (x ∷ es) q (h, n) = Numbered-drop k (suc i) j es (omega (arith, q)) n

  newer_all : (a i : ℕ) (es : List (Envelope E)) → Numbered i es → a < i → newer a es ≡ es
  newer_all a i [] n h = refl
  newer_all a i (x ∷ es) (e, n) h = ground (arith, newer_all a (suc i) es n)

  pub skip_seen-newer :
      (a i : ℕ) (es : List (Envelope E)) → Numbered i es → skip_seen a es ≡ newer a es
  unfolding skip_seen
  skip_seen-newer a i [] n = refl
  skip_seen-newer a i (x ∷ es) (e, n) =
      ground (arith, skip_seen-newer a (suc i) es n, newer_all a (suc i) es n)

  pub newer-drop :
      (k a i : ℕ) (es : List (Envelope E))
      → Numbered i es
      → i + k ≤ a + 1
      → newer a (drop k es) ≡ newer a es
  newer-drop zero a i es n h = refl
  newer-drop (suc k) a i [] n h = refl
  newer-drop (suc k) a i (x ∷ es) (e, n) h = ground (arith, newer-drop k a (suc i) es n)

  pub drop-drop_one : (k : ℕ) (es : List (Envelope E)) → drop 1 (drop k es) ≡ drop (suc k) es
  drop-drop_one zero es = refl
  drop-drop_one (suc k) [] = refl
  drop-drop_one (suc k) (x ∷ es) = drop-drop_one k es

  pub drop-append :
      (k : ℕ) (es fs : List (Envelope E)) → k ≤ length es → drop k (es ++ fs) ≡ drop k es ++ fs
  drop-append zero es fs h = refl
  drop-append (suc k) [] fs h = absurd (omega arith)
  drop-append (suc k) (x ∷ es) fs h = drop-append k es fs (omega arith)

  pub length-drop : (k : ℕ) (es : List (Envelope E)) → length (drop k es) ≡ length es - k
  length-drop zero es = omega arith
  length-drop (suc k) [] = omega arith
  length-drop (suc k) (x ∷ es) = omega (arith, length-drop k es)
