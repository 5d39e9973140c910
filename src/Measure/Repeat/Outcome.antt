-- ===== src/Measure/Repeat/Outcome.antt =====
-- What the repetitions leave behind.
use darcbench.Base.{
  append_one, append_nil, keep_all, ℕ, zero, suc, ◌+◌, ◌≤◌, ◌<◌, ◌%◌, ◌^◌, ◌≡◌, refl, ap, sym, ◌∙◌,
  Bool, true, false, some, not, ◌&&◌, String, List, [], ◌∷◌, ◌++◌, map, keep, All, if◌then◌else◌,
  ltb, arith,
}
use darcbench.Base.Num.{Float}
use darcbench.Base.Result.{ok}
use darcbench.Protocol.Metrics.{MetricSample, validation_failed}
use darcbench.Measure.Repeat.{
  Rep, RepOutcome, sample_of, warning_of, is_short, add_rep, time_from, time_reps,
}

-- n numbers from a given one on
abbrev pub count_from : ℕ → ℕ → List ℕ
count_from i zero = []
count_from i (suc n) = i ∷ count_from (suc i) n

append_if :
    {A : Type 0} {B : Type 0} (g : A → B) (b : Bool) (xs : List B) (i : A) (is : List A)
    → (if b then xs ++ (g i ∷ []) else xs) ++ map g is ≡ xs ++ map g (if b then i ∷ is else is)
append_if g true xs i is = append_one xs (map g is) (g i)
append_if g false xs i is = refl

append_unless :
    {A : Type 0} {B : Type 0} (g : A → B) (b : Bool) (xs : List B) (i : A) (is : List A)
    → (if b then xs else xs ++ (g i ∷ [])) ++ map g is ≡ xs ++ map g (if not b then i ∷ is else is)
append_unless g true xs i is = refl
append_unless g false xs i is = append_one xs (map g is) (g i)

zero_add : (m : ℕ) → 0 + m ≡ m
zero_add m = omega arith

suc_add : (k m : ℕ) → suc k + m ≡ suc (k + m)
suc_add k m = omega arith

-- A predicate that drops what comes before w and agrees with another from w on.
module _ (w : ℕ) (q p : ℕ → Bool) (before : (i : ℕ) → i < w → q i ≡ false)
    (after : (i : ℕ) → w ≤ i → q i ≡ p i) where
  keep_after : (n i : ℕ) → w ≤ i → keep q (count_from i n) ≡ keep p (count_from i n)
  keep_after zero i h = refl
  keep_after (suc n) i h =
      rw (after i h) (ap (λ l. if p i then i ∷ l else l) (keep_after n (suc i) (omega (arith, h))))

  keep-count_from :
      (k i m : ℕ) → i + k ≡ w → keep q (count_from i (k + m)) ≡ keep p (count_from w m)
  keep-count_from zero i m h =
      ap (λ j. keep q (count_from i j)) (zero_add m)
      ∙ keep_after m i (omega (arith, h))
      ∙ ap (λ j. keep p (count_from j m)) (omega (arith, h))
  keep-count_from (suc k) i m h =
      ap (λ j. keep q (count_from i j)) (suc_add k m)
      ∙ rw (before i (omega (arith, h))) (keep-count_from k (suc i) m (omega (arith, h)))

ltb_no : (i w : ℕ) → w ≤ i → ltb i w ≡ false
ltb_no i w h = ground (arith, h)

ltb_yes : (i w : ℕ) → i < w → ltb i w ≡ true
ltb_yes i w h = ground (arith, h)

small_mod : (n : ℕ) → n < 2 ^ 32 → n % 2 ^ 32 ≡ n
small_mod n h = omega (arith, h)

module _ {F : Type 0} ⦃f : Float F⦄ (key : String) (render : F → String) (reps : ℕ → Rep F)
    (warmup_reps : ℕ) where
  abbrev is_measured : ℕ → Bool
  is_measured rep = not (ltb rep warmup_reps)

  -- An outcome to which the repetitions of a list are added.
  abbrev extended : RepOutcome F → List ℕ → RepOutcome F
  extended o is = record {
    samples = o.samples ++ map (sample_of key render reps warmup_reps) is;
    measured = o.measured ++ map (λ i. (reps i).value) (keep is_measured is);
    warnings =
        o.warnings
        ++ map (warning_of key render reps warmup_reps)
            (keep (λ i. is_measured i && is_short key render reps warmup_reps i) is);
  }

  extended_nil : (o : RepOutcome F) → o ≡ extended o []
  extended_nil o = λ k. record {
    samples = sym (append_nil o.samples) k;
    measured = sym (append_nil o.measured) k;
    warnings = sym (append_nil o.warnings) k;
  }

  extended_cons :
      (o : RepOutcome F) (i : ℕ) (is : List ℕ)
      → extended (add_rep key render reps warmup_reps i o) is ≡ extended o (i ∷ is)
  unfolding add_rep
  extended_cons o i is = λ k. record {
    samples =
        append_one o.samples (map (sample_of key render reps warmup_reps) is)
          (sample_of key render reps warmup_reps i) k;
    measured =
        append_unless (λ j. (reps j).value) (ltb i warmup_reps) o.measured i (keep is_measured is)
          k;
    warnings =
        append_if (warning_of key render reps warmup_reps)
          (is_measured i && is_short key render reps warmup_reps i) o.warnings i
          (keep (λ j. is_measured j && is_short key render reps warmup_reps j) is) k;
  }

  time_from-extended :
      (n i : ℕ) (o : RepOutcome F)
      → All (λ j. (reps j).is_cancelled ≡ false) (count_from i n)
      → time_from key render reps warmup_reps n i o ≡ ok (extended o (count_from i n))
  unfolding time_from
  time_from-extended zero i o h = ap ok (extended_nil o)
  time_from-extended (suc n) i o (c, h) = rw c (
      time_from-extended n (suc i) (add_rep key render reps warmup_reps i o) h
      ∙ ap ok (extended_cons o i (count_from (suc i) n)))

  measured_lem :
      (m : ℕ) → keep is_measured (count_from 0 (warmup_reps + m)) ≡ count_from warmup_reps m
  measured_lem m =
      keep-count_from warmup_reps is_measured (λ i. true) (λ i h. ap not (ltb_yes i warmup_reps h))
        (λ i h. ap not (ltb_no i warmup_reps h)) warmup_reps 0 m (zero_add warmup_reps)
      ∙ keep_all (count_from warmup_reps m)

  short_lem :
      (m : ℕ)
      → keep
          (λ i. is_measured i && is_short key render reps warmup_reps i)
          (count_from 0 (warmup_reps + m))
        ≡ keep (is_short key render reps warmup_reps) (count_from warmup_reps m)
  short_lem m =
      keep-count_from warmup_reps (λ i. is_measured i && is_short key render reps warmup_reps i)
        (is_short key render reps warmup_reps)
        (λ i h. ap (λ b. not b && is_short key render reps warmup_reps i) (ltb_yes i warmup_reps h))
        (λ i h. ap (λ b. not b && is_short key render reps warmup_reps i) (ltb_no i warmup_reps h))
        warmup_reps 0 m (zero_add warmup_reps)

  -- the sample of a repetition, flagged or not
  abbrev pub flagged : Bool → ℕ → MetricSample F
  flagged warmup rep = record {
    rep = rep;
    value = (reps rep).value;
    duration_ms = (reps rep).duration_ms;
    warmup = warmup;
  }

  flagged_after :
      (n i : ℕ)
      → warmup_reps ≤ i
      → map (sample_of key render reps warmup_reps) (count_from i n)
        ≡ map (flagged false) (count_from i n)
  unfolding sample_of
  flagged_after zero i h = refl
  flagged_after (suc n) i h =
      λ k. flagged (ltb_no i warmup_reps h k) i ∷ flagged_after n (suc i) (omega (arith, h)) k

  flagged_lem :
      (k i m : ℕ)
      → i + k ≡ warmup_reps
      → map (sample_of key render reps warmup_reps) (count_from i (k + m))
        ≡ map (flagged true) (count_from i k) ++ map (flagged false) (count_from warmup_reps m)
  unfolding sample_of
  flagged_lem zero i m h =
      ap (λ j. map (sample_of key render reps warmup_reps) (count_from i j)) (zero_add m)
      ∙ flagged_after m i (omega (arith, h))
      ∙ ap (λ j. map (flagged false) (count_from j m)) (omega (arith, h))
  flagged_lem (suc k) i m h =
      ap (λ j. map (sample_of key render reps warmup_reps) (count_from i j)) (suc_add k m) ∙ (λ x.
        flagged (ltb_yes i warmup_reps (omega (arith, h)) x) i
        ∷ flagged_lem k (suc i) m (omega (arith, h)) x)

  -- When the number of repetitions fits 32 bits and the run is not cancelled before one of them, the
  -- loop ends with a result: a sample of every repetition in order, numbered from 0, with its value and
  -- duration, those of the warm-ups flagged and the others not; the values of the repetitions after
  -- the warm-ups only; and a warning, with the metric's key, for each of those, and for no warm-up,
  -- that took less than 20 ms.
  pub time_reps_lem :
      (measured_reps : ℕ)
      → warmup_reps + measured_reps < 2 ^ 32
      → All (λ j. (reps j).is_cancelled ≡ false) (count_from 0 (warmup_reps + measured_reps))
      → time_reps key render reps warmup_reps measured_reps
        ≡ ok (record {
          samples =
              map (flagged true) (count_from 0 warmup_reps)
              ++ map (flagged false) (count_from warmup_reps measured_reps);
          measured = map (λ i. (reps i).value) (count_from warmup_reps measured_reps);
          warnings =
              map
                (λ i. record {
                  code = validation_failed;
                  message = render (reps i).duration_ms;
                  metric_key = some key;
                })
                (keep
                  (λ i. f.flt (reps i).duration_ms (f.lit 20 0))
                  (count_from warmup_reps measured_reps));
        })
  unfolding time_reps warning_of is_short
  time_reps_lem m h c =
      ap
        (λ n.
          time_from key render reps warmup_reps n 0
            (record { samples = []; measured = []; warnings = [] }))
        (small_mod (warmup_reps + m) h)
      ∙ time_from-extended (warmup_reps + m) 0
          (record { samples = []; measured = []; warnings = [] }) c
      ∙ ap (λ o. ok o)
          (λ k. record {
            samples = flagged_lem warmup_reps 0 m (zero_add warmup_reps) k;
            measured = map (λ i. (reps i).value) (measured_lem m k);
            warnings = map (warning_of key render reps warmup_reps) (short_lem m k);
          })
