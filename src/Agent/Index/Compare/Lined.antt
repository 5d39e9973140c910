-- ===== src/Agent/Index/Compare/Lined.antt =====
-- What becomes of each metric of two runs that are compared.
use Prim.Native.String
use darcbench.Base.{
  ◌∙◌, ◌+◌, ◌≡◌, refl, ap, sym, subst, ◌↔◌, ◌⊎◌, inl, inr, true, false, ◌||◌, Option, none, some,
  String, List, [], ◌∷◌, ◌++◌, map, length, length-append, In, In-append, Bool-cases, string_eq,
  arith,
}
use darcbench.Base.Map.{Map, string_lt, lookup}
use darcbench.Base.Num.{Float, zero_f}
use darcbench.Base.Result.{Result, ok, err}
use darcbench.Agent.Index.Compare.Unmatched.{
  gain, gain_lem, IsMissed, IsAlone, alone, unmatched_iff,
}
use darcbench.Agent.Index.Compare.{
  IndexedMetric, MetricDelta, Lines, Stored, adjusted_ratio, delta_of, line_up, put_line,
  line_up_all, only_in, insert_text, sort_texts, metrics_of, compare,
}

length-map : {A B : Type 0} (g : A → B) (xs : List A) → length (map g xs) ≡ length xs
length-map g [] = refl
length-map g (x ∷ xs) = omega (arith, length-map g xs)

length-insert_text : (s : String) (ts : List String) → length (insert_text s ts) ≡ 1 + length ts
unfolding insert_text
length-insert_text s [] = refl
length-insert_text s (t ∷ ts) = ground (arith, length-insert_text s ts)

length-sort_texts : (ts : List String) → length (sort_texts ts) ≡ length ts
unfolding sort_texts
length-sort_texts [] = refl
length-sort_texts (t ∷ ts) =
    omega (arith, length-insert_text t (sort_texts ts), length-sort_texts ts)

module _ {F : Type 0} ⦃f : Float F⦄ where
  -- Two measurements that make a row: both positive, with a finite ratio.
  pub record IsPair (left : IndexedMetric F) (o : Option (IndexedMetric F)) (d : MetricDelta F)
      : Type 0 where
    pub right : IndexedMetric F
    pub found : o ≡ some right
    pub left_positive : f.fle left.value zero_f ≡ false
    pub right_positive : f.fle right.value zero_f ≡ false
    pub finite : f.is_finite d.ratio ≡ true
    pub module_id : d.module_id ≡ left.module_id
    pub metric_key : d.metric_key ≡ left.metric_key
    pub unit : d.unit ≡ left.unit
    pub baseline : d.baseline ≡ left.value
    pub candidate : d.candidate ≡ right.value
    pub ratio : d.ratio ≡ gain left.direction left.value right.value

  delta_of-IsPair :
      (left right : IndexedMetric F) (d : MetricDelta F)
      → f.fle left.value zero_f ≡ false
      → f.fle right.value zero_f ≡ false
      → f.is_finite (adjusted_ratio left right) ≡ true
      → d ≡ delta_of left right
      → IsPair left (some right) d
  unfolding delta_of
  delta_of-IsPair left right d a b q e = record {
    right = right;
    found = refl;
    left_positive = a;
    right_positive = b;
    finite = ap (λ (x : MetricDelta F). f.is_finite x.ratio) e ∙ q;
    module_id = ap (λ (x : MetricDelta F). x.module_id) e;
    metric_key = ap (λ (x : MetricDelta F). x.metric_key) e;
    unit = ap (λ (x : MetricDelta F). x.unit) e;
    baseline = ap (λ (x : MetricDelta F). x.baseline) e;
    candidate = ap (λ (x : MetricDelta F). x.candidate) e;
    ratio = ap (λ (x : MetricDelta F). x.ratio) e ∙ gain_lem left right;
  }

  delta_of_lem :
      (left : IndexedMetric F) (o : Option (IndexedMetric F)) (d : MetricDelta F)
      (h : IsPair left o d)
      → d ≡ delta_of left h.right
  unfolding delta_of
  delta_of_lem left o d h = λ k. record {
    module_id = h.module_id k;
    metric_key = h.metric_key k;
    unit = h.unit k;
    baseline = h.baseline k;
    candidate = h.candidate k;
    ratio = (h.ratio ∙ sym (gain_lem left h.right)) k;
  }

  finite_lem :
      (left : IndexedMetric F) (o : Option (IndexedMetric F)) (d : MetricDelta F)
      (h : IsPair left o d)
      → f.is_finite (adjusted_ratio left h.right) ≡ true
  finite_lem left o d h = ap f.is_finite (gain_lem left h.right ∙ sym h.ratio) ∙ h.finite

  line_up-IsPair :
      (k : String) (left : IndexedMetric F) (o : Option (IndexedMetric F)) (d : MetricDelta F)
      → line_up k left o ≡ ok d
      → IsPair left o d
  unfolding line_up
  line_up-IsPair k left none d h = cc
  line_up-IsPair k left (some right) d h =
      elim (Bool-cases (f.fle left.value zero_f || f.fle right.value zero_f)) [
        | inl e ↦ cc (rw e at h)
        | inr e ↦ elim (Bool-cases (f.is_finite (adjusted_ratio left right))) [
          | inr q ↦ cc (rw (e, q) at h)
          | inl q ↦
              let p : ok (delta_of left right) ≡ ok d = rw (e, q) at h in
              delta_of-IsPair left right d (ground arith) (ground arith) q (cc p)
        ]
      ]

  line_up_of :
      (k : String) (left : IndexedMetric F) (o : Option (IndexedMetric F)) (d : MetricDelta F)
      → IsPair left o d
      → line_up k left o ≡ ok d
  unfolding line_up
  line_up_of k left o d h =
      rw (h.found, h.left_positive, h.right_positive, finite_lem left o d h)
        (ap ok (sym (delta_of_lem left o d h)))

  In-put_line :
      (r : Result String (MetricDelta F)) (t : Lines F) (d : MetricDelta F)
      → In d (put_line r t).0 ↔ (In d (t.0) ⊎ (r ≡ ok d))
  unfolding put_line
  In-put_line (err note) (ds, us) d =
      (λ m. inl m, λ h. elim h [ inl m ↦ m | inr e ↦ absurd (cc e) ])
  In-put_line (ok x) (ds, us) d = (
    λ m. elim ((In-append ds (x ∷ []) d).0 m) [
      | inl k ↦ inl k
      | inr k ↦ elim k [ inl e ↦ inr (ap ok (sym e)) | inr b ↦ absurd b ]
    ],
    λ h. (In-append ds (x ∷ []) d).1 (elim h [ inl m ↦ inl m | inr e ↦ inr (inl (cc e)) ]),
  )

  length-put_line :
      (r : Result String (MetricDelta F)) (t : Lines F)
      → length ((put_line r t).0) + length ((put_line r t).1) ≡ length (t.0) + length (t.1) + 1
  unfolding put_line
  length-put_line (err note) (ds, us) = omega (arith, length-append us (note ∷ []))
  length-put_line (ok x) (ds, us) = omega (arith, length-append ds (x ∷ []))

  module _ (candidate : Map String (IndexedMetric F)) where
    -- A row of the comparison, and the metrics of the two runs that it is made of.
    pub record IsRow (m : Map String (IndexedMetric F)) (d : MetricDelta F) : Type 0 where
      pub key : String
      pub left : IndexedMetric F
      pub listed : In (key, left) m
      pub pair : IsPair left (lookup key candidate) d

    length-line_up_all :
        (m : Map String (IndexedMetric F)) (t : Lines F)
        → length ((line_up_all candidate m t).0) + length ((line_up_all candidate m t).1)
          ≡ length (t.0) + length (t.1) + length m
    unfolding line_up_all
    length-line_up_all [] t = omega arith
    length-line_up_all ((k, l) ∷ m) t =
        let r = line_up k l (lookup k candidate) in
        omega (arith, length-line_up_all m (put_line r t), length-put_line r t)

    line_up_all-IsRow :
        (m : Map String (IndexedMetric F)) (t : Lines F) (d : MetricDelta F)
        → In d (line_up_all candidate m t).0
        → In d (t.0) ⊎ IsRow m d
    unfolding line_up_all
    line_up_all-IsRow [] t d i = inl i
    line_up_all-IsRow ((k, l) ∷ m) t d i =
        let r = line_up k l (lookup k candidate) in
        elim (line_up_all-IsRow m (put_line r t) d i) [
          | inr h ↦
              inr (record { key = h.key; left = h.left; listed = inr h.listed; pair = h.pair })
          | inl j ↦ elim ((In-put_line r t d).0 j) [
            | inl a ↦ inl a
            | inr e ↦ inr (record {
              key = k;
              left = l;
              listed = inl refl;
              pair = line_up-IsPair k l (lookup k candidate) d e;
            })
          ]
        ]

    line_up_all_of :
        (m : Map String (IndexedMetric F)) (t : Lines F) (d : MetricDelta F)
        → In d (t.0) ⊎ IsRow m d
        → In d (line_up_all candidate m t).0
    unfolding line_up_all
    line_up_all_of [] t d (inl a) = a
    line_up_all_of [] t d (inr h) = absurd h.listed
    line_up_all_of ((k, l) ∷ m) t d (inl a) =
        let r = line_up k l (lookup k candidate) in
        line_up_all_of m (put_line r t) d (inl ((In-put_line r t d).1 (inl a)))
    line_up_all_of ((k, l) ∷ m) t d (inr h) =
        let r = line_up k l (lookup k candidate) in
        line_up_all_of m (put_line r t) d (elim h.listed [
          | inr i ↦ inr (record { key = h.key; left = h.left; listed = i; pair = h.pair })
          | inl e ↦ inl (
              (In-put_line r t d).1 (
                inr (
                  line_up_of k l (lookup k candidate) d (
                    subst
                      (λ (p : String × IndexedMetric F). IsPair (p.1) (lookup (p.0) candidate) d) e
                      h.pair))))
        ])

  -- The table of a comparison has a row exactly for each key that both runs have with two positive
  -- values and a finite ratio: its module, key, unit and first value are those of the baseline, its
  -- second value is that of the candidate, and its ratio is the second by the first where more is
  -- better, and the first by the second where less is. A key of the baseline without a row, and a key
  -- that only the candidate has, is named with the reason, and nothing else is; rows and names are
  -- together as many as the keys of the baseline and those that only the candidate has.
  pub compare_iff :
      (b c : Stored F) (d : MetricDelta F) (n : String)
      → (In d (compare b c).metrics ↔ IsRow (metrics_of c.metrics) (metrics_of b.metrics) d)
        × (In n (compare b c).unmatched ↔ (
            IsMissed (metrics_of c.metrics) (metrics_of b.metrics) n
            ⊎ IsAlone (metrics_of b.metrics) (metrics_of c.metrics) n))
        × (length (compare b c).metrics + length (compare b c).unmatched
            ≡ length (metrics_of b.metrics)
              + length (only_in (metrics_of b.metrics) (metrics_of c.metrics)))
  unfolding compare
  compare_iff b c d n =
      let left = metrics_of b.metrics in
      let right = metrics_of c.metrics in
      let t = line_up_all right left ([], []) in
      (
        (
          λ i. elim (line_up_all-IsRow right left ([], []) d i) [ inl a ↦ absurd a | inr h ↦ h ],
          λ h. line_up_all_of right left ([], []) d (inr h),
        ),
        unmatched_iff left right n,
        omega (
          arith,
          length-line_up_all right left ([], []),
          length-sort_texts (t.1 ++ alone left right),
          length-append (t.1) (alone left right),
          length-map (λ (k : String). String.◌++◌ k " (candidate only)") (only_in left right),
        ),
      )
