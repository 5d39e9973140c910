-- ===== src/Agent/Index/Compare/Unmatched.antt =====
-- What two runs that are compared have without a row, and how it is named.
use Prim.Native.String
use darcbench.Base.{
  ◌≡◌, refl, ap, sym, ◌∙◌, ◌↔◌, ◌⊎◌, subst, inl, inr, Bool, true, false, not, ◌||◌, Option, none,
  some, String, List, [], ◌∷◌, ◌++◌, map, keep-In, In-map, In, In-append, Bool-cases, is_some,
  string_eq,
}
use darcbench.Base.Map.{Map, string_lt, lookup}
use darcbench.Base.Num.{Float, zero_f}
use darcbench.Base.Result.{Result, ok, err}
use darcbench.Protocol.Metrics.{Direction, higher_is_better, lower_is_better}
use darcbench.Agent.Index.Compare.{
  IndexedMetric, MetricDelta, Lines, adjusted_ratio, line_up, put_line, line_up_all, only_in,
  insert_text, sort_texts,
}

In-insert_text :
    (s : String) (ts : List String) (n : String) → In n (insert_text s ts) ↔ In n (s ∷ ts)
unfolding insert_text
In-insert_text s [] n = (λ m. m, λ m. m)
In-insert_text s (t ∷ ts) n = elim (Bool-cases (string_lt.lt s t)) [
  | inl e ↦ rw e (λ m. m, λ m. m)
  | inr e ↦ rw e (
    λ m. elim m [
      | inl q ↦ inr (inl q)
      | inr k ↦ elim ((In-insert_text s ts n).0 k) [ inl q ↦ inl q | inr j ↦ inr (inr j) ]
    ],
    λ m. elim m [
      | inl q ↦ inr ((In-insert_text s ts n).1 (inl q))
      | inr k ↦ elim k [ inl q ↦ inl q | inr j ↦ inr ((In-insert_text s ts n).1 (inr j)) ]
    ],
  )
]

pub In-sort_texts : (ts : List String) (n : String) → In n (sort_texts ts) ↔ In n ts
unfolding sort_texts
In-sort_texts [] n = (λ m. m, λ m. m)
In-sort_texts (t ∷ ts) n = (
  λ m. elim ((In-insert_text t (sort_texts ts) n).0 m) [
    | inl q ↦ inl q
    | inr k ↦ inr ((In-sort_texts ts n).0 k)
  ],
  λ m.
      (In-insert_text t (sort_texts ts) n).1
        (elim m [ inl q ↦ inl q | inr k ↦ inr ((In-sort_texts ts n).1 k) ]),
)

map-In : {A B : Type 0} (g : A → B) (xs : List A) (a : A) → In a xs → In (g a) (map g xs)
map-In g [] a m = absurd m
map-In g (x ∷ xs) a (inl e) = inl (ap g e)
map-In g (x ∷ xs) a (inr m) = inr (map-In g xs a m)

none_of : {A : Type 0} (o : Option A) → not (is_some o) ≡ true → o ≡ none
none_of none h = refl
none_of (some a) h = cc h

module _ {F : Type 0} ⦃f : Float F⦄ where
  -- How many times better the second value is, by what the metric counts.
  unfoldable pub gain : Direction → F → F → F
  gain higher_is_better before after = f.div after before
  gain lower_is_better before after = f.div before after

  gain_of :
      (d : Direction) (x y : F)
      → (elim d [ higher_is_better ↦ f.div y x | lower_is_better ↦ f.div x y ]) ≡ gain d x y
  unfolding gain
  gain_of higher_is_better x y = refl
  gain_of lower_is_better x y = refl

  pub gain_lem :
      (left right : IndexedMetric F)
      → adjusted_ratio left right ≡ gain left.direction left.value right.value
  unfolding adjusted_ratio
  gain_lem left right = gain_of left.direction left.value right.value

  -- Why a metric of the baseline has no row, and what is said of it.
  pub data IsNote (key : String) (left : IndexedMetric F) (o : Option (IndexedMetric F))
      (n : String) : Type 0 where
    lacking : o ≡ none → n ≡ String.◌++◌ key " (baseline only)" → IsNote key left o n
    not_positive :
        (right : IndexedMetric F)
        → o ≡ some right
        → (f.fle left.value zero_f || f.fle right.value zero_f) ≡ true
        → n ≡ String.◌++◌ key " (not a positive measurement in both runs)"
        → IsNote key left o n
    not_finite :
        (right : IndexedMetric F)
        → o ≡ some right
        → (f.fle left.value zero_f || f.fle right.value zero_f) ≡ false
        → f.is_finite (gain left.direction left.value right.value) ≡ false
        → n ≡ String.◌++◌ key " (ratio is not finite)"
        → IsNote key left o n

  finite_of :
      (left right : IndexedMetric F) (b : Bool)
      → f.is_finite (adjusted_ratio left right) ≡ b
      → f.is_finite (gain left.direction left.value right.value) ≡ b
  finite_of left right b e = sym (ap f.is_finite (gain_lem left right)) ∙ e

  line_up-IsNote :
      (k : String) (left : IndexedMetric F) (o : Option (IndexedMetric F)) (n : String)
      → line_up k left o ≡ err n
      → IsNote k left o n
  unfolding line_up
  line_up-IsNote k left none n h = lacking refl (cc h)
  line_up-IsNote k left (some right) n h =
      elim (Bool-cases (f.fle left.value zero_f || f.fle right.value zero_f)) [
        | inl e ↦
            let p : err (String.◌++◌ k " (not a positive measurement in both runs)") ≡ err n =
              rw e at h in
            not_positive right refl e (cc p)
        | inr e ↦ elim (Bool-cases (f.is_finite (adjusted_ratio left right))) [
          | inl q ↦ cc (rw (e, q) at h)
          | inr q ↦
              let p : err (String.◌++◌ k " (ratio is not finite)") ≡ err n = rw (e, q) at h in
              not_finite right refl e (finite_of left right false q) (cc p)
        ]
      ]

  noted :
      (k : String) (left : IndexedMetric F) (o : Option (IndexedMetric F)) (n : String)
      → IsNote k left o n
      → line_up k left o ≡ err n
  unfolding line_up
  noted k left o n (lacking e q) = rw e (ap err (sym q))
  noted k left o n (not_positive right e p q) = rw (e, p) (ap err (sym q))
  noted k left o n (not_finite right e p g q) =
      let i : f.is_finite (adjusted_ratio left right) ≡ false =
        ap f.is_finite (gain_lem left right) ∙ g in
      rw (e, p, i) (ap err (sym q))

  In-put_line_note :
      (r : Result String (MetricDelta F)) (t : Lines F) (n : String)
      → In n (put_line r t).1 ↔ (In n (t.1) ⊎ (r ≡ err n))
  unfolding put_line
  In-put_line_note (ok x) (ds, us) n =
      (λ m. inl m, λ h. elim h [ inl m ↦ m | inr e ↦ absurd (cc e) ])
  In-put_line_note (err x) (ds, us) n = (
    λ m. elim ((In-append us (x ∷ []) n).0 m) [
      | inl k ↦ inl k
      | inr k ↦ elim k [ inl e ↦ inr (ap err (sym e)) | inr b ↦ absurd b ]
    ],
    λ h. (In-append us (x ∷ []) n).1 (elim h [ inl m ↦ inl m | inr e ↦ inr (inl (cc e)) ]),
  )

  module _ (candidate : Map String (IndexedMetric F)) where
    -- A metric of the baseline that has no row, and what is said of it.
    pub record IsMissed (m : Map String (IndexedMetric F)) (n : String) : Type 0 where
      pub key : String
      pub left : IndexedMetric F
      pub listed : In (key, left) m
      pub note : IsNote key left (lookup key candidate) n

    pub line_up_all-IsMissed :
        (m : Map String (IndexedMetric F)) (t : Lines F) (n : String)
        → In n (line_up_all candidate m t).1
        → In n (t.1) ⊎ IsMissed m n
    unfolding line_up_all
    line_up_all-IsMissed [] t n i = inl i
    line_up_all-IsMissed ((k, l) ∷ m) t n i =
        let r = line_up k l (lookup k candidate) in
        elim (line_up_all-IsMissed m (put_line r t) n i) [
          | inr h ↦
              inr (record { key = h.key; left = h.left; listed = inr h.listed; note = h.note })
          | inl j ↦ elim ((In-put_line_note r t n).0 j) [
            | inl a ↦ inl a
            | inr e ↦ inr (record {
              key = k;
              left = l;
              listed = inl refl;
              note = line_up-IsNote k l (lookup k candidate) n e;
            })
          ]
        ]

    pub missed :
        (m : Map String (IndexedMetric F)) (t : Lines F) (n : String)
        → In n (t.1) ⊎ IsMissed m n
        → In n (line_up_all candidate m t).1
    unfolding line_up_all
    missed [] t n (inl a) = a
    missed [] t n (inr h) = absurd h.listed
    missed ((k, l) ∷ m) t n (inl a) =
        let r = line_up k l (lookup k candidate) in
        missed m (put_line r t) n (inl ((In-put_line_note r t n).1 (inl a)))
    missed ((k, l) ∷ m) t n (inr h) =
        let r = line_up k l (lookup k candidate) in
        missed m (put_line r t) n (elim h.listed [
          | inr i ↦ inr (record { key = h.key; left = h.left; listed = i; note = h.note })
          | inl e ↦ inl (
              (In-put_line_note r t n).1 (
                inr (
                  noted k l (lookup k candidate) n (
                    subst
                      (λ (p : String × IndexedMetric F).
                        IsNote (p.0) (p.1) (lookup (p.0) candidate) n)
                      e h.note))))
        ])

  -- A metric that only the candidate has, and what is said of it.
  pub record IsAlone (left right : Map String (IndexedMetric F)) (n : String) : Type 0 where
    pub key : String
    pub metric : IndexedMetric F
    pub listed : In (key, metric) right
    pub lacking : lookup key left ≡ none
    pub note : n ≡ String.◌++◌ key " (candidate only)"

  abbrev pub alone : Map String (IndexedMetric F) → Map String (IndexedMetric F) → List String
  alone left right = map (λ (k : String). String.◌++◌ k " (candidate only)") (only_in left right)

  alone-IsAlone :
      (left right : Map String (IndexedMetric F)) (n : String)
      → In n (alone left right)
      → IsAlone left right n
  alone-IsAlone left right n i =
      let (k, j, e) =
        In-map (λ (k : String). String.◌++◌ k " (candidate only)") (only_in left right) n i in
      let (l, s) =
        (keep-In (λ (k : String). not (is_some (lookup k left)))
            (map (λ (p : String × IndexedMetric F). p.0) right) k).0
          j in
      let (p, h, q) = In-map (λ (p : String × IndexedMetric F). p.0) right k l in
      record {
        key = p.0;
        metric = p.1;
        listed = h;
        lacking = none_of (lookup (p.0) left) (ap (λ x. not (is_some (lookup x left))) (sym q) ∙ s);
        note = e ∙ ap (λ x. String.◌++◌ x " (candidate only)") q;
      }

  IsAlone-alone :
      (left right : Map String (IndexedMetric F)) (n : String)
      → IsAlone left right n
      → In n (alone left right)
  IsAlone-alone left right n h =
      let l = map-In (λ (p : String × IndexedMetric F). p.0) right (h.key, h.metric) h.listed in
      let s : not (is_some (lookup h.key left)) ≡ true = ap (λ o. not (is_some o)) h.lacking in
      let j =
        (keep-In (λ (k : String). not (is_some (lookup k left)))
            (map (λ (p : String × IndexedMetric F). p.0) right) h.key).1
          (l, s) in
      subst (λ x. In x (alone left right)) (sym h.note)
        (map-In (λ (k : String). String.◌++◌ k " (candidate only)") (only_in left right) h.key j)

  -- All that is said.
  pub unmatched_iff :
      (left right : Map String (IndexedMetric F)) (n : String)
      → In n (sort_texts ((line_up_all right left ([], [])).1 ++ alone left right))
        ↔ (IsMissed right left n ⊎ IsAlone left right n)
  unmatched_iff left right n =
      let notes = (line_up_all right left ([], [])).1 in
      (
        λ i.
            elim ((In-append notes (alone left right) n).0
              ((In-sort_texts (notes ++ alone left right) n).0 i)) [
                | inr a ↦ inr (alone-IsAlone left right n a)
                | inl m ↦ elim (line_up_all-IsMissed right left ([], []) n m) [
                  | inl b ↦ absurd b
                  | inr h ↦ inl h
                ]
              ],
        λ h. (In-sort_texts (notes ++ alone left right) n).1 (
            (In-append notes (alone left right) n).1 (elim h [
              | inl m ↦ inl (missed right left ([], []) n (inr m))
              | inr a ↦ inr (IsAlone-alone left right n a)
            ])),
      )
