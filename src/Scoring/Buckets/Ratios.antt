-- ===== src/Scoring/Buckets/Ratios.antt =====
-- What reaches the means of a card.
use darcbench.Base.{
  ℕ, ◌≡◌, refl, true, not, ◌||◌, Option, none, some, String, List, [], ◌∷◌, All, Bool-cases,
  Option-cases, inl, inr, arith, ◌==◌, nat_eq,
}
use darcbench.Base.Num.{Float, zero_f}
use darcbench.Base.Map.{Map}
use darcbench.Base.Map.Entries.{AllValues, modify-AllValues, All-append_one}
use darcbench.Protocol.Metrics.{Direction, Metric, ModuleResult, is_scoreable}
use darcbench.Scoring.Category.{category_eq, category_lt}
use darcbench.Scoring.Reference.{Facet, facet_eq, facet_lt, ReferencePoint, ReferenceProfile, get}
use darcbench.Scoring.Buckets.{
  Buckets, no_buckets, directed, accept_ratio, normalise, push_pair, push_facet, add_ratio,
  add_anchored, add_metrics, add_module, bucket_all,
}

module _ {F : Type 0} ⦃f : Float F⦄ where
  abbrev pub IsRatio : F → Type 0
  IsRatio r = (f.is_finite r ≡ true) × (f.flt zero_f r ≡ true)

  accept_ratio_lem : (o : Option F) (r : F) → accept_ratio o ≡ some r → IsRatio r
  unfolding accept_ratio
  accept_ratio_lem none r h = absurd (ground arith)
  accept_ratio_lem (some x) r h = ground arith

  -- A value that is normalised becomes a finite ratio above zero, whatever the metric and the anchor.
  pub normalise_lem : (v a : F) (d : Direction) (r : F) → normalise v a d ≡ some r → IsRatio r
  unfolding normalise
  normalise_lem v a d r h =
      elim (Bool-cases (not (f.is_finite v) || (not (f.is_finite a) || f.fle a zero_f))) [
        | inl e ↦ absurd (ground (arith, rw e at h))
        | inr e ↦ accept_ratio_lem (directed d v a) r (rw e at h)
      ]

  module _ (reference : ReferenceProfile F) where
    -- the weight of some anchor of the reference
    abbrev pub IsWeight : F → Type 0
    IsWeight w =
        (id key : String) × (p : ReferencePoint F) × (get reference id key ≡ some p)
        × (w ≡ p.weight)

    abbrev pub IsRated : F × F → Type 0
    IsRated (r, w) = IsRatio r × IsWeight w

    -- Every pair of a bucket is a finite ratio above zero, with the weight of an anchor.
    pub record HasRatios (b : Buckets F) : Type 0 where
      pub in_category : AllValues (All IsRated) b.by_category
      pub in_facet : AllValues (All IsRated) b.by_facet

    push-All :
        (p : F × F) (ps : List (F × F)) → IsRated p → All IsRated ps → All IsRated (push_pair p ps)
    unfolding push_pair
    push-All p ps r h = All-append_one IsRated ps p h r

    push_facet-All :
        (o : Option Facet) (p : F × F) (m : Map Facet (List (F × F)))
        → IsRated p
        → AllValues (All IsRated) m
        → AllValues (All IsRated) (push_facet o p m)
    unfolding push_facet
    push_facet-All none p m r h = h
    push_facet-All (some c) p m r h =
        modify-AllValues (All IsRated) c [] (push_pair p) m (push-All p [] r tt)
          (λ ps k. push-All p ps r k) h

    add_ratio-HasRatios :
        (id key : String) (p : ReferencePoint F) (r : Option F) (b : Buckets F)
        → get reference id key ≡ some p
        → ((x : F) → r ≡ some x → IsRatio x)
        → HasRatios b
        → HasRatios (add_ratio id key p r b)
    unfolding add_ratio
    add_ratio-HasRatios id key p none b e g h = record {
      in_category = h.in_category;
      in_facet = h.in_facet;
    }
    add_ratio-HasRatios id key p (some x) b e g h =
        let rated : IsRated (x, p.weight) = (g x refl, (id, key, p, e, refl)) in
        record {
          in_category =
              modify-AllValues (All IsRated) p.category [] (push_pair (x, p.weight)) b.by_category
                (push-All (x, p.weight) [] rated tt) (λ ps k. push-All (x, p.weight) ps rated k)
                h.in_category;
          in_facet = push_facet-All p.facet (x, p.weight) b.by_facet rated h.in_facet;
        }

    add_anchored-HasRatios :
        (id : String) (m : Metric F) (b : Buckets F)
        → HasRatios b
        → HasRatios (add_anchored id m (get reference id m.key) b)
    unfolding add_anchored
    add_anchored-HasRatios id m b h = elim (Option-cases (get reference id m.key)) [
      | inl e ↦ rw e (record { in_category = h.in_category; in_facet = h.in_facet })
      | inr (p, e) ↦ rw e (
          add_ratio-HasRatios id m.key p (normalise m.value p.value p.direction) _ e
            (λ x q. normalise_lem m.value p.value p.direction x q)
            (record { in_category = h.in_category; in_facet = h.in_facet }))
    ]

    add_metrics-HasRatios :
        (id : String) (ms : List (Metric F)) (b : Buckets F)
        → HasRatios b
        → HasRatios (add_metrics reference id ms b)
    unfolding add_metrics
    add_metrics-HasRatios id [] b h = h
    add_metrics-HasRatios id (m ∷ ms) b h =
        add_metrics-HasRatios id ms (add_anchored id m (get reference id m.key) b)
          (add_anchored-HasRatios id m b h)

    add_module-HasRatios :
        (c : ℕ) (m : ModuleResult F) (b : Buckets F)
        → HasRatios b
        → HasRatios (add_module reference c m b)
    unfolding add_module
    add_module-HasRatios c m b h =
        let filled = add_metrics-HasRatios m.id m.metrics b h in
        elim (Bool-cases (is_scoreable m.status)) [
          | inl e ↦ elim (Bool-cases (m.cycle == c)) [
            | inl q ↦
                rw (e, q) (record { in_category = filled.in_category; in_facet = filled.in_facet })
            | inr q ↦ rw (e, q) h
          ]
          | inr e ↦ rw e h
        ]

    bucket_all_from-HasRatios :
        (c : ℕ) (ms : List (ModuleResult F)) (b : Buckets F)
        → HasRatios b
        → HasRatios (bucket_all reference c ms b)
    unfolding bucket_all
    bucket_all_from-HasRatios c [] b h = h
    bucket_all_from-HasRatios c (m ∷ ms) b h =
        bucket_all_from-HasRatios c ms (add_module reference c m b) (add_module-HasRatios c m b h)

    -- Whatever a run measured, every pair that the means of its categories and facets are taken over
    -- is a finite ratio above zero with the weight of an anchor of the reference.
    pub bucket_all-HasRatios :
        (c : ℕ) (ms : List (ModuleResult F)) → HasRatios (bucket_all reference c ms no_buckets)
    unfolding no_buckets
    bucket_all-HasRatios c ms =
        bucket_all_from-HasRatios c ms no_buckets (record { in_category = tt; in_facet = tt })
