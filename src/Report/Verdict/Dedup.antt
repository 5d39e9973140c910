-- ===== src/Report/Verdict/Dedup.antt =====
-- The stable removal of duplicates at the end of `validate_bundle`.
use darcbench.Base.{
  ◌≡◌, refl, inl, inr, Bool, true, false, ◌||◌, List, [], ◌∷◌, ◌++◌, any, any-append, any-In,
  In-any, Bool-cases, ◌==◌, eq_of_beq, arith,
}
use darcbench.Protocol.Run.{VerdictReason, reason_eq}
use darcbench.Report.Verdict.{dedup_onto}

abbrev pub has : List VerdictReason → VerdictReason → Bool
has seen r = any (λ s. s == r) seen

any-of_has :
    (p : VerdictReason → Bool) (seen : List VerdictReason) (r : VerdictReason)
    → has seen r ≡ true
    → p r ≡ true
    → any p seen ≡ true
any-of_has p seen r h q =
    let (s, m, e) = any-In (λ s. s == r) seen h in In-any p seen s m (rw (eq_of_beq s r e) q)

-- A test that some reason passes is not changed.
pub any-dedup_onto :
    (p : VerdictReason → Bool) (seen rs : List VerdictReason)
    → any p (dedup_onto seen rs) ≡ (any p seen || any p rs)
unfolding dedup_onto
any-dedup_onto p seen [] = ground arith
any-dedup_onto p seen (r ∷ rs) = elim (Bool-cases (has seen r)) [
  | inl e ↦ rw e (ground (arith, any-dedup_onto p seen rs, any-of_has p seen r e))
  | inr e ↦
      rw e (ground (arith, any-dedup_onto p (seen ++ (r ∷ [])) rs, any-append p seen (r ∷ [])))
]

-- No element stands twice.
abbrev pub IsDistinct : List VerdictReason → Type 0
IsDistinct [] = Unit
IsDistinct (r ∷ rs) = (has rs r ≡ false) × IsDistinct rs

has-append_one :
    (seen : List VerdictReason) (r s : VerdictReason)
    → has (seen ++ (s ∷ [])) r ≡ (has seen r || s == r)
has-append_one seen r s = ground (arith, any-append (λ x. x == r) seen (s ∷ []))

beq_sym : (r s : VerdictReason) → (r == s) ≡ (s == r)
beq_sym r s = ground (arith, reason_eq.beq_iff r s, reason_eq.beq_iff s r)

IsDistinct-append_one :
    (seen : List VerdictReason) (r : VerdictReason)
    → IsDistinct seen
    → has seen r ≡ false
    → IsDistinct (seen ++ (r ∷ []))
IsDistinct-append_one [] r d h = (refl, tt)
IsDistinct-append_one (s ∷ seen) r d h = (
  ground (arith, has-append_one seen s r, beq_sym r s),
  IsDistinct-append_one seen r d.1 (ground arith),
)

pub dedup_onto-IsDistinct :
    (seen rs : List VerdictReason) → IsDistinct seen → IsDistinct (dedup_onto seen rs)
unfolding dedup_onto
dedup_onto-IsDistinct seen [] d = d
dedup_onto-IsDistinct seen (r ∷ rs) d = elim (Bool-cases (has seen r)) [
  | inl e ↦ rw e (dedup_onto-IsDistinct seen rs d)
  | inr e ↦ rw e (dedup_onto-IsDistinct (seen ++ (r ∷ [])) rs (IsDistinct-append_one seen r d e))
]

-- The reasons reported are those found, each once.
dedup_onto_lem :
    (rs : List VerdictReason) (r : VerdictReason)
    → IsDistinct (dedup_onto [] rs) × (has (dedup_onto [] rs) r ≡ has rs r)
dedup_onto_lem rs r = (dedup_onto-IsDistinct [] rs tt, any-dedup_onto (λ s. s == r) [] rs)
