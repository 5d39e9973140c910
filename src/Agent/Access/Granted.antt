-- ===== src/Agent/Access/Granted.antt =====
-- What a request that changes something has shown.
use darcbench.Base.{
  ℕ, ◌≡◌, refl, sym, ap, ◌∙◌, ◌↔◌, true, false, Option, none, some, List, [], ◌∷◌, length,
  if◌then◌else◌, nat_beq, All, Bool-cases, Option-cases, inl, inr, arith,
}
use darcbench.Base.Result.{ok}
use darcbench.Base.Text.{trim, trim_start, trim_end, after_prefix, is_space}
use darcbench.Protocol.External.Token.Matches.{IsByte, difference_from_iff}
use darcbench.Agent.Access.{
  AccessToken, Headers, token_matches, bearer, is_bearer, authenticate, permit, require,
}

All-trim_start : (s : List ℕ) → All IsByte s → All IsByte (trim_start s)
All-trim_start [] h = tt
All-trim_start (c ∷ s) (b, h) = elim (Bool-cases (is_space c)) [
  | inl e ↦ rw e (All-trim_start s h)
  | inr e ↦ rw e (b, h)
]

trim_end_step :
    (c : ℕ) (s r : List ℕ)
    → trim_end s ≡ r
    → trim_end (c ∷ s) ≡ (elim r [ [] ↦ if is_space c then [] else c ∷ [] | d ∷ q ↦ c ∷ d ∷ q ])
trim_end_step c s r e =
    ap (λ x. elim x [ [] ↦ if is_space c then [] else c ∷ [] | d ∷ q ↦ c ∷ d ∷ q ]) e

All-trim_end : (s : List ℕ) → All IsByte s → All IsByte (trim_end s)
All-trim_end [] h = tt
All-trim_end (c ∷ s) (b, h) = step (trim_end s) (All-trim_end s h)
  where
    step :
        (r : List ℕ)
        → All IsByte r
        → All IsByte (elim r [ [] ↦ if is_space c then [] else c ∷ [] | d ∷ q ↦ c ∷ d ∷ q ])
    step [] k = elim (Bool-cases (is_space c)) [ inl e ↦ rw e tt | inr e ↦ rw e (b, tt) ]
    step (d ∷ q) k = (b, k)

All-trim : (s : List ℕ) → All IsByte s → All IsByte (trim s)
All-trim s h = All-trim_end (trim_start s) (All-trim_start s h)

after_prefix-All :
    (p s rest : List ℕ) → after_prefix p s ≡ some rest → All IsByte s → All IsByte rest
after_prefix-All [] s rest e h = rw (some_inj s rest e) at h
  where
    some_inj : (x y : List ℕ) → some x ≡ some y → x ≡ y
    some_inj x y q = cc
after_prefix-All (b ∷ p) [] rest e h = absurd (cc)
after_prefix-All (b ∷ p) (c ∷ s) rest e h = elim (Bool-cases (nat_beq b c)) [
  | inl y ↦ after_prefix-All p s rest (rw y at e) (h.1)
  | inr n ↦ absurd (none_some rest (rw n at e))
]
  where
    none_some : (x : List ℕ) → none ≡ some x → ⊥
    none_some x q = cc

token_matches_iff :
    (t : AccessToken) (c : List ℕ)
    → All IsByte t.text
    → All IsByte c
    → (token_matches t c ≡ true) ↔ (c ≡ t.text)
unfolding token_matches
token_matches_iff t c ht hc = (
  λ e.
      let d = difference_from_iff t.text c 0 (omega arith) (ground (arith, e)) ht hc in
      sym (d.0 (ground (arith, e))).1,
  λ e.
      let d = difference_from_iff t.text c 0 (omega arith) (ap length (sym e)) ht hc in
      ground (arith, d.1 (refl, sym e), ap length e),
)

-- The bytes of the header, where it is there.
abbrev pub bytes_of : Option (List ℕ) → List ℕ
bytes_of none = []
bytes_of (some s) = s

is_bearer-some :
    (t : AccessToken) (value rest : List ℕ)
    → after_prefix bearer value ≡ some rest
    → is_bearer t (some value) ≡ token_matches t (trim rest)
unfolding is_bearer
is_bearer-some t value rest e =
    ap (λ o. elim o [ none ↦ false | some r ↦ token_matches t (trim r) ]) e

is_bearer-none :
    (t : AccessToken) (value : List ℕ)
    → after_prefix bearer value ≡ none
    → is_bearer t (some value) ≡ false
unfolding is_bearer
is_bearer-none t value e = ap (λ o. elim o [ none ↦ false | some r ↦ token_matches t (trim r) ]) e

require-is_bearer :
    (h : Headers) (q : Option (List ℕ)) (t : AccessToken)
    → (require h q t true ≡ ok tt) ↔ (is_bearer t h.authorization ≡ true)
unfolding require authenticate permit
require-is_bearer h q t = ((λ e. ground arith), (λ e. ground arith))

bearer_iff :
    (t : AccessToken) (o : Option (List ℕ))
    → All IsByte t.text
    → All IsByte (bytes_of o)
    → (is_bearer t o ≡ true) ↔ (
        (value rest : List ℕ) × (o ≡ some value)
        × (after_prefix bearer value ≡ some rest)
        × (trim rest ≡ t.text))
unfolding is_bearer
bearer_iff t none ht ho = (λ e. absurd (no e), λ (v, r, e, _, _). absurd (clash v e))
  where
    no : is_bearer t none ≡ true → ⊥
    no e = cc

    clash : (v : List ℕ) → none ≡ some v → ⊥
    clash v e = cc
bearer_iff t (some value) ht ho = (
  λ e. elim (Option-cases (after_prefix bearer value)) [
    | inl n ↦ absurd (clash (sym (is_bearer-none t value n) ∙ e))
    | inr (rest, y) ↦
        (value, rest, refl, y, (lem rest y).0 (sym (is_bearer-some t value rest y) ∙ e))
  ],
  λ (v, rest, e, y, q).
      let y' : after_prefix bearer value ≡ some rest =
        ap (λ x. after_prefix bearer x) (inj v e) ∙ y in
      is_bearer-some t value rest y' ∙ (lem rest y').1 q,
)
  where
    clash : false ≡ true → ⊥
    clash e = cc

    inj : (v : List ℕ) → some value ≡ some v → value ≡ v
    inj v e = cc

    lem :
        (rest : List ℕ)
        → after_prefix bearer value ≡ some rest
        → (token_matches t (trim rest) ≡ true) ↔ (trim rest ≡ t.text)
    lem rest y =
        token_matches_iff t (trim rest) ht (All-trim rest (after_prefix-All bearer value rest y ho))

-- A request may change something exactly when its `Authorization` header is `Bearer ` and the token of
-- the agent, but for the spaces around it. No cookie and no query string lets it, whatever they hold.
pub require_iff :
    (h : Headers) (q : Option (List ℕ)) (t : AccessToken)
    → All IsByte t.text
    → All IsByte (bytes_of h.authorization)
    → (require h q t true ≡ ok tt) ↔ (
        (value rest : List ℕ) × (h.authorization ≡ some value)
        × (after_prefix bearer value ≡ some rest)
        × (trim rest ≡ t.text))
require_iff h q t ht hh =
    let r = require-is_bearer h q t in
    let b = bearer_iff t h.authorization ht hh in ((λ e. b.0 (r.0 e)), (λ x. r.1 (b.1 x)))
