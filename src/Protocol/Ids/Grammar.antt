-- ===== src/Protocol/Ids/Grammar.antt =====
-- The two parsers of identifiers against grammars that are stated apart from them.
use darcbench.Base.{
  ℕ, zero, suc, ◌+◌, ◌≤◌, ◌≡◌, refl, ap, sym, ◌∙◌, ◌↔◌, Bool, true, false, not, ◌&&◌, some, List,
  [], ◌∷◌, ◌++◌, length, is_nil, all, if◌then◌else◌, Bool-cases, inl, inr, ltb, leb, ◌==◌, nat_eq,
  arith, beq_refl, eq_of_beq, Option-cases,
}
use darcbench.Base.Result.{Result, ok, is_ok, ◌>>◌, check}
use darcbench.Base.Text.{codes, is_lower}
use darcbench.Protocol.Ids.{
  strip_prefix, push_byte, is_lower_hex, run_id_body, run_id_from_str, split_dots, is_segment_byte,
  check_segment, check_segments, module_id_from_str, IdError,
}

-- The grammar of a module id, read one byte at a time; the number is the length of the segment under
-- way, 0 where one must start.
abbrev pub scan : ℕ → List ℕ → Bool
scan zero [] = false
scan zero (c ∷ s) = let rest = scan 1 s in is_lower c && rest
scan (suc k) [] = true
scan (suc k) (c ∷ s) =
    let next = scan 0 s in
    let more = scan (suc (suc k)) s in
    if c == b'.' then next else is_segment_byte c && (ltb (suc k) 32 && more)

is_ok-then :
    (b : Bool) (e : IdError) (k : Result IdError (Unit {0}))
    → is_ok (check b e >> k) ≡ (b && is_ok k)
is_ok-then true e k = refl
is_ok-then false e k = refl

-- the segment under way, then those that follow
abbrev tail_ok : ℕ → List (List ℕ) → Bool
tail_ok k [] = false
tail_ok k (seg ∷ segs) =
    all is_segment_byte seg && (leb (k + length seg) 32 && is_ok (check_segments segs))

-- The two ways of reading a text whose segments are known agree.
abbrev Agrees : List ℕ → List (List ℕ) → Type 0
Agrees s segs =
    (scan 0 s ≡ is_ok (check_segments segs))
    × ((k : ℕ) → suc k ≤ 32 → scan (suc k) s ≡ tail_ok (suc k) segs)

is_ok-chain :
    (a b d : Bool) (x y z : IdError) (k : Result IdError (Unit {0}))
    → is_ok ((check a x >> (check b y >> check d z)) >> k) ≡ (a && (d && (b && is_ok k)))
is_ok-chain true true true x y z k = refl
is_ok-chain true true false x y z k = refl
is_ok-chain true false true x y z k = refl
is_ok-chain true false false x y z k = refl
is_ok-chain false b d x y z k = refl

is_ok-check_segments :
    (c : ℕ) (seg : List ℕ) (segs : List (List ℕ))
    → is_ok (check_segments ((c ∷ seg) ∷ segs)) ≡ (is_lower c && tail_ok 1 (seg ∷ segs))
unfolding check_segments check_segment
is_ok-check_segments c seg segs =
    is_ok-chain (is_lower c) (not (ltb 32 (length (c ∷ seg)))) (all is_segment_byte seg) _ _ _
      (check_segments segs)
    ∙ ap (λ b. is_lower c && (all is_segment_byte seg && (b && is_ok (check_segments segs))))
        (ground arith)

Agrees-nil : Agrees [] ([] ∷ [])
unfolding check_segments check_segment
Agrees-nil = (refl, λ k h. ground arith)

not_ok-nil : (segs : List (List ℕ)) → is_ok (check_segments ([] ∷ segs)) ≡ false
unfolding check_segments check_segment
not_ok-nil segs = refl

room_lem :
    (k n : ℕ) (a b rest whole : Bool)
    → (ltb (suc k) 32 ≡ true → rest ≡ (b && (leb (suc (suc k) + n) 32 && whole)))
    → (a && (ltb (suc k) 32 && rest)) ≡ ((a && b) && (leb (suc k + suc n) 32 && whole))
room_lem k n a b rest whole h = elim (Bool-cases (ltb (suc k) 32)) [
  | inl l ↦ rw (h l) (ground (arith, l))
  | inr l ↦ ground (arith, l)
]

Agrees-cons :
    (c : ℕ) (s seg : List ℕ) (segs : List (List ℕ))
    → Agrees s (seg ∷ segs)
    → Agrees (c ∷ s) (push_byte c (seg ∷ segs))
unfolding push_byte
Agrees-cons c s seg segs (start, more) = elim (Bool-cases (c == b'.')) [
  | inl e ↦ rw e (ground (arith, not_ok-nil (seg ∷ segs)), λ k h. ground (arith, start))
  | inr e ↦ rw e (
    ap (λ b. is_lower c && b) (more 0 (omega arith)) ∙ sym (is_ok-check_segments c seg segs),
    λ k h.
        room_lem k (length seg) (is_segment_byte c) (all is_segment_byte seg) (scan (suc (suc k)) s)
          (is_ok (check_segments segs)) (λ l. more (suc k) (ground (arith, l))),
  )
]

push_byte-nonempty :
    (c : ℕ) (segs : List (List ℕ)) → is_nil segs ≡ false → is_nil (push_byte c segs) ≡ false
unfolding push_byte
push_byte-nonempty c [] h = h
push_byte-nonempty c (seg ∷ segs) h = ground arith

split_dots-nonempty : (s : List ℕ) → is_nil (split_dots s) ≡ false
unfolding split_dots
split_dots-nonempty [] = refl
split_dots-nonempty (c ∷ s) = push_byte-nonempty c (split_dots s) (split_dots-nonempty s)

Agrees-push_byte :
    (c : ℕ) (s : List ℕ) (segs : List (List ℕ))
    → is_nil segs ≡ false
    → Agrees s segs
    → Agrees (c ∷ s) (push_byte c segs)
Agrees-push_byte c s [] h a = absurd (ground arith)
Agrees-push_byte c s (seg ∷ segs) h a = Agrees-cons c s seg segs a

Agrees-split_dots : (s : List ℕ) → Agrees s (split_dots s)
unfolding split_dots
Agrees-split_dots [] = Agrees-nil
Agrees-split_dots (c ∷ s) =
    Agrees-push_byte c s (split_dots s) (split_dots-nonempty s) (Agrees-split_dots s)

bounded :
    (s : List ℕ)
    → is_ok (module_id_from_str s) ≡ (leb (length s) 96 && is_ok (check_segments (split_dots s)))
unfolding module_id_from_str
bounded [] = sym (ap (λ b. leb 0 96 && b) (sym ((Agrees-split_dots []).0)))
bounded (c ∷ s) =
    is_ok-then (not (ltb 96 (length (c ∷ s)))) IdError.bad_length
      (check_segments (split_dots (c ∷ s)))
    ∙ ap (λ b. b && is_ok (check_segments (split_dots (c ∷ s)))) (ground arith)

-- A text is accepted as a module id exactly when it has at most 96 bytes and one pass over its bytes
-- sees segments separated by single dots, each of at most 32 bytes out of `a` to `z`, `0` to `9` and
-- `_`, with a letter first: so no empty segment, no `..`, no slash, and nothing in upper case.
pub is_ok-module_id_from_str :
    (s : List ℕ) → is_ok (module_id_from_str s) ≡ (leb (length s) 96 && scan 0 s)
unfolding module_id_from_str
is_ok-module_id_from_str s =
    bounded s ∙ ap (λ b. leb (length s) 96 && b) (sym ((Agrees-split_dots s).0))

strip_prefix-append : (ps s : List ℕ) → strip_prefix ps (ps ++ s) ≡ some s
unfolding strip_prefix
strip_prefix-append [] s = refl
strip_prefix-append (p ∷ ps) s = rw (beq_refl p) (strip_prefix-append ps s)

strip_prefix-some : (ps s body : List ℕ) → strip_prefix ps s ≡ some body → s ≡ ps ++ body
unfolding strip_prefix
strip_prefix-some [] s body h = ground arith
strip_prefix-some (p ∷ ps) [] body h = absurd (ground arith)
strip_prefix-some (p ∷ ps) (c ∷ s) body h = elim (Bool-cases (p == c)) [
  | inl e ↦
      ap (λ x. x ∷ s) (sym (eq_of_beq p c e))
      ∙ ap (λ t. p ∷ t) (strip_prefix-some ps s body (rw e at h))
  | inr e ↦ absurd (ground (arith, rw e at h))
]

run_id_body_iff :
    (body : List ℕ)
    → (run_id_body (some body) ≡ ok tt) ↔ ((length body ≡ 32) × (all is_lower_hex body ≡ true))
unfolding run_id_body
run_id_body_iff body = ground arith

-- A text is accepted as a run id exactly when it is `run_` and thirty-two lower-case hexadecimal
-- digits.
pub run_id_from_str_iff :
    (s : List ℕ)
    → (run_id_from_str s ≡ ok tt) ↔ (
        (body : List ℕ) × (s ≡ codes "run_" ++ body)
        × (length body ≡ 32)
        × (all is_lower_hex body ≡ true))
unfolding run_id_from_str
run_id_from_str_iff s = elim (Option-cases (strip_prefix (codes "run_") s)) [
  | inl e ↦ (
    λ h. absurd (ground (arith, rw e at h)),
    λ (body, q, n, h). absurd (ground (arith, e, strip_prefix-append (codes "run_") body, q)),
  )
  | inr (rest, e) ↦
      let parts = run_id_body_iff rest in
      let split : s ≡ codes "run_" ++ rest = strip_prefix-some (codes "run_") s rest e in
      (
        λ h. let (n, hex) = parts.0 (rw e at h) in (rest, split, n, hex),
        λ (body, q, n, h).
            rw q (rw (strip_prefix-append (codes "run_") body) ((run_id_body_iff body).1 (n, h))),
      )
]
