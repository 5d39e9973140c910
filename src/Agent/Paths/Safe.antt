-- ===== src/Agent/Paths/Safe.antt =====
-- What a text that is let through can do.
use darcbench.Base.{
  ℕ, ◌+◌, ◌≤◌, ◌≡◌, ◌↔◌, refl, sym, ap, subst, ◌∙◌, Bool, true, false, List, [], ◌∷◌, ◌++◌, any,
  all, append_one, append_nil, length, if◌then◌else◌, nat_eq, list_eq, beq_refl, Bool-cases, inl,
  inr, arith,
}
use darcbench.Base.Result.{Result, ok, is_ok}
use darcbench.Agent.Paths.{
  Text, PathError, is_illegal, starts_with, push_all, join, has_dots, first_is_slash, last_is_slash,
  is_location_byte, validate_location,
}

starts_with-append : (root cs : List Text) → starts_with (root ++ cs) root ≡ true
unfolding starts_with
starts_with-append [] cs = refl
starts_with-append (r ∷ root) cs = ground (arith, beq_refl r, starts_with-append root cs)

push_all_legal :
    (cs path : List Text) → any is_illegal cs ≡ false → push_all path cs ≡ ok (path ++ cs)
unfolding push_all
push_all_legal [] path h = ap ok (sym (append_nil path))
push_all_legal (c ∷ cs) path h =
    ground (arith, push_all_legal cs (path ++ (c ∷ [])), append_one path cs c)

push_all_illegal :
    (cs path : List Text) → any is_illegal cs ≡ true → is_ok (push_all path cs) ≡ false
unfolding push_all
push_all_illegal [] path h = cc
push_all_illegal (c ∷ cs) path h = ground (arith, push_all_illegal cs (path ++ (c ∷ [])))

join_legal : (root cs : List Text) → any is_illegal cs ≡ false → join root cs ≡ ok (root ++ cs)
unfolding join
join_legal root cs h = ground (arith, push_all_legal cs root h, starts_with-append root cs)

join_illegal : (root cs : List Text) → any is_illegal cs ≡ true → is_ok (join root cs) ≡ false
unfolding join
join_illegal root cs h = ground (arith, push_all_illegal cs root h)

-- A path under the state directory is made exactly when no component is empty, `.` or `..` and none has
-- a slash, a backslash or a zero byte, and it is then the directory followed by the components:
-- the check for an escape that follows never fails.
join_iff :
    (root cs path : List Text)
    → (join root cs ≡ ok path) ↔ ((any is_illegal cs ≡ false) × (path ≡ root ++ cs))
join_iff root cs path = (
  λ e. elim (Bool-cases (any is_illegal cs)) [
    | inl b ↦ absurd (clash (sym (ap is_ok e) ∙ join_illegal root cs b))
    | inr b ↦ (b, inj _ _ refl (sym e ∙ join_legal root cs b))
  ],
  λ (b, e). join_legal root cs b ∙ ap ok (sym e),
)
  where
    clash : true ≡ false → ⊥
    clash e = cc

    inj : (p q : List Text) {x : Result PathError (List Text)} → x ≡ ok q → ok p ≡ x → p ≡ q
    inj p q e h = cc

-- A slash at the end.
abbrev closed : Text → Text
closed s = if last_is_slash s then s else s ++ (b'/' ∷ [])

all-append :
    (p : ℕ → Bool) (s : Text) (c : ℕ) → all p s ≡ true → p c ≡ true → all p (s ++ (c ∷ [])) ≡ true
all-append p [] c h k = ground arith
all-append p (x ∷ s) c h k = ground (arith, all-append p s c)

last_is_slash-append : (s : Text) → last_is_slash (s ++ (b'/' ∷ [])) ≡ true
last_is_slash-append [] = refl
last_is_slash-append (c ∷ []) = refl
last_is_slash-append (c ∷ d ∷ s) = last_is_slash-append (d ∷ s)

has_dots-append : (s : Text) → has_dots s ≡ false → has_dots (s ++ (b'/' ∷ [])) ≡ false
has_dots-append [] h = refl
has_dots-append (c ∷ []) h = ground arith
has_dots-append (c ∷ d ∷ s) h = ground (arith, has_dots-append (d ∷ s))

first_is_slash-append :
    (s : Text) → first_is_slash s ≡ true → first_is_slash (s ++ (b'/' ∷ [])) ≡ true
first_is_slash-append [] h = cc
first_is_slash-append (c ∷ s) h = h

length_snoc : (s : Text) (c : ℕ) → length (s ++ (c ∷ [])) ≡ length s + 1
length_snoc [] c = refl
length_snoc (x ∷ s) c = omega (arith, length_snoc s c)

-- A prefix that is let through is one that can stand in a configuration.
pub record IsPrefix (s : Text) : Type 0 where
  pub bytes : all is_location_byte s ≡ true
  pub opens : first_is_slash s ≡ true
  pub closes : last_is_slash s ≡ true
  pub no_dots : has_dots s ≡ false
  pub short : length s ≤ 129

closed-IsPrefix :
    (s : Text)
    → first_is_slash s ≡ true
    → length s ≤ 128
    → all is_location_byte s ≡ true
    → has_dots s ≡ false
    → IsPrefix (closed s)
closed-IsPrefix s f l b d = elim (Bool-cases (last_is_slash s)) [
  | inl e ↦
      rw e (record { bytes = b; opens = f; closes = e; no_dots = d; short = omega (arith, l) })
  | inr e ↦ rw e (record {
    bytes = all-append is_location_byte s b'/' b refl;
    opens = first_is_slash-append s f;
    closes = last_is_slash-append s;
    no_dots = has_dots-append s d;
    short = omega (arith, l, length_snoc s b'/');
  })
]

validate_inv :
    (s r : Text)
    → validate_location s ≡ ok r
    → (first_is_slash s ≡ true)
      × (length s ≤ 128)
      × (all is_location_byte s ≡ true)
      × (has_dots s ≡ false)
      × (r ≡ closed s)
unfolding validate_location
validate_inv s r h = ground arith

validate_again : (s : Text) → IsPrefix s → length s ≤ 128 → validate_location s ≡ ok s
unfolding validate_location
validate_again s p l = ground arith

-- A URL prefix that is let through holds only letters, digits and `/ - _ . ~`, opens and closes with a
-- slash, has no `..` and at most 129 bytes, so it can close no block of a configuration. With at
-- most 128 it is let through again, as it is.
validate_location-IsPrefix :
    (s r : Text)
    → validate_location s ≡ ok r
    → IsPrefix r × (length r ≤ 128 → validate_location r ≡ ok r)
validate_location-IsPrefix s r h =
    let (f, l, b, d, e) = validate_inv s r h in
    let p : IsPrefix r = subst IsPrefix (sym e) (closed-IsPrefix s f l b d) in
    (p, λ k. validate_again r p k)
