-- ===== src/Permissions/Net/Subsumes.antt =====
-- A rule that subsumes another covers all that the other covers.
use mathlib.Core.List.{append_assoc}
use ferrijs.Prelude.{
  ℕ, ◌≡◌, ◌≢◌, refl, sym, ap, subst, ◌∙◌, ◌⊎◌, inl, inr, Bool, true, false, ◌||◌, [], ◌∷◌, ◌++◌,
  Option, none, some, arith, Bool-cases, Option-cases, list_beq_iff, option_beq_iff, ◌==◌, beq_refl,
  list_eq, nat_eq, option_eq, drop, length, length-append,
}
use ferrijs.Text.{Text, text}
use ferrijs.Text.Affix.{
  has_dotted_suffix, has_dotted_suffix_sound, has_dotted_suffix-append, strip_prefix_sound,
  strip_prefix-append,
}
use ferrijs.Permissions.Net.{NetRule, wildcard, covers_host, covers, subsumes_host, subsumes}

-- The host is no wildcard over wildcards, `*.*.` with a suffix.
abbrev pub IsPlain : Text → Type 0
IsPlain host = (suffix inner : Text) → wildcard host ≡ some suffix → wildcard suffix ≢ some inner

-- What `covers_host` tests, as a description of the host.
abbrev pub Under : Text → Text → Type 0
Under suffix host = (host ≡ suffix) ⊎ ((p : Text) × (host ≡ p ++ b'.' ∷ suffix))

-- The test for it.
unfoldable pub is_plain : Text → Bool
is_plain host = elim (wildcard host) [
  | none ↦ true
  | some suffix ↦ elim (wildcard suffix) [ none ↦ true | some _ ↦ false ]
]

pub is_plain-IsPlain : (host : Text) → is_plain host ≡ true → IsPlain host
unfolding is_plain
is_plain-IsPlain host h suffix inner e f = ground arith

wildcard_sound : (h s : Text) → wildcard h ≡ some s → h ≡ b'*' ∷ b'.' ∷ s
unfolding wildcard
wildcard_sound h s e = strip_prefix_sound h (text "*.") s e

wildcard-star : (s : Text) → wildcard (b'*' ∷ b'.' ∷ s) ≡ some s
unfolding wildcard
wildcard-star s = strip_prefix-append (text "*.") s

Under-of_tests : (s h : Text) → (h == s || has_dotted_suffix h s) ≡ true → Under s h
Under-of_tests s h e = elim (Bool-cases (h == s)) [
  | inl p ↦ inl ((list_beq_iff h s).0 p)
  | inr p ↦ inr (has_dotted_suffix_sound h s (ground arith))
]

tests_of_Under : (s h : Text) → Under s h → (h == s || has_dotted_suffix h s) ≡ true
tests_of_Under s h (inl p) = ground (arith, list_beq_iff h s)
tests_of_Under s h (inr (p, q)) =
    ground
      (arith, ap {B = Bool} (λ (t : Text). has_dotted_suffix t s) q, has_dotted_suffix-append p s)

Under-trans : (s t h : Text) → Under s t → Under t h → Under s h
Under-trans s t h (inl p) (inl q) = inl (q ∙ p)
Under-trans s t h (inl p) (inr (b, q)) = inr (b, q ∙ ap {B = Text} (λ (x : Text). b ++ b'.' ∷ x) p)
Under-trans s t h (inr (a, p)) (inl q) = inr (a, q ∙ p)
Under-trans s t h (inr (a, p)) (inr (b, q)) = inr (
  b ++ b'.' ∷ a,
  q ∙ ap {B = Text} (λ (x : Text). b ++ b'.' ∷ x) p ∙ sym (append_assoc b (b'.' ∷ a) (b'.' ∷ s)),
)

-- A host is covered if the rule is the host, or a wildcard with the host under its suffix.
pub covers_host_sound :
    (r h : Text)
    → covers_host r h ≡ true
    → (r ≡ h) ⊎ ((s : Text) × (wildcard r ≡ some s) × Under s h)
unfolding covers_host
covers_host_sound r h e = elim (Bool-cases (r == h)) [
  | inl p ↦ inl ((list_beq_iff r h).0 p)
  | inr p ↦ elim (Option-cases (wildcard r)) [
    | inl w ↦ absurd (ground arith)
    | inr (s, w) ↦ inr (s, w, Under-of_tests s h (ground arith))
  ]
]

pub covers_host_self : (h : Text) → covers_host h h ≡ true
unfolding covers_host
covers_host_self h = ground (arith, beq_refl h)

pub covers_host-wildcard : (r s h : Text) → wildcard r ≡ some s → Under s h → covers_host r h ≡ true
unfolding covers_host
covers_host-wildcard r s h w u = ground (arith, tests_of_Under s h u)

-- A dotted suffix of a wildcard is a suffix of what the wildcard covers.
abbrev first : Text → ℕ
first [] = 0
first (c ∷ s) = c

Under-star : (s o p : Text) → b'*' ∷ b'.' ∷ o ≡ p ++ b'.' ∷ s → Under s o
Under-star s o [] e = absurd (omega (arith, ap {B = ℕ} first e))
Under-star s o (a ∷ []) e = inl (ap {B = Text} (drop 2) e)
Under-star s o (a ∷ b ∷ p) e = inr (p, ap {B = Text} (drop 2) e)

-- The suffixes of two wildcards, one of which subsumes the other.
subsumes_host_sound :
    (r o s : Text)
    → wildcard r ≡ some s
    → subsumes_host r o ≡ true
    → (r ≡ o) ⊎ (Under s o ⊎ ((t : Text) × (wildcard o ≡ some t) × Under s t))
unfolding subsumes_host
subsumes_host_sound r o s w e = elim (Bool-cases (r == o)) [
  | inl p ↦ inl ((list_beq_iff r o).0 p)
  | inr p ↦ elim (Bool-cases (o == s || has_dotted_suffix o s)) [
    | inl q ↦ inr (inl (Under-of_tests s o q))
    | inr q ↦ elim (Option-cases (wildcard o)) [
      | inl n ↦ absurd (ground arith)
      | inr (t, n) ↦ inr (inr (t, n, Under-of_tests s t (ground arith)))
    ]
  ]
]

subsumes_host-exact : (r o : Text) → wildcard r ≡ none → subsumes_host r o ≡ true → r ≡ o
unfolding subsumes_host
subsumes_host-exact r o w e = ground (arith, list_beq_iff r o)

-- What a wildcard with suffix `s` covers once it covers all of `o` by a suffix.
Under-of_covers :
    (s o h : Text)
    → ((t : Text) → wildcard s ≢ some t)
    → Under s o
    → covers_host o h ≡ true
    → Under s h
Under-of_covers s o h plain u c = elim (covers_host_sound o h c) [
  | inl e ↦ subst (λ x. Under s x) e u
  | inr (t, w, v) ↦ elim u [
    | inl e ↦ absurd (plain t (ap wildcard (sym e) ∙ w))
    | inr (p, e) ↦ Under-trans s t h (Under-star s t p (sym (wildcard_sound o t w) ∙ e)) v
  ]
]

-- A wildcard covers only hosts under its suffix, a host that is spelled like it included.
Under-of_wildcard : (o t h : Text) → wildcard o ≡ some t → covers_host o h ≡ true → Under t h
Under-of_wildcard o t h w c = elim (covers_host_sound o h c) [
  | inl e ↦ inr (b'*' ∷ [], sym e ∙ wildcard_sound o t w)
  | inr (t', w', v) ↦ subst (λ x. Under x h) (cc) v
]

-- The host half of a rule that subsumes another covers the hosts that the other covers.
pub covers_host-subsumes_host :
    (r o h : Text)
    → IsPlain r
    → subsumes_host r o ≡ true
    → covers_host o h ≡ true
    → covers_host r h ≡ true
covers_host-subsumes_host r o h plain e c = elim (Option-cases (wildcard r)) [
  | inl w ↦ subst (λ x. covers_host x h ≡ true) (sym (subsumes_host-exact r o w e)) c
  | inr (s, w) ↦ elim (subsumes_host_sound r o s w e) [
    | inl q ↦ subst (λ x. covers_host x h ≡ true) (sym q) c
    | inr (inl u) ↦ covers_host-wildcard r s h w (Under-of_covers s o h (λ t. plain s t w) u c)
    | inr (inr (t, n, u)) ↦
        covers_host-wildcard r s h w (Under-trans s t h u (Under-of_wildcard o t h n c))
  ]
]

-- A rule that subsumes another covers every host and port that the other covers, if its host is no
-- wildcard over wildcards.
pub covers-subsumes :
    (r o : NetRule) (h : Text) (p : Option ℕ)
    → IsPlain r.host
    → subsumes r o ≡ true
    → covers o h p ≡ true
    → covers r h p ≡ true
unfolding covers subsumes
covers-subsumes r o h p plain e c =
    ground (arith, covers_host-subsumes_host r.host o.host h plain, option_beq_iff r.port o.port)

star_ne : (s : Text) → has_dotted_suffix (b'a' ∷ b'.' ∷ s) (b'*' ∷ b'.' ∷ s) ≡ false
star_ne s = elim (Bool-cases (has_dotted_suffix (b'a' ∷ b'.' ∷ s) (b'*' ∷ b'.' ∷ s))) [
  | inl h ↦
      let (p, e) = has_dotted_suffix_sound (b'a' ∷ b'.' ∷ s) (b'*' ∷ b'.' ∷ s) h in
      absurd (omega (arith, ap {B = ℕ} length e, length-append {0} p (b'.' ∷ b'*' ∷ b'.' ∷ s)))
  | inr h ↦ h
]

-- For every suffix, the rule `*.*.suffix` subsumes the rule `*.suffix`, but the host `a.suffix` is
-- covered by the second and not by the first.
pub nested_wildcard_widens :
    (s : Text) (p : Option ℕ)
    → let r : NetRule = record { host = text "*.*." ++ s; port = none } in
      let o : NetRule = record { host = text "*." ++ s; port = none } in
      let h : Text = text "a." ++ s in
      (subsumes r o ≡ true) × (covers o h p ≡ true) × (covers r h p ≡ false)
unfolding subsumes covers
nested_wildcard_widens s p = (
  ground (arith, wildcard-star (text "*." ++ s), beq_refl (text "*." ++ s)),
  ground (
    arith,
    covers_host-wildcard (text "*." ++ s) s (text "a." ++ s) (wildcard-star s)
        (inr (b'a' ∷ [], refl)),
  ),
  ground (arith, wildcard-star (text "*." ++ s), star_ne s),
)
