-- ===== src/Text/Affix.antt =====
-- Prefixes and suffixes: each operation against the decomposition that it finds.
use mathlib.Core.Bool.{false≢true}
use mathlib.Core.List.{append_assoc}
use ferrijs.Prelude.{
  ℕ, ◌≡◌, refl, ap, ◌∙◌, ◌≢◌, Bool, true, false, [], ◌∷◌, ◌++◌, none, some, arith, nat_eq, list_eq,
  list_beq, list_beq_iff, nat_beq_iff, inl, inr, Bool-cases, Option-cases, beq_refl, length,
  length-append,
}
use ferrijs.Text.{Text, strip_prefix, strip_suffix, ends_with_char, starts_with, ends_with}

pub strip_prefix_sound : (s p r : Text) → strip_prefix s p ≡ some r → s ≡ p ++ r
unfolding strip_prefix
strip_prefix_sound s [] r h = ground arith
strip_prefix_sound [] (p ∷ ps) r h = cc
strip_prefix_sound (c ∷ s) (p ∷ ps) r h = ground (arith, strip_prefix_sound s ps r, nat_beq_iff c p)

pub strip_prefix-append : (p r : Text) → strip_prefix (p ++ r) p ≡ some r
unfolding strip_prefix
strip_prefix-append [] r = refl
strip_prefix-append (c ∷ p) r = ground (arith, strip_prefix-append p r, nat_beq_iff c c)

pub strip_suffix_sound : (s t p : Text) → strip_suffix s t ≡ some p → s ≡ p ++ t
unfolding strip_suffix
strip_suffix_sound [] t p h = ground (arith, list_beq_iff t [])
strip_suffix_sound (c ∷ s) t [] h = ground (arith, list_beq_iff t (c ∷ s))
strip_suffix_sound (c ∷ s) t (d ∷ p) h =
    ground (arith, list_beq_iff t (c ∷ s), strip_suffix_sound s t p)

-- A text is no proper suffix of itself.
append-ne : (c : ℕ) (p t : Text) → t ≢ c ∷ (p ++ t)
append-ne c p t e = omega (arith, length-append {0} p t, ap {B = ℕ} length e)

pub strip_suffix-append : (p t : Text) → strip_suffix (p ++ t) t ≡ some p
unfolding strip_suffix
strip_suffix-append [] [] = refl
strip_suffix-append [] (c ∷ t) = rw ((list_beq_iff (c ∷ t) (c ∷ t)).1 refl)
strip_suffix-append (c ∷ p) t = elim (Bool-cases (list_beq t (c ∷ (p ++ t)))) [
  | inl e ↦ absurd (append-ne c p t ((list_beq_iff t (c ∷ (p ++ t))).0 e))
  | inr e ↦ rw (e, strip_suffix-append p t)
]

pub ends_with_char_sound :
    (s : Text) (c : ℕ) → ends_with_char s c ≡ true → (p : Text) × (s ≡ p ++ c ∷ [])
unfolding ends_with_char
ends_with_char_sound [] c h = cc
ends_with_char_sound (d ∷ []) c h = ([], ground (arith))
ends_with_char_sound (d ∷ e ∷ s) c h =
    let (p, q) = ends_with_char_sound (e ∷ s) c h in (d ∷ p, ap {B = Text} (λ t. d ∷ t) q)

pub ends_with_char-append : (p : Text) (c : ℕ) → ends_with_char (p ++ c ∷ []) c ≡ true
unfolding ends_with_char
ends_with_char-append [] c = beq_refl c
ends_with_char-append (d ∷ []) c = beq_refl c
ends_with_char-append (d ∷ e ∷ p) c = ends_with_char-append (e ∷ p) c

-- `strip_suffix(t).is_some_and(|p| p.ends_with(c))`
unfoldable pub has_dotted_suffix : Text → Text → Bool
has_dotted_suffix s t = elim (strip_suffix s t) [ none ↦ false | some p ↦ ends_with_char p b'.' ]

pub has_dotted_suffix_sound :
    (s t : Text) → has_dotted_suffix s t ≡ true → (p : Text) × (s ≡ p ++ b'.' ∷ t)
unfolding has_dotted_suffix
has_dotted_suffix_sound s t h = elim (Option-cases (strip_suffix s t)) [
  | inl e ↦ absurd (false≢true (rw (e, has_dotted_suffix) at h))
  | inr (p, e) ↦
      let (q, f) = ends_with_char_sound p b'.' (rw (e, has_dotted_suffix) at h) in
      (q, strip_suffix_sound s t p e ∙ (rw (f, append_assoc)))
]

pub has_dotted_suffix-append : (p t : Text) → has_dotted_suffix (p ++ b'.' ∷ t) t ≡ true
unfolding has_dotted_suffix
has_dotted_suffix-append p t =
    rw (← append_assoc p (b'.' ∷ []) t) (
      rw (strip_suffix-append (p ++ b'.' ∷ []) t, has_dotted_suffix) (ends_with_char-append p b'.'))

pub starts_with_sound : (s p : Text) → starts_with s p ≡ true → (r : Text) × (s ≡ p ++ r)
unfolding starts_with
starts_with_sound s [] h = (s, refl)
starts_with_sound [] (p ∷ ps) h = cc
starts_with_sound (c ∷ s) (p ∷ ps) h =
    let (r, e) = starts_with_sound s ps (ground arith) in (r, ground (arith, nat_beq_iff c p))

pub starts_with-append : (p r : Text) → starts_with (p ++ r) p ≡ true
unfolding starts_with
starts_with-append [] r = refl
starts_with-append (c ∷ p) r = ground (arith, starts_with-append p r, nat_beq_iff c c)

pub ends_with_sound : (s t : Text) → ends_with s t ≡ true → (p : Text) × (s ≡ p ++ t)
unfolding ends_with
ends_with_sound s t h = elim (Option-cases (strip_suffix s t)) [
  | inl e ↦ absurd (ground arith)
  | inr (p, e) ↦ (p, strip_suffix_sound s t p e)
]

pub ends_with-append : (p t : Text) → ends_with (p ++ t) t ≡ true
unfolding ends_with
ends_with-append p t = ground (arith, strip_suffix-append p t)
