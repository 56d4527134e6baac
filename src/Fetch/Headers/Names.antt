-- ===== src/Fetch/Headers/Names.antt =====
-- Comparing header names: an equivalence that lowering a name does not change.
use ferrijs.Prelude.{
  ℕ, ◌≡◌, ◌↔◌, refl, ap, true, false, [], ◌∷◌, arith, list_beq_iff, list_eq, nat_eq, ◌==◌,
}
use ferrijs.Text.{Text, to_lower, to_ascii_lowercase, eq_ignore_ascii_case}
use ferrijs.Fetch.Headers.{Entry, named}

to_lower_idem : (c : ℕ) → to_lower (to_lower c) ≡ to_lower c
unfolding to_lower
to_lower_idem c = ground arith

pub to_ascii_lowercase_idem :
    (s : Text) → to_ascii_lowercase (to_ascii_lowercase s) ≡ to_ascii_lowercase s
unfolding to_ascii_lowercase
to_ascii_lowercase_idem [] = refl
to_ascii_lowercase_idem (c ∷ s) = cc (to_lower_idem c, to_ascii_lowercase_idem s)

-- Two names are the same if they are equal in lower case.
pub eq_ignore_ascii_case_iff :
    (a b : Text) → (eq_ignore_ascii_case a b ≡ true) ↔ (to_ascii_lowercase a ≡ to_ascii_lowercase b)
unfolding eq_ignore_ascii_case
eq_ignore_ascii_case_iff a b = list_beq_iff (to_ascii_lowercase a) (to_ascii_lowercase b)

pub eq_ignore_ascii_case_refl : (a : Text) → eq_ignore_ascii_case a a ≡ true
eq_ignore_ascii_case_refl a = (eq_ignore_ascii_case_iff a a).1 refl

-- Only the lower case of a name matters to the comparison.
pub named-congruent :
    (m n : Text) (e : Entry) → to_ascii_lowercase m ≡ to_ascii_lowercase n → named m e ≡ named n e
unfolding named eq_ignore_ascii_case
named-congruent m n e h = ap (λ (t : Text). to_ascii_lowercase e.0 == t) h

pub named-lower : (n : Text) (e : Entry) → named (to_ascii_lowercase n) e ≡ named n e
named-lower n e = named-congruent (to_ascii_lowercase n) n e (to_ascii_lowercase_idem n)

-- An entry of a name has no other name.
pub named_ne :
    (m n : Text) (e : Entry)
    → eq_ignore_ascii_case m n ≡ false
    → named n e ≡ true
    → named m e ≡ false
unfolding named eq_ignore_ascii_case
named_ne m n e h k = ground (
  arith,
  list_beq_iff (to_ascii_lowercase m) (to_ascii_lowercase n),
  list_beq_iff (to_ascii_lowercase e.0) (to_ascii_lowercase n),
  list_beq_iff (to_ascii_lowercase e.0) (to_ascii_lowercase m),
)
