-- ===== src/Std/Encoding/Windows1252.antt =====
-- The table of windows-1252, read and searched.
use mathlib.Core.Option.{none-ne-some}
use ferrijs.Prelude.{
  ℕ, zero, suc, ◌+◌, ◌-◌, ◌<◌, ◌≡◌, refl, sym, ap, ◌∙◌, Bool, true, false, not, ◌&&◌, ◌||◌, List,
  [], ◌∷◌, none, some, get_elem?, position, in_range, leb, length, ◌==◌, nat_eq, arith, Bool-cases,
  inl, inr, any, and-eq-true, beq_refl, nat_beq_iff, subst,
}
use ferrijs.Std.Encoding.Codec.{
  windows_1252_high, or_byte, byte_at, windows_1252_char, windows_1252_byte,
}

-- The table holds no character twice, and none of a byte outside its range.
abbrev fresh : List ℕ → Bool
fresh [] = true
fresh (x ∷ xs) = not (any (λ y. y == x) xs) && fresh xs

table_fresh : fresh windows_1252_high ≡ true
table_fresh = refl

abbrev outside : List ℕ → Bool
outside [] = true
outside (x ∷ xs) = (in_range 0x80 0x9F x || leb 256 x) && outside xs

table_outside : outside windows_1252_high ≡ true
table_outside = refl

position-outside :
    (xs : List ℕ) (b : ℕ)
    → outside xs ≡ true
    → in_range 0x80 0x9F b ≡ false
    → b < 256
    → position (λ x. x == b) xs ≡ none
position-outside [] b o r h = refl
position-outside (x ∷ xs) b o r h =
    let (p, q) = and-eq-true (in_range 0x80 0x9F x || leb 256 x) (outside xs) o in
    ground (arith, position-outside xs b q r h)

position_absent : (p : ℕ → Bool) (xs : List ℕ) → any p xs ≡ false → position p xs ≡ none
position_absent p [] h = refl
position_absent p (x ∷ xs) h = ground (arith, position_absent p xs)

position_fresh :
    (xs : List ℕ) (i : ℕ)
    → fresh xs ≡ true
    → i < length xs
    → (c : ℕ) × (get_elem? xs i ≡ some c) × (position (λ x. x == c) xs ≡ some i)
position_fresh [] i f h = absurd (omega arith)
position_fresh (x ∷ xs) zero f h = (x, refl, rw (beq_refl x) refl)
position_fresh (x ∷ xs) (suc i) f h =
    let (n, g) = and-eq-true (not (any (λ y. y == x) xs)) (fresh xs) f in
    let (c, e, p) = position_fresh xs i g (omega arith) in (c, e, apart c p n)
  where
    apart :
        (c : ℕ)
        → position (λ y. y == c) xs ≡ some i
        → not (any (λ y. y == x) xs) ≡ true
        → position (λ y. y == c) (x ∷ xs) ≡ some (suc i)
    apart c p n = elim (Bool-cases (x == c)) [
      | inl d ↦
          let same : x ≡ c = (nat_beq_iff x c).0 d in
          absurd (
            none-ne-some i (
              sym (
                position_absent (λ y. y == c) xs
                  (subst (λ z. any (λ y. y == z) xs ≡ false) same (ground arith)))
              ∙ p))
      | inr d ↦ rw (d, p) refl
    ]

in_table : (b : ℕ) → in_range 0x80 0x9F b ≡ true → (b - 0x80 < 32) × (0x80 + (b - 0x80) ≡ b)
in_table b r = (ground arith, ground arith)

pub windows_1252_byte-char : (b : ℕ) → b < 256 → windows_1252_byte (windows_1252_char b) ≡ b
unfolding windows_1252_byte windows_1252_char
windows_1252_byte-char b h = elim (Bool-cases (in_range 0x80 0x9F b)) [
  | inl r ↦
      let (c, g, p) = position_fresh windows_1252_high (b - 0x80) table_fresh (in_table b r).0 in
      let read : windows_1252_char b ≡ c = (rw r refl) ∙ ap (or_byte b) g in
      ap windows_1252_byte read ∙ (ap (byte_at c) p ∙ (in_table b r).1)
  | inr r ↦
      let read : windows_1252_char b ≡ b = rw r refl in
      ap windows_1252_byte read
      ∙ (ap (byte_at b) (position-outside windows_1252_high b table_outside r h) ∙ (ground arith))
]
