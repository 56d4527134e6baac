-- ===== src/Text/Number.antt =====
-- Decimal numerals: `format!("{n}")`, and `str::parse` at `u16` and `i64`.
use ferrijs.Prelude.{
  ℕ, zero, suc, ◌+◌, ◌-◌, ◌*◌, ◌/◌, ◌%◌, ◌^◌, [], ◌∷◌, Option, none, some, if◌then◌else◌, in_range,
  ltb, leb, ◌==◌, nat_eq,
}
use ferrijs.Text.{Text}

-- The digits of `n` in front of `acc`; as many rounds as `n` has digits are enough, and `n` has at
-- most `n` (one, if it is 0).
show_digits : ℕ → ℕ → Text → Text
show_digits zero n acc = acc
show_digits (suc fuel) n acc =
    let rest = show_digits fuel (n / 10) ((b'0' + n % 10) ∷ acc) in
    if ltb n 10 then (b'0' + n) ∷ acc else rest

-- `format!("{n}")`
unfoldable pub show : ℕ → Text
unfolding show_digits
show n = show_digits (suc n) n []

-- The value of a text of decimal digits, read from the left.
unfoldable pub read_digits : ℕ → Text → Option ℕ
read_digits acc [] = some acc
read_digits acc (c ∷ s) =
    let rest = read_digits (acc * 10 + (c - b'0')) s in if in_range b'0' b'9' c then rest else none

-- Digits, at least one, with a value below `2 ^ 16`.
unfoldable pub read_u16 : Text → Option ℕ
unfolding read_digits
read_u16 [] = none
read_u16 (c ∷ s) = elim (read_digits 0 (c ∷ s)) [
  | none ↦ none
  | some n ↦ if leb n 65535 then some n else none
]

-- `str::parse::<u16>`: one leading `+` is allowed.
unfoldable pub parse_u16 : Text → Option ℕ
unfolding read_u16
parse_u16 [] = none
parse_u16 (c ∷ s) = if c == b'+' then read_u16 s else read_u16 (c ∷ s)

-- The integers, over the native numbers.
pub data ℤ : Type 0 where
  pos negsuc : ℕ → ℤ

-- Digits, at least one.
read_nat : Text → Option ℕ
read_nat [] = none
read_nat (c ∷ s) = read_digits 0 (c ∷ s)

-- A minus sign was read.
negated : ℕ → Option ℤ
negated zero = some (pos 0)
negated (suc n) = if ltb n (2 ^ 63) then some (negsuc n) else none

unfoldable pub read_i64 : Option ℕ → Option ℤ
read_i64 none = none
read_i64 (some n) = if ltb n (2 ^ 63) then some (pos n) else none

-- `str::parse::<i64>`: one leading sign is allowed.
unfoldable pub parse_i64 : Text → Option ℤ
unfolding read_nat negated read_i64 read_digits
parse_i64 [] = none
parse_i64 (c ∷ s) =
    if c == b'+'
    then read_i64 (read_nat s)
    else if c == b'-'
    then elim (read_nat s) [ none ↦ none | some n ↦ negated n ]
    else read_i64 (read_nat (c ∷ s))
