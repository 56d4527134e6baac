-- ===== src/Std/Encoding/Reference.antt =====
-- The texts of hexadecimal digits and of base64 by reference definitions (RFC 4648), which the
-- decoders read.
use ferrijs.Prelude.{
  ℕ, ◌+◌, ◌-◌, ◌*◌, ◌/◌, ◌%◌, ◌<◌, ◌≡◌, refl, ap, ◌∙◌, Bool, true, false, List, [], ◌∷◌, ◌++◌, some,
  if◌then◌else◌, ltb, ◌==◌, nat_eq, arith, All,
}
use ferrijs.Text.{Text, text}
use ferrijs.Std.Encoding.Codec.{
  hex_digit, hex_pair, hex_loop, b64_value, first_byte, second_byte, third_byte, filled0, filled1,
  filled2, filled3, Group, push_symbol, finish_group, b64_loop,
}

abbrev pub IsByte : ℕ → Type 0
IsByte b = b < 256

-- The symbol of six bits, in the standard alphabet or the one for URLs.
abbrev pub b64_symbol : Bool → ℕ → ℕ
b64_symbol url v =
    if ltb v 26
    then b'A' + v
    else if ltb v 52
    then b'a' + (v - 26)
    else if ltb v 62
    then b'0' + (v - 52)
    else if v == 62
    then (if url then b'-' else b'+')
    else (if url then b'_' else b'/')

-- The base64 text of bytes, three at a time; the alphabet for URLs goes without padding.
abbrev pub b64_text : Bool → List ℕ → Text
b64_text url [] = []
b64_text url (a ∷ []) =
    b64_symbol url (a / 4) ∷ b64_symbol url (a % 4 * 16) ∷ (if url then [] else text "==")
b64_text url (a ∷ b ∷ []) =
    b64_symbol url (a / 4)
    ∷ b64_symbol url (a % 4 * 16 + b / 16)
    ∷ b64_symbol url (b % 16 * 4)
    ∷ (if url then [] else text "=")
b64_text url (a ∷ b ∷ c ∷ bytes) =
    b64_symbol url (a / 4)
    ∷ b64_symbol url (a % 4 * 16 + b / 16)
    ∷ b64_symbol url (b % 16 * 4 + c / 64)
    ∷ b64_symbol url (c % 64)
    ∷ b64_text url bytes

abbrev pub hex_char : ℕ → ℕ
hex_char d = if ltb d 10 then b'0' + d else b'a' + (d - 10)

abbrev pub hex_text : List ℕ → Text
hex_text [] = []
hex_text (b ∷ bytes) = hex_char (b / 16) ∷ hex_char (b % 16) ∷ hex_text bytes

pub cons_eq : (x y : ℕ) (xs ys : List ℕ) → x ≡ y → xs ≡ ys → x ∷ xs ≡ y ∷ ys
cons_eq x y xs ys e f = ap (λ (z : ℕ). z ∷ xs) e ∙ ap (λ zs. y ∷ zs) f

hex_digit-hex_char : (d : ℕ) → d < 16 → hex_digit (hex_char d) ≡ some d
unfolding hex_digit
hex_digit-hex_char d h = ground arith

pub hex_loop-hex_text : (bytes : List ℕ) → All IsByte bytes → hex_loop (hex_text bytes) ≡ bytes
unfolding hex_loop hex_pair
hex_loop-hex_text [] a = refl
hex_loop-hex_text (b ∷ bytes) a =
    rw (hex_digit-hex_char (b / 16) (omega (arith, a.0)), hex_digit-hex_char (b % 16) (omega arith))
      (cons_eq ((b / 16 * 16 + b % 16) % 256) b (hex_loop (hex_text bytes)) bytes
        (omega (arith, a.0)) (hex_loop-hex_text bytes a.1))

b64_value-b64_symbol : (url : Bool) (v : ℕ) → v < 64 → b64_value (b64_symbol url v) ≡ some v
unfolding b64_value
b64_value-b64_symbol url v h = ground arith

b64_symbol_apart : (url : Bool) (v : ℕ) → v < 64 → (b64_symbol url v == b'=') ≡ false
b64_symbol_apart url v h = ground arith

b64_loop-b64_symbol :
    (url : Bool) (v : ℕ) (bytes : List ℕ) (g : Group)
    → v < 64
    → b64_loop (b64_symbol url v ∷ bytes) g
      ≡ (push_symbol g v).0 ++ b64_loop bytes (push_symbol g v).1
unfolding b64_loop
b64_loop-b64_symbol url v bytes g h =
    rw (b64_symbol_apart url v h, b64_value-b64_symbol url v h) refl

-- The padding ends the loop, as does the end of the text.
b64_loop_pad :
    (url : Bool) (pad : Text) (g : Group)
    → b64_loop (if url then [] else b'=' ∷ pad) g ≡ finish_group g
unfolding b64_loop
b64_loop_pad true pad g = refl
b64_loop_pad false pad g = refl

pub b64_loop-b64_text :
    (url : Bool) (bytes : List ℕ) → All IsByte bytes → b64_loop (b64_text url bytes) filled0 ≡ bytes
unfolding push_symbol b64_loop finish_group
b64_loop-b64_text url [] a = refl
b64_loop-b64_text url (x ∷ []) a =
    rw
      (
        b64_loop-b64_symbol url (x / 4)
            (b64_symbol url (x % 4 * 16) ∷ (if url then [] else text "==")) filled0
            (omega (arith, a.0)),
        b64_loop-b64_symbol url (x % 4 * 16) (if url then [] else text "==") (filled1 (x / 4))
            (omega arith),
        b64_loop_pad url (text "=") (filled2 (x / 4) (x % 4 * 16)),
      )
      (cons_eq (first_byte (x / 4) (x % 4 * 16)) x [] [] (omega (arith, a.0)) refl)
b64_loop-b64_text url (x ∷ y ∷ []) a =
    rw
      (
        b64_loop-b64_symbol url (x / 4)
            (b64_symbol url (x % 4 * 16 + y / 16)
              ∷ b64_symbol url (y % 16 * 4)
              ∷ (if url then [] else text "="))
            filled0 (omega (arith, a.0)),
        b64_loop-b64_symbol url (x % 4 * 16 + y / 16)
            (b64_symbol url (y % 16 * 4) ∷ (if url then [] else text "=")) (filled1 (x / 4))
            (omega (arith, a.1.0)),
        b64_loop-b64_symbol url (y % 16 * 4) (if url then [] else text "=")
            (filled2 (x / 4) (x % 4 * 16 + y / 16)) (omega arith),
        b64_loop_pad url [] (filled3 (x / 4) (x % 4 * 16 + y / 16) (y % 16 * 4)),
      )
      (cons_eq (first_byte (x / 4) (x % 4 * 16 + y / 16)) x
        (second_byte (x % 4 * 16 + y / 16) (y % 16 * 4) ∷ []) (y ∷ []) (omega (arith, a.0, a.1.0))
        (cons_eq (second_byte (x % 4 * 16 + y / 16) (y % 16 * 4)) y [] []
          (omega (arith, a.0, a.1.0)) refl))
b64_loop-b64_text url (x ∷ y ∷ z ∷ bytes) a =
    rw
      (
        b64_loop-b64_symbol url (x / 4)
            (b64_symbol url (x % 4 * 16 + y / 16)
              ∷ b64_symbol url (y % 16 * 4 + z / 64)
              ∷ b64_symbol url (z % 64)
              ∷ b64_text url bytes)
            filled0 (omega (arith, a.0)),
        b64_loop-b64_symbol url (x % 4 * 16 + y / 16)
            (b64_symbol url (y % 16 * 4 + z / 64) ∷ b64_symbol url (z % 64) ∷ b64_text url bytes)
            (filled1 (x / 4)) (omega (arith, a.1.0)),
        b64_loop-b64_symbol url (y % 16 * 4 + z / 64) (b64_symbol url (z % 64) ∷ b64_text url bytes)
            (filled2 (x / 4) (x % 4 * 16 + y / 16)) (omega (arith, a.1.1.0)),
        b64_loop-b64_symbol url (z % 64) (b64_text url bytes)
            (filled3 (x / 4) (x % 4 * 16 + y / 16) (y % 16 * 4 + z / 64)) (omega arith),
        b64_loop-b64_text url bytes a.1.1.1,
      )
      (cons_eq (first_byte (x / 4) (x % 4 * 16 + y / 16)) x
        (second_byte (x % 4 * 16 + y / 16) (y % 16 * 4 + z / 64)
          ∷ third_byte (y % 16 * 4 + z / 64) (z % 64)
          ∷ bytes)
        (y ∷ z ∷ bytes) (omega (arith, a.0, a.1.0))
        (cons_eq (second_byte (x % 4 * 16 + y / 16) (y % 16 * 4 + z / 64)) y
          (third_byte (y % 16 * 4 + z / 64) (z % 64) ∷ bytes) (z ∷ bytes)
          (omega (arith, a.1.0, a.1.1.0))
          (cons_eq (third_byte (y % 16 * 4 + z / 64) (z % 64)) z bytes bytes
            (omega (arith, a.1.1.0)) refl)))

-- An ASCII text.
abbrev pub IsAscii : Text → Type 0
IsAscii t = All (λ c. c < 128) t

b64_symbol_ascii : (url : Bool) (v : ℕ) → v < 64 → b64_symbol url v < 128
b64_symbol_ascii url v h = ground arith

pad-IsAscii : (url : Bool) (pad : Text) → IsAscii pad → IsAscii (if url then [] else pad)
pad-IsAscii true pad a = tt
pad-IsAscii false pad a = a

hex_char_ascii : (d : ℕ) → d < 16 → hex_char d < 128
hex_char_ascii d h = ground arith

pub b64_text-IsAscii :
    (url : Bool) (bytes : List ℕ) → All IsByte bytes → IsAscii (b64_text url bytes)
b64_text-IsAscii url [] a = tt
b64_text-IsAscii url (x ∷ []) a = (
  b64_symbol_ascii url (x / 4) (omega (arith, a.0)),
  (
    b64_symbol_ascii url (x % 4 * 16) (omega arith),
    pad-IsAscii url (text "==") (omega arith, (omega arith, tt)),
  ),
)
b64_text-IsAscii url (x ∷ y ∷ []) a = (
  b64_symbol_ascii url (x / 4) (omega (arith, a.0)),
  (
    b64_symbol_ascii url (x % 4 * 16 + y / 16) (omega (arith, a.1.0)),
    (b64_symbol_ascii url (y % 16 * 4) (omega arith), pad-IsAscii url (text "=") (omega arith, tt)),
  ),
)
b64_text-IsAscii url (x ∷ y ∷ z ∷ bytes) a = (
  b64_symbol_ascii url (x / 4) (omega (arith, a.0)),
  (
    b64_symbol_ascii url (x % 4 * 16 + y / 16) (omega (arith, a.1.0)),
    (
      b64_symbol_ascii url (y % 16 * 4 + z / 64) (omega (arith, a.1.1.0)),
      (b64_symbol_ascii url (z % 64) (omega arith), b64_text-IsAscii url bytes a.1.1.1),
    ),
  ),
)

pub hex_text-IsAscii : (bytes : List ℕ) → All IsByte bytes → IsAscii (hex_text bytes)
hex_text-IsAscii [] a = tt
hex_text-IsAscii (b ∷ bytes) a = (
  hex_char_ascii (b / 16) (omega (arith, a.0)),
  (hex_char_ascii (b % 16) (omega arith), hex_text-IsAscii bytes a.1),
)
