-- ===== src/Std/Encoding/Codec.antt =====
-- crates/ferrijs-std/src/encoding/mod.rs: the conversions between bytes and texts. What the code
-- calls of `String`, `base64_simd` and `hex_simd` are the fields of `Library`.
use ferrijs.Prelude.{
  ℕ, ◌+◌, ◌-◌, ◌*◌, ◌/◌, ◌%◌, Bool, not, ◌&&◌, ◌||◌, List, [], ◌∷◌, ◌++◌, map, Option, none, some,
  if◌then◌else◌, get_elem?, position, in_range, leb, length, ◌==◌, nat_eq,
}
use ferrijs.Prelude.Result.{Result, ok, err}
use ferrijs.Text.{Text, text}
use ferrijs.Std.Encoding.{
  Encoder, hex, base64, base64_url, windows1252, latin1, ascii, utf8, utf16le, utf16be,
}

pub record Library : Type 0 where
  pub hex_encode : List ℕ → Text
  pub base64_standard : List ℕ → Text
  pub base64_url_safe_no_pad : List ℕ → Text
  pub from_utf8 : List ℕ → Result Text Text
  pub from_utf8_lossy : List ℕ → Text
  pub from_utf16 : List ℕ → Result Text Text
  pub from_utf16_lossy : List ℕ → Text
  pub into_bytes : Text → List ℕ
  pub encode_utf16 : Text → List ℕ

-- `WINDOWS_1252_HIGH`
abbrev pub windows_1252_high : List ℕ
windows_1252_high =
    0x20AC ∷ 0x0081 ∷ 0x201A ∷ 0x0192 ∷ 0x201E ∷ 0x2026 ∷ 0x2020 ∷ 0x2021 ∷ 0x02C6 ∷ 0x2030 ∷ 0x0160
    ∷ 0x2039 ∷ 0x0152 ∷ 0x008D ∷ 0x017D ∷ 0x008F ∷ 0x0090 ∷ 0x2018 ∷ 0x2019 ∷ 0x201C ∷ 0x201D
    ∷ 0x2022 ∷ 0x2013 ∷ 0x2014 ∷ 0x02DC ∷ 0x2122 ∷ 0x0161 ∷ 0x203A ∷ 0x0153 ∷ 0x009D ∷ 0x017E
    ∷ 0x0178 ∷ []

-- The index is within the table, so `b` stands for no byte.
abbrev pub or_byte : ℕ → Option ℕ → ℕ
or_byte b (some c) = c
or_byte b none = b

unfoldable pub windows_1252_char : ℕ → ℕ
windows_1252_char b =
    if in_range 0x80 0x9F b then or_byte b (get_elem? windows_1252_high (b - 0x80)) else b

unfoldable pub windows_1252_to_string : List ℕ → Text
unfolding windows_1252_char
windows_1252_to_string bytes = map windows_1252_char bytes

-- By the index of the character in the table.
abbrev pub byte_at : ℕ → Option ℕ → ℕ
byte_at c (some index) = 0x80 + index
byte_at c none = if leb c 255 then c else b'?'

unfoldable pub windows_1252_byte : ℕ → ℕ
windows_1252_byte c = byte_at c (position (λ high. high == c) windows_1252_high)

unfoldable pub string_to_windows_1252 : Text → List ℕ
unfolding windows_1252_byte
string_to_windows_1252 string = map windows_1252_byte string

-- `char::to_digit(16)`
unfoldable pub hex_digit : ℕ → Option ℕ
hex_digit c =
    if in_range b'0' b'9' c
    then some (c - b'0')
    else if in_range b'a' b'f' c
    then some (c - b'a' + 10)
    else if in_range b'A' b'F' c
    then some (c - b'A' + 10)
    else none

-- The two digits of a byte; `hi << 4 | lo` adds, since the bits are apart.
unfoldable pub hex_pair : Option ℕ → Option ℕ → Option ℕ
hex_pair (some hi) (some lo) = some ((hi * 16 + lo) % 256)
hex_pair _ _ = none

abbrev pub push_pair : Option ℕ → List ℕ → List ℕ
push_pair (some b) rest = b ∷ rest
push_pair none rest = []

-- The loop of `bytes_from_hex`.
unfoldable pub hex_loop : List ℕ → List ℕ
unfolding hex_digit hex_pair
hex_loop [] = []
hex_loop (c ∷ []) = []
hex_loop (first ∷ second ∷ bytes) =
    let rest = hex_loop bytes in push_pair (hex_pair (hex_digit first) (hex_digit second)) rest

unfoldable pub bytes_from_hex : List ℕ → Result Text (List ℕ)
unfolding hex_loop
bytes_from_hex hex_bytes = ok (hex_loop hex_bytes)

-- The value of a symbol of either alphabet.
unfoldable pub b64_value : ℕ → Option ℕ
b64_value c =
    if in_range b'A' b'Z' c
    then some (c - b'A')
    else if in_range b'a' b'z' c
    then some (c - b'a' + 26)
    else if in_range b'0' b'9' c
    then some (c - b'0' + 52)
    else if c == b'+' || c == b'-'
    then some 62
    else if c == b'/' || c == b'_'
    then some 63
    else none

-- The bytes of two, three or four symbols, in eight bits; the parts of a byte are apart, so `|`
-- adds.
abbrev pub first_byte : ℕ → ℕ → ℕ
first_byte g0 g1 = g0 * 4 % 256 + g1 / 16

abbrev pub second_byte : ℕ → ℕ → ℕ
second_byte g1 g2 = g1 * 16 % 256 + g2 / 4

abbrev pub third_byte : ℕ → ℕ → ℕ
third_byte g2 g3 = g2 * 64 % 256 + g3

-- The symbols of the group that is not full yet.
pub data Group : Type 0 where
  filled0 : Group
  filled1 : ℕ → Group
  filled2 : ℕ → ℕ → Group
  filled3 : ℕ → ℕ → ℕ → Group

-- The bytes that the group's last symbol completes, and the group after it.
unfoldable pub push_symbol : Group → ℕ → List ℕ × Group
push_symbol filled0 v = ([], filled1 v)
push_symbol (filled1 g0) v = ([], filled2 g0 v)
push_symbol (filled2 g0 g1) v = ([], filled3 g0 g1 v)
push_symbol (filled3 g0 g1 g2) v =
    (first_byte g0 g1 ∷ second_byte g1 g2 ∷ third_byte g2 v ∷ [], filled0)

-- The bytes of a group that stays partial.
unfoldable pub finish_group : Group → List ℕ
finish_group filled0 = []
finish_group (filled1 g0) = []
finish_group (filled2 g0 g1) = first_byte g0 g1 ∷ []
finish_group (filled3 g0 g1 g2) = first_byte g0 g1 ∷ second_byte g1 g2 ∷ []

-- The loop of `bytes_from_b64_node`.
unfoldable pub b64_loop : List ℕ → Group → List ℕ
unfolding b64_value push_symbol finish_group
b64_loop [] group = finish_group group
b64_loop (c ∷ bytes) group = if c == b'=' then finish_group group else elim (b64_value c) [
  | none ↦ b64_loop bytes group
  | some v ↦ (push_symbol group v).0 ++ b64_loop bytes (push_symbol group v).1
]

unfoldable pub bytes_from_b64_node : List ℕ → List ℕ
unfolding b64_loop
bytes_from_b64_node bytes = b64_loop bytes filled0

pub data Endian : Type 0 where
  little big : Endian

-- `as_chunks::<2>` and `u16::from_le_bytes` or `u16::from_be_bytes`
unfoldable pub units : Endian → List ℕ → List ℕ
units endian [] = []
units endian (a ∷ []) = []
units Endian.little (a ∷ b ∷ bytes) = (a + b * 256) ∷ units Endian.little bytes
units Endian.big (a ∷ b ∷ bytes) = (a * 256 + b) ∷ units Endian.big bytes

-- `flat_map` of `to_le_bytes` or `to_be_bytes`
unfoldable pub unit_bytes : Endian → List ℕ → List ℕ
unit_bytes endian [] = []
unit_bytes Endian.little (u ∷ units) = u % 256 ∷ u / 256 ∷ unit_bytes Endian.little units
unit_bytes Endian.big (u ∷ units) = u / 256 ∷ u % 256 ∷ unit_bytes Endian.big units

module _ (lib : Library) where
  unfoldable pub bytes_to_utf8_string : List ℕ → Bool → Result Text Text
  bytes_to_utf8_string bytes lossy =
      if lossy then ok (lib.from_utf8_lossy bytes) else lib.from_utf8 bytes

  unfoldable pub bytes_to_utf16_string : List ℕ → Endian → Bool → Result Text Text
  unfolding units
  bytes_to_utf16_string bytes endian lossy =
      let odd = not (length bytes % 2 == 0) in
      if not lossy && odd
      then err (text "Input byte slice length must be even")
      else if lossy
      then ok (lib.from_utf16_lossy (units endian bytes) ++ (if odd then 0xFFFD ∷ [] else []))
      else lib.from_utf16 (units endian bytes)

  unfoldable pub encode_to_string : Encoder → List ℕ → Bool → Result Text Text
  unfolding bytes_to_utf8_string bytes_to_utf16_string windows_1252_to_string
  encode_to_string hex bytes lossy = ok (lib.hex_encode bytes)
  encode_to_string base64 bytes lossy = ok (lib.base64_standard bytes)
  encode_to_string base64_url bytes lossy = ok (lib.base64_url_safe_no_pad bytes)
  encode_to_string utf8 bytes lossy = bytes_to_utf8_string bytes lossy
  encode_to_string windows1252 bytes lossy = ok (windows_1252_to_string bytes)
  encode_to_string latin1 bytes lossy = ok bytes
  encode_to_string ascii bytes lossy = ok (map (λ b. b % 128) bytes)
  encode_to_string utf16le bytes lossy = bytes_to_utf16_string bytes Endian.little lossy
  encode_to_string utf16be bytes lossy = bytes_to_utf16_string bytes Endian.big lossy

  -- `Encoder::encode`; the texts of digits and symbols are ASCII, one byte for each character.
  unfoldable pub encode : Encoder → List ℕ → Result Text (List ℕ)
  encode hex bytes = ok (lib.hex_encode bytes)
  encode base64 bytes = ok (lib.base64_standard bytes)
  encode base64_url bytes = ok (lib.into_bytes (lib.base64_url_safe_no_pad bytes))
  encode _ bytes = ok bytes

  unfoldable pub decode : Encoder → List ℕ → Result Text (List ℕ)
  unfolding bytes_from_hex bytes_from_b64_node
  decode hex bytes = bytes_from_hex bytes
  decode base64 bytes = ok (bytes_from_b64_node bytes)
  decode base64_url bytes = ok (bytes_from_b64_node bytes)
  decode _ bytes = ok bytes

  unfoldable pub decode_from_string : Encoder → Text → Result Text (List ℕ)
  unfolding bytes_from_hex bytes_from_b64_node string_to_windows_1252 unit_bytes
  decode_from_string hex string = bytes_from_hex (lib.into_bytes string)
  decode_from_string base64 string = ok (bytes_from_b64_node (lib.into_bytes string))
  decode_from_string base64_url string = ok (bytes_from_b64_node (lib.into_bytes string))
  decode_from_string utf8 string = ok (lib.into_bytes string)
  decode_from_string windows1252 string = ok (string_to_windows_1252 string)
  decode_from_string latin1 string = ok (map (λ c. c % 256) string)
  decode_from_string ascii string = ok (map (λ c. c % 256 % 128) string)
  decode_from_string utf16le string = ok (unit_bytes Endian.little (lib.encode_utf16 string))
  decode_from_string utf16be string = ok (unit_bytes Endian.big (lib.encode_utf16 string))
