-- ===== src/Std/Encoding/RoundTrip.antt =====
-- A byte string that is encoded to a text and decoded again, for the encoders that can hold every
-- byte.
use ferrijs.Prelude.{
  ℕ, ◌%◌, ◌<◌, ◌≡◌, refl, ap, ◌∙◌, Bool, true, false, List, [], ◌∷◌, nat_eq, arith, All, map,
}
use ferrijs.Prelude.Result.{ok}
use ferrijs.Text.{Text}
use ferrijs.Std.Encoding.{
  Encoder, hex, base64, base64_url, windows1252, latin1, ascii, utf8, utf16le, utf16be,
}
use ferrijs.Std.Encoding.Codec.{
  Library, windows_1252_char, windows_1252_to_string, windows_1252_byte, string_to_windows_1252,
  bytes_from_hex, bytes_from_b64_node, encode_to_string, decode_from_string,
}
use ferrijs.Std.Encoding.Reference.{
  IsByte, IsAscii, b64_text, hex_text, cons_eq, hex_loop-hex_text, b64_loop-b64_text,
  b64_text-IsAscii, hex_text-IsAscii,
}
use ferrijs.Std.Encoding.Windows1252.{windows_1252_byte-char}

map_bytes :
    (f g : ℕ → ℕ) (bytes : List ℕ)
    → ((b : ℕ) → b < 256 → f (g b) ≡ b)
    → All IsByte bytes
    → map f (map g bytes) ≡ bytes
map_bytes f g [] e a = refl
map_bytes f g (b ∷ bytes) e a =
    cons_eq (f (g b)) b (map f (map g bytes)) bytes (e b a.0) (map_bytes f g bytes e a.1)

b64_read :
    (lib : Library) (url : Bool) (bytes : List ℕ)
    → ((t : Text) → IsAscii t → lib.into_bytes t ≡ t)
    → All IsByte bytes
    → bytes_from_b64_node (lib.into_bytes (b64_text url bytes)) ≡ bytes
unfolding bytes_from_b64_node
b64_read lib url bytes i a =
    ap bytes_from_b64_node (i (b64_text url bytes) (b64_text-IsAscii url bytes a))
    ∙ b64_loop-b64_text url bytes a

latin1_kept : (bytes : List ℕ) → All IsByte bytes → map (λ c. c % 256) bytes ≡ bytes
latin1_kept [] a = refl
latin1_kept (b ∷ bytes) a =
    cons_eq (b % 256) b (map (λ c. c % 256) bytes) bytes (omega (arith, a.0))
      (latin1_kept bytes a.1)

-- The encoders whose texts hold every byte.
abbrev pub is_binary : Encoder → Bool
is_binary ascii = false
is_binary utf8 = false
is_binary utf16le = false
is_binary utf16be = false
is_binary _ = true

-- Any bytes that hexadecimal, base64 in either alphabet, windows-1252 or latin1 encodes to a text
-- are what the text decodes to. The libraries' texts of digits and symbols are the reference ones,
-- and an ASCII text has one byte for each character.
pub decode_from_string-encode_to_string :
    (lib : Library) (encoder : Encoder) (bytes : List ℕ) (lossy : Bool)
    → ((bs : List ℕ) → All IsByte bs → lib.hex_encode bs ≡ hex_text bs)
    → ((bs : List ℕ) → All IsByte bs → lib.base64_standard bs ≡ b64_text false bs)
    → ((bs : List ℕ) → All IsByte bs → lib.base64_url_safe_no_pad bs ≡ b64_text true bs)
    → ((t : Text) → IsAscii t → lib.into_bytes t ≡ t)
    → is_binary encoder ≡ true
    → All IsByte bytes
    → (t : Text) × (encode_to_string lib encoder bytes lossy ≡ ok t)
      × (decode_from_string lib encoder t ≡ ok bytes)
unfolding encode_to_string decode_from_string bytes_from_hex string_to_windows_1252
    windows_1252_to_string
decode_from_string-encode_to_string lib hex bytes lossy h s u i b a = (
  hex_text bytes,
  ap ok (h bytes a),
  ap bytes_from_hex (i (hex_text bytes) (hex_text-IsAscii bytes a))
      ∙ ap ok (hex_loop-hex_text bytes a),
)
decode_from_string-encode_to_string lib base64 bytes lossy h s u i b a =
    (b64_text false bytes, ap ok (s bytes a), ap ok (b64_read lib false bytes i a))
decode_from_string-encode_to_string lib base64_url bytes lossy h s u i b a =
    (b64_text true bytes, ap ok (u bytes a), ap ok (b64_read lib true bytes i a))
decode_from_string-encode_to_string lib windows1252 bytes lossy h s u i b a = (
  windows_1252_to_string bytes,
  refl,
  ap ok (map_bytes windows_1252_byte windows_1252_char bytes windows_1252_byte-char a),
)
decode_from_string-encode_to_string lib latin1 bytes lossy h s u i b a =
    (bytes, refl, ap ok (latin1_kept bytes a))
decode_from_string-encode_to_string lib _ bytes lossy h s u i b a = absurd cc
