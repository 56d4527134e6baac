-- ===== src/Std/Examples.antt =====
-- Tests of the standard modules, and the theorems at concrete inputs.
use ferrijs.Prelude.{
  ℕ, zero, suc, ◌≡◌, ◌∙◌, arith, refl, sym, List, [], ◌∷◌, Option, none, some, get_elem?, length,
  nat_eq, true, false,
}
use ferrijs.Text.{Text, text}
use ferrijs.Std.Encoding.Codec.{
  Library, encode_to_string, decode_from_string, bytes_from_b64_node, bytes_from_hex,
}
use ferrijs.Std.Encoding.Reference.{hex_text, b64_text}
use ferrijs.Std.Encoding.RoundTrip.{decode_from_string-encode_to_string}
use ferrijs.Std.ReuseList.{ReuseList, append, remove, iter, optimize}
use ferrijs.Std.ReuseList.Valid.{IsValid}
use ferrijs.Std.ReuseList.Append.{IsAppended, append_total}
use ferrijs.Std.ReuseList.Remove.{IsRemoved, remove_total}
use ferrijs.Std.ReuseList.Compact.{optimize_keeps}
use ferrijs.Prelude.Result.{Result, ok}
use ferrijs.Std.Encoding.{Encoder, utf8, utf16le, base64_url}
use ferrijs.Std.StringDecoder.{StringDecoder, buffers, decode_data}
use ferrijs.Std.StringDecoder.Valid.{IsValid as IsValidDecoder}
use ferrijs.Std.StringDecoder.Filled.{joined, unfailing}
use ferrijs.Std.StringDecoder.Conserves.{IsDecoded}
use ferrijs.Std.StringDecoder.Stream.{writes, writes_total}

-- The lists that hold 1, 2 and 3, and then 1 and 3.
abbrev three : ReuseList ℕ
three = record {
  items = some 1 ∷ some 2 ∷ some 3 ∷ [];
  slots = [];
  last_slot_idx = 0;
  len = 3;
  slot_size = 0;
}

abbrev holed : ReuseList ℕ
holed = record {
  items = some 1 ∷ none ∷ some 3 ∷ [];
  slots = 2 ∷ [];
  last_slot_idx = 1;
  len = 2;
  slot_size = 1;
}

three_removed : remove 1 three ≡ some (holed, some 2)
unfolding remove
three_removed = refl

holed_reused :
    append 4 holed
    ≡ some (
      record {
        items = some 1 ∷ some 4 ∷ some 3 ∷ [];
        slots = 0 ∷ [];
        last_slot_idx = 1;
        len = 3;
        slot_size = 1;
      },
      1,
    )
unfolding append
holed_reused = refl

holed_free :
    (j s : ℕ)
    → get_elem? (2 ∷ []) j ≡ some (suc s)
    → (j ≡ 0) × (get_elem? holed.items s ≡ some none)
holed_free zero zero h = ground arith
holed_free zero (suc zero) h = (refl, refl)
holed_free zero (suc (suc s)) h = ground arith
holed_free (suc j) s h = cc

holed-IsValid : IsValid holed
holed-IsValid = record {
  size = refl;
  bounded = omega arith;
  cursor = λ h. omega arith;
  free = λ j s h. (holed_free j s h).1;
  distinct = λ j k s h q. (holed_free j s h).0 ∙ sym (holed_free k s q).0;
  counted = refl;
}

append_total_example :
    (r' : ReuseList ℕ) × (i : ℕ) × (append 4 holed ≡ some (r', i)) × IsAppended 4 holed r' i
append_total_example = append_total 4 holed holed-IsValid

remove_total_example :
    (r' : ReuseList ℕ) × (o : Option ℕ) × (remove 0 holed ≡ some (r', o)) × IsRemoved 0 holed r' o
remove_total_example = remove_total 0 holed holed-IsValid

optimize_keeps_example :
    IsValid (optimize holed)
    × (iter (optimize holed) ≡ iter holed)
    × ((optimize holed).len ≡ holed.len)
    × (holed.len ≡ length (iter holed))
optimize_keeps_example = optimize_keeps holed holed-IsValid

abbrev decoder : Encoder → List ℕ → ℕ → ℕ → StringDecoder
decoder encoder buffer buffered_bytes missing_bytes = record {
  encoder = encoder;
  buffer = buffer;
  buffered_bytes = buffered_bytes;
  missing_bytes = missing_bytes;
}

abbrev raw : List ℕ → Result (Unit {0}) (List ℕ)
raw = unfailing (λ b. b)

-- The euro sign, cut behind its first byte.
euro_cut :
    writes raw (decoder utf8 [] 0 0) ((0x41 ∷ 0xE2 ∷ []) ∷ (0x82 ∷ 0xAC ∷ 0x42 ∷ []) ∷ [])
    ≡ some (decoder utf8 [] 0 0, ok (0x41 ∷ 0xE2 ∷ 0x82 ∷ 0xAC ∷ 0x42 ∷ []))
unfolding writes decode_data
euro_cut = refl

-- U+1F4D8 in UTF-16, cut between its surrogates: the low byte 0xD8 of the second is taken for a
-- high surrogate, so that five bytes are decoded as one character.
surrogates_cut :
    decode_data raw (decoder utf16le (0x3D ∷ 0xD8 ∷ []) 2 2) (0xD8 ∷ 0xDC ∷ 0x41 ∷ [])
    ≡ some (decoder utf16le [] 0 0, ok (0x3D ∷ 0xD8 ∷ 0xD8 ∷ 0xDC ∷ 0x41 ∷ []))
unfolding decode_data
surrogates_cut = refl

held-IsValid : IsValidDecoder (decoder utf8 (0xE2 ∷ []) 1 2)
unfolding buffers
held-IsValid = record { counted = refl; idle = λ h. absurd (omega arith); direct = λ h. cc }

writes_total_example :
    (d' : StringDecoder) × (out : List ℕ) × (writes {E = Unit {0}}
        (unfailing (λ b. b))
        (decoder utf8 (0xE2 ∷ []) 1 2)
        ((0x82 ∷ []) ∷ (0xAC ∷ 0x42 ∷ []) ∷ [])
      ≡ some (d', ok out))
    × IsDecoded
        (λ b. b)
        (decoder utf8 (0xE2 ∷ []) 1 2)
        (joined (λ b. b) ((0x82 ∷ []) ∷ (0xAC ∷ 0x42 ∷ []) ∷ []))
        d'
        out
writes_total_example =
    writes_total (λ b. b) (decoder utf8 (0xE2 ∷ []) 1 2) ((0x82 ∷ []) ∷ (0xAC ∷ 0x42 ∷ []) ∷ [])
      held-IsValid

-- Libraries that give the reference texts; the conversions of UTF-8 and UTF-16 are not reached.
abbrev codec_library : Library
codec_library = record {
  hex_encode = hex_text;
  base64_standard = b64_text false;
  base64_url_safe_no_pad = b64_text true;
  from_utf8 = λ bytes. ok bytes;
  from_utf8_lossy = λ bytes. bytes;
  from_utf16 = λ units. ok units;
  from_utf16_lossy = λ units. units;
  into_bytes = λ t. t;
  encode_utf16 = λ t. t;
}

decode_from_string-encode_to_string_example :
    (t : Text) × (encode_to_string codec_library base64_url (251 ∷ 255 ∷ 62 ∷ 7 ∷ []) false ≡ ok t)
    × (decode_from_string codec_library base64_url t ≡ ok (251 ∷ 255 ∷ 62 ∷ 7 ∷ []))
decode_from_string-encode_to_string_example =
    decode_from_string-encode_to_string codec_library base64_url (251 ∷ 255 ∷ 62 ∷ 7 ∷ []) false
      (λ bs a. refl) (λ bs a. refl) (λ bs a. refl) (λ t a. refl) refl
      (omega arith, (omega arith, (omega arith, (omega arith, tt))))

-- `Buffer.from('Y!Q', 'base64')`
skipped_symbol : bytes_from_b64_node (text "Y!Q") ≡ 0x61 ∷ []
unfolding bytes_from_b64_node
skipped_symbol = refl

-- `Buffer.from('abc', 'hex')`
odd_digit : bytes_from_hex (text "abc") ≡ ok (0xab ∷ [])
unfolding bytes_from_hex
odd_digit = refl
