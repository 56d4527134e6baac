-- ===== src/Std/StringDecoder.antt =====
-- crates/ferrijs-std/src/string_decoder/decoder.rs: decoding bytes that arrive in chunks. A byte is
-- a number below 256, so that a test with a mask is the range it stands for. `make_string`, the
-- conversion of bytes to text by the encoder, is a parameter. `none` is a panic: a subtraction
-- below 0 or a slice out of bounds.
pub mod Valid
pub mod Scan
pub mod Filled
pub mod Conserves
pub mod Stream
use ferrijs.Prelude.{
  ℕ, zero, suc, ◌+◌, ◌-◌, ◌%◌, Bool, true, false, not, ◌&&◌, ◌||◌, List, [], ◌∷◌, ◌++◌, Option,
  none, some, if◌then◌else◌, ltb, leb, in_range, length, take, drop, any, is_empty, last, ◌==◌,
  nat_eq,
}
use ferrijs.Prelude.Result.{Result, ok, err}
use mathlib.Core.List.{reverse}
use ferrijs.Text.{Text, text}
use ferrijs.Std.Encoding.{Encoder, utf8, utf16le, base64, base64_url, from_str}

pub record StringDecoder : Type 0 where
  pub encoder : Encoder
  pub buffer : List ℕ
  pub buffered_bytes : ℕ
  pub missing_bytes : ℕ

-- The encoders whose characters may be split between chunks.
unfoldable pub buffers : Encoder → Bool
buffers utf8 = true
buffers utf16le = true
buffers base64 = true
buffers base64_url = true
buffers _ = false

-- `byte & 0xC0 == 0x80`
unfoldable pub is_trailing : ℕ → Bool
is_trailing byte = in_range 0x80 0xBF byte

-- `byte & 0xFC == 0xD8`
unfoldable pub is_high_surrogate : ℕ → Bool
is_high_surrogate byte = in_range 0xD8 0xDB byte

-- The chunk cut at its first byte that is not trailing, within the first `missing` bytes.
unfoldable pub cut_character : ℕ → List ℕ → Option (List ℕ × List ℕ)
unfolding is_trailing
cut_character zero chunk = none
cut_character (suc missing) [] = none
cut_character (suc missing) (byte ∷ chunk) = elim (cut_character missing chunk) [
  | none ↦ if not (is_trailing byte) then some ([], byte ∷ chunk) else none
  | some (before, rest) ↦
      if not (is_trailing byte) then some ([], byte ∷ chunk) else some (byte ∷ before, rest)
]

-- The loop for UTF-8: an incomplete character ends before a byte that cannot continue it.
unfoldable pub align_utf8 :
    Option (List ℕ × List ℕ) → StringDecoder → List ℕ → StringDecoder × List ℕ
align_utf8 none d chunk = (d, chunk)
align_utf8 (some (before, rest)) d chunk = (
  record d {
    missing_bytes = 0;
    buffer = d.buffer ++ before;
    buffered_bytes = d.buffered_bytes + length before;
  },
  rest,
)

-- The loop for UTF-16: a high surrogate makes the low one missing too.
unfoldable pub align_utf16le : StringDecoder → List ℕ → StringDecoder × List ℕ
unfolding is_high_surrogate
align_utf16le d chunk = (
  if any is_high_surrogate (take d.missing_bytes chunk) then record d { missing_bytes = 3 } else d,
  chunk,
)

unfoldable pub align : Encoder → StringDecoder → List ℕ → StringDecoder × List ℕ
unfolding cut_character align_utf8 align_utf16le
align utf8 d chunk = align_utf8 (cut_character d.missing_bytes chunk) d chunk
align utf16le d chunk = align_utf16le d chunk
align _ d chunk = (d, chunk)

-- The bytes that were found go to the buffer.
unfoldable pub take_found : StringDecoder → List ℕ → StringDecoder × List ℕ
take_found d chunk =
    let found = if leb (length chunk) d.missing_bytes then length chunk else d.missing_bytes in
    (
      record d {
        buffer = d.buffer ++ take found chunk;
        missing_bytes = d.missing_bytes - found;
        buffered_bytes = d.buffered_bytes + found;
      },
      drop found chunk,
    )

-- What the last bytes of the data, from the last to the first, say of a character that is cut off.
unfoldable pub scan_lead : StringDecoder → ℕ → StringDecoder
scan_lead d byte =
    let needed =
      if in_range 0xC0 0xDF byte
      then 2
      else if in_range 0xE0 0xEF byte
      then 3
      else if in_range 0xF0 0xF7 byte
      then 4
      else 0 in
    if needed == 0
    then record d { buffered_bytes = 0 }
    else if leb needed d.buffered_bytes
    then record d { missing_bytes = 0; buffered_bytes = 0 }
    else record d { missing_bytes = needed - d.buffered_bytes }

unfoldable pub scan_utf8 : List ℕ → StringDecoder → StringDecoder
unfolding is_trailing scan_lead
scan_utf8 [] d = d
scan_utf8 (byte ∷ rest) d =
    let next = record d { buffered_bytes = d.buffered_bytes + 1 } in
    let further = scan_utf8 rest next in
    if is_trailing byte
    then (if leb 4 next.buffered_bytes || is_empty rest
        then record next { buffer = []; buffered_bytes = 0 }
        else further)
    else scan_lead next byte

-- `data[data.len() - 1]` and `data[data.len() - 2]` are the first bytes of the reversed data.
unfoldable pub scan_utf16le : List ℕ → ℕ → StringDecoder → StringDecoder
unfolding is_high_surrogate
scan_utf16le reversed len d = elim reversed [
  | [] ↦ d
  | final ∷ [] ↦
      (if len % 2 == 1
        then record d { buffered_bytes = 1; missing_bytes = 1 }
        else if is_high_surrogate final
        then record d { buffered_bytes = 2; missing_bytes = 2 }
        else d)
  | final ∷ before ∷ _ ↦
      (if len % 2 == 1
        then (if leb 3 len && is_high_surrogate before
            then record d { buffered_bytes = 3; missing_bytes = 1 }
            else record d { buffered_bytes = 1; missing_bytes = 1 })
        else if is_high_surrogate final
        then record d { buffered_bytes = 2; missing_bytes = 2 }
        else d)
]

unfoldable pub scan_base64 : ℕ → StringDecoder → StringDecoder
scan_base64 len d =
    if ltb 0 (len % 3)
    then record d { buffered_bytes = len % 3; missing_bytes = 3 - len % 3 }
    else record d { buffered_bytes = 0 }

-- How many bytes at the end of the data belong to a character that is cut off.
unfoldable pub scan_end : Encoder → List ℕ → StringDecoder → StringDecoder
unfolding scan_utf8 scan_utf16le scan_base64
scan_end utf8 chunk d = elim (reverse chunk) [
  | [] ↦ d
  | final ∷ rest ↦ if leb 0x80 final then scan_utf8 (final ∷ rest) d else d
]
scan_end utf16le chunk d = scan_utf16le (reverse chunk) (length chunk) d
scan_end base64 chunk d = scan_base64 (length chunk) d
scan_end base64_url chunk d = scan_base64 (length chunk) d
scan_end _ chunk d = d

-- The bytes that are held back for the next chunk, and the data before them.
unfoldable pub hold_back : StringDecoder → List ℕ → Option (StringDecoder × List ℕ)
hold_back d chunk =
    let kept = length chunk - d.buffered_bytes in
    if ltb 0 d.buffered_bytes
    then (if leb d.buffered_bytes (length chunk)
        then some (record d { buffer = d.buffer ++ drop kept chunk }, take kept chunk)
        else none)
    else some (d, chunk)

-- A single trailing byte that `flush` ignores.
unfoldable pub ends_odd : Encoder → ℕ → Bool
ends_odd utf16le buffered_bytes = buffered_bytes % 2 == 1
ends_odd _ buffered_bytes = false

module _ {T E : Type 0} (make_string : List ℕ → Result E (List T)) where
  -- A character that is complete is decoded.
  unfoldable pub finish : StringDecoder → StringDecoder × Result E (List T)
  finish d =
      if d.missing_bytes == 0
      then elim (make_string d.buffer) [
        | err e ↦ (d, err e)
        | ok s ↦ (record d { buffer = []; buffered_bytes = 0 }, ok s)
      ]
      else (d, ok [])

  -- The part of `decode_data` under `missing_bytes > 0`.
  unfoldable pub fill : StringDecoder → List ℕ → (StringDecoder × Result E (List T)) × List ℕ
  unfolding align take_found finish
  fill d chunk =
      let (d1, chunk1) = align d.encoder d chunk in
      let (d2, chunk2) = take_found d1 chunk1 in (finish d2, chunk2)

  -- What is not held back is decoded behind `result`.
  unfoldable pub decode_rest :
      StringDecoder → List ℕ → List T → Option (StringDecoder × Result E (List T))
  unfolding scan_end hold_back
  decode_rest d chunk result = elim (hold_back (scan_end d.encoder chunk d) chunk) [
    | none ↦ none
    | some (d', []) ↦ some (d', ok result)
    | some (d', byte ∷ chunk') ↦ elim (make_string (byte ∷ chunk')) [
      | err e ↦ some (d', err e)
      | ok s ↦ some (d', ok (result ++ s))
    ]
  ]

  -- The part of `decode_data` behind the character that was missing.
  unfoldable pub decode_filled :
      (StringDecoder × Result E (List T)) × List ℕ → Option (StringDecoder × Result E (List T))
  unfolding decode_rest
  decode_filled ((d, err e), chunk) = some (d, err e)
  decode_filled ((d, ok result), []) = some (d, ok result)
  decode_filled ((d, ok result), byte ∷ chunk) = decode_rest d (byte ∷ chunk) result

  unfoldable pub decode_data : StringDecoder → List ℕ → Option (StringDecoder × Result E (List T))
  unfolding buffers fill decode_filled
  decode_data d chunk =
      if buffers d.encoder
      then decode_filled (if ltb 0 d.missing_bytes then fill d chunk else ((d, ok []), chunk))
      else some (d, make_string chunk)

  unfoldable pub flush : StringDecoder → Option (StringDecoder × Result E (List T))
  unfolding ends_odd
  flush d =
      let odd = ends_odd d.encoder d.buffered_bytes in
      let d' =
        if odd
        then record d { missing_bytes = d.missing_bytes - 1; buffered_bytes = d.buffered_bytes - 1 }
        else d in
      if odd && d.missing_bytes == 0
      then none
      else if d'.buffered_bytes == 0
      then some (d', ok [])
      else some
          (record d' { missing_bytes = 0; buffered_bytes = 0; buffer = [] }, make_string d'.buffer)

  -- `end` without an argument flushes; with one it decodes it first.
  unfoldable pub end_with :
      StringDecoder → Option (List ℕ) → Option (StringDecoder × Result E (List T))
  unfolding decode_data flush
  end_with d none = flush d
  end_with d (some chunk) = elim (decode_data d chunk) [
    | none ↦ none
    | some (d', err e) ↦ some (d', err e)
    | some (d', ok output) ↦ elim (flush d') [
      | none ↦ none
      | some (d'', err e) ↦ some (d'', err e)
      | some (d'', ok s) ↦ some (d'', ok (output ++ s))
    ]
  ]

-- `StringDecoder::new`, or the message of the error that it throws.
unfoldable pub new : Option Text → Result Text StringDecoder
new label =
    let encoding : Text = elim label [ none ↦ text "utf-8" | some e ↦ e ] in
    elim (from_str encoding) [
      | err e ↦ err (text "Unknown encoding: " ++ encoding)
      | ok encoder ↦
          ok (record { encoder = encoder; buffer = []; buffered_bytes = 0; missing_bytes = 0 })
    ]
