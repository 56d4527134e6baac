-- ===== src/Std/StringDecoder/Scan.antt =====
-- The look at the end of a chunk, and the bytes that are held back.
use mathlib.Core.List.{reverse, reverse-append, append-nil}
use ferrijs.Prelude.{
  length-drop, ℕ, ◌+◌, ◌-◌, ◌≤◌, ◌≡◌, refl, ap, subst, List, [], ◌∷◌, ◌++◌, some, arith,
  if◌then◌else◌, ltb, leb, length, take, drop, nat_eq, Bool-cases, inl, inr, length-append,
}
use ferrijs.Std.Encoding.{Encoder, utf8, utf16le, base64, base64_url}
use ferrijs.Std.StringDecoder.{
  StringDecoder, is_trailing, scan_lead, scan_utf8, scan_utf16le, scan_base64, scan_end, hold_back,
}
use ferrijs.Std.StringDecoder.Valid.{take-append-drop}

-- What the look at the end of a chunk of `n` bytes finds, from a decoder that holds nothing.
pub record IsScanned (n : ℕ) (d d' : StringDecoder) : Type 0 where
  pub empty : d'.buffer ≡ []
  pub short : d'.buffered_bytes ≤ n
  pub idle : d'.missing_bytes ≡ 0 → d'.buffered_bytes ≡ 0
  pub encoder : d'.encoder ≡ d.encoder

scan_lead-IsScanned :
    (d : StringDecoder) (byte : ℕ)
    → d.buffer ≡ []
    → d.missing_bytes ≡ 0
    → IsScanned d.buffered_bytes d (scan_lead d byte)
unfolding scan_lead
scan_lead-IsScanned d byte b m = record {
  empty = ground arith;
  short = ground arith;
  idle = λ h. ground arith;
  encoder = ground arith;
}

snoc : (x : ℕ) (xs : List ℕ) → reverse (x ∷ xs) ≡ reverse xs ++ x ∷ []
snoc x xs = reverse-append (x ∷ []) xs

length_reversed : (xs : List ℕ) → length (reverse xs) ≡ length xs
length_reversed [] = refl
length_reversed (x ∷ xs) = omega (
  arith,
  ap {B = ℕ} length (snoc x xs),
  length-append {0} (reverse xs) (x ∷ []),
  length_reversed xs,
)

scan_utf8-IsScanned :
    (byte : ℕ) (rest : List ℕ) (d : StringDecoder)
    → d.buffer ≡ []
    → d.missing_bytes ≡ 0
    → IsScanned (d.buffered_bytes + length (byte ∷ rest)) d (scan_utf8 (byte ∷ rest) d)
unfolding scan_utf8
scan_utf8-IsScanned byte [] d b m =
    let next = record d { buffered_bytes = d.buffered_bytes + 1 } in
    let lead = scan_lead-IsScanned next byte b m in
    elim (Bool-cases (is_trailing byte)) [
      | inl e ↦ record {
        empty = ground arith;
        short = ground arith;
        idle = λ h. ground arith;
        encoder = ground arith;
      }
      | inr e ↦ record {
        empty = ground (arith, lead.empty);
        short = ground (arith, lead.short);
        idle = λ h. ground (arith, lead.idle);
        encoder = ground (arith, lead.encoder);
      }
    ]
scan_utf8-IsScanned byte (c ∷ rest) d b m =
    let next = record d { buffered_bytes = d.buffered_bytes + 1 } in
    let lead = scan_lead-IsScanned next byte b m in
    let further = scan_utf8-IsScanned c rest next b m in
    record {
      empty = ground (arith, lead.empty, further.empty);
      short = ground (arith, lead.short, further.short);
      idle = λ h. ground (arith, lead.idle, further.idle);
      encoder = ground (arith, lead.encoder, further.encoder);
    }

unchanged-IsScanned :
    (n : ℕ) (d : StringDecoder) → d.buffer ≡ [] → d.buffered_bytes ≡ 0 → IsScanned n d d
unchanged-IsScanned n d b c = record {
  empty = b;
  short = omega arith;
  idle = λ h. c;
  encoder = refl;
}

scan_utf16le-IsScanned :
    (reversed : List ℕ) (d : StringDecoder)
    → d.buffer ≡ []
    → d.buffered_bytes ≡ 0
    → IsScanned (length reversed) d (scan_utf16le reversed (length reversed) d)
unfolding scan_utf16le
scan_utf16le-IsScanned [] d b c = unchanged-IsScanned 0 d b c
scan_utf16le-IsScanned (final ∷ []) d b c = record {
  empty = ground arith;
  short = ground arith;
  idle = λ h. ground arith;
  encoder = ground arith;
}
scan_utf16le-IsScanned (final ∷ before ∷ rest) d b c = record {
  empty = ground arith;
  short = ground arith;
  idle = λ h. ground arith;
  encoder = ground arith;
}

scan_base64-IsScanned :
    (n : ℕ) (d : StringDecoder)
    → d.buffer ≡ []
    → d.missing_bytes ≡ 0
    → IsScanned n d (scan_base64 n d)
unfolding scan_base64
scan_base64-IsScanned n d b m = record {
  empty = ground arith;
  short = ground arith;
  idle = λ h. ground arith;
  encoder = ground arith;
}

pub scan_end-IsScanned :
    (e : Encoder) (chunk : List ℕ) (d : StringDecoder)
    → d.buffer ≡ []
    → d.buffered_bytes ≡ 0
    → d.missing_bytes ≡ 0
    → IsScanned (length chunk) d (scan_end e chunk d)
unfolding scan_end
scan_end-IsScanned utf8 chunk d b c m = scanned (reverse chunk) (length_reversed chunk)
  where
    scanned :
        (reversed : List ℕ)
        → length reversed ≡ length chunk
        → IsScanned (length chunk) d (elim reversed [
          | [] ↦ d
          | final ∷ rest ↦ if leb 0x80 final then scan_utf8 (final ∷ rest) d else d
        ])
    scanned [] l = unchanged-IsScanned (length chunk) d b c
    scanned (final ∷ rest) l =
        let found = scan_utf8-IsScanned final rest d b m in
        record {
          empty = ground (arith, found.empty);
          short = ground (arith, found.short);
          idle = λ h. ground (arith, found.idle);
          encoder = ground (arith, found.encoder);
        }
scan_end-IsScanned utf16le chunk d b c m =
    subst (λ n. IsScanned n d (scan_utf16le (reverse chunk) n d)) (length_reversed chunk)
      (scan_utf16le-IsScanned (reverse chunk) d b c)
scan_end-IsScanned base64 chunk d b c m = scan_base64-IsScanned (length chunk) d b m
scan_end-IsScanned base64_url chunk d b c m = scan_base64-IsScanned (length chunk) d b m
scan_end-IsScanned _ chunk d b c m = unchanged-IsScanned (length chunk) d b c

-- Under those findings no slice is out of bounds, and no byte is lost.
pub hold_back_total :
    (d : StringDecoder) (chunk : List ℕ)
    → d.buffer ≡ []
    → d.buffered_bytes ≤ length chunk
    → (d' : StringDecoder) × (chunk' : List ℕ) × (hold_back d chunk ≡ some (d', chunk'))
      × (chunk' ++ d'.buffer ≡ chunk)
      × (length d'.buffer ≡ d.buffered_bytes)
      × (d'.buffered_bytes ≡ d.buffered_bytes)
      × (d'.missing_bytes ≡ d.missing_bytes)
      × (d'.encoder ≡ d.encoder)
unfolding hold_back
hold_back_total d chunk b s = elim (Bool-cases (ltb 0 d.buffered_bytes)) [
  | inr e ↦
      (d, chunk, ground arith, ground (arith, append-nil chunk), ground arith, refl, refl, refl)
  | inl e ↦
      let kept = length chunk - d.buffered_bytes in
      let cut = take-append-drop kept chunk in
      (
        record d { buffer = d.buffer ++ drop kept chunk },
        take kept chunk,
        ground arith,
        ground (arith, cut),
        ground (arith, length-drop kept chunk),
        refl,
        refl,
        refl,
      )
]
