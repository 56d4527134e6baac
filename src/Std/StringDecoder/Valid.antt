-- ===== src/Std/StringDecoder/Valid.antt =====
-- The invariant of a decoder, and what each part of `decode_data` does to the bytes.
use mathlib.Core.List.{append_assoc}
use ferrijs.Prelude.{
  ℕ, zero, suc, ◌≤◌, ◌≡◌, refl, sym, ap, ◌∙◌, false, List, [], ◌∷◌, ◌++◌, Option, none, some, arith,
  if◌then◌else◌, leb, length, take, drop, nat_eq, Bool-cases, Option-cases, length-append,
  length-drop, inl, inr, ◌⊎◌,
}
use ferrijs.Std.Encoding.{Encoder, utf8, utf16le}
use ferrijs.Std.StringDecoder.{
  StringDecoder, buffers, cut_character, align, align_utf8, align_utf16le, take_found,
}

-- The count is that of the buffer, and only an incomplete character is held in it.
pub record IsValid (d : StringDecoder) : Type 0 where
  pub counted : d.buffered_bytes ≡ length d.buffer
  pub idle : d.missing_bytes ≡ 0 → d.buffer ≡ []
  pub direct : buffers d.encoder ≡ false → d.buffer ≡ []

pub take-append-drop : (n : ℕ) (xs : List ℕ) → take n xs ++ drop n xs ≡ xs
take-append-drop zero xs = refl
take-append-drop (suc n) [] = refl
take-append-drop (suc n) (x ∷ xs) = ap (λ (t : List ℕ). x ∷ t) (take-append-drop n xs)

length-take : (n : ℕ) (xs : List ℕ) → n ≤ length xs → length (take n xs) ≡ n
length-take zero xs h = refl
length-take (suc n) [] h = absurd (omega arith)
length-take (suc n) (x ∷ xs) h = ap suc (length-take n xs (omega arith))

cut_character_sound :
    (n : ℕ) (chunk before rest : List ℕ)
    → cut_character n chunk ≡ some (before, rest)
    → chunk ≡ before ++ rest
unfolding cut_character
cut_character_sound zero chunk before rest h = cc
cut_character_sound (suc n) [] before rest h = cc
cut_character_sound (suc n) (byte ∷ chunk) before rest h =
    elim (Option-cases (cut_character n chunk)) [
      | inl e ↦ ground arith
      | inr ((b, r), e) ↦ ground (arith, cut_character_sound n chunk b r e)
    ]

-- A decoder and the bytes behind it that together hold what `d` and `chunk` hold.
pub record IsSplit (d : StringDecoder) (chunk : List ℕ) (d' : StringDecoder) (chunk' : List ℕ)
    : Type 0 where
  pub bytes : d'.buffer ++ chunk' ≡ d.buffer ++ chunk
  pub counted : d'.buffered_bytes ≡ length d'.buffer
  pub encoder : d'.encoder ≡ d.encoder

pub align-IsSplit :
    (e : Encoder) (d : StringDecoder) (chunk : List ℕ)
    → d.buffered_bytes ≡ length d.buffer
    → IsSplit d chunk (align e d chunk).0 (align e d chunk).1
unfolding align align_utf8 align_utf16le
align-IsSplit utf8 d chunk c = aligned (cut_character d.missing_bytes chunk) refl
  where
    aligned :
        (o : Option (List ℕ × List ℕ))
        → cut_character d.missing_bytes chunk ≡ o
        → IsSplit d chunk (align_utf8 o d chunk).0 (align_utf8 o d chunk).1
    aligned none e = record { bytes = refl; counted = c; encoder = refl }
    aligned (some (before, rest)) e = record {
      bytes =
          append_assoc d.buffer before rest
          ∙ ap (λ (t : List ℕ). d.buffer ++ t) (sym (cut_character_sound _ chunk before rest e));
      counted = omega (arith, c, length-append {0} d.buffer before);
      encoder = refl;
    }
align-IsSplit utf16le d chunk c = record {
  bytes = ground arith;
  counted = ground arith;
  encoder = ground arith;
}
align-IsSplit _ d chunk c = record { bytes = refl; counted = c; encoder = refl }

-- What is left behind the bytes that were missing is left only if none is missing any more.
pub take_found-IsSplit :
    (d : StringDecoder) (chunk : List ℕ)
    → d.buffered_bytes ≡ length d.buffer
    → IsSplit d chunk (take_found d chunk).0 (take_found d chunk).1
      × (((take_found d chunk).1 ≡ []) ⊎ ((take_found d chunk).0.missing_bytes ≡ 0))
unfolding take_found
take_found-IsSplit d chunk c =
    let found = if leb (length chunk) d.missing_bytes then length chunk else d.missing_bytes in
    let short : found ≤ length chunk = ground arith in
    (
      record {
        bytes =
            append_assoc d.buffer (take found chunk) (drop found chunk)
            ∙ ap (λ (t : List ℕ). d.buffer ++ t) (take-append-drop found chunk);
        counted = omega (
          arith,
          c,
          length-append {0} d.buffer (take found chunk),
          length-take found chunk short,
        );
        encoder = refl;
      },
      elim (Bool-cases (leb (length chunk) d.missing_bytes)) [
        | inl e ↦ inl (no_bytes (drop found chunk) (ground (arith, length-drop found chunk)))
        | inr e ↦ inr (ground arith)
      ],
    )
  where
    no_bytes : (xs : List ℕ) → length xs ≡ 0 → xs ≡ []
    no_bytes [] h = refl
    no_bytes (x ∷ xs) h = absurd (omega arith)
