-- ===== src/Std/StringDecoder/Conserves.antt =====
-- No byte is lost or decoded twice, however the input is cut into chunks.
use mathlib.Core.List.{append-nil, append_assoc}
use ferrijs.Prelude.{
  ℕ, ◌≡◌, refl, sym, ap, ◌∙◌, true, List, [], ◌∷◌, ◌++◌, some, arith, ltb, length, nat_eq,
  Bool-cases, inl, inr,
}
use ferrijs.Prelude.Result.{ok}
use ferrijs.Std.StringDecoder.{
  StringDecoder, buffers, scan_end, hold_back, decode_rest, decode_filled, decode_data,
}
use ferrijs.Std.StringDecoder.Filled.{joined, unfailing, IsFilled, joined-append_one, fill-IsFilled}
use ferrijs.Std.StringDecoder.Valid.{IsValid}
use ferrijs.Std.StringDecoder.Scan.{IsScanned, scan_end-IsScanned, hold_back_total}

module _ {T : Type 0} (mk : List ℕ → List T) where
  -- The decoder and the pieces that were decoded hold what was there before.
  pub record IsDecoded (d : StringDecoder) (chunk : List ℕ) (d' : StringDecoder) (out : List T)
      : Type 0 where
    pub pieces : List (List ℕ)
    pub decoded : out ≡ joined mk pieces
    pub bytes : joined (λ b. b) pieces ++ d'.buffer ≡ d.buffer ++ chunk
    pub valid : IsValid d'
    pub encoder : d'.encoder ≡ d.encoder

pub no_bytes : (xs : List ℕ) → length xs ≡ 0 → xs ≡ []
no_bytes [] h = refl
no_bytes (x ∷ xs) h = absurd (omega arith)

module _ {T E : Type 0} (mk : List ℕ → List T) where
  decode_rest-IsDecoded :
      (d0 d : StringDecoder) (chunk0 chunk : List ℕ) (out : List T)
      → buffers d.encoder ≡ true
      → d.missing_bytes ≡ 0
      → IsFilled mk d0 chunk0 d out chunk
      → (d' : StringDecoder) × (out' : List T) × (decode_rest {E = E} (unfailing mk) d chunk out
          ≡ some (d', ok out'))
        × IsDecoded mk d0 chunk0 d' out'
  unfolding decode_rest
  decode_rest-IsDecoded d0 d chunk0 chunk out b m f =
      let none_held = f.idle m in
      let sc =
        scan_end-IsScanned d.encoder chunk d none_held (f.counted ∙ ap {B = ℕ} length none_held)
          m in
      held sc (hold_back_total (scan_end d.encoder chunk d) chunk sc.empty sc.short)
    where
      held :
          IsScanned (length chunk) d (scan_end d.encoder chunk d)
          → (d' : StringDecoder) × (chunk' : List ℕ) × (hold_back (scan_end d.encoder chunk d) chunk
              ≡ some (d', chunk'))
            × (chunk' ++ d'.buffer ≡ chunk)
            × (length d'.buffer ≡ (scan_end d.encoder chunk d).buffered_bytes)
            × (d'.buffered_bytes ≡ (scan_end d.encoder chunk d).buffered_bytes)
            × (d'.missing_bytes ≡ (scan_end d.encoder chunk d).missing_bytes)
            × (d'.encoder ≡ (scan_end d.encoder chunk d).encoder)
          → (d' : StringDecoder) × (out' : List T) × (decode_rest {E = E} (unfailing mk) d chunk out
              ≡ some (d', ok out'))
            × IsDecoded mk d0 chunk0 d' out'
      held sc (d', chunk', e, bytes, len, count, miss, enc) =
          let whole : chunk' ++ d'.buffer ≡ d.buffer ++ chunk =
            bytes ∙ ap (λ (t : List ℕ). t ++ chunk) (sym (f.idle m)) in
          let valid : IsValid d' = record {
            counted = count ∙ sym len;
            idle = λ h. no_bytes d'.buffer (len ∙ sc.idle (sym miss ∙ h));
            direct = λ h. absurd (ground (arith, enc, sc.encoder));
          } in
          elim chunk'
              as (λ c.
                (hold_back (scan_end d.encoder chunk d) chunk ≡ some (d', c))
                → (c ++ d'.buffer ≡ d.buffer ++ chunk)
                → (d' : StringDecoder) × (out' : List T) × (decode_rest {E = E} (unfailing mk) d
                      chunk out
                    ≡ some (d', ok out'))
                  × IsDecoded mk d0 chunk0 d' out') [
                    | [] ↦ λ e w. (
                      d',
                      out,
                      ground arith,
                      record {
                        pieces = f.pieces;
                        decoded = f.decoded;
                        bytes = ap (λ (t : List ℕ). joined (λ b. b) f.pieces ++ t) w ∙ f.bytes;
                        valid = valid;
                        encoder = enc ∙ (sc.encoder ∙ f.encoder);
                      },
                    )
                    | byte ∷ rest ↦ λ e w. (
                      d',
                      out ++ mk (byte ∷ rest),
                      ground arith,
                      record {
                        pieces = f.pieces ++ (byte ∷ rest) ∷ [];
                        decoded =
                            ap (λ (t : List T). t ++ mk (byte ∷ rest)) f.decoded
                            ∙ sym (joined-append_one mk f.pieces (byte ∷ rest));
                        bytes =
                            ap (λ (t : List ℕ). t ++ d'.buffer)
                              (joined-append_one (λ b. b) f.pieces (byte ∷ rest))
                            ∙ (append_assoc (joined (λ b. b) f.pieces) (byte ∷ rest) d'.buffer
                                ∙ (ap (λ (t : List ℕ). joined (λ b. b) f.pieces ++ t) w ∙ f.bytes));
                        valid = valid;
                        encoder = enc ∙ (sc.encoder ∙ f.encoder);
                      },
                    )
                  ]
            e whole

  decode_filled-IsDecoded :
      (d0 d : StringDecoder) (chunk0 chunk : List ℕ) (out : List T)
      → buffers d.encoder ≡ true
      → IsFilled mk d0 chunk0 d out chunk
      → (d' : StringDecoder) × (out' : List T) × (decode_filled {E = E}
            (unfailing mk)
            ((d, ok out), chunk)
          ≡ some (d', ok out'))
        × IsDecoded mk d0 chunk0 d' out'
  unfolding decode_filled
  decode_filled-IsDecoded d0 d chunk0 [] out b f = (
    d,
    out,
    refl,
    record {
      pieces = f.pieces;
      decoded = f.decoded;
      bytes =
          ap (λ (t : List ℕ). joined (λ b. b) f.pieces ++ t) (sym (append-nil d.buffer)) ∙ f.bytes;
      valid = record { counted = f.counted; idle = f.idle; direct = λ h. absurd (ground arith) };
      encoder = f.encoder;
    },
  )
  decode_filled-IsDecoded d0 d chunk0 (byte ∷ chunk) out b f =
      decode_rest-IsDecoded d0 d chunk0 (byte ∷ chunk) out b
        (elim f.ready [ inl h ↦ cc | inr h ↦ h ]) f

  -- With a conversion that does not fail, a valid decoder never panics on a chunk: it decodes
  -- pieces that, together with the bytes it holds back, are the bytes it held before and those of
  -- the chunk, in order; and it stays valid.
  pub decode_data_total :
      (d : StringDecoder) (chunk : List ℕ)
      → IsValid d
      → (d' : StringDecoder) × (out : List T) × (decode_data {E = E} (unfailing mk) d chunk
          ≡ some (d', ok out))
        × IsDecoded mk d chunk d' out
  unfolding decode_data
  decode_data_total d chunk v = elim (Bool-cases (buffers d.encoder)) [
    | inr e ↦ (
      d,
      mk chunk,
      ground arith,
      record {
        pieces = chunk ∷ [];
        decoded = sym (append-nil (mk chunk));
        bytes =
            ap (λ (t : List ℕ). t ++ d.buffer) (append-nil chunk)
            ∙ (ap (λ (t : List ℕ). chunk ++ t) (v.direct e)
                ∙ (append-nil chunk ∙ ap (λ (t : List ℕ). t ++ chunk) (sym (v.direct e))));
        valid = v;
        encoder = refl;
      },
    )
    | inl e ↦ elim (Bool-cases (ltb 0 d.missing_bytes)) [
      | inl m ↦
          let (d1, out1, chunk1, eq, f) = fill-IsFilled {E = E} mk d chunk v in
          let (d', out, r, dec) =
            decode_filled-IsDecoded d d1 chunk chunk1 out1 (ap buffers f.encoder ∙ e) f in
          (d', out, ground (arith, eq, r), dec)
      | inr m ↦
          let idle : IsFilled mk d chunk d [] chunk = record {
            pieces = [];
            decoded = refl;
            bytes = refl;
            counted = v.counted;
            idle = v.idle;
            encoder = refl;
            ready = inr (ground arith);
          } in
          let (d', out, r, dec) = decode_filled-IsDecoded d d chunk chunk [] e idle in
          (d', out, ground (arith, r), dec)
    ]
  ]
