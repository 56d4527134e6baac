-- ===== src/Std/StringDecoder/Stream.antt =====
-- A sequence of chunks, and the end of the input.
use mathlib.Core.List.{append-nil, append_assoc}
use ferrijs.Prelude.{
  ℕ, ◌≡◌, ◌≢◌, refl, sym, ap, ◌∙◌, false, List, [], ◌∷◌, ◌++◌, Option, none, some, arith,
  if◌then◌else◌, ◌==◌, nat_eq, Bool-cases, inl, inr,
}
use ferrijs.Prelude.Result.{Result, ok, err}
use ferrijs.Std.Encoding.{Encoder, utf16le}
use ferrijs.Std.StringDecoder.{StringDecoder, decode_data, flush, ends_odd}
use ferrijs.Std.StringDecoder.Valid.{IsValid}
use ferrijs.Std.StringDecoder.Filled.{joined, unfailing}
use ferrijs.Std.StringDecoder.Conserves.{IsDecoded, decode_data_total, no_bytes}

joined-append :
    {T : Type 0} (mk : List ℕ → List T) (ps qs : List (List ℕ))
    → joined mk (ps ++ qs) ≡ joined mk ps ++ joined mk qs
joined-append mk [] qs = refl
joined-append mk (p ∷ ps) qs =
    ap (λ t. mk p ++ t) (joined-append mk ps qs)
    ∙ sym (append_assoc (mk p) (joined mk ps) (joined mk qs))

ends_odd-other : (e : Encoder) (n : ℕ) → e ≢ utf16le → ends_odd e n ≡ false
unfolding ends_odd
ends_odd-other utf16le n h = absurd (h refl)
ends_odd-other _ n h = refl

module _ {T E : Type 0} where
  -- One `write` for each chunk, with the outputs one behind the other; a failure ends it.
  unfoldable pub writes :
      (List ℕ → Result E (List T))
      → StringDecoder
      → List (List ℕ)
      → Option (StringDecoder × Result E (List T))
  writes make_string d [] = some (d, ok [])
  writes make_string d (chunk ∷ chunks) = elim (decode_data make_string d chunk) [
    | none ↦ none
    | some (d', err e) ↦ some (d', err e)
    | some (d', ok out) ↦
        let rest = writes make_string d' chunks in
        elim rest [
          | none ↦ none
          | some (d'', err e) ↦ some (d'', err e)
          | some (d'', ok more) ↦ some (d'', ok (out ++ more))
        ]
  ]

module _ {T E : Type 0} (mk : List ℕ → List T) where
  writes_step :
      (d d1 d2 : StringDecoder) (chunk : List ℕ) (chunks : List (List ℕ)) (out more : List T)
      → decode_data {E = E} (unfailing mk) d chunk ≡ some (d1, ok out)
      → writes {E = E} (unfailing mk) d1 chunks ≡ some (d2, ok more)
      → writes {E = E} (unfailing mk) d (chunk ∷ chunks) ≡ some (d2, ok (out ++ more))
  unfolding writes
  writes_step d d1 d2 chunk chunks out more h k = rw (h, k, writes)

  -- However the input is cut into chunks, a valid decoder decodes pieces that, together with what
  -- it still holds, are what it held and the chunks, in order; it never panics, and stays valid.
  pub writes_total :
      (d : StringDecoder) (chunks : List (List ℕ))
      → IsValid d
      → (d' : StringDecoder) × (out : List T) × (writes {E = E} (unfailing mk) d chunks
          ≡ some (d', ok out))
        × IsDecoded mk d (joined (λ b. b) chunks) d' out
  unfolding writes
  writes_total d [] v = (
    d,
    [],
    refl,
    record {
      pieces = [];
      decoded = refl;
      bytes = sym (append-nil d.buffer);
      valid = v;
      encoder = refl;
    },
  )
  writes_total d (chunk ∷ chunks) v =
      let (d1, out, e, f) = decode_data_total {E = E} mk d chunk v in
      let (d2, more, k, g) = writes_total d1 chunks f.valid in
      (
        d2,
        out ++ more,
        writes_step d d1 d2 chunk chunks out more e k,
        record {
          pieces = f.pieces ++ g.pieces;
          decoded =
              ap (λ (t : List T). t ++ more) f.decoded
              ∙ (ap (λ (t : List T). joined mk f.pieces ++ t) g.decoded
                  ∙ sym (joined-append mk f.pieces g.pieces));
          bytes =
              ap (λ (t : List ℕ). t ++ d2.buffer) (joined-append (λ b. b) f.pieces g.pieces)
              ∙ (append_assoc (joined (λ b. b) f.pieces) (joined (λ b. b) g.pieces) d2.buffer
                  ∙ (ap (λ (t : List ℕ). joined (λ b. b) f.pieces ++ t) g.bytes
                      ∙ (sym (
                            append_assoc (joined (λ b. b) f.pieces) d1.buffer
                              (joined (λ b. b) chunks))
                          ∙ (ap (λ (t : List ℕ). t ++ joined (λ b. b) chunks) f.bytes
                              ∙ append_assoc d.buffer chunk (joined (λ b. b) chunks)))));
          valid = g.valid;
          encoder = g.encoder ∙ f.encoder;
        },
      )

  -- Flushing a valid decoder of any encoder but UTF-16 decodes exactly what it held, if it held
  -- anything, and leaves it with an empty buffer.
  pub flush_empties :
      (d : StringDecoder)
      → IsValid d
      → d.encoder ≢ utf16le
      → (d' : StringDecoder) × (flush {E = E} (unfailing mk) d
          ≡ some (d', ok (if d.buffered_bytes == 0 then [] else mk d.buffer)))
        × (d'.buffer ≡ [])
        × (d'.buffered_bytes ≡ 0)
        × (d'.encoder ≡ d.encoder)
  unfolding flush
  flush_empties d v n =
      let even = ends_odd-other d.encoder d.buffered_bytes n in
      elim (Bool-cases (d.buffered_bytes == 0)) [
        | inl e ↦ (
          d,
          ground (arith, even),
          no_bytes d.buffer (ground (arith, v.counted)),
          ground arith,
          refl,
        )
        | inr e ↦ (
          record d { missing_bytes = 0; buffered_bytes = 0; buffer = [] },
          ground (arith, even),
          refl,
          refl,
          refl,
        )
      ]

  -- UTF-16: a decoder that holds a single byte drops it from its count at a flush, but keeps it in
  -- its buffer, where the next byte that is held back is put behind it and counted as the only one.
  pub flush_stale :
      (byte next : ℕ)
      → (flush {E = E} (unfailing mk) (record {
        encoder = utf16le;
        buffer = byte ∷ [];
        buffered_bytes = 1;
        missing_bytes = 1;
      })
          ≡ some (
            record { encoder = utf16le; buffer = byte ∷ []; buffered_bytes = 0; missing_bytes = 0 },
            ok [],
          ))
        × (decode_data {E = E}
              (unfailing mk)
              (record {
                encoder = utf16le;
                buffer = byte ∷ [];
                buffered_bytes = 0;
                missing_bytes = 0;
              })
              (next ∷ [])
            ≡ some (
              record {
                encoder = utf16le;
                buffer = byte ∷ next ∷ [];
                buffered_bytes = 1;
                missing_bytes = 1;
              },
              ok [],
            ))
  unfolding flush decode_data
  flush_stale byte next = (refl, refl)
