-- ===== src/Std/StringDecoder/Filled.antt =====
-- What topping up the buffer leaves: nothing of the chunk, or nothing in the buffer.
use mathlib.Core.List.{append-nil, append_assoc}
use ferrijs.Prelude.{
  ℕ, ◌≡◌, refl, sym, ap, ◌∙◌, List, [], ◌∷◌, ◌++◌, arith, length, ◌==◌, nat_eq, Bool-cases, inl,
  inr, ◌⊎◌,
}
use ferrijs.Prelude.Result.{Result, ok}
use ferrijs.Std.StringDecoder.{StringDecoder, align, take_found, finish, fill}
use ferrijs.Std.StringDecoder.Valid.{IsValid, IsSplit, align-IsSplit, take_found-IsSplit}

-- The images of the pieces, one behind the other.
abbrev pub joined : {T : Type 0} → (List ℕ → List T) → List (List ℕ) → List T
joined mk [] = []
joined mk (piece ∷ pieces) = mk piece ++ joined mk pieces

-- A conversion that does not fail.
abbrev pub unfailing : {T E : Type 0} → (List ℕ → List T) → List ℕ → Result E (List T)
unfailing mk bytes = ok (mk bytes)

module _ {T : Type 0} (mk : List ℕ → List T) where
  -- What `fill` leaves: nothing of the chunk, or nothing in the buffer.
  pub record IsFilled (d : StringDecoder) (chunk : List ℕ) (d' : StringDecoder) (out : List T)
      (chunk' : List ℕ) : Type 0 where
    pub pieces : List (List ℕ)
    pub decoded : out ≡ joined mk pieces
    pub bytes : joined (λ b. b) pieces ++ (d'.buffer ++ chunk') ≡ d.buffer ++ chunk
    pub counted : d'.buffered_bytes ≡ length d'.buffer
    pub idle : d'.missing_bytes ≡ 0 → d'.buffer ≡ []
    pub encoder : d'.encoder ≡ d.encoder
    pub ready : (chunk' ≡ []) ⊎ (d'.missing_bytes ≡ 0)

  pub joined-append_one :
      (pieces : List (List ℕ)) (piece : List ℕ)
      → joined mk (pieces ++ piece ∷ []) ≡ joined mk pieces ++ mk piece
  joined-append_one [] piece = append-nil (mk piece)
  joined-append_one (p ∷ pieces) piece =
      ap (λ (t : List T). mk p ++ t) (joined-append_one pieces piece)
      ∙ sym (append_assoc (mk p) (joined mk pieces) (mk piece))

module _ {T E : Type 0} (mk : List ℕ → List T) where
  finish-IsFilled :
      (d0 d : StringDecoder) (chunk0 chunk : List ℕ)
      → IsSplit d0 chunk0 d chunk
      → (chunk ≡ []) ⊎ (d.missing_bytes ≡ 0)
      → (d' : StringDecoder) × (out : List T) × (finish {E = E} (unfailing mk) d ≡ (d', ok out))
        × IsFilled mk d0 chunk0 d' out chunk
  unfolding finish
  finish-IsFilled d0 d chunk0 chunk s r = elim (Bool-cases (d.missing_bytes == 0)) [
    | inl e ↦ (
      record d { buffer = []; buffered_bytes = 0 },
      mk d.buffer,
      ground arith,
      record {
        pieces = d.buffer ∷ [];
        decoded = sym (append-nil (mk d.buffer));
        bytes = ap (λ (t : List ℕ). t ++ chunk) (append-nil d.buffer) ∙ s.bytes;
        counted = refl;
        idle = λ h. refl;
        encoder = s.encoder;
        ready = r;
      },
    )
    | inr e ↦ (
      d,
      [],
      ground arith,
      record {
        pieces = [];
        decoded = refl;
        bytes = s.bytes;
        counted = s.counted;
        idle = λ h. absurd (ground arith);
        encoder = s.encoder;
        ready = r;
      },
    )
  ]

  pub fill-IsFilled :
      (d : StringDecoder) (chunk : List ℕ)
      → IsValid d
      → (d' : StringDecoder) × (out : List T) × (chunk' : List ℕ) × (fill {E = E}
            (unfailing mk)
            d
            chunk
          ≡ ((d', ok out), chunk'))
        × IsFilled mk d chunk d' out chunk'
  unfolding fill
  fill-IsFilled d chunk v =
      let a = align-IsSplit d.encoder d chunk v.counted in
      let d1 = (align d.encoder d chunk).0 in
      let chunk1 = (align d.encoder d chunk).1 in
      let (t, ready) = take_found-IsSplit d1 chunk1 a.counted in
      let d2 = (take_found d1 chunk1).0 in
      let chunk2 = (take_found d1 chunk1).1 in
      let s : IsSplit d chunk d2 chunk2 = record {
        bytes = t.bytes ∙ a.bytes;
        counted = t.counted;
        encoder = t.encoder ∙ a.encoder;
      } in
      let (d', out, e, f) = finish-IsFilled d d2 chunk chunk2 s ready in
      (d', out, chunk2, ap (λ p. (p, chunk2)) e, f)
