-- ===== src/Fetch/Headers/Value.antt =====
-- `normalize_value`: the shape of its results.
use ferrijs.Prelude.{
  ℕ, ◌≡◌, refl, sym, ◌∙◌, subst, true, false, ◌&&◌, [], ◌∷◌, ◌++◌, Option, none, some, arith,
  Bool-cases, inl, inr, last, All, All-append, ◌==◌, nat_eq,
}
use ferrijs.Text.{Text, trim_start_matches, trim_end_matches}
use ferrijs.Fetch.Headers.{Scan, is_blank, is_break, push_byte, scan_byte, scan, normalize_value}

-- Neither CR nor LF.
abbrev pub IsLine : Text → Type 0
IsLine s = All (λ c. is_break c ≡ false) s

-- No blank at the front, and none at the end.
abbrev pub IsTrimmed : Text → Type 0
IsTrimmed [] = Unit {0}
IsTrimmed (c ∷ s) = (is_blank c ≡ false) × ((d : ℕ) → last (c ∷ s) ≡ some d → is_blank d ≡ false)

-- What holds of the loop's variables: no break is kept or pending, what is pending is blank, and the output is trimmed.
record IsClean (s : Scan) : Type 0 where
  line : IsLine s.out
  trimmed : IsTrimmed s.out
  blank : (c : ℕ) → s.pending ≡ some c → is_blank c ≡ true

last-snoc : (s : Text) (c : ℕ) → last (s ++ c ∷ []) ≡ some c
last-snoc [] c = refl
last-snoc (d ∷ []) c = refl
last-snoc (d ∷ e ∷ s) c = last-snoc (e ∷ s) c

some-inj : (a b : ℕ) → ◌≡◌ {A = Option ℕ} (some a) (some b) → a ≡ b
some-inj a b e = cc

IsTrimmed-snoc : (s : Text) (c : ℕ) → IsTrimmed s → is_blank c ≡ false → IsTrimmed (s ++ c ∷ [])
IsTrimmed-snoc [] c t h = (h, λ d e. subst (λ x. is_blank x ≡ false) (some-inj c d e) h)
IsTrimmed-snoc (a ∷ s) c t h =
    (t.0, λ d e. subst (λ x. is_blank x ≡ false) (some-inj c d (sym (last-snoc (a ∷ s) c) ∙ e)) h)

IsTrimmed-blank_snoc :
    (a w c : ℕ) (s : Text)
    → IsTrimmed (a ∷ s)
    → is_blank c ≡ false
    → IsTrimmed (((a ∷ s) ++ w ∷ []) ++ c ∷ [])
IsTrimmed-blank_snoc a w c s t h = (
  t.0,
  λ d e.
      subst (λ x. is_blank x ≡ false) (some-inj c d (sym (last-snoc ((a ∷ s) ++ w ∷ []) c) ∙ e)) h,
)

not_break : (c : ℕ) → is_blank c ≡ true → is_break c ≡ false
not_break c h = ground arith

IsLine-snoc : (s : Text) (c : ℕ) → IsLine s → is_break c ≡ false → IsLine (s ++ c ∷ [])
IsLine-snoc s c l b = All-append (λ x. is_break x ≡ false) s (c ∷ []) l (b, tt)

push_byte-IsClean :
    (c : ℕ) (p : Option ℕ) (out : Text)
    → is_break c ≡ false
    → is_blank c ≡ false
    → IsClean (record { pending = p; out = out })
    → IsClean (push_byte c (record { pending = p; out = out }))
unfolding push_byte
push_byte-IsClean c none out b w h = record {
  line = IsLine-snoc out c h.line b;
  trimmed = IsTrimmed-snoc out c h.trimmed w;
  blank = λ d e. cc;
}
push_byte-IsClean c (some ws) [] b w h = record {
  line = IsLine-snoc [] c h.line b;
  trimmed = IsTrimmed-snoc [] c h.trimmed w;
  blank = λ d e. cc;
}
push_byte-IsClean c (some ws) (a ∷ out) b w h = record {
  line =
      IsLine-snoc ((a ∷ out) ++ ws ∷ []) c
        (IsLine-snoc (a ∷ out) ws h.line (not_break ws (h.blank ws refl))) b;
  trimmed = IsTrimmed-blank_snoc a ws c out h.trimmed w;
  blank = λ d e. cc;
}

pending-IsClean :
    (c : ℕ) (s : Scan) → is_blank c ≡ true → IsClean s → IsClean (record s { pending = some c })
pending-IsClean c s b h = record {
  line = h.line;
  trimmed = h.trimmed;
  blank = λ d e. subst (λ x. is_blank x ≡ true) (some-inj c d e) b;
}

scan_byte-IsClean : (c : ℕ) (s : Scan) → IsClean s → IsClean (scan_byte c s)
unfolding scan_byte
scan_byte-IsClean c s h = elim (Bool-cases (is_break c)) [
  | inl b ↦ rw b h
  | inr b ↦ elim (Bool-cases (is_blank c)) [
    | inl w ↦ rw (b, w) (pending-IsClean c s w h)
    | inr w ↦ rw (b, w) (push_byte-IsClean c s.pending s.out b w h)
  ]
]

scan-IsClean : (input : Text) (s : Scan) → IsClean s → IsClean (scan input s)
unfolding scan
scan-IsClean [] s h = h
scan-IsClean (a ∷ []) s h = scan_byte-IsClean a s h
scan-IsClean (a ∷ b ∷ []) s h = scan_byte-IsClean b (scan_byte a s) (scan_byte-IsClean a s h)
scan-IsClean (a ∷ b ∷ c ∷ rest) s h = elim (Bool-cases (a == 13 && (b == 10 && is_blank c))) [
  | inl f ↦
      rw f
        (scan-IsClean rest (record s { pending = some c }) (pending-IsClean c s (ground arith) h))
  | inr f ↦ rw f (scan-IsClean (b ∷ c ∷ rest) (scan_byte a s) (scan_byte-IsClean a s h))
]

-- Trimming the end of a text that does not end in a blank changes nothing.
trim_end_matches_id :
    (s : Text) → ((d : ℕ) → last s ≡ some d → is_blank d ≡ false) → trim_end_matches is_blank s ≡ s
unfolding trim_end_matches
trim_end_matches_id [] h = refl
trim_end_matches_id (c ∷ []) h = rw (h c refl)
trim_end_matches_id (c ∷ d ∷ s) h = rw (trim_end_matches_id (d ∷ s) h)

trimmed_end : (s : Text) → IsTrimmed s → trim_end_matches is_blank s ≡ s
trimmed_end [] h = trim_end_matches_id [] (λ d e. cc)
trimmed_end (c ∷ s) h = trim_end_matches_id (c ∷ s) h.1

-- A normalised value holds no CR and no LF, and neither begins nor ends with a blank.
pub normalize_value-shape :
    (input : Text) → IsLine (normalize_value input) × IsTrimmed (normalize_value input)
unfolding normalize_value
normalize_value-shape input =
    let start : Scan = record { pending = none; out = [] } in
    let clean =
      scan-IsClean (trim_start_matches is_blank input) start
        (record { line = tt; trimmed = tt; blank = λ c e. cc }) in
    rw (trimmed_end (scan (trim_start_matches is_blank input) start).out clean.trimmed)
      (clean.line, clean.trimmed)
