-- ===== src/Std/NodePath/Parts.antt =====
-- `path.parse` and `path.format`.
use mathlib.Core.Bool.{true≢false}
use mathlib.Core.List.{append-nil}
use ferrijs.Prelude.{
  ℕ, suc, ◌-◌, ◌≡◌, refl, sym, ap, subst, ◌∙◌, false, not, ◌&&◌, List, [], ◌∷◌, ◌++◌, Option, none,
  some, if◌then◌else◌, length, length-append, take, is_empty, ◌==◌, list_eq, list_beq_iff, nat_eq,
  nat_beq_iff, arith, Bool-cases, Option-cases, inl, inr,
}
use ferrijs.Text.{Text, text, rsplit_once, trim_end_matches, ends_with_char, starts_with}
use ferrijs.Std.NodePath.{
  parse_object, format_str, format_base, format_dir, after_slash, extension_of, basename_of,
  extname_of, before_slash, trim_slashes, is_absolute,
}

rsplit_once_sound : (s a b : Text) (c : ℕ) → rsplit_once s c ≡ some (a, b) → s ≡ a ++ c ∷ b
unfolding rsplit_once
rsplit_once_sound [] a b c h = absurd cc
rsplit_once_sound (d ∷ s) a b c h = elim (Option-cases (rsplit_once s c)) [
  | inl n ↦ found d s a b c n h
  | inr ((a', b'), n) ↦
      let e : (d ∷ a' ≡ a) × (b' ≡ b) = ground arith in
      subst (λ (p : Text). d ∷ s ≡ p ++ c ∷ b) e.0
        (subst (λ (q : Text). d ∷ s ≡ (d ∷ a') ++ c ∷ q) e.1
          (ap (λ t. d ∷ t) (rsplit_once_sound s a' b' c n)))
]
  where
    found :
        (d : ℕ) (s a b : Text) (c : ℕ)
        → rsplit_once s c ≡ none
        → rsplit_once (d ∷ s) c ≡ some (a, b)
        → d ∷ s ≡ a ++ c ∷ b
    found d s a b c n h = ground (arith, nat_beq_iff d c)

not_absolute : (s : Text) → rsplit_once s b'/' ≡ none → is_absolute s ≡ false
unfolding rsplit_once starts_with
not_absolute [] h = refl
not_absolute (c ∷ s) h = ground arith

trim_slashes_kept : (path : Text) → ends_with_char path b'/' ≡ false → trim_slashes path ≡ path
unfolding trim_slashes trim_end_matches ends_with_char
trim_slashes_kept [] h = refl
trim_slashes_kept (c ∷ []) h = rw h refl
trim_slashes_kept (c ∷ d ∷ s) h = rw (trim_slashes_kept (d ∷ s) h) refl

take-append : {A : Type 0} (xs ys : List A) → take (length (xs ++ ys) - length ys) (xs ++ ys) ≡ xs
take-append [] ys = let z : length ys - length ys ≡ 0 = omega arith in rw z refl
take-append (x ∷ xs) ys =
    let z : suc (length (xs ++ ys)) - length ys ≡ suc (length (xs ++ ys) - length ys) =
      omega (arith, length-append xs ys) in
    rw z (ap (λ t. x ∷ t) (take-append xs ys))

-- The name and the extension of a base name.
abbrev stem : Text → Text
stem base = take (length base - length (extname_of base)) base

whole : (base : Text) → take (length base - 0) base ++ [] ≡ base
whole base =
    append-nil (take (length base - 0) base)
    ∙ subst (λ (t : Text). take (length t - 0) t ≡ base) (append-nil base) (take-append base [])

stem-extname_of : (base : Text) → stem base ++ extname_of base ≡ base
unfolding extname_of
stem-extname_of base = elim (Option-cases (rsplit_once base b'.')) [
  | inl n ↦ rw n (whole base)
  | inr (([], b), n) ↦ rw n (whole base)
  | inr ((c ∷ a, b), n) ↦ rw n (
      let e = rsplit_once_sound base (c ∷ a) b b'.' n in
      ap (λ t. take (length t - length (b'.' ∷ b)) t ++ b'.' ∷ b) e
      ∙ (ap (λ t. t ++ b'.' ∷ b) (take-append (c ∷ a) (b'.' ∷ b)) ∙ sym e))
]

-- An extension that is not empty begins with a dot.
extname_of-dotted :
    (base : Text)
    → (not (is_empty (extname_of base)) && not (starts_with (extname_of base) (text "."))) ≡ false
unfolding extname_of starts_with
extname_of-dotted base = dotted (rsplit_once base b'.')
  where
    dotted :
        (o : Option (Text × Text))
        → (not (is_empty (extension_of o)) && not (starts_with (extension_of o) (text "."))) ≡ false
    dotted none = refl
    dotted (some ([], b)) = refl
    dotted (some (c ∷ a, b)) = refl

format_base-stem : (base : Text) → format_base [] (stem base) (extname_of base) ≡ base
unfolding format_base
format_base-stem base = rw (extname_of-dotted base) (stem-extname_of base)

format_base-base : (base : Text) → format_base base (stem base) (extname_of base) ≡ base
unfolding format_base
format_base-base [] = format_base-stem []
format_base-base (c ∷ base) = refl

format_dir-parts :
    (path : Text)
    → ends_with_char path b'/' ≡ false
    → starts_with path (text "//") ≡ false
    → format_dir
        (if is_absolute path then text "/" else [])
        (before_slash [] path)
        (after_slash path)
      ≡ path
unfolding format_dir before_slash after_slash starts_with
format_dir-parts path e s = elim (Option-cases (rsplit_once path b'/')) [
  | inl n ↦ rw (n, not_absolute path n) refl
  | inr (([], b), n) ↦ rw n (sym (rsplit_once_sound path [] b b'/' n))
  | inr ((c ∷ a, b), n) ↦ elim (Bool-cases (c ∷ a == text "/")) [
    | inl d ↦
        let p : path ≡ text "//" ++ b =
          rsplit_once_sound path (c ∷ a) b b'/' n
          ∙ ap (λ (t : Text). t ++ b'/' ∷ b) ((list_beq_iff (c ∷ a) (text "/")).0 d) in
        absurd (true≢false (sym (ap (λ t. starts_with t (text "//")) p) ∙ s))
    | inr d ↦ rw (n, d) (sym (rsplit_once_sound path (c ∷ a) b b'/' n))
  ]
]

-- A path that does not end in a slash or begin with two is formatted from its parts again, with or
-- without its base name.
pub format_str-parse_object :
    (path : Text)
    → ends_with_char path b'/' ≡ false
    → starts_with path (text "//") ≡ false
    → (format_str
          (parse_object path).root
          (parse_object path).dir
          (parse_object path).base
          (parse_object path).name
          (parse_object path).ext
        ≡ path)
      × (format_str
            (parse_object path).root
            (parse_object path).dir
            []
            (parse_object path).name
            (parse_object path).ext
          ≡ path)
unfolding format_str parse_object basename_of
format_str-parse_object path e s =
    let root = if is_absolute path then text "/" else [] in
    let base = after_slash path in
    let parts = format_dir-parts path e s in
    (
      rw (trim_slashes_kept path e, format_base-base base) parts,
      rw (trim_slashes_kept path e, format_base-stem base) parts,
    )
