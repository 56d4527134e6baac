-- ===== src/Fetch/Multipart/Params.antt =====
-- The parameters of a header value, read back as they are written.
use mathlib.Core.List.{append_assoc}
use ferrijs.Prelude.{
  ℕ, ◌≡◌, refl, sym, ap, ◌∙◌, true, false, ◌||◌, List, [], ◌∷◌, ◌++◌, none, some, arith, Bool-cases,
  inl, inr, ◌==◌, nat_eq, list_eq,
}
use ferrijs.Text.{
  Text, text, eq_ignore_ascii_case, strip_prefix, split_once, split, trim, trim_end_matches,
  is_whitespace, contains_char, to_lower,
}
use ferrijs.Text.Affix.{strip_suffix-append}
use ferrijs.Fetch.Multipart.{quoted, unquote, param_loop, header_param}

pub contains_char-append :
    (s t : Text) (c : ℕ) → contains_char (s ++ t) c ≡ (contains_char s c || contains_char t c)
unfolding contains_char
contains_char-append [] t c = refl
contains_char-append (d ∷ s) t c = ground (arith, contains_char-append s t c)

pub split_once-append :
    (s t : Text) (c : ℕ) → contains_char s c ≡ false → split_once (s ++ c ∷ t) c ≡ some (s, t)
unfolding split_once contains_char
split_once-append [] t c h = ground arith
split_once-append (d ∷ s) t c h = ground (arith, split_once-append s t c)

split_once_none : (s : Text) (c : ℕ) → contains_char s c ≡ false → split_once s c ≡ none
unfolding split_once contains_char
split_once_none [] c h = refl
split_once_none (d ∷ s) c h = ground (arith, split_once_none s c)

pub split_whole : (s : Text) (c : ℕ) → contains_char s c ≡ false → split s c ≡ s ∷ []
unfolding split contains_char
split_whole [] c h = refl
split_whole (d ∷ s) c h = ground (arith, split_whole s c)

split_filled : (s : Text) (c : ℕ) → (p : Text) × (ps : List Text) × (split s c ≡ p ∷ ps)
unfolding split
split_filled [] c = ([], [], refl)
split_filled (d ∷ s) c =
    let (p, ps, e) = split_filled s c in
    elim (Bool-cases (d == c)) [
      | inl b ↦ ([], p ∷ ps, rw (e, b) refl)
      | inr b ↦ (d ∷ p, ps, rw (e, b) refl)
    ]

pub split-append :
    (s t : Text) (c : ℕ) → contains_char s c ≡ false → split (s ++ c ∷ t) c ≡ s ∷ split t c
unfolding split contains_char
split-append [] t c h = let (p, ps, e) = split_filled t c in rw e (ground arith)
split-append (d ∷ s) t c h = ground (arith, split-append s t c)

trim_end_last :
    (s : Text) (c : ℕ)
    → is_whitespace c ≡ false
    → trim_end_matches is_whitespace (s ++ c ∷ []) ≡ s ++ c ∷ []
unfolding trim_end_matches
trim_end_last [] c h = ground arith
trim_end_last (d ∷ []) c h = ground arith
trim_end_last (d ∷ e ∷ s) c h = rw (trim_end_last (e ∷ s) c h) refl

-- Quotes are no white space, so what stands between them is kept.
pub trim-quoted : (s : Text) → trim (quoted s) ≡ quoted s
unfolding trim quoted
trim-quoted s = trim_end_last (b'"' ∷ s) b'"' refl

pub unquote-quoted : (s : Text) → unquote (quoted s) ≡ s
unfolding unquote quoted strip_prefix
unquote-quoted s = rw (strip_suffix-append s (b'"' ∷ []), unquote) refl

-- A parameter that another name is read for is passed over; its own name gives the value.
param_loop_skip :
    (param k v : Text) (ps : List Text)
    → contains_char k b'=' ≡ false
    → eq_ignore_ascii_case (trim k) param ≡ false
    → param_loop param ((k ++ b'=' ∷ v) ∷ ps) ≡ param_loop param ps
unfolding param_loop
param_loop_skip param k v ps h n = ground (arith, split_once-append k v b'=' h)

param_loop_hit :
    (param k v : Text) (ps : List Text)
    → contains_char k b'=' ≡ false
    → eq_ignore_ascii_case (trim k) param ≡ true
    → param_loop param ((k ++ b'=' ∷ v) ∷ ps) ≡ some (unquote (trim v))
unfolding param_loop
param_loop_hit param k v ps h n = ground (arith, split_once-append k v b'=' h)

param_loop_bare :
    (param p : Text) (ps : List Text)
    → contains_char p b'=' ≡ false
    → param_loop param (p ∷ ps) ≡ param_loop param ps
unfolding param_loop
param_loop_bare param p ps h = rw (split_once_none p b'=' h, param_loop) refl

none_left : (param : Text) → param_loop param [] ≡ none
unfolding param_loop
none_left param = refl

quoted_value : (s : Text) → unquote (trim (quoted s)) ≡ s
quoted_value s = ap unquote (trim-quoted s) ∙ unquote-quoted s

pub quoted_clear :
    (s : Text) (c : ℕ)
    → contains_char s c ≡ false
    → (b'"' == c) ≡ false
    → contains_char (quoted s) c ≡ false
unfolding quoted contains_char
quoted_clear s c h n = ground (arith, contains_char-append s (b'"' ∷ []) c)

-- `; filename="…"` behind the name, and the two names that are read.
abbrev pub lead : Text
lead = text " form-data; name="

abbrev name_piece : Text → Text
name_piece name = text " name=" ++ quoted name

abbrev filename_piece : Text → Text
filename_piece filename = text " filename=" ++ quoted filename

value_clear :
    (p s : Text)
    → contains_char p b';' ≡ false
    → contains_char s b';' ≡ false
    → contains_char (p ++ quoted s) b';' ≡ false
value_clear p s e h =
    ground (arith, contains_char-append p (quoted s) b';', quoted_clear s b';' h refl)

-- The pieces of the value that a text field is written with, and of that of a file.
text_pieces :
    (name : Text)
    → contains_char name b';' ≡ false
    → split (lead ++ quoted name) b';' ≡ text " form-data" ∷ (text " name=" ++ quoted name) ∷ []
unfolding contains_char
text_pieces name h =
    split-append (text " form-data") (text " name=" ++ quoted name) b';' refl
    ∙ ap (λ (l : List Text). text " form-data" ∷ l)
        (split_whole (text " name=" ++ quoted name) b';' (value_clear (text " name=") name refl h))

file_pieces :
    (name filename : Text)
    → contains_char name b';' ≡ false
    → contains_char filename b';' ≡ false
    → split (lead ++ (quoted name ++ (text "; filename=" ++ quoted filename))) b';'
      ≡ text " form-data"
        ∷ (text " name=" ++ quoted name)
        ∷ (text " filename=" ++ quoted filename)
        ∷ []
unfolding contains_char
file_pieces name filename h k =
    split-append (text " form-data")
      (text " name=" ++ (quoted name ++ (b';' ∷ text " filename=" ++ quoted filename))) b';' refl
    ∙ ap (λ (l : List Text). text " form-data" ∷ l)
        (ap (λ (s : Text). split s b';')
            (sym (
              append_assoc (text " name=") (quoted name)
                (b';' ∷ text " filename=" ++ quoted filename)))
          ∙ split-append (text " name=" ++ quoted name) (text " filename=" ++ quoted filename) b';'
              (value_clear (text " name=") name refl h)
          ∙ ap (λ (l : List Text). (text " name=" ++ quoted name) ∷ l)
              (split_whole (text " filename=" ++ quoted filename) b';'
                (value_clear (text " filename=") filename refl k)))

-- The name is read and no file name, from the value of a text field.
pub header_param-text :
    (name : Text)
    → contains_char name b';' ≡ false
    → (header_param (lead ++ quoted name) (text "name") ≡ some name)
      × (header_param (lead ++ quoted name) (text "filename") ≡ none)
unfolding header_param contains_char eq_ignore_ascii_case trim to_lower
header_param-text name h = (
  ap (param_loop (text "name")) (text_pieces name h)
      ∙ param_loop_bare (text "name") (text " form-data") (name_piece name ∷ []) refl
      ∙ param_loop_hit (text "name") (text " name") (quoted name) [] refl refl
      ∙ ap some (quoted_value name),
  ap (param_loop (text "filename")) (text_pieces name h)
      ∙ param_loop_bare (text "filename") (text " form-data") (name_piece name ∷ []) refl
      ∙ param_loop_skip (text "filename") (text " name") (quoted name) [] refl refl
      ∙ none_left (text "filename"),
)

-- Both are read from the value of a file.
pub header_param-file :
    (name filename : Text)
    → contains_char name b';' ≡ false
    → contains_char filename b';' ≡ false
    → let value = lead ++ (quoted name ++ (text "; filename=" ++ quoted filename)) in
      (header_param value (text "name") ≡ some name)
      × (header_param value (text "filename") ≡ some filename)
unfolding header_param contains_char eq_ignore_ascii_case trim to_lower
header_param-file name filename h k = (
  ap (param_loop (text "name")) (file_pieces name filename h k)
      ∙ param_loop_bare (text "name") (text " form-data")
          (name_piece name ∷ filename_piece filename ∷ []) refl
      ∙ param_loop_hit (text "name") (text " name") (quoted name) (filename_piece filename ∷ [])
          refl refl
      ∙ ap some (quoted_value name),
  ap (param_loop (text "filename")) (file_pieces name filename h k)
      ∙ param_loop_bare (text "filename") (text " form-data")
          (name_piece name ∷ filename_piece filename ∷ []) refl
      ∙ param_loop_skip (text "filename") (text " name") (quoted name)
          (filename_piece filename ∷ []) refl refl
      ∙ param_loop_hit (text "filename") (text " filename") (quoted filename) [] refl refl
      ∙ ap some (quoted_value filename),
)
