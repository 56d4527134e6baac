-- ===== src/Fetch/Multipart/Parts.antt =====
-- One part: what is written for a field is read as the field.
use mathlib.Core.List.{append_assoc}
use ferrijs.Prelude.{
  ℕ, ◌≤◌, ◌<◌, ◌≡◌, ◌⊎◌, refl, ap, ◌∙◌, false, List, [], ◌∷◌, ◌++◌, Option, none, some, arith,
  is_empty, length, take, drop, All, nat_eq, list_eq,
}
use ferrijs.Text.{
  Text, text, eq_ignore_ascii_case, strip_prefix, split_once, trim, contains_char, to_lower,
}
use ferrijs.Text.Affix.{strip_suffix-append}
use ferrijs.Fetch.Multipart.{
  Utf8, MultipartValue, text_value, file_value, crlf, find, lines, Head, head_line, head_lines,
  header_param, trim_part, field_of, parse_trimmed, parse_part,
}
use ferrijs.Fetch.Multipart.Search.{take-append, drop-append}

-- A Unicode scalar value, and a `String`.
abbrev pub IsChar : ℕ → Type 0
IsChar c = (c < 0xd800) ⊎ (0xe000 ≤ c × c < 0x110000)

abbrev pub IsString : Text → Type 0
IsString s = All IsChar s

-- UTF-8: ASCII is itself, the bytes of other characters are none of it, and a `String` is read back.
pub record IsUtf8 (u : Utf8) : Type 0 where
  pub as_bytes-append : (s t : Text) → u.as_bytes (s ++ t) ≡ u.as_bytes s ++ u.as_bytes t
  pub as_bytes_ascii : (s : Text) → All (λ c. c < 128) s → u.as_bytes s ≡ s
  pub as_bytes_clear :
      (s : Text) (c : ℕ)
      → c < 128
      → contains_char s c ≡ false
      → contains_char (u.as_bytes s) c ≡ false
  pub lossy-as_bytes : (s : Text) → IsString s → u.from_utf8_lossy (u.as_bytes s) ≡ s

-- A text that keeps to its line, and one that is also no end of a parameter.
abbrev pub IsLine : Text → Type 0
IsLine s = IsString s × (contains_char s 13 ≡ false) × (contains_char s 10 ≡ false)

abbrev pub IsName : Text → Type 0
IsName s = IsLine s × (contains_char s b';' ≡ false)

abbrev pub IsValue : MultipartValue → Type 0
IsValue (text_value s) = IsString s
IsValue (file_value filename content_type bytes) =
    IsName filename × IsLine content_type × (trim content_type ≡ content_type)

-- The blank behind the first part of a body is cut off on both sides.
trim_part-crlf : (part : List ℕ) → trim_part (crlf ++ (part ++ crlf)) ≡ part
unfolding trim_part strip_prefix
trim_part-crlf part = ground (arith, strip_suffix-append part crlf)

abbrev pub no_head : Head
no_head = record { name = none; filename = none; content_type = none }

module _ (u : Utf8) (v : IsUtf8 u) where
  parse_trimmed-eq :
      (part : List ℕ) (at : ℕ)
      → is_empty part ≡ false
      → find part (crlf ++ crlf) ≡ some at
      → parse_trimmed u part
        ≡ field_of u
            (head_lines no_head (lines (u.from_utf8_lossy (take at part))))
            (drop 4 (drop at part))
  unfolding parse_trimmed
  parse_trimmed-eq part at n f = rw (n, f, parse_trimmed) refl

  filled-append : (xs ys : List ℕ) → is_empty xs ≡ false → is_empty (xs ++ ys) ≡ false
  filled-append [] ys h = cc
  filled-append (x ∷ xs) ys h = refl

  headed :
      (head : Text) (rest : List ℕ)
      → u.as_bytes (head ++ (crlf ++ crlf)) ++ rest ≡ u.as_bytes head ++ ((crlf ++ crlf) ++ rest)
  headed head rest =
      ap (λ (l : List ℕ). l ++ rest)
        (v.as_bytes-append head (crlf ++ crlf)
          ∙ ap (λ (l : List ℕ). u.as_bytes head ++ l)
              (v.as_bytes_ascii (crlf ++ crlf) (omega arith)))
      ∙ append_assoc (u.as_bytes head) (crlf ++ crlf) rest

  -- With the headers found and read, the part is the field of what they say.
  pub parse_part-eq :
      (head : Text) (rest : List ℕ)
      → IsString head
      → is_empty (u.as_bytes head) ≡ false
      → find (u.as_bytes head ++ ((crlf ++ crlf) ++ rest)) (crlf ++ crlf)
        ≡ some (length (u.as_bytes head))
      → parse_part u (crlf ++ ((u.as_bytes (head ++ (crlf ++ crlf)) ++ rest) ++ crlf))
        ≡ field_of u (head_lines no_head (lines head)) rest
  unfolding parse_part
  parse_part-eq head rest s n f =
      ap (parse_trimmed u)
        (trim_part-crlf (u.as_bytes (head ++ (crlf ++ crlf)) ++ rest) ∙ headed head rest)
      ∙ parse_trimmed-eq part (length h) (filled-append h ((crlf ++ crlf) ++ rest) n) f
      ∙ rw
          (
            take-append h ((crlf ++ crlf) ++ rest),
            drop-append h ((crlf ++ crlf) ++ rest),
            v.lossy-as_bytes head s,
          )
          refl
    where
      h : List ℕ
      h = u.as_bytes head

      part : List ℕ
      part = h ++ ((crlf ++ crlf) ++ rest)

-- The line of the disposition sets both parameters.
pub head_line-disposition :
    (h : Head) (value : Text) (name filename : Option Text)
    → header_param value (text "name") ≡ name
    → header_param value (text "filename") ≡ filename
    → head_line h (text "Content-Disposition" ++ b':' ∷ value)
      ≡ record h { name = name; filename = filename }
unfolding head_line split_once trim eq_ignore_ascii_case to_lower
head_line-disposition h value name filename p q = rw (p, q) refl

pub head_line-type :
    (h : Head) (content_type : Text)
    → trim content_type ≡ content_type
    → head_line h (text "Content-Type: " ++ content_type)
      ≡ record h { content_type = some content_type }
unfolding head_line split_once trim eq_ignore_ascii_case to_lower
head_line-type h content_type e = ap (λ (t : Text). record h { content_type = some t }) e
