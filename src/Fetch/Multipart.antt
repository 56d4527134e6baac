-- ===== src/Fetch/Multipart.antt =====
-- crates/ferrijs-fetch/src/multipart.rs: `multipart/form-data` bodies. The conversions between a text
-- and its bytes are parameters; bytes are searched and cut like texts, as lists of numbers.
-- `multipart_boundary`, a counter in hexadecimal, is left out.
pub mod Search
pub mod Params
pub mod Parts
pub mod Lines
pub mod Boundary
pub mod Fields
pub mod RoundTrip
mod Examples
use ferrijs.Prelude.{
  ℕ, zero, suc, ◌+◌, ◌≡◌, Bool, true, false, not, List, [], ◌∷◌, ◌++◌, Option, none, some,
  if◌then◌else◌, is_empty, length, take, drop, ◌==◌, nat_eq, list_eq,
}
use ferrijs.Text.{
  Text, text, eq_ignore_ascii_case, starts_with, strip_prefix, strip_suffix, split_once, split,
  trim,
}

-- `str::as_bytes` and `String::from_utf8_lossy`.
pub record Utf8 : Type 0 where
  pub as_bytes : Text → List ℕ
  pub from_utf8_lossy : List ℕ → Text

pub data MultipartValue : Type 0 where
  text_value : Text → MultipartValue
  file_value : Text → Text → List ℕ → MultipartValue

pub record MultipartField : Type 0 where
  pub name : Text
  pub value : MultipartValue

abbrev pub crlf : List ℕ
crlf = 13 ∷ 10 ∷ []

-- A text between double quotes.
unfoldable pub quoted : Text → Text
quoted s = b'"' ∷ s ++ b'"' ∷ []

unfoldable pub disposition : Text → Text
unfolding quoted
disposition name = text "Content-Disposition: form-data; name=" ++ quoted name

-- The text of the headers of a field, without the blank line that ends them.
unfoldable pub field_head : MultipartField → Text
unfolding disposition
field_head field = elim field.value [
  | text_value _ ↦ disposition field.name
  | file_value filename content_type _ ↦
      disposition field.name
      ++ (text "; filename="
          ++ (quoted filename ++ (crlf ++ (text "Content-Type: " ++ content_type))))
]

module _ (u : Utf8) where
  open u use {as_bytes, from_utf8_lossy}

  unfoldable pub delimiter : Text → List ℕ
  delimiter boundary = as_bytes (text "--" ++ boundary)

  unfoldable pub content : MultipartField → List ℕ
  content field = elim field.value [ text_value s ↦ as_bytes s | file_value _ _ bytes ↦ bytes ]

  -- What stands for a field behind its delimiter.
  unfoldable pub field_bytes : MultipartField → List ℕ
  unfolding content
  field_bytes field = as_bytes (field_head field ++ (crlf ++ crlf)) ++ content field

  unfoldable pub body_of : List MultipartField → Text → List ℕ
  body_of [] boundary = as_bytes (text "--" ++ (boundary ++ (text "--" ++ crlf)))
  body_of (field ∷ fields) boundary =
      as_bytes (text "--" ++ (boundary ++ crlf))
      ++ (field_bytes field ++ (crlf ++ body_of fields boundary))

  unfoldable pub serialize_multipart : List MultipartField → Text → List ℕ × Text
  serialize_multipart fields boundary =
      (body_of fields boundary, text "multipart/form-data; boundary=" ++ boundary)

-- `strip_prefix('"').and_then(|r| r.strip_suffix('"')).unwrap_or(v)`
unfoldable pub unquote : Text → Text
unquote v = elim (strip_prefix v (b'"' ∷ [])) [
  | none ↦ v
  | some r ↦ elim (strip_suffix r (b'"' ∷ [])) [ none ↦ v | some w ↦ w ]
]

unfoldable pub boundary_loop : List Text → Option Text
boundary_loop [] = none
boundary_loop (param ∷ params) =
    let rest = boundary_loop params in
    elim (split_once param b'=') [
      | none ↦ rest
      | some (k, v) ↦
          if not (eq_ignore_ascii_case (trim k) (text "boundary"))
          then rest
          else if is_empty (unquote (trim v))
          then rest
          else some (unquote (trim v))
    ]

unfoldable pub multipart_boundary_of : Text → Option Text
unfolding boundary_loop unquote
multipart_boundary_of content_type = elim (split_once content_type b';') [
  | none ↦ none
  | some (mime, params) ↦
      if not (eq_ignore_ascii_case (trim mime) (text "multipart/form-data"))
      then none
      else boundary_loop (split params b';')
]

unfoldable pub param_loop : Text → List Text → Option Text
param_loop param [] = none
param_loop param (piece ∷ pieces) =
    let rest = param_loop param pieces in
    elim (split_once piece b'=') [
      | none ↦ rest
      | some (k, v) ↦
          if not (eq_ignore_ascii_case (trim k) param) then rest else some (unquote (trim v))
    ]

unfoldable pub header_param : Text → Text → Option Text
unfolding param_loop unquote
header_param value param = param_loop param (split value b';')

-- The first window that equals the needle; the needles of the code are not empty.
unfoldable pub find : List ℕ → List ℕ → Option ℕ
find [] needle = none
find (c ∷ haystack) needle =
    let rest = find haystack needle in
    if starts_with (c ∷ haystack) needle
    then some 0
    else elim rest [ none ↦ none | some i ↦ some (suc i) ]

-- The loop of `split_on`, on fuel: each round drops the separator.
unfoldable pub split_loop : ℕ → List ℕ → List ℕ → List (List ℕ)
split_loop zero haystack sep = haystack ∷ []
split_loop (suc fuel) haystack sep = elim (find haystack sep) [
  | none ↦ haystack ∷ []
  | some i ↦ take i haystack ∷ split_loop fuel (drop (i + length sep) haystack) sep
]

unfoldable pub split_on : List ℕ → List ℕ → List (List ℕ)
unfolding find split_loop
split_on haystack sep = elim (find haystack sep) [
  | none ↦ []
  | some first ↦ split_loop (length haystack) (drop (first + length sep) haystack) sep
]

-- `str::lines` on the pieces between line feeds.
unfoldable pub line_pieces : List Text → List Text
line_pieces [] = []
line_pieces (p ∷ []) = if is_empty p then [] else p ∷ []
line_pieces (p ∷ q ∷ ps) =
    elim (strip_suffix p (13 ∷ [])) [ none ↦ p | some s ↦ s ] ∷ line_pieces (q ∷ ps)

unfoldable pub lines : Text → List Text
unfolding line_pieces
lines s = line_pieces (split s 10)

-- What the header lines of a part say.
pub record Head : Type 0 where
  pub name : Option Text
  pub filename : Option Text
  pub content_type : Option Text

unfoldable pub head_line : Head → Text → Head
unfolding header_param
head_line h line = elim (split_once line b':') [
  | none ↦ h
  | some (key, value) ↦
      if eq_ignore_ascii_case (trim key) (text "content-type")
      then record h { content_type = some (trim value) }
      else if eq_ignore_ascii_case (trim key) (text "content-disposition")
      then record h {
        name = header_param value (text "name");
        filename = header_param value (text "filename");
      }
      else h
]

unfoldable pub head_lines : Head → List Text → Head
unfolding head_line
head_lines h [] = h
head_lines h (line ∷ rest) = head_lines (head_line h line) rest

-- `strip_prefix(..).unwrap_or(part)` and the same at the end.
unfoldable pub without_prefix : List ℕ → List ℕ → List ℕ
without_prefix part p = elim (strip_prefix part p) [ none ↦ part | some r ↦ r ]

unfoldable pub without_suffix : List ℕ → List ℕ → List ℕ
without_suffix part p = elim (strip_suffix part p) [ none ↦ part | some r ↦ r ]

unfoldable pub trim_part : List ℕ → List ℕ
unfolding without_prefix without_suffix
trim_part part =
    let open_part : List ℕ = elim (strip_prefix part (text "--")) [ none ↦ part | some _ ↦ [] ] in
    without_suffix (without_prefix open_part crlf) crlf

module _ (u : Utf8) where
  open u use {as_bytes, from_utf8_lossy}

  unfoldable pub field_of : Head → List ℕ → Option MultipartField
  field_of h bytes = elim h.name [
    | none ↦ none
    | some name ↦ some (record {
      name = name;
      value = elim h.filename [
        | none ↦ text_value (from_utf8_lossy bytes)
        | some filename ↦
            file_value filename
              (elim h.content_type [ none ↦ text "application/octet-stream" | some t ↦ t ]) bytes
      ];
    })
  ]

  unfoldable pub parse_trimmed : List ℕ → Option MultipartField
  unfolding find lines head_lines field_of
  parse_trimmed part = if is_empty part then none else elim (find part (crlf ++ crlf)) [
    | none ↦ none
    | some at ↦
        field_of
          (head_lines (record { name = none; filename = none; content_type = none })
            (lines (from_utf8_lossy (take at part))))
          (drop 4 (drop at part))
  ]

  -- The body of the loop of `parse_multipart`; `none` is `continue`.
  unfoldable pub parse_part : List ℕ → Option MultipartField
  unfolding trim_part parse_trimmed
  parse_part raw = parse_trimmed (trim_part raw)

  unfoldable pub parse_parts : List (List ℕ) → List MultipartField
  unfolding parse_part
  parse_parts [] = []
  parse_parts (part ∷ parts) =
      let rest = parse_parts parts in
      elim (parse_part part) [ none ↦ rest | some field ↦ field ∷ rest ]

  unfoldable pub parse_multipart : List ℕ → Text → List MultipartField
  unfolding split_on parse_parts
  parse_multipart body boundary = parse_parts (split_on body (delimiter u boundary))
