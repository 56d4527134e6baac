-- ===== src/Fetch/Multipart/Fields.antt =====
-- A field of either kind: its headers are found, cut into lines and read.
use mathlib.Core.List.{append_assoc, append-nil}
use ferrijs.Prelude.{
  ℕ, ◌<◌, ◌≡◌, refl, sym, ap, subst, ◌∙◌, false, List, [], ◌∷◌, ◌++◌, none, some, arith, is_empty,
  length, All, All-append, ◌==◌, nat_eq,
}
use ferrijs.Text.{Text, text, trim, contains_char}
use ferrijs.Fetch.Multipart.{
  Utf8, MultipartValue, text_value, file_value, MultipartField, crlf, quoted, disposition,
  field_head, content, field_bytes, find, lines, Head, head_line, head_lines, field_of, parse_part,
}
use ferrijs.Fetch.Multipart.Params.{
  contains_char-append, lead, header_param-text, header_param-file, quoted_clear,
}
use ferrijs.Fetch.Multipart.Parts.{
  IsChar, IsString, IsUtf8, IsLine, IsName, IsValue, no_head, parse_part-eq, head_line-disposition,
  head_line-type,
}
use ferrijs.Fetch.Multipart.Lines.{one_line, two_lines, find_one, find_two}

quoted-IsString : (s : Text) → IsString s → IsString (quoted s)
unfolding quoted
quoted-IsString s h = (omega arith, All-append IsChar s (b'"' ∷ []) h (omega arith))

disposition-IsString : (name : Text) → IsString name → IsString (disposition name)
unfolding disposition
disposition-IsString name h =
    All-append IsChar (text "Content-Disposition: form-data; name=") (quoted name) (omega arith)
      (quoted-IsString name h)

-- A byte that neither the literals nor the name have.
disposition_clear :
    (name : Text) (c : ℕ)
    → contains_char (text "Content-Disposition: form-data; name=") c ≡ false
    → (b'"' == c) ≡ false
    → contains_char name c ≡ false
    → contains_char (disposition name) c ≡ false
unfolding disposition
disposition_clear name c l q h =
    contains_char-append (text "Content-Disposition: form-data; name=") (quoted name) c
    ∙ ground (arith, quoted_clear name c h q)

-- What the headers of a text field, and those of a file, say.
read_text :
    (name : Text)
    → IsName name
    → head_lines no_head (lines (disposition name))
      ≡ record { name = some name; filename = none; content_type = none }
unfolding head_lines contains_char disposition
read_text name n =
    let (p, q) = header_param-text name n.1 in
    ap (head_lines no_head)
      (one_line (disposition name) (disposition_clear name 10 refl refl n.0.2) refl)
    ∙ head_line-disposition no_head (lead ++ quoted name) (some name) none p q

module _ (u : Utf8) (v : IsUtf8 u) where
  pub literal : (l t : Text) → All (λ c. c < 128) l → u.as_bytes (l ++ t) ≡ l ++ u.as_bytes t
  literal l t a =
      v.as_bytes-append l t ∙ ap (λ (b : List ℕ). b ++ u.as_bytes t) (v.as_bytes_ascii l a)

  disposition_filled : (name rest : Text) → is_empty (u.as_bytes (disposition name ++ rest)) ≡ false
  unfolding disposition
  disposition_filled name rest =
      ap (λ (b : List ℕ). is_empty b)
        (literal (text "Content-Disposition: form-data; name=") (quoted name ++ rest) (omega arith))

  parse_text :
      (name s : Text)
      → IsName name
      → IsString s
      → let field : MultipartField = record { name = name; value = text_value s } in
        parse_part u (crlf ++ (field_bytes u field ++ crlf)) ≡ some field
  unfolding field_bytes field_head content field_of contains_char
  parse_text name s n h =
      parse_part-eq u v (disposition name) (u.as_bytes s) (disposition-IsString name n.0.0)
        (subst (λ (t : Text). is_empty (u.as_bytes t) ≡ false) (append-nil (disposition name))
          (disposition_filled name []))
        (find_one (u.as_bytes (disposition name)) (u.as_bytes s) (
          v.as_bytes_clear (disposition name) 13 (omega arith)
            (disposition_clear name 13 refl refl n.0.1)))
      ∙ ap (λ (head : Head). field_of u head (u.as_bytes s)) (read_text name n)
      ∙ ap (λ (t : Text). some (record { name = name; value = text_value t }))
          (v.lossy-as_bytes s h)

-- The two header lines of a file.
abbrev file_line : Text → Text → Text
file_line name filename = disposition name ++ (text "; filename=" ++ quoted filename)

abbrev type_line : Text → Text
type_line content_type = text "Content-Type: " ++ content_type

file_head :
    (name filename content_type : Text) (bytes : List ℕ)
    → field_head (record { name = name; value = file_value filename content_type bytes })
      ≡ file_line name filename ++ (crlf ++ type_line content_type)
unfolding field_head
file_head name filename content_type bytes = sym (
    append_assoc (disposition name) (text "; filename=" ++ quoted filename)
      (crlf ++ type_line content_type)
    ∙ ap (λ (t : Text). disposition name ++ t)
        (append_assoc (text "; filename=") (quoted filename) (crlf ++ type_line content_type)))

file_line_clear :
    (name filename : Text) (c : ℕ)
    → contains_char (text "Content-Disposition: form-data; name=") c ≡ false
    → contains_char (text "; filename=") c ≡ false
    → (b'"' == c) ≡ false
    → contains_char name c ≡ false
    → contains_char filename c ≡ false
    → contains_char (file_line name filename) c ≡ false
file_line_clear name filename c l m q h k =
    contains_char-append (disposition name) (text "; filename=" ++ quoted filename) c
    ∙ ground (
      arith,
      disposition_clear name c l q h,
      contains_char-append (text "; filename=") (quoted filename) c,
      quoted_clear filename c k q,
    )

type_line_clear :
    (content_type : Text) (c : ℕ)
    → contains_char (text "Content-Type: ") c ≡ false
    → contains_char content_type c ≡ false
    → contains_char (type_line content_type) c ≡ false
type_line_clear content_type c l h =
    ground (arith, contains_char-append (text "Content-Type: ") content_type c)

file_head-IsString :
    (name filename content_type : Text)
    → IsString name
    → IsString filename
    → IsString content_type
    → IsString (file_line name filename ++ (crlf ++ type_line content_type))
file_head-IsString name filename content_type n f t =
    All-append IsChar (file_line name filename) (crlf ++ type_line content_type)
      (All-append IsChar (disposition name) (text "; filename=" ++ quoted filename)
        (disposition-IsString name n)
        (All-append IsChar (text "; filename=") (quoted filename) (omega arith)
          (quoted-IsString filename f)))
      (All-append IsChar (crlf ++ text "Content-Type: ") content_type (omega arith) t)

read_file :
    (name filename content_type : Text)
    → IsName name
    → IsName filename
    → IsLine content_type
    → trim content_type ≡ content_type
    → head_lines no_head (lines (file_line name filename ++ (crlf ++ type_line content_type)))
      ≡ record { name = some name; filename = some filename; content_type = some content_type }
unfolding head_lines contains_char disposition
read_file name filename content_type n f t e =
    let (p, q) = header_param-file name filename n.1 f.1 in
    ap (head_lines no_head) (
      two_lines (file_line name filename) (type_line content_type)
        (file_line_clear name filename 10 refl refl refl n.0.2 f.0.2)
        (type_line_clear content_type 10 refl t.2) refl)
    ∙ ap (λ (h : Head). head_line h (type_line content_type))
        (head_line-disposition no_head
          (lead ++ (quoted name ++ (text "; filename=" ++ quoted filename))) (some name)
          (some filename) p q)
    ∙ head_line-type _ content_type e

module _ (u : Utf8) (v : IsUtf8 u) where
  file_bytes :
      (name filename content_type : Text)
      → u.as_bytes (file_line name filename ++ (crlf ++ type_line content_type))
        ≡ u.as_bytes (file_line name filename)
          ++ (crlf ++ b'C' ∷ (text "ontent-Type: " ++ u.as_bytes content_type))
  file_bytes name filename content_type =
      v.as_bytes-append (file_line name filename) (crlf ++ type_line content_type)
      ∙ ap (λ (b : List ℕ). u.as_bytes (file_line name filename) ++ b)
          (literal u v (crlf ++ text "Content-Type: ") content_type (omega arith))

  parse_file :
      (name filename content_type : Text) (bytes : List ℕ)
      → IsName name
      → IsValue (file_value filename content_type bytes)
      → let field : MultipartField = record {
        name = name;
        value = file_value filename content_type bytes;
      } in
        parse_part u (crlf ++ (field_bytes u field ++ crlf)) ≡ some field
  unfolding field_bytes content field_of contains_char
  parse_file name filename content_type bytes n (f, t, e) =
      ap
        (λ (head : Text).
          parse_part u (crlf ++ ((u.as_bytes (head ++ (crlf ++ crlf)) ++ bytes) ++ crlf)))
        (file_head name filename content_type bytes)
      ∙ parse_part-eq u v (file_line name filename ++ (crlf ++ type_line content_type)) bytes
          (file_head-IsString name filename content_type n.0.0 f.0.0 t.0)
          (subst (λ (w : Text). is_empty (u.as_bytes w) ≡ false)
            (sym (
              append_assoc (disposition name) (text "; filename=" ++ quoted filename)
                (crlf ++ type_line content_type)))
            (disposition_filled u v name
              ((text "; filename=" ++ quoted filename) ++ (crlf ++ type_line content_type))))
          (subst
            (λ (b : List ℕ). find (b ++ ((crlf ++ crlf) ++ bytes)) (crlf ++ crlf) ≡ some (length b))
            (sym (file_bytes name filename content_type))
            (find_two (u.as_bytes (file_line name filename)) b'C'
              (text "ontent-Type: " ++ u.as_bytes content_type) bytes
              (v.as_bytes_clear (file_line name filename) 13 (omega arith)
                (file_line_clear name filename 13 refl refl refl n.0.1 f.0.1))
              (v.as_bytes_clear content_type 13 (omega arith) t.1)))
      ∙ ap (λ (head : Head). field_of u head bytes) (read_file name filename content_type n f t e)

  -- What is written for a field, between the blanks round it, is read as the field.
  pub parse_part-field :
      (field : MultipartField)
      → IsName field.name
      → IsValue field.value
      → parse_part u (crlf ++ (field_bytes u field ++ crlf)) ≡ some field
  parse_part-field field n h = by_value field.name field.value n h
    where
      by_value :
          (name : Text) (value : MultipartValue)
          → IsName name
          → IsValue value
          → let f : MultipartField = record { name = name; value = value } in
            parse_part u (crlf ++ (field_bytes u f ++ crlf)) ≡ some f
      by_value name (text_value s) n h = parse_text u v name s n h
      by_value name (file_value filename content_type bytes) n h =
          parse_file name filename content_type bytes n h
