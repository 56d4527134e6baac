-- ===== src/Fetch/Multipart/RoundTrip.antt =====
-- The parser reads a body back as the fields that it was written for.
use mathlib.Core.List.{append_assoc}
use ferrijs.Prelude.{
  ℕ, zero, suc, ◌+◌, ◌≤◌, ◌<◌, ◌≡◌, ◌≢◌, refl, sym, ap, subst, ◌∙◌, Bool, false, List, [], ◌∷◌,
  ◌++◌, none, some, arith, is_empty, length, drop, length-append, All, ◌==◌, nat_eq,
}
use ferrijs.Text.{Text, text, starts_with, strip_prefix, strip_suffix, contains_char}
use ferrijs.Fetch.Multipart.{
  Utf8, MultipartField, crlf, delimiter, field_bytes, body_of, serialize_multipart,
  multipart_boundary_of, find, split_loop, split_on, parse_part, parse_parts, parse_multipart,
}
use ferrijs.Fetch.Multipart.Search.{shift, find_over, find_here, drop-append, split_loop-cons}
use ferrijs.Fetch.Multipart.Parts.{IsUtf8, IsName, IsValue}
use ferrijs.Fetch.Multipart.Fields.{literal, parse_part-field}
use ferrijs.Fetch.Multipart.Boundary.{IsBoundary, boundary_of}

-- A field that can be written: its names and its type keep to their parameters, and the delimiter
-- does not occur in what is written for it.
abbrev pub IsWritten : Utf8 → Text → MultipartField → Type 0
IsWritten u boundary field =
    IsName field.name
    × IsValue field.value
    × (find (field_bytes u field) (delimiter u boundary) ≡ none)

-- The end of a body holds no delimiter, since a boundary is not empty and holds no CR.
no_end :
    (bs : List ℕ)
    → bs ≢ []
    → contains_char bs 13 ≡ false
    → find (text "--" ++ crlf) (b'-' ∷ b'-' ∷ bs) ≡ none
unfolding find starts_with contains_char
no_end [] n h = absurd (n refl)
no_end (x ∷ xs) n h = ground arith

module _ (u : Utf8) where
  -- The end of a body is no part.
  end_skipped : parse_part u (text "--" ++ crlf) ≡ none
  unfolding parse_part strip_prefix strip_suffix
  end_skipped = refl

  parse_parts-nil : parse_parts u [] ≡ []
  unfolding parse_parts
  parse_parts-nil = refl

  parse_parts_skip :
      (p : List ℕ) (ps : List (List ℕ))
      → parse_part u p ≡ none
      → parse_parts u (p ∷ ps) ≡ parse_parts u ps
  unfolding parse_parts
  parse_parts_skip p ps h = rw (h, parse_parts) refl

  parse_parts_take :
      (p : List ℕ) (ps : List (List ℕ)) (field : MultipartField)
      → parse_part u p ≡ some field
      → parse_parts u (p ∷ ps) ≡ field ∷ parse_parts u ps
  unfolding parse_parts
  parse_parts_take p ps field h = rw (h, parse_parts) refl

-- A separator at the front: the loop runs on what stands behind it.
split_on_here :
    (h sep : List ℕ)
    → find h sep ≡ some 0
    → split_on h sep ≡ split_loop (length h) (drop (length sep) h) sep
unfolding split_on
split_on_here h sep e =
    let n : 0 + length sep ≡ length sep = omega arith in
    rw (e, split_on) (ap (λ (k : ℕ). split_loop (length h) (drop k h) sep) n)

find-nil : (d : List ℕ) → find [] d ≡ none
unfolding find
find-nil d = refl

module _ (u : Utf8) (v : IsUtf8 u) (boundary : Text) (b : IsBoundary boundary) where
  abbrev sep : List ℕ
  sep = b'-' ∷ b'-' ∷ u.as_bytes boundary

  delimiter-eq : delimiter u boundary ≡ sep
  unfolding delimiter
  delimiter-eq = literal u v (text "--") boundary (omega arith)

  -- What stands behind a delimiter.
  tail : List MultipartField → List ℕ
  tail [] = text "--" ++ crlf
  tail (field ∷ fields) = crlf ++ (field_bytes u field ++ (crlf ++ (sep ++ tail fields)))

  delimited :
      (x : Text) → All (λ c. c < 128) x → u.as_bytes (text "--" ++ (boundary ++ x)) ≡ sep ++ x
  delimited x a =
      literal u v (text "--") (boundary ++ x) (omega arith)
      ∙ ap (λ (l : List ℕ). text "--" ++ l)
          (v.as_bytes-append boundary x
            ∙ ap (λ (l : List ℕ). u.as_bytes boundary ++ l) (v.as_bytes_ascii x a))

  body-eq : (fields : List MultipartField) → body_of u fields boundary ≡ sep ++ tail fields
  unfolding body_of tail
  body-eq [] = delimited (text "--" ++ crlf) (omega arith)
  body-eq (field ∷ fields) =
      rw (delimited crlf (omega arith), body-eq fields)
        (append_assoc sep crlf (field_bytes u field ++ (crlf ++ (sep ++ tail fields))))

  sep_clear :
      (c : ℕ)
      → c < 128
      → (b'-' == c) ≡ false
      → contains_char boundary c ≡ false
      → contains_char sep c ≡ false
  unfolding contains_char
  sep_clear c l n h = ground (arith, v.as_bytes_clear boundary c l h)

  abbrev part : MultipartField → List ℕ
  part field = crlf ++ (field_bytes u field ++ crlf)

  abbrev parts : List MultipartField → List (List ℕ)
  parts [] = (text "--" ++ crlf) ∷ []
  parts (field ∷ fields) = part field ∷ parts fields

  -- Past `x`, which holds no delimiter, and a byte that no delimiter has.
  past :
      (x : List ℕ) (c : ℕ) (r : List ℕ)
      → contains_char sep c ≡ false
      → find x sep ≡ none
      → find (x ++ c ∷ r) sep ≡ shift (suc (length x)) (find r sep)
  past x c r h n = find_over x c r b'-' (b'-' ∷ u.as_bytes boundary) h n

  find-part :
      (field : MultipartField) (rest : List ℕ)
      → find (field_bytes u field) sep ≡ none
      → find (part field ++ (sep ++ rest)) sep ≡ some (length (part field))
  find-part field rest n =
      ap (λ (l : List ℕ). find (crlf ++ l) sep)
        (append_assoc (field_bytes u field) crlf (sep ++ rest))
      ∙ past [] 13 _ cr (find-nil sep)
      ∙ ap (shift 1) (
          past [] 10 _ lf (find-nil sep)
          ∙ ap (shift 1) (
              past (field_bytes u field) 13 _ cr n
              ∙ ap (shift (suc (length (field_bytes u field)))) (
                  past [] 10 _ lf (find-nil sep)
                  ∙ ap (shift 1) (find_here b'-' (b'-' ∷ u.as_bytes boundary) rest))))
      ∙ ap some (omega (arith, length-append {0} (field_bytes u field) crlf))
    where
      cr : contains_char sep 13 ≡ false
      cr = sep_clear 13 (omega arith) refl b.line.1

      lf : contains_char sep 10 ≡ false
      lf = sep_clear 10 (omega arith) refl b.line.2

  bytes_filled : u.as_bytes boundary ≢ []
  bytes_filled e =
      let none_read : u.from_utf8_lossy [] ≡ [] =
        ap u.from_utf8_lossy (sym (v.as_bytes_ascii [] tt)) ∙ v.lossy-as_bytes [] tt in
      let empty : boundary ≡ [] =
        sym (v.lossy-as_bytes boundary b.line.0) ∙ ap u.from_utf8_lossy e ∙ none_read in
      cc (ap {B = Bool} is_empty empty, b.filled)

  find_end : find (text "--" ++ crlf) sep ≡ none
  find_end =
      no_end (u.as_bytes boundary) bytes_filled
        (v.as_bytes_clear boundary 13 (omega arith) b.line.1)

  -- Behind the first delimiter, the cut leaves the part of each field and the end.
  split_tail :
      (n : ℕ) (fields : List MultipartField)
      → All (IsWritten u boundary) fields
      → length (tail fields) ≤ n
      → split_loop n (tail fields) sep ≡ parts fields
  unfolding tail
  split_tail zero [] w h = absurd (omega arith)
  split_tail zero (field ∷ fields) w h = absurd (omega arith)
  split_tail (suc n) [] w h = unfold split_loop in rw (find_end, split_loop) refl
  split_tail (suc n) (field ∷ fields) w h =
      ap (λ (l : List ℕ). split_loop (suc n) (crlf ++ l) sep)
        (sym (append_assoc (field_bytes u field) crlf (sep ++ tail fields)))
      ∙ split_loop-cons n (part field) sep (tail fields) (
          find-part field (tail fields)
            (subst (λ (d : List ℕ). find (field_bytes u field) d ≡ none) delimiter-eq w.0.2))
      ∙ ap (λ (l : List (List ℕ)). part field ∷ l)
          (split_tail n fields w.1 (
            omega (
              arith,
              length-append {0} (field_bytes u field) (crlf ++ (sep ++ tail fields)),
              length-append {0} (u.as_bytes boundary) (tail fields),
            )))

  parse_all :
      (fields : List MultipartField)
      → All (IsWritten u boundary) fields
      → parse_parts u (parts fields) ≡ fields
  parse_all [] w = parse_parts_skip u (text "--" ++ crlf) [] (end_skipped u) ∙ parse_parts-nil u
  parse_all (field ∷ fields) w =
      parse_parts_take u (part field) (parts fields) field (parse_part-field u v field w.0.0 w.0.1)
      ∙ ap (λ (l : List MultipartField). field ∷ l) (parse_all fields w.1)

  split_body :
      (fields : List MultipartField)
      → All (IsWritten u boundary) fields
      → split_on (sep ++ tail fields) sep ≡ parts fields
  split_body fields w =
      split_on_here (sep ++ tail fields) sep
        (find_here b'-' (b'-' ∷ u.as_bytes boundary) (tail fields))
      ∙ ap (λ (l : List ℕ). split_loop (length (sep ++ tail fields)) l sep)
          (drop-append sep (tail fields))
      ∙ split_tail (length (sep ++ tail fields)) fields w
          (omega (arith, length-append {0} (u.as_bytes boundary) (tail fields)))

-- A `multipart/form-data` body is read back: if the boundary is one and each field can be written
-- with it, the content type of what is serialised tells the boundary, and the parser finds in the
-- body exactly the fields, in their order, texts as texts and files with name, type and bytes.
pub parse_multipart-serialize_multipart :
    (u : Utf8) (fields : List MultipartField) (boundary : Text)
    → IsUtf8 u
    → IsBoundary boundary
    → All (IsWritten u boundary) fields
    → let (body, content_type) = serialize_multipart u fields boundary in
      (multipart_boundary_of content_type ≡ some boundary)
      × (parse_multipart u body boundary ≡ fields)
unfolding serialize_multipart parse_multipart
parse_multipart-serialize_multipart u fields boundary v b w = (
  boundary_of u fields boundary b,
  ap (parse_parts u) (
        rw (delimiter-eq u v boundary b, body-eq u v boundary b fields)
          (split_body u v boundary b fields w))
      ∙ parse_all u v boundary b fields w,
)
