-- ===== src/Fetch/Multipart/Examples.antt =====
-- A text field and a file, as in the tests of crates/ferrijs-fetch/src/multipart.rs. The texts are
-- ASCII, where a text is its bytes.
use ferrijs.Prelude.{ℕ, ◌≡◌, refl, List, [], ◌∷◌, ◌++◌, some, arith, All}
use ferrijs.Text.{
  text, starts_with, contains_char, strip_prefix, strip_suffix, split, split_once,
  eq_ignore_ascii_case, trim, to_lower,
}
use ferrijs.Fetch.Multipart.{
  Utf8, MultipartField, text_value, file_value, serialize_multipart, multipart_boundary_of,
  parse_multipart, find, field_bytes, delimiter, field_head, crlf,
}
use ferrijs.Fetch.Multipart.Parts.{IsUtf8}
use ferrijs.Fetch.Multipart.Boundary.{IsBoundary}
use ferrijs.Fetch.Multipart.RoundTrip.{IsWritten, parse_multipart-serialize_multipart}

unfoldable ascii : Utf8
ascii = record { as_bytes = λ s. s; from_utf8_lossy = λ b. b }

ascii-IsUtf8 : IsUtf8 ascii
unfolding ascii
ascii-IsUtf8 = record {
  as_bytes-append = λ s t. refl;
  as_bytes_ascii = λ s a. refl;
  as_bytes_clear = λ s c l h. h;
  lossy-as_bytes = λ s h. refl;
}

abbrev fields : List MultipartField
fields =
    record { name = text "text"; value = text_value (text "val") }
    ∷ record {
      name = text "file";
      value = file_value (text "f.bin") (text "text/csv") (0 ∷ 159 ∷ 146 ∷ 150 ∷ 13 ∷ 10 ∷ []);
    }
    ∷ []

bound-IsBoundary : IsBoundary (text "BOUND")
unfolding contains_char strip_prefix trim
bound-IsBoundary = record {
  line = (omega arith, refl, refl);
  whole = refl;
  trimmed = refl;
  filled = refl;
  bare = refl;
}

written : All (IsWritten ascii (text "BOUND")) fields
unfolding contains_char trim ascii field_bytes field_head delimiter find starts_with
written = (
  (((omega arith, refl, refl), refl), omega arith, refl),
  (
    (
      ((omega arith, refl, refl), refl),
      (((omega arith, refl, refl), refl), (omega arith, refl, refl), refl),
      refl,
    ),
    tt,
  ),
)

-- A preamble, a file without a type, a part without a name and one without a blank line.
abbrev lenient : List ℕ
lenient =
    text "preamble"
    ++ (crlf
        ++ (text "--B"
            ++ (crlf
                ++ (text "Content-Disposition: form-data; name=\"a\"; filename=\"x\""
                    ++ (crlf
                        ++ (crlf
                            ++ (text "AA"
                                ++ (crlf
                                    ++ (text "--B"
                                        ++ (crlf
                                            ++ (text "Content-Disposition: form-data"
                                                ++ (crlf
                                                    ++ (crlf
                                                        ++ (text "no-name"
                                                            ++ (crlf
                                                            ++ (text "--B"
                                                            ++ (crlf
                                                            ++ (text "garbage"
                                                            ++ (crlf
                                                            ++ (text "--B--"
                                                            ++ crlf))))))))))))))))))))

skipped :
    parse_multipart ascii lenient (text "B")
    ≡ record {
      name = text "a";
      value = file_value (text "x") (text "application/octet-stream") (text "AA");
    }
      ∷ []
unfolding ascii parse_multipart delimiter starts_with strip_suffix strip_prefix split split_once
    eq_ignore_ascii_case trim to_lower
skipped = refl

parse_multipart-serialize_multipart_example :
    let (body, content_type) = serialize_multipart ascii fields (text "BOUND") in
    (multipart_boundary_of content_type ≡ some (text "BOUND"))
    × (parse_multipart ascii body (text "BOUND") ≡ fields)
parse_multipart-serialize_multipart_example =
    parse_multipart-serialize_multipart ascii fields (text "BOUND") ascii-IsUtf8 bound-IsBoundary
      written
