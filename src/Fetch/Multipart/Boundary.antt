-- ===== src/Fetch/Multipart/Boundary.antt =====
-- The boundary that the content type of a body tells.
use ferrijs.Prelude.{
  ◌≡◌, refl, ap, ◌∙◌, true, false, List, [], ◌∷◌, ◌++◌, none, some, arith, is_empty, nat_eq,
}
use ferrijs.Text.{
  Text, text, eq_ignore_ascii_case, strip_prefix, split_once, trim, contains_char, to_lower,
}
use ferrijs.Fetch.Multipart.{
  Utf8, MultipartField, serialize_multipart, unquote, boundary_loop, multipart_boundary_of,
}
use ferrijs.Fetch.Multipart.Params.{split_once-append, split_whole}
use ferrijs.Fetch.Multipart.Parts.{IsLine}

-- A boundary: a line that is not empty, begins with no quote, and is one parameter without blanks
-- round it.
pub record IsBoundary (boundary : Text) : Type 0 where
  pub line : IsLine boundary
  pub whole : contains_char boundary b';' ≡ false
  pub trimmed : trim boundary ≡ boundary
  pub filled : is_empty boundary ≡ false
  pub bare : strip_prefix boundary (b'"' ∷ []) ≡ none

boundary_name : eq_ignore_ascii_case (trim (text " boundary")) (text "boundary") ≡ true
unfolding eq_ignore_ascii_case trim to_lower
boundary_name = refl

unquote_bare : (v : Text) → strip_prefix v (b'"' ∷ []) ≡ none → unquote v ≡ v
unfolding unquote
unquote_bare v h = rw (h, unquote) refl

last_param :
    (boundary : Text)
    → IsBoundary boundary
    → boundary_loop ((text " boundary" ++ b'=' ∷ boundary) ∷ []) ≡ some boundary
unfolding boundary_loop contains_char
last_param boundary b = ground (
  arith,
  split_once-append (text " boundary") boundary b'=' refl,
  boundary_name,
  unquote_bare boundary b.bare,
  b.trimmed,
  b.filled,
)

-- The content type tells the boundary.
pub boundary_of :
    (u : Utf8) (fields : List MultipartField) (boundary : Text)
    → IsBoundary boundary
    → multipart_boundary_of (serialize_multipart u fields boundary).1 ≡ some boundary
unfolding multipart_boundary_of serialize_multipart split_once trim eq_ignore_ascii_case to_lower
    contains_char
boundary_of u fields boundary b =
    ap boundary_loop (split_whole (text " boundary=" ++ boundary) b';' b.whole)
    ∙ last_param boundary b
