-- ===== src/Std/Encoding.antt =====
-- crates/ferrijs-std/src/encoding/mod.rs: the encoders and their labels. The tables, maps in the
-- source, are lists of their entries, each label once.
pub mod Codec
pub mod Reference
pub mod Windows1252
pub mod RoundTrip
use ferrijs.Prelude.{
  ℕ, ◌≡◌, ◌⊎◌, inl, inr, refl, List, [], ◌∷◌, ◌++◌, Bool, ◌||◌, Option, none, some, find, is_empty,
  if◌then◌else◌, ◌==◌, list_eq, nat_eq,
}
use ferrijs.Prelude.Result.{Result, ok, ok_or}
use ferrijs.Text.{Text, text, trim_start_matches, trim_end_matches, to_ascii_lowercase, to_lower}

pub data Encoder : Type 0 where
  hex base64 base64_url windows1252 latin1 ascii utf8 utf16le utf16be : Encoder

-- `NODE_ENCODING_MAP`
abbrev pub node_encoding_map : List (Text × Encoder)
node_encoding_map =
    (text "buffer", utf8)
    ∷ (text "hex", hex)
    ∷ (text "base64", base64)
    ∷ (text "base64url", base64_url)
    ∷ (text "utf-8", utf8)
    ∷ (text "utf8", utf8)
    ∷ (text "ucs-2", utf16le)
    ∷ (text "ucs2", utf16le)
    ∷ (text "utf-16le", utf16le)
    ∷ (text "utf16le", utf16le)
    ∷ (text "latin1", latin1)
    ∷ (text "binary", latin1)
    ∷ (text "ascii", ascii)
    ∷ []

-- `ENCODING_MAP`
abbrev pub encoding_map : List (Text × Encoder)
encoding_map =
    (text "ascii", windows1252)
    ∷ (text "latin1", windows1252)
    ∷ (text "buffer", utf8)
    ∷ (text "hex", hex)
    ∷ (text "base64", base64)
    ∷ (text "unicode-1-1-utf-8", utf8)
    ∷ (text "unicode11utf8", utf8)
    ∷ (text "unicode20utf8", utf8)
    ∷ (text "utf-8", utf8)
    ∷ (text "utf8", utf8)
    ∷ (text "x-unicode20utf8", utf8)
    ∷ (text "csunicode", utf16le)
    ∷ (text "iso-10646-ucs-2", utf16le)
    ∷ (text "ucs-2", utf16le)
    ∷ (text "ucs2", utf16le)
    ∷ (text "unicode", utf16le)
    ∷ (text "unicodefeff", utf16le)
    ∷ (text "utf-16", utf16le)
    ∷ (text "utf-16le", utf16le)
    ∷ (text "utf16le", utf16le)
    ∷ (text "unicodefffe", utf16be)
    ∷ (text "utf-16be", utf16be)
    ∷ (text "ansi_x3.4-1968", windows1252)
    ∷ (text "cp1252", windows1252)
    ∷ (text "cp819", windows1252)
    ∷ (text "csisolatin1", windows1252)
    ∷ (text "ibm819", windows1252)
    ∷ (text "iso-8859-1", windows1252)
    ∷ (text "iso-ir-100", windows1252)
    ∷ (text "iso8859-1", windows1252)
    ∷ (text "iso88591", windows1252)
    ∷ (text "iso_8859-1", windows1252)
    ∷ (text "iso_8859-1:1987", windows1252)
    ∷ (text "l1", windows1252)
    ∷ (text "us-ascii", windows1252)
    ∷ (text "windows-1252", windows1252)
    ∷ (text "x-cp1252", windows1252)
    ∷ []

-- `u8::is_ascii_whitespace`
unfoldable pub is_ascii_whitespace : ℕ → Bool
is_ascii_whitespace c = c == 32 || (c == 9 || (c == 10 || (c == 12 || c == 13)))

-- `str::trim_ascii`
unfoldable pub trim_ascii : Text → Text
unfolding is_ascii_whitespace
trim_ascii s = trim_end_matches is_ascii_whitespace (trim_start_matches is_ascii_whitespace s)

unfoldable pub encoder_of : List (Text × Encoder) → Text → Option Encoder
encoder_of entries key = elim (find (λ (e : Text × Encoder). e.0 == key) entries) [
  | none ↦ none
  | some (label, encoder) ↦ some encoder
]

unfoldable pub lookup : List (Text × Encoder) → Text → Result Text Encoder
unfolding trim_ascii encoder_of
lookup entries label =
    ok_or (encoder_of entries (to_ascii_lowercase (trim_ascii label)))
      (text "The \"" ++ (label ++ text "\" encoding is not supported"))

-- `Encoder::from_str`
unfoldable pub from_str : Text → Result Text Encoder
unfolding lookup
from_str encoding = lookup node_encoding_map encoding

unfoldable pub from_web_label : Text → Result Text Encoder
unfolding lookup
from_web_label label = lookup encoding_map label

-- `from_optional_str` and `from_optional_web_label`: no label, or an empty one, is UTF-8.
unfoldable pub from_optional_str : Option Text → Result Text Encoder
unfolding from_str
from_optional_str none = ok utf8
from_optional_str (some label) = if is_empty label then ok utf8 else from_str label

unfoldable pub from_optional_web_label : Option Text → Result Text Encoder
unfolding from_web_label
from_optional_web_label none = ok utf8
from_optional_web_label (some label) = if is_empty label then ok utf8 else from_web_label label

unfoldable pub as_label : Encoder → Text
as_label hex = text "hex"
as_label base64 = text "base64"
as_label base64_url = text "base64url"
as_label windows1252 = text "windows-1252"
as_label latin1 = text "latin1"
as_label ascii = text "ascii"
as_label utf8 = text "utf-8"
as_label utf16le = text "utf-16le"
as_label utf16be = text "utf-16be"

-- The label of an encoder names it again: the Node table knows all but two, and the Web table
-- knows those.
from_str-as_label :
    (e : Encoder) → (from_str (as_label e) ≡ ok e) ⊎ (from_web_label (as_label e) ≡ ok e)
unfolding from_str from_web_label to_ascii_lowercase to_lower trim_start_matches trim_end_matches
    as_label
from_str-as_label windows1252 = inr refl
from_str-as_label utf16be = inr refl
from_str-as_label hex = inl refl
from_str-as_label _ = inl refl
