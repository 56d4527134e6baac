-- ===== src/Fetch/Cookie/Examples.antt =====
-- Tests of the cookies, and the theorems at concrete inputs. A time is a number of seconds.
use ferrijs.Prelude.{
  ℕ, ◌+◌, ◌≡◌, refl, true, false, not, [], ◌∷◌, Option, none, some, ltb, if◌then◌else◌, All,
  list_eq, nat_eq,
}
use ferrijs.Text.{
  Text, text, starts_with, ends_with_char, to_ascii_lowercase, split, trim, contains_char,
  split_once, to_lower, ends_with,
}
use ferrijs.Text.Number.{parse_i64}
use ferrijs.Fetch.Cookie.Site.{SameSite}
use ferrijs.Fetch.Cookie.{
  Cookie, Url, Seconds, or_empty, cookie_domain_matches, cookie_path_matches, expired, add, all,
  remove,
}
use ferrijs.Fetch.Cookie.Parse.{parse_raw_set_cookie, parse_set_cookie_headers}
use ferrijs.Fetch.Cookie.Jar.{IsJar, add-IsJar}
use ferrijs.Fetch.Cookie.Parse.Sound.{parse_set_cookie_headers-IsKept}

abbrev clock : Seconds ℕ
clock = record {
  ge_zero = λ s. true;
  lt = ltb;
  min = λ s t. if ltb s t then s else t;
  add = λ s t. s + t;
  from_u32 = λ s. s;
  max_cookie_expires = 253402300799;
  parse_http_date = λ s. none;
}

abbrev cookie : Text → Text → Text → Text → Option ℕ → Cookie ℕ
cookie name value domain path expires = record {
  name = name;
  value = value;
  domain = domain;
  path = path;
  secure = false;
  http_only = false;
  expires = expires;
  same_site = some SameSite.lax;
  url = none;
}

abbrev sid : Option ℕ → Cookie ℕ
sid expires = cookie (text "sid") (text "1") (text ".a.b") (text "/x") expires

abbrev url : Url
url = record { scheme = text "https"; host_str = some (text "c.a.b"); path = text "/x/y" }

abbrev header : Text
header = text "sid=1; Domain=a.b; Path=/x; Max-Age=5"

header_parsed : parse_raw_set_cookie clock 10 header ≡ some (sid (some 15))
unfolding parse_raw_set_cookie split trim to_ascii_lowercase split_once to_lower starts_with
    parse_i64 contains_char
header_parsed = refl

sid_kept : parse_set_cookie_headers clock 10 url (none ∷ some header ∷ []) ≡ sid (some 15) ∷ []
unfolding parse_set_cookie_headers split trim cookie_domain_matches to_ascii_lowercase split_once
    to_lower starts_with contains_char ends_with parse_i64
sid_kept = refl

path_in_segment : cookie_path_matches (text "/xy") (text "/x") ≡ false
unfolding cookie_path_matches starts_with ends_with_char
path_in_segment = refl

add-IsJar_example :
    (IsJar (add clock 10 (sid none ∷ sid (some 15) ∷ []) (sid none ∷ []))
      × All
          (λ c. not (expired clock 10 c) ≡ true)
          (add clock 10 (sid none ∷ sid (some 15) ∷ []) (sid none ∷ [])))
    × (IsJar (all clock 10 (sid none ∷ []))
        × All (λ c. not (expired clock 10 c) ≡ true) (all clock 10 (sid none ∷ [])))
    × IsJar (remove clock 10 (λ c. c.secure) (sid none ∷ []))
unfolding IsJar
add-IsJar_example =
    add-IsJar clock 10 (sid none ∷ sid (some 15) ∷ []) (sid none ∷ []) (λ c. c.secure) (refl, tt)

abbrev other : Cookie ℕ
other = cookie (text "lang") (text "en") (text ".a.b") (text "/x") none

parse_set_cookie_headers-IsKept_example :
    All
      (λ c.
        (cookie_domain_matches (or_empty url.host_str) c.domain ≡ true)
        × (starts_with c.path (text "/") ≡ true))
      (parse_set_cookie_headers clock 10 url (none ∷ some header ∷ []))
parse_set_cookie_headers-IsKept_example =
    parse_set_cookie_headers-IsKept clock 10 url (none ∷ some header ∷ [])
