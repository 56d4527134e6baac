-- ===== src/Fetch/Cookie/Parse.antt =====
-- `parse_raw_set_cookie` and `parse_set_cookie_headers`. The clock is read once in a call.
pub mod Sound
use ferrijs.Prelude.{
  ℕ, zero, suc, Bool, true, false, not, ◌&&◌, List, [], ◌∷◌, ◌++◌, map, Option, none, some,
  if◌then◌else◌, retain, init, leb, is_empty, ◌^◌, ◌-◌, ◌==◌, list_eq, nat_eq,
}
use ferrijs.Text.{
  Text, text, starts_with, contains_char, split, split_once, join, trim, to_ascii_lowercase,
  strip_prefix,
}
use ferrijs.Text.Number.{ℤ, pos, negsuc, parse_i64}
use ferrijs.Fetch.Cookie.Site.{SameSite}
use ferrijs.Fetch.Cookie.{Cookie, Url, Seconds, or_empty, cookie_domain_matches}

-- One `name=value` piece.
unfoldable pub pair : Text → Text × Text
pair p = elim (split_once p b'=') [ none ↦ (trim p, []) | some (k, v) ↦ (trim k, trim v) ]

-- `header.split(';')`, without the blank pieces.
unfoldable pub pairs : Text → List (Text × Text)
unfolding pair
pairs header = map pair (retain (λ s. not (is_empty (trim s))) (split header b';'))

-- The value of a `Domain` attribute.
unfoldable pub domain_attr : Text → Text
domain_attr attr_value =
    let domain = to_ascii_lowercase attr_value in
    if not (is_empty domain) && (not (starts_with domain (text ".")) && contains_char domain b'.')
    then b'.' ∷ domain
    else domain

-- The value of a `SameSite` attribute.
unfoldable pub same_site_attr : Text → Option SameSite → Option SameSite
same_site_attr attr_value old =
    let v = to_ascii_lowercase attr_value in
    if v == text "none"
    then some SameSite.none
    else if v == text "strict"
    then some SameSite.strict
    else if v == text "lax"
    then some SameSite.lax
    else old

-- `u32::try_from(delta).unwrap_or(u32::MAX)` of a positive `delta`.
unfoldable pub saturate_u32 : ℕ → ℕ
saturate_u32 delta = if leb delta (2 ^ 32 - 1) then delta else 2 ^ 32 - 1

-- The directory of the path of the URL.
unfoldable pub default_path : Text → Text
default_path path =
    let trimmed : Text = elim (strip_prefix path (text "/")) [ none ↦ path | some rest ↦ rest ] in
    b'/' ∷ join (init (split trimmed b'/')) (text "/")

module _ {F : Type 0} where
  -- The cookie before its attributes.
  unfoldable pub bare_cookie : Text → Text → Cookie F
  bare_cookie name value = record {
    name = name;
    value = value;
    domain = [];
    path = [];
    secure = false;
    http_only = false;
    expires = none;
    same_site = some SameSite.lax;
    url = none;
  }

  -- The cookie that is kept for the host, with the defaults.
  unfoldable pub accept : Text → Text → Cookie F → Option (Cookie F)
  accept hostname default cookie =
      let domain = if is_empty cookie.domain then hostname else cookie.domain in
      if not (cookie_domain_matches hostname domain)
      then none
      else if is_empty cookie.path
      then some (record cookie { domain = domain; path = default })
      else if not (starts_with cookie.path (text "/"))
      then some (record cookie { domain = domain; path = default })
      else some (record cookie { domain = domain })

module _ {F : Type 0} (f : Seconds F) (now : F) where
  unfoldable pub expires_attr : Text → Option F → Option F
  expires_attr attr_value old = elim (f.parse_http_date attr_value) [
    | none ↦ old
    | some none ↦ some (f.min (f.from_u32 0) f.max_cookie_expires)
    | some (some secs) ↦ some (f.min secs f.max_cookie_expires)
  ]

  unfoldable pub max_age_attr : Text → Option F → Option F
  unfolding saturate_u32
  max_age_attr attr_value old = elim (parse_i64 attr_value) [
    | none ↦ old
    | some (negsuc _) ↦ some (f.from_u32 0)
    | some (pos zero) ↦ some (f.from_u32 0)
    | some (pos (suc d)) ↦
        some (f.min (f.add now (f.from_u32 (saturate_u32 (suc d)))) f.max_cookie_expires)
  ]

  -- One round of the loop over the attributes.
  unfoldable pub attribute : Text → Text → Cookie F → Cookie F
  unfolding expires_attr max_age_attr domain_attr same_site_attr
  attribute attr attr_value cookie =
      let lower = to_ascii_lowercase attr in
      if lower == text "expires"
      then record cookie { expires = expires_attr attr_value cookie.expires }
      else if lower == text "max-age"
      then record cookie { expires = max_age_attr attr_value cookie.expires }
      else if lower == text "domain"
      then record cookie { domain = domain_attr attr_value }
      else if lower == text "path"
      then record cookie { path = attr_value }
      else if lower == text "secure"
      then record cookie { secure = true }
      else if lower == text "httponly"
      then record cookie { http_only = true }
      else if lower == text "samesite"
      then record cookie { same_site = same_site_attr attr_value cookie.same_site }
      else cookie

  unfoldable pub attributes : List (Text × Text) → Cookie F → Cookie F
  unfolding attribute
  attributes [] cookie = cookie
  attributes ((attr, attr_value) ∷ rest) cookie = attributes rest (attribute attr attr_value cookie)

  unfoldable pub parse_raw_set_cookie : Text → Option (Cookie F)
  unfolding pairs attributes bare_cookie
  parse_raw_set_cookie header = elim (pairs header) [
    | [] ↦ none
    | (name, value) ∷ attrs ↦ some (attributes attrs (bare_cookie name value))
  ]

  -- The loop over the headers; `none` is a value that is no text.
  unfoldable pub headers_loop : Text → Text → List (Option Text) → List (Cookie F)
  unfolding parse_raw_set_cookie accept
  headers_loop hostname default [] = []
  headers_loop hostname default (none ∷ values) = headers_loop hostname default values
  headers_loop hostname default (some raw ∷ values) =
      let rest = headers_loop hostname default values in
      elim (parse_raw_set_cookie raw) [
        | none ↦ rest
        | some cookie ↦ elim (accept hostname default cookie) [
          | none ↦ rest
          | some kept ↦ kept ∷ rest
        ]
      ]

  unfoldable pub parse_set_cookie_headers : Url → List (Option Text) → List (Cookie F)
  unfolding headers_loop default_path
  parse_set_cookie_headers url values =
      headers_loop (or_empty url.host_str) (default_path url.path) values
