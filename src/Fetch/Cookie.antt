-- ===== src/Fetch/Cookie.antt =====
-- crates/ferrijs-fetch/src/cookie.rs: parsing, matching and storing cookies. A time is an `f64` in
-- the source; it is a type with the operations that the code uses, in `Seconds`.
mod Examples
pub mod Site
pub mod Matching
pub mod Parse
pub mod Jar
use ferrijs.Prelude.{
  ℕ, Bool, true, false, not, ◌&&◌, List, [], ◌∷◌, ◌++◌, map, Option, none, some, if◌then◌else◌,
  retain, ◌==◌, list_eq, nat_eq,
}
use ferrijs.Text.{Text, text, ends_with, ends_with_char, starts_with}
use ferrijs.Fetch.Cookie.Site.{SameSite}

pub record Cookie (F : Type 0) : Type 0 where
  pub name : Text
  pub value : Text
  pub domain : Text
  pub path : Text
  pub secure : Bool
  pub http_only : Bool
  pub expires : Option F
  pub same_site : Option SameSite
  pub url : Option Text

-- What the code reads of a `reqwest::Url`.
pub record Url : Type 0 where
  pub scheme : Text
  pub host_str : Option Text
  pub path : Text

-- `f64`, `SystemTime` and `httpdate`: `ge_zero` and `lt` compare, `now` is the clock in seconds.
-- `parse_http_date` answers `none` on an error, `some none` for a time before 1970.
pub record Seconds (F : Type 0) : Type 0 where
  pub ge_zero : F → Bool
  pub lt : F → F → Bool
  pub min : F → F → F
  pub add : F → F → F
  pub from_u32 : ℕ → F
  pub max_cookie_expires : F
  pub parse_http_date : Text → Option (Option F)

abbrev pub or_empty : Option Text → Text
or_empty none = []
or_empty (some s) = s

unfoldable pub is_local_hostname : Text → Bool
is_local_hostname hostname =
    if hostname == text "localhost" then true else ends_with hostname (text ".localhost")

unfoldable pub cookie_domain_matches : Text → Text → Bool
cookie_domain_matches hostname domain =
    if hostname == domain
    then true
    else if not (starts_with domain (text "."))
    then false
    else ends_with (text "." ++ hostname) domain

-- The path with a slash at its end.
unfoldable pub with_slash : Text → Text
with_slash path = if not (ends_with_char path b'/') then path ++ text "/" else path

unfoldable pub cookie_path_matches : Text → Text → Bool
unfolding with_slash
cookie_path_matches request_path cookie_path =
    if request_path == cookie_path
    then true
    else starts_with (with_slash request_path) (with_slash cookie_path)

module _ {F : Type 0} (f : Seconds F) (now : F) where
  unfoldable pub expired : Cookie F → Bool
  expired cookie = elim cookie.expires [
    | none ↦ false
    | some expires ↦ f.ge_zero expires && f.lt expires now
  ]

  unfoldable pub cookie_matches_url : Cookie F → Url → Bool
  unfolding is_local_hostname cookie_domain_matches cookie_path_matches expired
  cookie_matches_url cookie url =
      let hostname = or_empty url.host_str in
      if cookie.secure && (not (url.scheme == text "https") && not (is_local_hostname hostname))
      then false
      else if not (cookie_domain_matches hostname cookie.domain)
      then false
      else if not (cookie_path_matches url.path cookie.path)
      then false
      else not (expired cookie)

module _ {F : Type 0} where
  unfoldable pub same_cookie : Cookie F → Cookie F → Bool
  same_cookie a b = a.name == b.name && (a.domain == b.domain && a.path == b.path)

  -- The loop of `CookieJar::add`.
  unfoldable pub add_loop : List (Cookie F) → List (Cookie F) → List (Cookie F)
  unfolding same_cookie
  add_loop [] stored = stored
  add_loop (cookie ∷ cookies) stored =
      add_loop cookies (retain (λ other. not (same_cookie other cookie)) stored ++ cookie ∷ [])

module _ {F : Type 0} (f : Seconds F) (now : F) where
  -- `CookieJar::add`, the cookies that are stored then.
  unfoldable pub add : List (Cookie F) → List (Cookie F) → List (Cookie F)
  unfolding add_loop
  add cookies stored = retain (λ c. not (expired f now c)) (add_loop cookies stored)

  -- `CookieJar::all`: what is stored then, which is also the answer.
  unfoldable pub all : List (Cookie F) → List (Cookie F)
  all stored = retain (λ c. not (expired f now c)) stored

  -- `CookieJar::remove`
  unfoldable pub remove : (Cookie F → Bool) → List (Cookie F) → List (Cookie F)
  remove matches stored = retain (λ c. not (matches c)) stored
