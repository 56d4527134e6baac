-- ===== src/Fetch/Engine/Kept.antt =====
-- What the parts of a round do to the headers that carry credentials.
use ferrijs.Prelude.{
  ◌≡◌, refl, ◌∙◌, Bool, true, false, List, [], ◌∷◌, Option, none, some, arith, if◌then◌else◌, All,
  list_eq, nat_eq,
}
use ferrijs.Prelude.Result.{Result, ok, err}
use ferrijs.Text.{Text, text, eq_ignore_ascii_case, to_ascii_lowercase, to_lower}
use ferrijs.Fetch.Headers
use ferrijs.Fetch.Headers.{Headers, get_all}
use ferrijs.Fetch.Headers.Store.{get_all-set_ne, get_all-remove}
use ferrijs.Fetch.Cookie.{Cookie}
use ferrijs.Fetch.Engine.Model.{
  Credentials, omit, same_origin, include, FetchError, HttpResponse, Env,
}
use ferrijs.Fetch.Engine.Hop.{
  World, Cookies, bridged, jar, read_cookies, with_cookies, cookie_value, hop_headers,
  store_set_cookies, remove_all, body_headers, rewrite_headers,
}

abbrev pub authorization : Text
authorization = text "authorization"

abbrev pub cookie_name : Text
cookie_name = text "cookie"

names_differ : eq_ignore_ascii_case authorization cookie_name ≡ false
unfolding eq_ignore_ascii_case to_ascii_lowercase to_lower
names_differ = refl

cookie_same : eq_ignore_ascii_case cookie_name cookie_name ≡ true
unfolding eq_ignore_ascii_case to_ascii_lowercase to_lower
cookie_same = refl

kept-remove :
    (h : Headers) → get_all authorization (Headers.remove cookie_name h) ≡ get_all authorization h
kept-remove h = rw (get_all-remove cookie_name authorization h, names_differ)

gone-remove : (h : Headers) → get_all cookie_name (Headers.remove cookie_name h) ≡ []
gone-remove h = rw (get_all-remove cookie_name cookie_name h, cookie_same)

module _ {U F : Type 0} where
  -- The headers of a hop: the authorization of the request, and no cookie if credentials are
  -- omitted; nothing has been sent.
  abbrev pub OfHop :
      Credentials → World U F → Headers → World U F × Result FetchError Headers → Type 0
  OfHop credentials w headers (w', err e) = w'.log ≡ w.log
  OfHop credentials w headers (w', ok hop) =
      (w'.log ≡ w.log)
      × (get_all authorization hop ≡ get_all authorization headers)
      × (credentials ≡ omit → get_all cookie_name hop ≡ [])

module _ {U F : Type 0} (env : Env U F) where
  read_cookies-log : (c : Cookies U F) (w : World U F) → (read_cookies env c w).0.log ≡ w.log
  unfolding read_cookies
  read_cookies-log (bridged b) w = ground arith
  read_cookies-log jar w = refl

  with_cookies-OfHop :
      (credentials : Credentials) (w : World U F) (url : U) (headers : Headers)
      (r : World U F × Result FetchError (List (Cookie F)))
      → (credentials ≡ omit → ⊥)
      → r.0.log ≡ w.log
      → OfHop credentials w headers (with_cookies env url (Headers.remove cookie_name headers) r)
  unfolding with_cookies
  with_cookies-OfHop credentials w url headers (w', err e) n h = h
  with_cookies-OfHop credentials w url headers (w', ok cookies) n h = (
    h,
    ground (
      arith,
      get_all-set_ne cookie_name authorization (cookie_value env (env.now w'.log) url cookies)
          (Headers.remove cookie_name headers) names_differ,
      kept-remove headers,
    ),
    λ e. absurd (n e),
  )

  pub hop_headers-OfHop :
      (cookies : Option (Cookies U F)) (credentials : Credentials) (headers : Headers) (url : U)
      (keep : Bool) (w : World U F)
      → OfHop credentials w headers (hop_headers env cookies credentials headers url keep w)
  unfolding hop_headers
  hop_headers-OfHop cookies omit headers url keep w =
      (refl, kept-remove headers, λ e. gone-remove headers)
  hop_headers-OfHop none same_origin headers url keep w = (refl, refl, λ e. cc)
  hop_headers-OfHop none include headers url keep w = (refl, refl, λ e. cc)
  hop_headers-OfHop (some c) same_origin headers url true w = (refl, refl, λ e. cc)
  hop_headers-OfHop (some c) same_origin headers url false w =
      with_cookies-OfHop same_origin w url headers (read_cookies env c w) (λ e. cc)
        (read_cookies-log c w)
  hop_headers-OfHop (some c) include headers url true w = (refl, refl, λ e. cc)
  hop_headers-OfHop (some c) include headers url false w =
      with_cookies-OfHop include w url headers (read_cookies env c w) (λ e. cc)
        (read_cookies-log c w)

  pub store_set_cookies-log :
      (cookies : Option (Cookies U F)) (credentials : Credentials) (url : U) (r : HttpResponse)
      (w : World U F)
      → (store_set_cookies env cookies credentials url r w).log ≡ w.log
  unfolding store_set_cookies
  store_set_cookies-log none credentials url r w = refl
  store_set_cookies-log (some (bridged b)) credentials url r w = refl
  store_set_cookies-log (some jar) omit url r w = refl
  store_set_cookies-log (some jar) _ url r w = refl

kept-remove_all :
    (names : List Text) (h : Headers)
    → All (λ n. eq_ignore_ascii_case authorization n ≡ false) names
    → get_all authorization (remove_all names h) ≡ get_all authorization h
unfolding remove_all
kept-remove_all [] h d = refl
kept-remove_all (n ∷ names) h d =
    kept-remove_all names (Headers.remove n h) d.1 ∙ (rw (get_all-remove n authorization h, d.0))

described_kept :
    (h : Headers) → get_all authorization (remove_all body_headers h) ≡ get_all authorization h
unfolding eq_ignore_ascii_case to_ascii_lowercase to_lower
described_kept h = kept-remove_all body_headers h (refl, (refl, (refl, (refl, (refl, tt)))))

pub authorization_same : eq_ignore_ascii_case authorization authorization ≡ true
unfolding eq_ignore_ascii_case to_ascii_lowercase to_lower
authorization_same = refl

-- A redirect keeps the authorization within the origin and drops it across origins.
pub get_all-rewrite_headers :
    (to_get same : Bool) (h : Headers)
    → get_all authorization (rewrite_headers to_get same h)
      ≡ (if same then get_all authorization h else [])
unfolding rewrite_headers
get_all-rewrite_headers false true h = kept-remove h
get_all-rewrite_headers true true h = kept-remove (remove_all body_headers h) ∙ described_kept h
get_all-rewrite_headers to_get false h = rw (
  get_all-remove authorization authorization
      (Headers.remove cookie_name (if to_get then remove_all body_headers h else h)),
  authorization_same,
)
