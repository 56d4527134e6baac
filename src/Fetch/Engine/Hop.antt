-- ===== src/Fetch/Engine/Hop.antt =====
-- One hop: its headers, its attempts, and what is kept of its response.
use ferrijs.Prelude.{
  ℕ, zero, suc, ◌-◌, ◌*◌, ◌^◌, Bool, true, false, not, ◌&&◌, ◌||◌, List, [], ◌∷◌, ◌++◌, map, Option,
  none, some, if◌then◌else◌, is_empty, retain, find, any, leb, ◌==◌, list_eq, nat_eq,
}
use ferrijs.Prelude.Result.{Result, ok, err}
use ferrijs.Text.{
  Text, text, join, starts_with, to_ascii_lowercase, trim_start_matches, is_whitespace,
}
use ferrijs.Fetch.Headers
use ferrijs.Fetch.Headers.{Headers, contains_name}
use ferrijs.Fetch.Cookie
use ferrijs.Fetch.Cookie.{Cookie, cookie_matches_url}
use ferrijs.Fetch.Cookie.Parse.{parse_set_cookie_headers}
use ferrijs.Fetch.Engine.Model.{
  RedirectMode, Credentials, omit, FetchError, Sent, HttpResponse, ErrorSource, answered, failed,
  ContextBridge, Env,
}

-- `str::contains`
unfoldable pub contains_text : Text → Text → Bool
unfolding starts_with
contains_text [] t = starts_with [] t
contains_text (c ∷ s) t = starts_with (c ∷ s) t || contains_text s t

unfoldable pub is_reset_message : Text → Bool
unfolding contains_text
is_reset_message message =
    let m = to_ascii_lowercase message in
    contains_text m (text "connection reset") || contains_text m (text "econnreset")

unfoldable pub is_connection_reset : List ErrorSource → Bool
unfolding is_reset_message
is_connection_reset sources = any (λ e. e.connection_reset || is_reset_message e.message) sources

-- The milliseconds before attempt `n`, in 64 bits.
unfoldable pub retry_backoff : ℕ → ℕ
retry_backoff attempt =
    let power = 2 ^ (attempt - 1) in
    let power' = if leb power (2 ^ 64 - 1) then power else 2 ^ 64 - 1 in
    if leb (250 * power') (2 ^ 64 - 1) then 250 * power' else 2 ^ 64 - 1

unfoldable pub follow_budget : RedirectMode → Option ℕ → Option ℕ
follow_budget RedirectMode.manual max_redirects = none
follow_budget RedirectMode.error max_redirects = none
follow_budget RedirectMode.follow none = some 20
follow_budget RedirectMode.follow (some zero) = none
follow_budget RedirectMode.follow (some (suc n)) = some (suc n)

-- Where a request's cookies live.
pub data Cookies (U F : Type 0) : Type 0 where
  bridged : ContextBridge U F → Cookies U F
  jar : Cookies U F

-- `Cookies::of`: whether the pool has a jar.
unfoldable pub cookies_of :
    {U F : Type 0} → Option (ContextBridge U F) → Bool → Option (Cookies U F)
cookies_of (some b) has_jar = some (bridged b)
cookies_of none true = some jar
cookies_of none false = none

-- What the engine changes outside of one request: the jar of the pool, what it handed to the
-- bridge, and what it sent.
pub record World (U F : Type 0) : Type 0 where
  pub jar_cookies : List (Cookie F)
  pub written : List (List (Cookie F))
  pub log : List (Sent U)

-- `status == 401`, and the other tests on a status.
abbrev pub is_redirect : ℕ → Bool
is_redirect status =
    status == 301 || (status == 302 || (status == 303 || (status == 307 || status == 308)))

-- `StatusCode::is_redirection`
abbrev pub is_redirection : ℕ → Bool
is_redirection status = leb 300 status && leb status 399

-- The value of the first header of the name, if it is text.
unfoldable pub header : Text → HttpResponse → Option Text
header name r = elim (find (λ (e : Text × Option Text). e.0 == name) r.headers) [
  | none ↦ none
  | some (n, v) ↦ v
]

-- `get_all(SET_COOKIE)`
unfoldable pub set_cookie_values : HttpResponse → List (Option Text)
set_cookie_values r =
    map (λ (e : Text × Option Text). e.1)
      (retain (λ (e : Text × Option Text). e.0 == text "set-cookie") r.headers)

module _ {U F : Type 0} (env : Env U F) where
  -- `Cookies::read`. Reading the jar drops what has expired from it.
  unfoldable pub read_cookies :
      Cookies U F → World U F → World U F × Result FetchError (List (Cookie F))
  read_cookies (bridged b) w = elim (b.cookies w.log) [
    | ok cookies ↦ (w, ok cookies)
    | err e ↦ (w, err (FetchError.network e))
  ]
  read_cookies jar w =
      let stored = Cookie.all env.seconds (env.now w.log) w.jar_cookies in
      (record w { jar_cookies = stored }, ok stored)

  -- The value of the `Cookie` header.
  unfoldable pub cookie_value : F → U → List (Cookie F) → Text
  cookie_value now request_url cookies =
      join
        (map (λ c. c.name ++ (text "=" ++ c.value))
          (retain (λ c. cookie_matches_url env.seconds now c (env.lib.cookie_url request_url))
            cookies))
        (text "; ")

  -- The headers of the hop, from the cookies that were read.
  unfoldable pub with_cookies :
      U
      → Headers
      → World U F × Result FetchError (List (Cookie F))
      → World U F × Result FetchError Headers
  unfolding cookie_value
  with_cookies request_url hop (w, err e) = (w, err e)
  with_cookies request_url hop (w, ok cookies) =
      let value = cookie_value (env.now w.log) request_url cookies in
      (w, ok (if not (is_empty value) then Headers.set (text "cookie") value hop else hop))

  unfoldable pub hop_headers :
      Option (Cookies U F)
      → Credentials
      → Headers
      → U
      → Bool
      → World U F
      → World U F × Result FetchError Headers
  unfolding read_cookies with_cookies
  hop_headers cookies omit headers request_url keep_explicit_cookie w =
      (w, ok (Headers.remove (text "cookie") headers))
  hop_headers none _ headers request_url keep_explicit_cookie w = (w, ok headers)
  hop_headers (some cookies) _ headers request_url keep_explicit_cookie w =
      if keep_explicit_cookie
      then (w, ok headers)
      else with_cookies request_url (Headers.remove (text "cookie") headers)
          (read_cookies cookies w)

  unfoldable pub attempt_error : Sent U → Text → FetchError
  attempt_error sent e =
      FetchError.network
        (text "request to " ++ (env.lib.to_text sent.url ++ (text " failed: " ++ e)))

  -- The attempts of `send_hop`, with `left` retries to go: the deadline, the attempt, and a retry
  -- only after a reset of a request whose body can be sent again.
  unfoldable pub send_hop :
      Text → Sent U → Bool → ℕ → List (Sent U) → List (Sent U) × Result FetchError HttpResponse
  unfolding is_connection_reset attempt_error
  send_hop timeout_message sent streamed zero log =
      if env.late log
      then (log, err (FetchError.timeout timeout_message))
      else elim (env.transport log sent) [
        | answered response ↦ (log ++ sent ∷ [], ok response)
        | failed sources e ↦ (log ++ sent ∷ [], err (attempt_error sent e))
      ]
  send_hop timeout_message sent streamed (suc left) log =
      let rest = send_hop timeout_message sent streamed left (log ++ sent ∷ []) in
      if env.late log
      then (log, err (FetchError.timeout timeout_message))
      else elim (env.transport log sent) [
        | answered response ↦ (log ++ sent ∷ [], ok response)
        | failed sources e ↦
            if not streamed && is_connection_reset sources
            then rest
            else (log ++ sent ∷ [], err (attempt_error sent e))
      ]

  -- The retries of `persist_set_cookies`, one cookie at a time.
  unfoldable pub write_each :
      ContextBridge U F → List (Cookie F) → List (List (Cookie F)) → List (List (Cookie F))
  write_each b [] written = written
  write_each b (cookie ∷ cookies) written = write_each b cookies (written ++ (cookie ∷ []) ∷ [])

  unfoldable pub persist_set_cookies :
      ContextBridge U F → List (Cookie F) → List (List (Cookie F)) → List (List (Cookie F))
  unfolding write_each
  persist_set_cookies b [] written = written
  persist_set_cookies b (cookie ∷ cookies) written =
      if b.add_cookies written (cookie ∷ cookies)
      then written ++ (cookie ∷ cookies) ∷ []
      else write_each b (cookie ∷ cookies) (written ++ (cookie ∷ cookies) ∷ [])

  unfoldable pub store_set_cookies :
      Option (Cookies U F) → Credentials → U → HttpResponse → World U F → World U F
  unfolding persist_set_cookies set_cookie_values
  store_set_cookies (some (bridged b)) credentials request_url response w =
      let cookies =
        parse_set_cookie_headers env.seconds (env.now w.log) (env.lib.cookie_url request_url)
          (set_cookie_values response) in
      record w { written = persist_set_cookies b cookies w.written }
  store_set_cookies (some jar) omit request_url response w = w
  store_set_cookies (some jar) _ request_url response w =
      let now = env.now w.log in
      let cookies =
        parse_set_cookie_headers env.seconds now (env.lib.cookie_url request_url)
          (set_cookie_values response) in
      record w { jar_cookies = Cookie.add env.seconds now cookies w.jar_cookies }
  store_set_cookies none credentials request_url response w = w

  unfoldable pub challenge_answer :
      Option (U → Option Text) → U → Headers → HttpResponse → Option Text
  unfolding header
  challenge_answer challenge request_url sent response =
      if not (response.status == 401) || contains_name (text "authorization") sent
      then none
      else elim (header (text "www-authenticate") response) [
        | none ↦ none
        | some scheme ↦
            if not (starts_with (trim_start_matches is_whitespace scheme) (text "Basic"))
            then none
            else elim challenge [ none ↦ none | some answer ↦ answer request_url ]
      ]

  unfoldable pub redirect_target : U → HttpResponse → Result FetchError (Option U)
  unfolding header
  redirect_target request_url response = elim (header (text "location") response) [
    | none ↦ ok none
    | some location ↦ elim (env.lib.join request_url location) [
      | some url ↦ ok (some url)
      | none ↦ err (
          FetchError.invalid_url
            (text "uri requested responds with an invalid redirect URL: " ++ location))
    ]
  ]

-- Whether a redirect turns the request into a GET without a body.
unfoldable pub rewrites_to_get : ℕ → Text → Bool
rewrites_to_get status method =
    (status == 301 || status == 302) && method == text "POST"
    || status == 303 && (not (method == text "GET") && not (method == text "HEAD"))

-- The headers that describe a body.
abbrev pub body_headers : List Text
body_headers =
    text "content-encoding"
    ∷ text "content-language"
    ∷ text "content-length"
    ∷ text "content-location"
    ∷ text "content-type"
    ∷ []

unfoldable pub remove_all : List Text → Headers → Headers
remove_all [] headers = headers
remove_all (name ∷ names) headers = remove_all names (Headers.remove name headers)

-- The headers after `rewrite_for_redirect`.
unfoldable pub rewrite_headers : Bool → Bool → Headers → Headers
unfolding remove_all
rewrite_headers to_get same headers =
    let described = if to_get then remove_all body_headers headers else headers in
    let anonymous = Headers.remove (text "cookie") described in
    if not same then Headers.remove (text "authorization") anonymous else anonymous
