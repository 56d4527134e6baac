-- ===== src/Fetch/Engine/Send.antt =====
-- `send`: the loop over the hops, and the response it ends with.
use ferrijs.Prelude.{
  ℕ, zero, suc, ◌+◌, ◌-◌, ◌*◌, Bool, true, false, not, ◌&&◌, List, [], ◌++◌, map, Option, none,
  some, if◌then◌else◌, ltb, ◌==◌, list_eq, nat_eq,
}
use ferrijs.Prelude.Result.{Result, ok, err}
use ferrijs.Text.{Text, text}
use ferrijs.Fetch.Guard.{NetGuard, is_active, check_url, preflight}
use ferrijs.Fetch.Headers
use ferrijs.Fetch.Headers.{Headers, Entry, contains_name}
use ferrijs.Fetch.Engine.Model.{
  is_manual, is_error, FetchError, from_guard_error, RequestPayload, Sent, HttpResponse, Env,
  Request, Response, ResponseType,
}
use ferrijs.Fetch.Engine.Hop.{
  World, Cookies, is_redirect, is_redirection, follow_budget, hop_headers, send_hop,
  store_set_cookies, challenge_answer, redirect_target, rewrites_to_get, rewrite_headers,
}

-- The variables of the loop.
pub record Loop (U F : Type 0) : Type 0 where
  pub method : Text
  pub body : Option (List ℕ)
  pub pending_stream : Bool
  pub headers : Headers
  pub request_url : U
  pub remaining : Option ℕ
  pub first_hop : Bool
  pub hops_followed : ℕ
  pub world : World U F

-- What a round ends with; `none` is `continue`.
abbrev pub Ended : Type 0
Ended = Option (Result FetchError HttpResponse)

-- `request_payload`
unfoldable pub request_payload : RequestPayload → Result FetchError (Option (List ℕ) × Bool)
request_payload RequestPayload.empty = ok (none, false)
request_payload (RequestPayload.bytes b) = ok (some b, false)
request_payload RequestPayload.stream = ok (none, true)
request_payload RequestPayload.invalid =
    err (FetchError.body (text "a response body cannot be sent as a request body"))

abbrev pub is_stream : RequestPayload → Bool
is_stream RequestPayload.stream = true
is_stream _ = false

-- The payload of the next hop.
abbrev pub payload : Option (List ℕ) → Bool → RequestPayload
payload body true = RequestPayload.stream
payload none false = RequestPayload.empty
payload (some b) false = RequestPayload.bytes b

-- The guard that is in force.
unfoldable pub active_guard : Option NetGuard → Option NetGuard
active_guard none = none
active_guard (some g) = if is_active g then some g else none

module _ {U F : Type 0} (env : Env U F) (cookies : Option (Cookies U F)) (req : Request U) where
  -- `{method_str} {resolved_url}` with what follows.
  abbrev pub message : Text → Text
  message what = req.method ++ (text " " ++ (env.lib.to_text req.url ++ what))

  unfoldable pub check_guard : Option NetGuard → U → Result FetchError (Unit {0})
  check_guard none url = ok tt
  check_guard (some g) url = elim (check_url env.ip (env.lib.guard_url url) g) [
    | ok u ↦ ok tt
    | err e ↦ err (from_guard_error e)
  ]

  -- The state after a redirect to `next_url` is followed.
  unfoldable pub redirected : ℕ → ℕ → U → Loop U F → Loop U F
  redirected status budget next_url s =
      let to_get = rewrites_to_get status s.method in
      record s {
        method = if to_get then text "GET" else s.method;
        body = if to_get then none else s.body;
        headers = rewrite_headers to_get (env.lib.same_origin next_url s.request_url) s.headers;
        request_url = next_url;
        remaining = some (budget - 1);
        first_hop = false;
        hops_followed = s.hops_followed + 1;
      }

  -- A redirect status with a budget for it, by where it points.
  unfoldable pub on_target :
      ℕ → HttpResponse → Loop U F → Result FetchError (Option U) → Loop U F × Ended
  on_target budget response s (err e) = (s, some (err e))
  on_target budget response s (ok none) = (s, some (ok response))
  on_target budget response s (ok (some next_url)) =
      if is_stream req.body && not (response.status == 303)
      then (
        s,
        some (
            err (
              FetchError.redirect_refused
                (message (text ": cannot follow a redirect for a request with a streaming body")))),
      )
      else (redirected response.status budget next_url s, none)

  unfoldable pub on_redirect : ℕ → HttpResponse → Loop U F → Loop U F × Ended
  unfolding on_target
  on_redirect zero response s = (
    s,
    some (
        err (
          FetchError.too_many_redirects
            (elim (follow_budget req.redirect req.max_redirects) [ none ↦ 0 | some n ↦ n ]))),
  )
  on_redirect (suc budget) response s =
      on_target (suc budget) response s (redirect_target env s.request_url response)

  -- A response that is no redirect to follow: a challenge is answered, all else is the end.
  unfoldable pub on_answer : HttpResponse → Loop U F → Option Text → Loop U F × Ended
  on_answer response s none = (s, some (ok response))
  on_answer response s (some authorization) =
      (record s { headers = Headers.set (text "authorization") authorization s.headers }, none)

  unfoldable pub on_response : Headers → HttpResponse → Loop U F → Loop U F × Ended
  unfolding on_answer
  on_response hop response s = on_answer response s (
      if is_stream req.body
      then none
      else challenge_answer env req.challenge s.request_url hop response)

  unfoldable pub on_status : Option ℕ → Headers → HttpResponse → Loop U F → Loop U F × Ended
  unfolding on_redirect on_response
  on_status none hop response s = on_response hop response s
  on_status (some budget) hop response s =
      if is_redirect response.status
      then on_redirect budget response s
      else on_response hop response s

  -- The round from the response of `send_hop`.
  unfoldable pub received :
      Headers → Loop U F → List (Sent U) × Result FetchError HttpResponse → Loop U F × Ended
  unfolding on_status
  received hop s (log, err e) = (record s { world = record (s.world) { log = log } }, some (err e))
  received hop s (log, ok response) =
      let w =
        store_set_cookies env cookies req.credentials s.request_url response
          (record (s.world) { log = log }) in
      on_status s.remaining hop response (record s { world = w })

  -- The round from the headers of the hop; the stream is taken.
  unfoldable pub hop_sent : Loop U F → World U F × Result FetchError Headers → Loop U F × Ended
  unfolding received
  hop_sent s (w, err e) = (record s { world = w }, some (err e))
  hop_sent s (w, ok hop) =
      let sent : Sent U = record {
        url = s.request_url;
        method = s.method;
        headers = hop;
        payload = payload s.body s.pending_stream;
      } in
      received hop (record s { world = w; pending_stream = false })
        (send_hop env (message (text " timed out")) sent s.pending_stream req.max_retries w.log)

  -- The round from what the guard says of its URL.
  unfoldable pub checked : Loop U F → Result FetchError (Unit {0}) → Loop U F × Ended
  unfolding hop_sent
  checked s (err e) = (s, some (err e))
  checked s (ok u) = hop_sent s (
      hop_headers env cookies req.credentials s.headers s.request_url
        (s.first_hop && contains_name (text "cookie") req.headers) s.world)

  -- One round of the loop.
  unfoldable pub round : Loop U F → Loop U F × Ended
  unfolding checked check_guard active_guard
  round s = checked s (check_guard (active_guard req.net_guard) s.request_url)

  -- The rounds, with fuel; `none` means that it ran out.
  unfoldable pub rounds : ℕ → Loop U F → Option (Loop U F × Result FetchError HttpResponse)
  rounds zero s = none
  rounds (suc fuel) s =
      let (s', ended) = round s in
      let rest = rounds fuel s' in elim ended [ some r ↦ some (s', r) | none ↦ rest ]

  -- `into_response`
  unfoldable pub into_response : HttpResponse → Loop U F → Response
  into_response response s =
      let unfollowed = is_manual req.redirect && is_redirection response.status in
      record {
        status = response.status;
        status_text = elim response.reason [ none ↦ text "Unknown" | some reason ↦ reason ];
        url = env.lib.to_text s.request_url;
        headers = record {
          entries =
              map
                (λ (e : Text × Option Text).
                  (e.0, elim e.1 as (λ _. Text) [ none ↦ [] | some v ↦ v ]))
                response.headers;
        };
        redirected = ltb 0 s.hops_followed;
        unfollowed_redirect = unfollowed;
        server_addr = response.remote_addr;
        type_of = if unfollowed then ResponseType.opaque_redirect else ResponseType.basic;
        peer_certificate = response.peer_certificate;
      }

  -- The end of `send`.
  unfoldable pub finished :
      Loop U F × Result FetchError HttpResponse → World U F × Result FetchError Response
  unfolding into_response
  finished (s, err e) = (s.world, err e)
  finished (s, ok response) =
      if is_error req.redirect && is_redirection response.status
      then (
        s.world,
        err (
            FetchError.redirect_refused
              (message (text ": unexpected redirect (redirect: \"error\")"))),
      )
      else (s.world, ok (into_response response s))

  -- The loop's variables at its start.
  unfoldable pub start : Option (List ℕ) → Bool → World U F → Loop U F
  start body streamed w = record {
    method = req.method;
    body = body;
    pending_stream = streamed;
    headers = req.headers;
    request_url = req.url;
    remaining = follow_budget req.redirect req.max_redirects;
    first_hop = true;
    hops_followed = 0;
    world = w;
  }

  -- Enough rounds: two for each redirect and two for the last URL.
  unfoldable pub enough : ℕ
  enough = elim (follow_budget req.redirect req.max_redirects) [ none ↦ 2 | some n ↦ 2 * n + 2 ]

  unfoldable pub preflighted : Option NetGuard → Result FetchError (Unit {0})
  preflighted none = ok tt
  preflighted (some g) = elim (preflight env.ip env.lib.parse (env.lib.to_text req.url) g) [
    | ok u ↦ ok tt
    | err e ↦ err (from_guard_error e)
  ]

  -- `send`, on the payload, the preflight's answer and the client.
  unfoldable pub send_with :
      {C : Type 0}
      → Result FetchError (Option (List ℕ) × Bool)
      → Result FetchError (Unit {0})
      → Result FetchError C
      → World U F
      → Option (World U F × Result FetchError Response)
  unfolding start enough rounds finished
  send_with (err e) preflight client w = some (w, err e)
  send_with (ok (body, streamed)) (err e) client w = some (w, err e)
  send_with (ok (body, streamed)) (ok u) (err e) w = some (w, err e)
  send_with (ok (body, streamed)) (ok u) (ok c) w = elim (rounds enough (start body streamed w)) [
    | none ↦ none
    | some ended ↦ some (finished ended)
  ]

  -- `send`, on what `ClientPool::client` answered.
  unfoldable pub send :
      {C : Type 0}
      → Result FetchError C
      → World U F
      → Option (World U F × Result FetchError Response)
  unfolding request_payload preflighted active_guard send_with
  send client w =
      send_with (request_payload req.body) (preflighted (active_guard req.net_guard)) client w
