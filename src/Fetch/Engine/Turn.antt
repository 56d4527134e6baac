-- ===== src/Fetch/Engine/Turn.antt =====
-- The rounds of the loop, by what they come to.
use ferrijs.Prelude.{
  ℕ, zero, suc, ◌≡◌, refl, sym, subst, Bool, true, false, not, ◌&&◌, List, [], Option, none, some,
  arith, if◌then◌else◌, ◌==◌, nat_eq, list_eq,
}
use ferrijs.Prelude.Result.{Result, ok, err}
use ferrijs.Text.{Text, text}
use ferrijs.Fetch.Headers
use ferrijs.Fetch.Headers.{Headers, get_all, contains_name}
use ferrijs.Fetch.Engine.Model.{omit, FetchError, Sent, HttpResponse, Env, Request}
use ferrijs.Fetch.Engine.Hop.{
  World, Cookies, is_redirect, send_hop, store_set_cookies, challenge_answer, redirect_target,
}
use ferrijs.Fetch.Engine.Send.{
  Loop, Ended, payload, is_stream, active_guard, check_guard, redirected, on_redirect, on_response,
  on_status, received, hop_sent, round, message, on_target, on_answer, checked,
}
use ferrijs.Fetch.Engine.Kept.{
  authorization, cookie_name, OfHop, hop_headers-OfHop, store_set_cookies-log,
}
use ferrijs.Fetch.Engine.Attempts.{OfSend, send_hop-OfSend}

module _ {U F : Type 0} (env : Env U F) (cookies : Option (Cookies U F)) (req : Request U) where
  -- The request that a hop with these headers puts on the wire.
  abbrev pub request_of : Loop U F → Headers → Sent U
  request_of s hop = record {
    url = s.request_url;
    method = s.method;
    headers = hop;
    payload = payload s.body s.pending_stream;
  }

  -- What a round sends.
  pub record Sends (s : Loop U F) (log' : List (Sent U)) (hop : Headers) : Type 0 where
    pub checked : check_guard env cookies req (active_guard req.net_guard) s.request_url ≡ ok tt
    pub authorized : get_all authorization hop ≡ get_all authorization s.headers
    pub omitted : req.credentials ≡ omit → get_all cookie_name hop ≡ []
    pub sends : OfSend (request_of s hop) s.pending_stream req.max_retries s.world.log log'

  -- A round stops before it sends, ends with a result, follows a redirect or answers a challenge.
  pub data Turn (s s' : Loop U F) (e : Ended) : Type 0 where
    stopped : (x : FetchError) → e ≡ some (err x) → s'.world.log ≡ s.world.log → Turn s s' e
    ended :
        (hop : Headers)
        → Sends s s'.world.log hop
        → (r : Result FetchError HttpResponse)
        → s' ≡ record s { world = s'.world; pending_stream = false }
        → e ≡ some r
        → Turn s s' e
    moved :
        (hop : Headers)
        → Sends s s'.world.log hop
        → (status budget : ℕ) (next_url : U) → s.remaining ≡ some (suc budget)
        → (is_stream req.body && not (status == 303)) ≡ false
        → s'
          ≡ redirected env cookies req status
              (suc budget)
              next_url
              (record s { world = s'.world; pending_stream = false })
        → e ≡ none
        → Turn s s' e
    challenged :
        (hop : Headers)
        → Sends s s'.world.log hop
        → (answer : U → Option Text) (value : Text) → req.challenge ≡ some answer
        → answer s.request_url ≡ some value
        → contains_name authorization hop ≡ false
        → is_stream req.body ≡ false
        → s' ≡ record s {
          world = s'.world;
          pending_stream = false;
          headers = Headers.set authorization value s.headers;
        }
        → e ≡ none
        → Turn s s' e

  challenge_inv :
      (challenge : Option (U → Option Text)) (url : U) (hop : Headers) (r : HttpResponse)
      (value : Text)
      → challenge_answer env challenge url hop r ≡ some value
      → (answer : U → Option Text) × (challenge ≡ some answer)
        × (answer url ≡ some value)
        × (contains_name authorization hop ≡ false)
  unfolding challenge_answer
  challenge_inv none url hop r value h = absurd (ground arith)
  challenge_inv (some answer) url hop r value h = (answer, refl, ground arith, ground arith)

  Turn-if :
      (s : Loop U F) (b : Bool) (p q : Loop U F × Ended)
      → (b ≡ true → Turn s p.0 p.1)
      → (b ≡ false → Turn s q.0 q.1)
      → Turn s (if b then p else q).0 (if b then p else q).1
  Turn-if s true p q f g = f refl
  Turn-if s false p q f g = g refl

  module _ (s0 : Loop U F) (w : World U F) (hop : Headers) (r : HttpResponse)
      (k : Sends s0 w.log hop) where
    -- The state in which a response is looked at.
    abbrev s : Loop U F
    s = record s0 { world = w; pending_stream = false }

    on_answer-Turn :
        (a : Option Text)
        → (if is_stream req.body
            then none
            else challenge_answer env req.challenge s.request_url hop r)
          ≡ a
        → Turn s0 (on_answer env cookies req r s a).0 (on_answer env cookies req r s a).1
    unfolding on_answer
    on_answer-Turn none e = ended hop k (ok r) refl refl
    on_answer-Turn (some value) e =
        let (answer, c, a, n) =
          challenge_inv req.challenge s.request_url hop r value (ground arith) in
        challenged hop k answer value c a n (ground arith) refl refl

    on_target-Turn :
        (budget : ℕ) (t : Result FetchError (Option U))
        → s.remaining ≡ some (suc budget)
        → Turn s0
            (on_target env cookies req (suc budget) r s t).0
            (on_target env cookies req (suc budget) r s t).1
    unfolding on_target redirected
    on_target-Turn budget (err e) b = ended hop k (err e) refl refl
    on_target-Turn budget (ok none) b = ended hop k (ok r) refl refl
    on_target-Turn budget (ok (some next_url)) b =
        Turn-if s0 (is_stream req.body && not (r.status == 303)) (s, _)
          (redirected env cookies req r.status (suc budget) next_url s, none)
          (λ y. ended hop k _ refl refl) (λ n. moved hop k r.status budget next_url b n refl refl)

    on_redirect-Turn :
        (budget : ℕ)
        → s.remaining ≡ some budget
        → Turn s0
            (on_redirect env cookies req budget r s).0
            (on_redirect env cookies req budget r s).1
    unfolding on_redirect
    on_redirect-Turn zero b = ended hop k (err _) refl refl
    on_redirect-Turn (suc budget) b = on_target-Turn budget (redirect_target env s.request_url r) b

    on_status-Turn :
        (b : Option ℕ)
        → s.remaining ≡ b
        → Turn s0 (on_status env cookies req b hop r s).0 (on_status env cookies req b hop r s).1
    unfolding on_status on_response
    on_status-Turn none e = on_answer-Turn _ refl
    on_status-Turn (some budget) e =
        Turn-if s0 (is_redirect r.status) (on_redirect env cookies req budget r s)
          (on_response env cookies req hop r s) (λ y. on_redirect-Turn budget e)
          (λ n. on_answer-Turn _ refl)

  received-Turn :
      (s : Loop U F) (w : World U F) (hop : Headers)
      (a : List (Sent U) × Result FetchError HttpResponse)
      → Sends s a.0 hop
      → Turn s
          (received env cookies req hop (record s { world = w; pending_stream = false }) a).0
          (received env cookies req hop (record s { world = w; pending_stream = false }) a).1
  unfolding received
  received-Turn s w hop (log, err e) k = ended hop k (err e) refl refl
  received-Turn s w hop (log, ok r) k =
      let l =
        store_set_cookies-log env cookies req.credentials s.request_url r
          (record w { log = log }) in
      on_status-Turn s
        (store_set_cookies env cookies req.credentials s.request_url r (record w { log = log })) hop
        r (subst (λ x. Sends s x hop) (sym l) k) s.remaining refl

  hop_sent-Turn :
      (s : Loop U F) (a : World U F × Result FetchError Headers)
      → check_guard env cookies req (active_guard req.net_guard) s.request_url ≡ ok tt
      → OfHop req.credentials s.world s.headers a
      → Turn s (hop_sent env cookies req s a).0 (hop_sent env cookies req s a).1
  unfolding hop_sent
  hop_sent-Turn s (w, err e) c k = stopped e refl k
  hop_sent-Turn s (w, ok hop) c (l, a, o) =
      let sends =
        send_hop-OfSend env (message env cookies req (text " timed out")) (request_of s hop)
          s.pending_stream req.max_retries w.log in
      received-Turn s w hop _ (record {
        checked = c;
        authorized = a;
        omitted = o;
        sends =
            subst
              (λ x.
                OfSend (request_of s hop) s.pending_stream req.max_retries x
                  (send_hop env (message env cookies req (text " timed out")) (request_of s hop)
                    s.pending_stream req.max_retries w.log).0)
              l sends;
      })

  checked-Turn :
      (s : Loop U F) (c : Result FetchError (Unit {0}))
      → check_guard env cookies req (active_guard req.net_guard) s.request_url ≡ c
      → Turn s (checked env cookies req s c).0 (checked env cookies req s c).1
  unfolding checked
  checked-Turn s (err e) h = stopped e refl refl
  checked-Turn s (ok u) h =
      hop_sent-Turn s _ h
        (hop_headers-OfHop env cookies req.credentials s.headers s.request_url _ s.world)

  -- Every round is of one of the four kinds.
  pub round-Turn : (s : Loop U F) → Turn s (round env cookies req s).0 (round env cookies req s).1
  unfolding round
  round-Turn s = checked-Turn s _ refl
