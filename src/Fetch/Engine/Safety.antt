-- ===== src/Fetch/Engine/Safety.antt =====
-- What the engine sends: to which URLs, and with which credentials.
use ferrijs.Prelude.{
  ◌≡◌, refl, sym, subst, Bool, true, false, List, [], ◌∷◌, ◌++◌, Option, none, some, arith, All,
  inl, inr, ◌⊎◌, if◌then◌else◌,
}
use ferrijs.Prelude.Result.{Result, ok}
use ferrijs.Text.{Text}
use ferrijs.Fetch.Guard.{NetGuard, is_active}
use ferrijs.Fetch.Guard.Safety.{IsSafe, check_url-IsSafe}
use ferrijs.Fetch.Headers.{get_all}
use ferrijs.Fetch.Headers.Store.{get_all-set_self}
use ferrijs.Fetch.Engine.Model.{omit, FetchError, Sent, Env, Request, Response}
use ferrijs.Fetch.Engine.Hop.{World, Cookies, rewrites_to_get}
use ferrijs.Fetch.Engine.Send.{Loop, active_guard, check_guard, redirected, send, start}
use ferrijs.Fetch.Engine.Kept.{
  authorization, cookie_name, authorization_same, get_all-rewrite_headers,
}
use ferrijs.Fetch.Engine.Turn.{Turn, stopped, ended, moved, challenged}
use ferrijs.Fetch.Engine.Bounds.{send-Appends}

module _ {U F : Type 0} (env : Env U F) (cookies : Option (Cookies U F)) (req : Request U) where
  checked-IsSafe :
      (g : NetGuard) (url : U)
      → req.net_guard ≡ some g
      → is_active g ≡ true
      → check_guard env cookies req (active_guard req.net_guard) url ≡ ok tt
      → (host : Text) × IsSafe env.ip g (env.lib.guard_url url) host
  unfolding check_guard active_guard
  checked-IsSafe g url n a h = check_url-IsSafe env.ip (env.lib.guard_url url) g (ground arith)

  -- With a guard that is active, each request that `send` puts on the wire, the first one and those
  -- after a redirect, is for a URL that the guard lets through.
  pub send_guarded :
      {C : Type 0} (client : Result FetchError C) (w w' : World U F)
      (answer : Result FetchError Response) (g : NetGuard)
      → req.net_guard ≡ some g
      → is_active g ≡ true
      → send env cookies req client w ≡ some (w', answer)
      → (more : List (Sent U)) × (w'.log ≡ w.log ++ more)
        × All (λ x. (host : Text) × IsSafe env.ip g (env.lib.guard_url x.url) host) more
  send_guarded client w w' answer g n a h =
      send-Appends env cookies req (λ s. Unit {0})
        (λ x. (host : Text) × IsSafe env.ip g (env.lib.guard_url x.url) host) (λ s s' i t. tt)
        (λ s log hop i k. checked-IsSafe g s.request_url n a k.checked) client w w' answer (λ b. tt)
        h

  -- With `credentials: omit`, no request that `send` puts on the wire has a `Cookie` header.
  pub send_omit :
      {C : Type 0} (client : Result FetchError C) (w w' : World U F)
      (answer : Result FetchError Response)
      → req.credentials ≡ omit
      → send env cookies req client w ≡ some (w', answer)
      → (more : List (Sent U)) × (w'.log ≡ w.log ++ more)
        × All (λ x. get_all cookie_name x.headers ≡ []) more
  send_omit client w w' answer o h =
      send-Appends env cookies req (λ s. Unit {0}) (λ x. get_all cookie_name x.headers ≡ [])
        (λ s s' i t. tt) (λ s log hop i k. k.omitted o) client w w' answer (λ b. tt) h

  -- A URL is another one, or of its origin.
  abbrev pub IsWithin : U → U → Type 0
  IsWithin u v = (u ≡ v) ⊎ (env.lib.same_origin u v ≡ true)

  -- Where authorization values may go: the caller's to the URL of the request and its origin, and an
  -- answer to a challenge to the URL that challenged and its origin.
  pub data IsOwn (u : U) (values : List Text) : Type 0 where
    without : values ≡ [] → IsOwn u values
    of_caller : values ≡ get_all authorization req.headers → IsWithin u req.url → IsOwn u values
    of_answer :
        (answer : U → Option Text) (url : U) (value : Text)
        → req.challenge ≡ some answer
        → answer url ≡ some value
        → values ≡ value ∷ []
        → IsWithin u url
        → IsOwn u values

  module _
      (transitive : (a b c : U)
        → env.lib.same_origin a b ≡ true
        → env.lib.same_origin b c ≡ true
        → env.lib.same_origin a c ≡ true) where
    IsWithin-step : (a b c : U) → env.lib.same_origin a b ≡ true → IsWithin b c → IsWithin a c
    IsWithin-step a b c h (inl e) = inr (subst (λ x. env.lib.same_origin a x ≡ true) e h)
    IsWithin-step a b c h (inr e) = inr (transitive a b c h e)

    IsOwn-step :
        (next u : U) (values : List Text)
        → env.lib.same_origin next u ≡ true
        → IsOwn u values
        → IsOwn next values
    IsOwn-step next u values h (without e) = without e
    IsOwn-step next u values h (of_caller e i) = of_caller e (IsWithin-step next u req.url h i)
    IsOwn-step next u values h (of_answer answer url value c a e i) =
        of_answer answer url value c a e (IsWithin-step next u url h i)

    IsOwn-redirect :
        (next u : U) (values : List Text) (same : Bool)
        → env.lib.same_origin next u ≡ same
        → IsOwn u values
        → IsOwn next (if same then values else [])
    IsOwn-redirect next u values true e i = IsOwn-step next u values e i
    IsOwn-redirect next u values false e i = without refl

    IsOwn-Turn :
        (s s' : Loop U F)
        → IsOwn s.request_url (get_all authorization s.headers)
        → Turn env cookies req s s' none
        → IsOwn s'.request_url (get_all authorization s'.headers)
    unfolding redirected
    IsOwn-Turn s s' i (stopped x e h) = absurd cc
    IsOwn-Turn s s' i (ended hop k r f e) = absurd cc
    IsOwn-Turn s s' i (moved hop k status budget next_url b n e r) =
        subst (λ (x : Loop U F). IsOwn x.request_url (get_all authorization x.headers)) (sym e)
          (subst (IsOwn next_url)
            (sym (
              get_all-rewrite_headers (rewrites_to_get status s.method)
                (env.lib.same_origin next_url s.request_url) s.headers))
            (IsOwn-redirect next_url s.request_url (get_all authorization s.headers)
              (env.lib.same_origin next_url s.request_url) refl i))
    IsOwn-Turn s s' i (challenged hop k answer value c a n t e r) =
        subst (λ (x : Loop U F). IsOwn x.request_url (get_all authorization x.headers)) (sym e)
          (of_answer answer s.request_url value c a
            (get_all-set_self authorization authorization value s.headers authorization_same)
            (inl refl))

    -- No authorization leaves its origin: each request that `send` puts on the wire carries none,
    -- or the caller's to the request's URL or origin, or a challenge's answer to the URL that
    -- challenged or its origin. To be of one origin is transitive.
    pub send-IsOwn :
        {C : Type 0} (client : Result FetchError C) (w w' : World U F)
        (answer : Result FetchError Response)
        → send env cookies req client w ≡ some (w', answer)
        → (more : List (Sent U)) × (w'.log ≡ w.log ++ more)
          × All (λ x. IsOwn x.url (get_all authorization x.headers)) more
    unfolding start
    send-IsOwn client w w' answer h =
        send-Appends env cookies req (λ s. IsOwn s.request_url (get_all authorization s.headers))
          (λ x. IsOwn x.url (get_all authorization x.headers)) IsOwn-Turn
          (λ s log hop i k. subst (IsOwn s.request_url) (sym k.authorized) i) client w w' answer
          (λ b. of_caller refl (inl refl)) h
