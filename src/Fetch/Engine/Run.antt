-- ===== src/Fetch/Engine/Run.antt =====
-- The rounds of one request, one after another, and why they end.
use mathlib.Core.Option.{some-injective}
use ferrijs.Prelude.{
  ℕ, zero, suc, ◌+◌, ◌*◌, ◌≤◌, ◌<◌, ◌≡◌, refl, sym, ap, subst, ◌∙◌, Bool, true, List, Option, none,
  some, arith, if◌then◌else◌,
}
use ferrijs.Prelude.Result.{Result, ok, err}
use ferrijs.Text.{Text}
use ferrijs.Fetch.Headers
use ferrijs.Fetch.Headers.{Headers, get_all, contains_name}
use ferrijs.Fetch.Headers.Store.{get_all-set_self, contains_name-get_all}
use ferrijs.Fetch.Engine.Model.{FetchError, HttpResponse, Env, Request, Response, RequestPayload}
use ferrijs.Fetch.Engine.Hop.{World, Cookies, follow_budget}
use ferrijs.Fetch.Engine.Send.{
  Loop, Ended, is_stream, round, rounds, redirected, start, enough, finished, send, send_with,
  request_payload,
}
use ferrijs.Fetch.Engine.Kept.{authorization, authorization_same}
use ferrijs.Fetch.Engine.Turn.{Turn, stopped, ended, moved, challenged, round-Turn}

-- The redirects that may still be followed.
abbrev pub left : Option ℕ → ℕ
left none = 0
left (some n) = n

-- The rounds at the last URL, by whether an authorization is set.
abbrev pub last_rounds : Bool → ℕ
last_rounds b = if b then 1 else 2

-- The rounds that a state may still take: two for each redirect, one for the response, and one for
-- a challenge that no authorization has answered yet.
abbrev pub weight : {U F : Type 0} → Loop U F → ℕ
weight s = 2 * left s.remaining + last_rounds (contains_name authorization s.headers)

contains_set :
    (h : Headers) (v : Text) → contains_name authorization (Headers.set authorization v h) ≡ true
contains_set h v =
    contains_name-get_all authorization (Headers.set authorization v h)
    ∙ (rw (get_all-set_self authorization authorization v h authorization_same))

contains_congruent :
    (h k : Headers)
    → get_all authorization h ≡ get_all authorization k
    → contains_name authorization h ≡ contains_name authorization k
contains_congruent h k e =
    rw (contains_name-get_all authorization h, contains_name-get_all authorization k, e)

pub tail_bounds :
    (h : Headers)
    → (1 ≤ last_rounds (contains_name authorization h))
      × (last_rounds (contains_name authorization h) ≤ 2)
tail_bounds h = (ground arith, ground arith)

budget_rounds :
    (budget : Option ℕ) (h : Headers)
    → 2 * left budget + last_rounds (contains_name authorization h)
      ≤ (elim budget as (λ _. ℕ) [ none ↦ 2 | some n ↦ 2 * n + 2 ])
budget_rounds none h = omega (arith, tail_bounds h)
budget_rounds (some n) h = omega (arith, tail_bounds h)

streamed_iff :
    (b : RequestPayload) (body : Option (List ℕ)) (streamed : Bool)
    → request_payload b ≡ ok (body, streamed)
    → streamed ≡ is_stream b
unfolding request_payload
streamed_iff RequestPayload.empty body streamed h = ground arith
streamed_iff (RequestPayload.bytes b) body streamed h = ground arith
streamed_iff RequestPayload.stream body streamed h = ground arith
streamed_iff RequestPayload.invalid body streamed h = absurd cc

module _ {U F : Type 0} (env : Env U F) (cookies : Option (Cookies U F)) (req : Request U) where
  -- A run of the loop: rounds that continue, and one that ends.
  pub data Run (s' : Loop U F) (r : Result FetchError HttpResponse) : Loop U F → Type 0 where
    last : (s : Loop U F) → Turn env cookies req s s' (some r) → Run s' r s
    next : (s s1 : Loop U F) → Turn env cookies req s s1 none → Run s' r s1 → Run s' r s

  pub Turn-weight : (s s' : Loop U F) → Turn env cookies req s s' none → weight s' < weight s
  unfolding redirected
  Turn-weight s s' (stopped x e h) = absurd cc
  Turn-weight s s' (ended hop k r f e) = absurd cc
  Turn-weight s s' (moved hop k status budget next_url b n e r) = omega (
    arith,
    tail_bounds s.headers,
    tail_bounds s'.headers,
    ap left b,
    ap (λ (x : Loop U F). left x.remaining) e,
  )
  Turn-weight s s' (challenged hop k answer value c a n t e r) = omega (
    arith,
    ap last_rounds (contains_congruent s.headers hop (sym k.authorized) ∙ n),
    ap last_rounds (
        ap (λ (x : Loop U F). contains_name authorization x.headers) e
        ∙ contains_set s.headers value),
    ap (λ (x : Loop U F). left x.remaining) e,
  )

  -- The rounds from a state whose weight is within the fuel end.
  abbrev pub Ends : ℕ → Loop U F → Type 0
  Ends fuel s =
      (s' : Loop U F) × (r : Result FetchError HttpResponse) × (rounds env cookies req fuel s
        ≡ some (s', r))
      × Run s' r s

  pub rounds-Run : (fuel : ℕ) (s : Loop U F) → weight s ≤ fuel → Ends fuel s
  unfolding rounds
  rounds-Run zero s h = absurd (omega (arith, tail_bounds s.headers))
  rounds-Run (suc fuel) s h =
      let (s1, e) = round env cookies req s in
      continued (rounds-Run fuel) s1 e (round-Turn env cookies req s)
    where
      continued :
          ((s1 : Loop U F) → weight s1 ≤ fuel → Ends fuel s1)
          → (s1 : Loop U F) (e : Ended) → Turn env cookies req s s1 e
          → (s' : Loop U F) × (r : Result FetchError HttpResponse) × ((elim e
                as (λ _. Option (Loop U F × Result FetchError HttpResponse)) [
                  | some r ↦ some (s1, r)
                  | none ↦ rounds env cookies req fuel s1
                ])
              ≡ some (s', r))
            × Run s' r s
      continued rest s1 (some r) t = (s1, r, refl, last s t)
      continued rest s1 none t =
          let (s', r, e, run) = rest s1 (omega (arith, Turn-weight s s1 t)) in
          (s', r, e, next s s1 t run)

  finished-world :
      (s' : Loop U F) (r : Result FetchError HttpResponse)
      → (finished env cookies req (s', r)).0 ≡ s'.world
  unfolding finished
  finished-world s' (err e) = refl
  finished-world s' (ok r) = ground arith

  -- What `send` comes to: it fails before the first round, or its loop runs to an end.
  pub data Sending (w w' : World U F) (answer : Result FetchError Response) : Type 0 where
    refused : (x : FetchError) → w' ≡ w → answer ≡ err x → Sending w w' answer
    ran :
        (body : Option (List ℕ)) (s' : Loop U F) (r : Result FetchError HttpResponse)
        → Run s' r (start env cookies req body (is_stream req.body) w)
        → w' ≡ s'.world
        → answer ≡ (finished env cookies req (s', r)).1
        → Sending w w' answer

  pub start-weight :
      (body : Option (List ℕ)) (streamed : Bool) (w : World U F)
      → weight (start env cookies req body streamed w) ≤ enough env cookies req
  unfolding start enough
  start-weight body streamed w =
      budget_rounds (follow_budget req.redirect req.max_redirects) req.headers

  send_with-Sending :
      {C : Type 0} (p : Result FetchError (Option (List ℕ) × Bool))
      (c : Result FetchError (Unit {0})) (client : Result FetchError C) (w : World U F)
      → request_payload req.body ≡ p
      → (w' : World U F) × (answer : Result FetchError Response) × (send_with env cookies req p c
            client w
          ≡ some (w', answer))
        × Sending w w' answer
  unfolding send_with
  send_with-Sending (err e) c client w h = (w, err e, refl, refused e refl refl)
  send_with-Sending (ok (body, streamed)) (err e) client w h = (w, err e, refl, refused e refl refl)
  send_with-Sending (ok (body, streamed)) (ok u) (err e) w h = (w, err e, refl, refused e refl refl)
  send_with-Sending (ok (body, streamed)) (ok u) (ok c) w h =
      let (s', r, e, run) =
        rounds-Run (enough env cookies req) (start env cookies req body streamed w)
          (start-weight body streamed w) in
      (
        (finished env cookies req (s', r)).0,
        (finished env cookies req (s', r)).1,
        ap
            (λ o. elim o as (λ _. Option (World U F × Result FetchError Response)) [
              | none ↦ none
              | some x ↦ some (finished env cookies req x)
            ])
            e,
        ran body s' r
            (subst (λ b. Run s' r (start env cookies req body b w))
              (streamed_iff req.body body streamed h) run)
            (finished-world s' r) refl,
      )

  pub send-Sending :
      {C : Type 0} (client : Result FetchError C) (w : World U F)
      → (w' : World U F) × (answer : Result FetchError Response) × (send env cookies req client w
          ≡ some (w', answer))
        × Sending w w' answer
  unfolding send
  send-Sending client w = send_with-Sending (request_payload req.body) _ client w refl

  -- What `send` answers is what it comes to.
  pub Sending-of :
      {C : Type 0} (client : Result FetchError C) (w w' : World U F)
      (answer : Result FetchError Response)
      → send env cookies req client w ≡ some (w', answer)
      → Sending w w' answer
  Sending-of client w w' answer h =
      let (w1, a1, e, s) = send-Sending client w in
      subst (λ (p : World U F × Result FetchError Response). Sending w p.0 p.1)
        (some-injective _ _ (sym e ∙ h)) s
