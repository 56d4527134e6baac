-- ===== src/Fetch/Engine/Redirects.antt =====
-- The redirects of one request: which are followed, and what the response says of them.
use mathlib.Core.Option.{none-ne-some}
use ferrijs.Prelude.{
  suc, ◌≡◌, refl, sym, ap, subst, ◌∙◌, true, false, ◌&&◌, List, ◌++◌, Option, none, some, arith,
  ltb, All,
}
use ferrijs.Prelude.Result.{Result, ok, err}
use ferrijs.Fetch.Engine.Model.{
  FetchError, Sent, Env, Request, Response, HttpResponse, is_error, is_manual,
}
use ferrijs.Fetch.Engine.Hop.{World, Cookies, follow_budget, is_redirection}
use ferrijs.Fetch.Engine.Send.{Loop, send, start, is_stream, finished, into_response}
use ferrijs.Fetch.Engine.Turn.{Turn, stopped, ended, moved, challenged}
use ferrijs.Fetch.Engine.Run.{Run, last, next, refused, ran, Sending-of}
use ferrijs.Fetch.Engine.Bounds.{send-Appends}

module _ {U F : Type 0} (env : Env U F) (cookies : Option (Cookies U F)) (req : Request U) where
  -- The loop at the URL of the request, with no budget for redirects.
  record Stays (s : Loop U F) : Type 0 where
    pub at_url : s.request_url ≡ req.url
    pub no_budget : s.remaining ≡ none
    pub no_hops : s.hops_followed ≡ 0

  Stays-Turn : (s s' : Loop U F) → Stays s → Turn env cookies req s s' none → Stays s'
  Stays-Turn s s' i (stopped x e h) = absurd cc
  Stays-Turn s s' i (ended hop k r f e) = absurd cc
  Stays-Turn s s' i (moved hop k status budget next_url b n e r) =
      absurd (none-ne-some (suc budget) (sym i.no_budget ∙ b))
  Stays-Turn s s' i (challenged hop k answer value c a n t e r) =
      subst Stays (sym e)
        (record { at_url = i.at_url; no_budget = i.no_budget; no_hops = i.no_hops })

  Stays-Run :
      (s' : Loop U F) (r : HttpResponse) (s : Loop U F)
      → Run env cookies req s' (ok r) s
      → Stays s
      → Stays s'
  Stays-Run s' r _ (next s s1 t rest) i = Stays-Run s' r s1 rest (Stays-Turn s s1 i t)
  Stays-Run s' r _ (last s (stopped x e h)) i = absurd cc
  Stays-Run s' r _ (last s (ended hop k q f e)) i =
      subst Stays (sym f)
        (record { at_url = i.at_url; no_budget = i.no_budget; no_hops = i.no_hops })
  Stays-Run s' r _ (last s (moved hop k status budget next_url b n f e)) i = absurd cc
  Stays-Run s' r _ (last s (challenged hop k answer value c a n t f e)) i = absurd cc

  -- Without a budget for redirects (`manual`, `error`, or at most none), every request that `send`
  -- puts on the wire is for the URL of the request.
  pub send_stays :
      {C : Type 0} (client : Result FetchError C) (w w' : World U F)
      (answer : Result FetchError Response)
      → follow_budget req.redirect req.max_redirects ≡ none
      → send env cookies req client w ≡ some (w', answer)
      → (more : List (Sent U)) × (w'.log ≡ w.log ++ more) × All (λ x. x.url ≡ req.url) more
  unfolding start
  send_stays client w w' answer n h =
      send-Appends env cookies req Stays (λ x. x.url ≡ req.url) Stays-Turn
        (λ s log hop i k. i.at_url) client w w' answer
        (λ b. record { at_url = refl; no_budget = n; no_hops = refl }) h

  -- What a response says of redirects.
  pub record IsHonest (response : Response) : Type 0 where
    pub error_mode : is_error req.redirect ≡ true → is_redirection response.status ≡ false
    pub unfollowed :
        response.unfollowed_redirect ≡ (is_manual req.redirect && is_redirection response.status)
    pub unmoved :
        follow_budget req.redirect req.max_redirects ≡ none
        → (response.redirected ≡ false) × (response.url ≡ env.lib.to_text req.url)

  finished_inv :
      (s' : Loop U F) (r : Result FetchError HttpResponse) (response : Response)
      → ok response ≡ (finished env cookies req (s', r)).1
      → (q : HttpResponse) × (r ≡ ok q)
        × (response ≡ into_response env cookies req q s')
        × ((is_error req.redirect && is_redirection q.status) ≡ false)
  unfolding finished
  finished_inv s' (err x) response a = absurd cc
  finished_inv s' (ok q) response a = (q, refl, ground arith, ground arith)

  into_response-IsHonest :
      (s' : Loop U F) (q : HttpResponse)
      → (is_error req.redirect && is_redirection q.status) ≡ false
      → (follow_budget req.redirect req.max_redirects ≡ none → Stays s')
      → IsHonest (into_response env cookies req q s')
  unfolding into_response
  into_response-IsHonest s' q n i = record {
    error_mode = λ e. ground arith;
    unfollowed = refl;
    unmoved = λ b. (ap (ltb 0) (i b).no_hops, ap env.lib.to_text (i b).at_url);
  }

  -- The response of `send` is honest about redirects: in `error` mode its status is no redirection;
  -- it is marked as unfollowed exactly in `manual` mode with a redirection; and without a budget it
  -- is not marked as redirected and has the URL of the request.
  pub send-IsHonest :
      {C : Type 0} (client : Result FetchError C) (w w' : World U F) (response : Response)
      → send env cookies req client w ≡ some (w', ok response)
      → IsHonest response
  unfolding start
  send-IsHonest client w w' response h =
      elim (Sending-of env cookies req client w w' (ok response) h) [
        | refused x e a ↦ absurd cc
        | ran body s' r run e a ↦
            let (q, o, v, n) = finished_inv s' r response a in
            subst IsHonest (sym v) (
              into_response-IsHonest s' q n (λ b.
                Stays-Run s' q (start env cookies req body (is_stream req.body) w)
                  (subst
                    (λ x.
                      Run env cookies req s' x (start env cookies req body (is_stream req.body) w))
                    o run)
                  (record { at_url = refl; no_budget = b; no_hops = refl })))
      ]
