-- ===== src/Fetch/Engine/Bounds.antt =====
-- How much one request sends, and the induction on its rounds.
use mathlib.Core.List.{append-nil, append_assoc}
use ferrijs.Prelude.{
  ℕ, ◌+◌, ◌*◌, ◌≤◌, ◌<◌, ◌≡◌, sym, ap, subst, ◌∙◌, List, [], ◌∷◌, ◌++◌, Option, none, some, arith,
  length, length-append, All, All-append, inl, inr, ◌⊎◌,
}
use ferrijs.Prelude.Result.{Result}
use ferrijs.Fetch.Headers.{Headers}
use ferrijs.Fetch.Engine.Model.{FetchError, Sent, HttpResponse, Env, Request, Response}
use ferrijs.Fetch.Engine.Hop.{World, Cookies}
use ferrijs.Fetch.Engine.Send.{Loop, Ended, enough, send, start, is_stream}
use ferrijs.Fetch.Engine.Turn.{Turn, stopped, ended, moved, challenged, Sends, request_of}
use ferrijs.Fetch.Engine.Run.{
  Run, last, next, weight, tail_bounds, Turn-weight, Sending, refused, ran, send-Sending,
  start-weight, Sending-of,
}

times_step : (a b m : ℕ) → a < b → a * m + m ≤ b * m
times_step a b m h = grind arith

times_le : (a b m : ℕ) → a ≤ b → a * m ≤ b * m
times_le a b m h = grind arith

module _ {A : Type 0} (P : A → Type 0) where
  All-copies : (x : A) (xs : List A) → P x → All (λ y. y ≡ x) xs → All P xs
  All-copies x [] p a = tt
  All-copies x (y ∷ xs) p a = (subst P (sym a.0) p, All-copies x xs p a.1)

module _ {U F : Type 0} (env : Env U F) (cookies : Option (Cookies U F)) (req : Request U) where
  -- What a round sends, if it does.
  pub Turn-Sends :
      (s s' : Loop U F) (e : Ended)
      → Turn env cookies req s s' e
      → (s'.world.log ≡ s.world.log) ⊎ ((hop : Headers) × Sends env cookies req s s'.world.log hop)
  Turn-Sends s s' e (stopped x f h) = inl h
  Turn-Sends s s' e (ended hop k r f g) = inr (hop, k)
  Turn-Sends s s' e (moved hop k status budget next_url b n f g) = inr (hop, k)
  Turn-Sends s s' e (challenged hop k answer value c a n t f g) = inr (hop, k)

  Turn-length :
      (s s' : Loop U F) (e : Ended)
      → Turn env cookies req s s' e
      → length s'.world.log ≤ length s.world.log + (req.max_retries + 1)
  Turn-length s s' e t = elim (Turn-Sends s s' e t) [
    | inl h ↦ omega (arith, ap length h)
    | inr (hop, k) ↦
        omega (
          arith,
          ap length k.sends.appended,
          length-append s.world.log k.sends.more,
          k.sends.bounded,
        )
  ]

  Run-length :
      (s' : Loop U F) (r : Result FetchError HttpResponse) (s : Loop U F)
      → Run env cookies req s' r s
      → length s'.world.log ≤ length s.world.log + weight s * (req.max_retries + 1)
  Run-length s' r _ (last s t) = grind (arith, Turn-length s s' (some r) t, tail_bounds s.headers)
  Run-length s' r _ (next s s1 t rest) = omega (
    arith,
    Turn-length s s1 none t,
    times_step (weight s1) (weight s) (req.max_retries + 1) (Turn-weight env cookies req s s1 t),
    Run-length s' r s1 rest,
  )

  Sending-length :
      (w w' : World U F) (answer : Result FetchError Response)
      → Sending env cookies req w w' answer
      → length w'.log ≤ length w.log + enough env cookies req * (req.max_retries + 1)
  unfolding start
  Sending-length w w' answer (refused x e a) = omega (arith, ap (λ (x : World U F). length x.log) e)
  Sending-length w w' answer (ran body s' r run e a) =
      let n = start-weight env cookies req body (is_stream req.body) w in
      grind (
        arith,
        ap (λ (x : World U F). length x.log) e,
        Run-length s' r (start env cookies req body (is_stream req.body) w) run,
        times_le (weight (start env cookies req body (is_stream req.body) w))
            (enough env cookies req) (req.max_retries + 1) n,
      )

  -- `send` always comes to an answer, whatever the transport, the jar and the challenge answer, and
  -- it sends at most `enough` times one request and its retries.
  pub send_ends :
      {C : Type 0} (client : Result FetchError C) (w : World U F)
      → (w' : World U F) × (answer : Result FetchError Response) × (send env cookies req client w
          ≡ some (w', answer))
        × (length w'.log ≤ length w.log + enough env cookies req * (req.max_retries + 1))
  send_ends client w =
      let (w', answer, e, s) = send-Sending env cookies req client w in
      (w', answer, e, Sending-length w w' answer s)

  -- An invariant of the loop's states, and what it says of each request that is sent.
  module _ (I : Loop U F → Type 0) (P : Sent U → Type 0)
      (kept : (s s' : Loop U F) → I s → Turn env cookies req s s' none → I s')
      (says : (s : Loop U F) (log : List (Sent U)) (hop : Headers)
        → I s
        → Sends env cookies req s log hop
        → P (request_of env cookies req s hop)) where
    -- What is appended to a log satisfies the predicate.
    abbrev pub Appends : List (Sent U) → List (Sent U) → Type 0
    Appends log log' = (more : List (Sent U)) × (log' ≡ log ++ more) × All P more

    Turn-Appends :
        (s s' : Loop U F) (e : Ended)
        → I s
        → Turn env cookies req s s' e
        → Appends s.world.log s'.world.log
    Turn-Appends s s' e i t = elim (Turn-Sends s s' e t) [
      | inl h ↦ ([], h ∙ sym (append-nil s.world.log), tt)
      | inr (hop, k) ↦ (
        k.sends.more,
        k.sends.appended,
        All-copies P (request_of env cookies req s hop) k.sends.more (says s s'.world.log hop i k)
            k.sends.copies,
      )
    ]

    pub Run-Appends :
        (s' : Loop U F) (r : Result FetchError HttpResponse) (s : Loop U F)
        → I s
        → Run env cookies req s' r s
        → Appends s.world.log s'.world.log
    Run-Appends s' r _ i (last s t) = Turn-Appends s s' (some r) i t
    Run-Appends s' r _ i (next s s1 t rest) =
        let (xs, a, p) = Turn-Appends s s1 none i t in
        let (ys, b, q) = Run-Appends s' r s1 (kept s s1 i t) rest in
        (
          xs ++ ys,
          b ∙ (ap (λ (l : List (Sent U)). l ++ ys) a ∙ append_assoc s.world.log xs ys),
          All-append P xs ys p q,
        )

    pub send-Appends :
        {C : Type 0} (client : Result FetchError C) (w w' : World U F)
        (answer : Result FetchError Response)
        → ((body : Option (List ℕ)) → I (start env cookies req body (is_stream req.body) w))
        → send env cookies req client w ≡ some (w', answer)
        → Appends w.log w'.log
    unfolding start
    send-Appends client w w' answer i h = elim (Sending-of env cookies req client w w' answer h) [
      | refused x e a ↦ ([], ap (λ (x : World U F). x.log) e ∙ sym (append-nil w.log), tt)
      | ran body s' r run e a ↦
          let (more, b, p) =
            Run-Appends s' r (start env cookies req body (is_stream req.body) w) (i body) run in
          (more, ap (λ (x : World U F). x.log) e ∙ b, p)
    ]
