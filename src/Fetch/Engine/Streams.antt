-- ===== src/Fetch/Engine/Streams.antt =====
-- How often the stream of a request is sent.
use ferrijs.Prelude.{
  ℕ, ◌+◌, ◌≤◌, ◌≡◌, refl, ap, Bool, true, false, List, [], ◌∷◌, ◌++◌, Option, none, some, arith,
  All, Bool-cases, inl, inr, if◌then◌else◌, length,
}
use ferrijs.Prelude.Result.{Result}
use ferrijs.Fetch.Headers.{Headers}
use ferrijs.Fetch.Engine.Model.{
  FetchError, Sent, Env, Request, Response, RequestPayload, HttpResponse,
}
use ferrijs.Fetch.Engine.Hop.{World, Cookies}
use ferrijs.Fetch.Engine.Send.{Loop, Ended, redirected, send, start, is_stream, payload}
use ferrijs.Fetch.Engine.Turn.{Turn, stopped, ended, moved, challenged, Sends, request_of}
use ferrijs.Fetch.Engine.Run.{Run, last, next, refused, ran, Sending-of}
use ferrijs.Fetch.Engine.Bounds.{Turn-Sends}

-- How many of the requests have a stream as their payload.
abbrev pub one_stream : RequestPayload → ℕ
one_stream RequestPayload.stream = 1
one_stream _ = 0

abbrev pub streams : {U : Type 0} → List (Sent U) → ℕ
streams [] = 0
streams (x ∷ xs) = one_stream x.payload + streams xs

streams-append : {U : Type 0} (xs ys : List (Sent U)) → streams (xs ++ ys) ≡ streams xs + streams ys
streams-append [] ys = omega arith
streams-append (x ∷ xs) ys = omega (arith, streams-append xs ys)

streams-copies :
    {U : Type 0} (sent : Sent U) (xs : List (Sent U))
    → All (λ x. x ≡ sent) xs
    → one_stream sent.payload ≡ 0
    → streams xs ≡ 0
streams-copies sent [] c p = refl
streams-copies sent (x ∷ xs) c p =
    omega (arith, ap (λ (x : Sent _). one_stream x.payload) c.0, streams-copies sent xs c.1 p)

one_stream_le : (p : RequestPayload) → one_stream p ≤ 1
one_stream_le RequestPayload.empty = omega arith
one_stream_le RequestPayload.stream = omega arith
one_stream_le RequestPayload.invalid = omega arith
one_stream_le (RequestPayload.bytes b) = omega arith

streams-length : {U : Type 0} (xs : List (Sent U)) → streams xs ≤ length xs
streams-length [] = omega arith
streams-length (x ∷ xs) = omega (arith, one_stream_le x.payload, streams-length xs)

abbrev unsent : Bool → ℕ
unsent true = 1
unsent false = 0

unsent_if : (b : Bool) → unsent b ≡ (if b then 1 else 0)
unsent_if true = refl
unsent_if false = refl

payload_once :
    (body : Option (List ℕ)) (pending : Bool)
    → pending ≡ false
    → one_stream (payload body pending) ≡ 0
payload_once body true e = absurd cc
payload_once none false e = refl
payload_once (some b) false e = refl

module _ {U F : Type 0} (env : Env U F) (cookies : Option (Cookies U F)) (req : Request U) where
  Sends-streams :
      (s : Loop U F) (log : List (Sent U)) (hop : Headers) (k : Sends env cookies req s log hop)
      → streams k.sends.more ≤ unsent s.pending_stream
  Sends-streams s log hop k = elim (Bool-cases s.pending_stream) [
    | inl e ↦ omega (arith, ap unsent e, streams-length k.sends.more, k.sends.once e)
    | inr e ↦ omega (
      arith,
      streams-copies (request_of env cookies req s hop) k.sends.more k.sends.copies
          (payload_once s.body s.pending_stream e),
    )
  ]

  Turn-streams :
      (s s' : Loop U F) (e : Ended)
      → Turn env cookies req s s' e
      → streams s'.world.log ≤ streams s.world.log + unsent s.pending_stream
  Turn-streams s s' e t = elim (Turn-Sends env cookies req s s' e t) [
    | inl h ↦ omega (arith, ap streams h)
    | inr (hop, k) ↦ omega (
      arith,
      ap streams k.sends.appended,
      streams-append s.world.log k.sends.more,
      Sends-streams s s'.world.log hop k,
    )
  ]

  -- The stream is taken by the round.
  Turn-taken : (s s' : Loop U F) → Turn env cookies req s s' none → s'.pending_stream ≡ false
  unfolding redirected
  Turn-taken s s' (stopped x e h) = absurd cc
  Turn-taken s s' (ended hop k r f e) = absurd cc
  Turn-taken s s' (moved hop k status budget next_url b n e r) =
      ap (λ (x : Loop U F). x.pending_stream) e
  Turn-taken s s' (challenged hop k answer value c a n t e r) =
      ap (λ (x : Loop U F). x.pending_stream) e

  Run-streams :
      (s' : Loop U F) (r : Result FetchError HttpResponse) (s : Loop U F)
      → Run env cookies req s' r s
      → streams s'.world.log ≤ streams s.world.log + unsent s.pending_stream
  Run-streams s' r _ (last s t) = Turn-streams s s' (some r) t
  Run-streams s' r _ (next s s1 t rest) =
      omega
        (arith, Turn-streams s s1 none t, Run-streams s' r s1 rest, ap unsent (Turn-taken s s1 t))

  -- A streamed body is put on the wire at most once, whatever is retried or redirected; any other
  -- body, never as a stream.
  pub send-streams :
      {C : Type 0} (client : Result FetchError C) (w w' : World U F)
      (answer : Result FetchError Response)
      → send env cookies req client w ≡ some (w', answer)
      → streams w'.log ≤ streams w.log + (if is_stream req.body then 1 else 0)
  unfolding start
  send-streams client w w' answer h = elim (Sending-of env cookies req client w w' answer h) [
    | refused x e a ↦ omega (arith, ap (λ (x : World U F). streams x.log) e)
    | ran body s' r run e a ↦ omega (
      arith,
      ap (λ (x : World U F). streams x.log) e,
      unsent_if (is_stream req.body),
      Run-streams s' r (start env cookies req body (is_stream req.body) w) run,
    )
  ]
