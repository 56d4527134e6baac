-- ===== src/Fetch/Engine/Attempts.antt =====
-- What the attempts of one hop put on the wire.
use mathlib.Core.List.{append-nil, append_assoc}
use ferrijs.Prelude.{
  ℕ, zero, suc, ◌+◌, ◌≤◌, ◌≡◌, refl, sym, subst, ◌∙◌, Bool, true, false, not, List, [], ◌∷◌, ◌++◌,
  arith, length, All, Bool-cases, inl, inr, ◌⊎◌, ◌&&◌, list_eq, nat_eq,
}
use ferrijs.Text.{Text}
use ferrijs.Fetch.Engine.Model.{Sent, Env, Attempt, answered, failed}
use ferrijs.Fetch.Engine.Hop.{send_hop, is_connection_reset}

module _ {U : Type 0} where
  -- The attempts of one hop: copies of the one request, a stream at most once.
  pub record OfSend (sent : Sent U) (streamed : Bool) (left : ℕ) (log log' : List (Sent U))
      : Type 0 where
    pub more : List (Sent U)
    pub appended : log' ≡ log ++ more
    pub copies : All (λ x. x ≡ sent) more
    pub bounded : length more ≤ left + 1
    pub once : streamed ≡ true → length more ≤ 1

  one_more :
      (sent : Sent U) (streamed : Bool) (left : ℕ) (log : List (Sent U))
      → OfSend sent streamed left log (log ++ sent ∷ [])
  one_more sent streamed left log = record {
    more = sent ∷ [];
    appended = refl;
    copies = (refl, tt);
    bounded = omega arith;
    once = λ s. omega arith;
  }

  none_more :
      (sent : Sent U) (streamed : Bool) (left : ℕ) (log : List (Sent U))
      → OfSend sent streamed left log log
  none_more sent streamed left log = record {
    more = [];
    appended = sym (append-nil log);
    copies = tt;
    bounded = omega arith;
    once = λ s. omega arith;
  }

module _ {U F : Type 0} (env : Env U F) where
  send_hop_last :
      (message : Text) (sent : Sent U) (streamed : Bool) (log : List (Sent U))
      → ((send_hop env message sent streamed zero log).0 ≡ log)
        ⊎ ((send_hop env message sent streamed zero log).0 ≡ log ++ sent ∷ [])
  unfolding send_hop
  send_hop_last message sent streamed log = elim (Bool-cases (env.late log)) [
    | inl e ↦ inl (ground arith)
    | inr e ↦ inr (ground arith)
  ]

  send_hop_step :
      (message : Text) (sent : Sent U) (streamed : Bool) (left : ℕ) (log : List (Sent U))
      → ((send_hop env message sent streamed (suc left) log).0 ≡ log)
        ⊎ ((send_hop env message sent streamed (suc left) log).0 ≡ log ++ sent ∷ [])
        ⊎ (((send_hop env message sent streamed (suc left) log).0
              ≡ (send_hop env message sent streamed left (log ++ sent ∷ [])).0)
            × (streamed ≡ false))
  unfolding send_hop
  send_hop_step message sent streamed left log = elim (Bool-cases (env.late log)) [
    | inl e ↦ inl (ground arith)
    | inr e ↦ inr (attempted (env.transport log sent) refl e)
  ]
    where
      attempted :
          (o : Attempt)
          → env.transport log sent ≡ o
          → env.late log ≡ false
          → ((send_hop env message sent streamed (suc left) log).0 ≡ log ++ sent ∷ [])
            ⊎ (((send_hop env message sent streamed (suc left) log).0
                  ≡ (send_hop env message sent streamed left (log ++ sent ∷ [])).0)
                × (streamed ≡ false))
      attempted (answered r) e l = inl (ground arith)
      attempted (failed sources m) e l =
          elim (Bool-cases (not streamed && is_connection_reset sources)) [
            | inl b ↦ inr (ground arith, ground arith)
            | inr b ↦ inl (ground arith)
          ]

  pub send_hop-OfSend :
      (message : Text) (sent : Sent U) (streamed : Bool) (left : ℕ) (log : List (Sent U))
      → OfSend sent streamed left log (send_hop env message sent streamed left log).0
  unfolding send_hop
  send_hop-OfSend message sent streamed zero log = elim (send_hop_last message sent streamed log) [
    | inl e ↦ subst (OfSend sent streamed zero log) (sym e) (none_more sent streamed zero log)
    | inr e ↦ subst (OfSend sent streamed zero log) (sym e) (one_more sent streamed zero log)
  ]
  send_hop-OfSend message sent streamed (suc left) log =
      let r = send_hop-OfSend message sent streamed left (log ++ sent ∷ []) in
      elim (send_hop_step message sent streamed left log) [
        | inl e ↦
            subst (OfSend sent streamed (suc left) log) (sym e)
              (none_more sent streamed (suc left) log)
        | inr (inl e) ↦
            subst (OfSend sent streamed (suc left) log) (sym e)
              (one_more sent streamed (suc left) log)
        | inr (inr (e, once)) ↦ subst (OfSend sent streamed (suc left) log) (sym e) (record {
          more = sent ∷ r.more;
          appended = r.appended ∙ append_assoc log (sent ∷ []) r.more;
          copies = (refl, r.copies);
          bounded = omega (arith, r.bounded);
          once = λ s. absurd (ground arith);
        })
      ]
