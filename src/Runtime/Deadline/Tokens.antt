-- ===== src/Runtime/Deadline/Tokens.antt =====
-- The tokens that budgets answer to: a budget stays armed until its own token disarms it.
use ferrijs.Prelude.{
  ℕ, ◌+◌, ◌≤◌, ◌<◌, ◌≡◌, refl, List, [], ◌∷◌, ◌++◌, arith, All, All-append, All-imp, All-retain,
  retain, length, Bool-cases, inl, inr, nat_eq,
}
use ferrijs.Runtime.Deadline.{
  PauseClock, Armed, TimeoutState, host_token, recompute, budget, keeps, new, arm, disarm, arm_host,
  disarm_host, deadline_arm, interrupt, cancel, expired, Op, arms, disarms, host_arms, host_disarms,
  cancels, interrupts, step, run,
}
use ferrijs.Runtime.Deadline.Valid.{IsValid, new-IsValid, run-IsValid}

-- Every token in use was handed out before the next one.
pub record IsFresh (s : TimeoutState) : Type 0 where
  pub handed : All (λ b. b.token < s.next_token) s.armed
  pub started : 0 < s.next_token

abbrev pub wrap : ℕ
wrap = 18446744073709551616

step-next_token :
    (s : TimeoutState) (op : ℕ × Op)
    → s.next_token + 1 < wrap
    → (step s op).next_token ≤ s.next_token + 1
unfolding step arm deadline_arm arm_host disarm_host disarm cancel interrupt recompute
step-next_token s (now, arms d) h = ground arith
step-next_token s (now, disarms t) h = ground arith
step-next_token s (now, host_arms d) h = ground arith
step-next_token s (now, host_disarms) h = ground arith
step-next_token s (now, cancels) h = ground arith
step-next_token s (now, interrupts) h = ground arith

step-IsFresh :
    (s : TimeoutState) (op : ℕ × Op) → s.next_token + 1 < wrap → IsFresh s → IsFresh (step s op)
unfolding step arm deadline_arm arm_host disarm_host disarm cancel interrupt recompute budget
step-IsFresh s (now, arms d) h f = record {
  handed =
      All-append _ s.armed _
        (All-imp _ _ s.armed (λ b (p : b.token < s.next_token). omega arith) f.handed)
        (omega arith, tt);
  started = omega arith;
}
step-IsFresh s (now, disarms t) h f = record {
  handed = All-retain _ (keeps t) s.armed f.handed;
  started = f.started;
}
step-IsFresh s (now, host_arms d) h f = record {
  handed =
      All-append _ (retain (keeps host_token) s.armed) _
        (All-retain _ (keeps host_token) s.armed f.handed) (f.started, tt);
  started = f.started;
}
step-IsFresh s (now, host_disarms) h f = record {
  handed = All-retain _ (keeps host_token) s.armed f.handed;
  started = f.started;
}
step-IsFresh s (now, cancels) h f = record { handed = f.handed; started = f.started }
step-IsFresh s (now, interrupts) h f = elim (Bool-cases (expired s now)) [
  | inl e ↦ rw (e, step) (record { handed = f.handed; started = f.started })
  | inr e ↦ rw (e, step) f
]

new-IsFresh : (clock : PauseClock) (epoch : ℕ) → IsFresh (new clock epoch)
unfolding new
new-IsFresh clock epoch = record { handed = tt; started = omega arith }

run-IsFresh :
    (s : TimeoutState) (ops : List (ℕ × Op))
    → s.next_token + length ops < wrap
    → IsFresh s
    → IsFresh (run s ops)
unfolding run
run-IsFresh s [] h f = f
run-IsFresh s (op ∷ ops) h f =
    run-IsFresh (step s op) ops (omega (arith, step-next_token s op))
      (step-IsFresh s op (omega arith) f)

retain_all : (t : ℕ) (bs : List Armed) → All (λ b. b.token < t) bs → retain (keeps t) bs ≡ bs
unfolding keeps
retain_all t [] a = refl
retain_all t (b ∷ bs) a = ground (arith, a.0, retain_all t bs a.1)

disarm_last :
    (t : ℕ) (b : Armed) (bs : List Armed)
    → b.token ≡ t
    → All (λ c. c.token < t) bs
    → retain (keeps t) (bs ++ b ∷ []) ≡ bs
unfolding keeps
disarm_last t b [] e a = ground arith
disarm_last t b (c ∷ bs) e a = ground (arith, a.0, disarm_last t b bs e a.1)

disarm-arm_fresh :
    (s : TimeoutState) (deadline now : ℕ)
    → IsValid s
    → IsFresh s
    → s.next_token + 1 < wrap
    → disarm (arm deadline now s).0 (arm deadline now s).1
      ≡ record s { next_token = s.next_token + 1 }
unfolding disarm arm recompute
disarm-arm_fresh s deadline now v f h = ground (
  arith,
  disarm_last s.next_token (budget s.next_token deadline now s) s.armed refl f.handed,
  v.cached,
)

run-next_token :
    (s : TimeoutState) (ops : List (ℕ × Op))
    → s.next_token + length ops < wrap
    → (run s ops).next_token ≤ s.next_token + length ops
unfolding run
run-next_token s [] h = omega arith
run-next_token s (op ∷ ops) h = omega (arith, step-next_token s op, run-next_token (step s op) ops)

-- After any history of fewer than 2 ^ 64 - 1 operations: a budget that is armed and then disarmed
-- by its token leaves every other budget and the deadline that the handler reads as they were; the
-- next token alone has moved on.
pub disarm-arm :
    (clock : PauseClock) (epoch : ℕ) (ops : List (ℕ × Op)) (deadline now : ℕ)
    → length ops + 2 < 18446744073709551616
    → let s = run (new clock epoch) ops in
      let (token, armed) = arm deadline now s in
      disarm token armed ≡ record s { next_token = s.next_token + 1 }
unfolding new
disarm-arm clock epoch ops deadline now h =
    disarm-arm_fresh (run (new clock epoch) ops) deadline now
      (run-IsValid (new clock epoch) ops (new-IsValid clock epoch))
      (run-IsFresh (new clock epoch) ops (omega arith) (new-IsFresh clock epoch))
      (omega (arith, run-next_token (new clock epoch) ops))
