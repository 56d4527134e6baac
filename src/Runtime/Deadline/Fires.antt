-- ===== src/Runtime/Deadline/Fires.antt =====
-- A budget that is armed fires when its time has run out.
use ferrijs.Prelude.{
  ℕ, ◌+◌, ◌-◌, ◌≤◌, ◌<◌, ◌≡◌, ◌≢◌, ◌⊎◌, refl, sym, ◌∙◌, Bool, true, List, [], ◌∷◌, ◌++◌, arith, any,
  All, retain, Bool-cases, inl, inr, nat_eq,
}
use ferrijs.Runtime.Deadline.{
  Armed, TimeoutState, disarmed, host_token, as_millis, saturating_add, deadline_ms, elapsed_ms,
  parked_ms, recompute, budget, keeps, run_out, arm, disarm, arm_host, disarm_host, deadline_arm,
  interrupt, cancel, expired, Op, arms, disarms, host_arms, host_disarms, cancels, interrupts, step,
  run,
}
use ferrijs.Runtime.Deadline.Valid.{IsValid, step-IsValid, run-IsValid}
use ferrijs.Runtime.Deadline.Due.{is_due, expired-eq}

-- The operation disarms another token.
abbrev pub Spares : ℕ → ℕ × Op → Type 0
Spares t (now, disarms u) = u ≢ t
Spares t (now, arms d) = Unit
Spares t (now, host_arms d) = Unit
Spares t (now, host_disarms) = Unit
Spares t (now, cancels) = Unit
Spares t (now, interrupts) = Unit

Holds : Armed → List Armed → Type 0
Holds b [] = ⊥
Holds b (c ∷ bs) = (b ≡ c) ⊎ Holds b bs

Holds-append : (b : Armed) (bs cs : List Armed) → Holds b bs → Holds b (bs ++ cs)
unfolding Holds
Holds-append b [] cs h = absurd h
Holds-append b (c ∷ bs) cs (inl e) = inl e
Holds-append b (c ∷ bs) cs (inr h) = inr (Holds-append b bs cs h)

Holds-last : (b : Armed) (bs : List Armed) → Holds b (bs ++ b ∷ [])
unfolding Holds
Holds-last b [] = inl refl
Holds-last b (c ∷ bs) = inr (Holds-last b bs)

Holds-retain :
    (t : ℕ) (b : Armed) (bs : List Armed) → t ≢ b.token → Holds b bs → Holds b (retain (keeps t) bs)
unfolding Holds keeps
Holds-retain t b [] n h = absurd h
Holds-retain t b (c ∷ bs) n (inl e) = elim (Bool-cases (keeps t c)) [
  | inl k ↦ rw (k, keeps) (inl e)
  | inr k ↦ absurd (ground (arith, n))
]
Holds-retain t b (c ∷ bs) n (inr h) = elim (Bool-cases (keeps t c)) [
  | inl k ↦ rw (k, keeps) (inr (Holds-retain t b bs n h))
  | inr k ↦ rw (k, keeps) (Holds-retain t b bs n h)
]

any_of_Holds :
    (p : Armed → Bool) (b : Armed) (bs : List Armed) → Holds b bs → p b ≡ true → any p bs ≡ true
unfolding Holds
any_of_Holds p b [] h e = absurd h
any_of_Holds p b (c ∷ bs) (inl i) e = ground arith
any_of_Holds p b (c ∷ bs) (inr h) e = ground (arith, any_of_Holds p b bs h e)

Holds-step :
    (b : Armed) (s : TimeoutState) (op : ℕ × Op)
    → b.token ≢ host_token
    → Spares b.token op
    → Holds b s.armed
    → Holds b (step s op).armed
unfolding step arm deadline_arm arm_host disarm_host disarm cancel interrupt recompute
Holds-step b s (now, arms d) n u h = Holds-append b s.armed _ h
Holds-step b s (now, disarms t) n u h = Holds-retain t b s.armed u h
Holds-step b s (now, host_arms d) n u h =
    Holds-append b _ _ (Holds-retain host_token b s.armed (λ e. n (sym e)) h)
Holds-step b s (now, host_disarms) n u h = Holds-retain host_token b s.armed (λ e. n (sym e)) h
Holds-step b s (now, cancels) n u h = h
Holds-step b s (now, interrupts) n u h = elim (Bool-cases (expired s now)) [
  | inl e ↦ rw (e, step) h
  | inr e ↦ rw (e, step) h
]

-- What an entry is compared with is never written.
run_out-step :
    (b : Armed) (s : TimeoutState) (op : ℕ × Op) (now : ℕ)
    → run_out (step s op) now b ≡ run_out s now b
unfolding run_out parked_ms elapsed_ms step arm deadline_arm arm_host disarm_host disarm cancel
    interrupt recompute
run_out-step b s (at, arms d) now = refl
run_out-step b s (at, disarms t) now = refl
run_out-step b s (at, host_arms d) now = refl
run_out-step b s (at, host_disarms) now = refl
run_out-step b s (at, cancels) now = refl
run_out-step b s (at, interrupts) now = elim (Bool-cases (expired s at)) [
  | inl e ↦ rw (e, step) refl
  | inr e ↦ rw (e, step) refl
]

stays_due :
    (b : Armed) (s : TimeoutState) (ops : List (ℕ × Op)) (now : ℕ)
    → b.token ≢ host_token
    → All (Spares b.token) ops
    → Holds b s.armed
    → run_out s now b ≡ true
    → any (run_out (run s ops) now) (run s ops).armed ≡ true
unfolding run
stays_due b s [] now n u h e = any_of_Holds (run_out s now) b s.armed h e
stays_due b s (op ∷ ops) now n u h e =
    stays_due b (step s op) ops now n u.1 (Holds-step b s op n u.0 h) (run_out-step b s op now ∙ e)

-- The time of the budget has run out: the milliseconds to its deadline and those parked since it
-- was armed have elapsed. A clock of 2 ^ 64 milliseconds is not full.
abbrev pub HasRunOut : ℕ → ℕ → TimeoutState → ℕ → Type 0
HasRunOut deadline armed_at s now =
    (as_millis (deadline - s.epoch) + (parked_ms s now - parked_ms s armed_at)
      ≤ as_millis (now - s.epoch))
    × (as_millis (now - s.epoch) < disarmed)

run_out-budget :
    (t deadline armed_at : ℕ) (s : TimeoutState) (now : ℕ)
    → HasRunOut deadline armed_at s now
    → run_out s now (budget t deadline armed_at s) ≡ true
unfolding run_out budget deadline_ms saturating_add elapsed_ms
run_out-budget t deadline armed_at s now h = ground arith

-- A budget that is armed is not forgotten: whatever is armed, disarmed, cancelled or interrupted
-- in between, and whenever, if nothing disarms its own token, the handler finds the deadline
-- expired once the time of the budget has run out. The token is not the slot of the host.
pub arm_fires :
    (s : TimeoutState) (deadline armed_at : ℕ) (ops : List (ℕ × Op)) (now : ℕ)
    → IsValid s
    → s.next_token ≢ host_token
    → All (Spares s.next_token) ops
    → HasRunOut deadline armed_at s now
    → expired (run (arm deadline armed_at s).1 ops) now ≡ true
unfolding arm recompute is_due step run_out parked_ms elapsed_ms
arm_fires s deadline armed_at ops now v n u h =
    expired-eq _ now (run-IsValid armed ops (step-IsValid s (armed_at, arms deadline) v))
    ∙ ground (
      arith,
      stays_due b armed ops now n u (Holds-last b s.armed)
          (run_out-budget s.next_token deadline armed_at s now h),
    )
  where
    b : Armed
    b = budget s.next_token deadline armed_at s

    armed : TimeoutState
    armed = (arm deadline armed_at s).1
