-- ===== src/Runtime/Deadline/Valid.antt =====
-- The invariant of the state: the cached deadline is the least of the armed ones.
use ferrijs.Prelude.{
  ℕ, ◌+◌, ◌%◌, ◌<◌, ◌≡◌, refl, List, [], ◌∷◌, Option, none, some, arith, All, All-append,
  All-retain, retain, Bool-cases, inl, inr,
}
use ferrijs.Runtime.Deadline.{
  PauseClock, Armed, TimeoutState, disarmed, host_token, deadline_ms, earliest, recompute, budget,
  keeps, new, arm, disarm, arm_host, disarm_host, deadline_arm, interrupt, cancel, expired, Op,
  arms, disarms, host_arms, host_disarms, cancels, interrupts, step, run,
}

-- `u64::MAX` is no deadline: it says that nothing is armed.
abbrev pub IsArmable : Armed → Type 0
IsArmable b = b.deadline_ms < disarmed

abbrev pub or_disarmed : Option ℕ → ℕ
or_disarmed none = disarmed
or_disarmed (some m) = m

pub record IsValid (s : TimeoutState) : Type 0 where
  pub cached : s.earliest_ms ≡ or_disarmed (earliest s.armed)
  pub armable : All IsArmable s.armed

pub new-IsValid : (clock : PauseClock) (now : ℕ) → IsValid (new clock now)
unfolding new earliest
new-IsValid clock now = record { cached = refl; armable = tt }

pub recompute-IsValid :
    (armed : List Armed) (s : TimeoutState) → All IsArmable armed → IsValid (recompute armed s)
unfolding recompute
recompute-IsValid armed s a = record { cached = ground arith; armable = a }

budget-IsArmable : (t d now : ℕ) (s : TimeoutState) → IsArmable (budget t d now s)
unfolding budget deadline_ms
budget-IsArmable t d now s = ground arith

pub disarm-IsValid : (t : ℕ) (s : TimeoutState) → IsValid s → IsValid (disarm t s)
unfolding disarm
disarm-IsValid t s v = recompute-IsValid _ s (All-retain IsArmable (keeps t) s.armed v.armable)

pub step-IsValid : (s : TimeoutState) (op : ℕ × Op) → IsValid s → IsValid (step s op)
unfolding step arm deadline_arm arm_host disarm_host cancel interrupt
step-IsValid s (now, arms d) v =
    recompute-IsValid _ (record s { next_token = (s.next_token + 1) % 18446744073709551616 })
      (All-append IsArmable s.armed _ v.armable (budget-IsArmable s.next_token d now s, tt))
step-IsValid s (now, disarms t) v = disarm-IsValid t s v
step-IsValid s (now, host_arms d) v = recompute-IsValid _ s (
    All-append IsArmable (retain (keeps host_token) s.armed) _
      (All-retain IsArmable (keeps host_token) s.armed v.armable)
      (budget-IsArmable host_token (now + d) now s, tt))
step-IsValid s (now, host_disarms) v = disarm-IsValid host_token s v
step-IsValid s (now, cancels) v = record { cached = v.cached; armable = v.armable }
step-IsValid s (now, interrupts) v = elim (Bool-cases (expired s now)) [
  | inl e ↦ rw (e, step) (record { cached = v.cached; armable = v.armable })
  | inr e ↦ rw (e, step) v
]

pub run-IsValid : (s : TimeoutState) (ops : List (ℕ × Op)) → IsValid s → IsValid (run s ops)
unfolding run
run-IsValid s [] v = v
run-IsValid s (op ∷ ops) v = run-IsValid (step s op) ops (step-IsValid s op v)
