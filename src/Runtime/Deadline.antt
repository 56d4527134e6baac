-- ===== src/Runtime/Deadline.antt =====
-- crates/ferrijs/src/limits.rs: the armed budgets of a realm and the deadline that the interrupt
-- handler reads. Instants and durations are nanoseconds; an operation that reads a clock is given
-- the instant. A `u64` of milliseconds saturates where the code does. The lock and the atomics
-- leave no trace: each operation is one step.
pub mod Valid
pub mod Due
pub mod Tokens
pub mod Fires
use ferrijs.Prelude.{
  ℕ, ◌+◌, ◌-◌, ◌/◌, ◌%◌, ◌≡◌, refl, Bool, true, false, not, ◌||◌, List, [], ◌∷◌, ◌++◌, Option, none,
  some, if◌then◌else◌, leb, ltb, retain, any, ◌==◌, nat_eq,
}

-- `PauseClock`: the time parked at an instant, and whether it can ever be reported.
pub record PauseClock : Type 0 where
  pub parked_now : ℕ → ℕ
  pub never_parks : Bool

unfoldable pub never_parked : PauseClock
never_parked = record { parked_now = λ _. 0; never_parks = true }

-- One entry of `armed`: `(token, deadline_ms, parked_at_arm_ms)`.
pub record Armed : Type 0 where
  pub token : ℕ
  pub deadline_ms : ℕ
  pub parked_at_arm_ms : ℕ

pub record TimeoutState : Type 0 where
  pub epoch : ℕ
  pub earliest_ms : ℕ
  pub armed : List Armed
  pub next_token : ℕ
  pub timed_out : Bool
  pub cancelled : Bool
  pub clock : PauseClock
  pub never_parks : Bool

-- `u64::MAX`
abbrev pub disarmed : ℕ
disarmed = 18446744073709551615

abbrev pub host_token : ℕ
host_token = 0

abbrev pub min : ℕ → ℕ → ℕ
min a b = if leb a b then a else b

-- `Duration::as_millis`
abbrev pub as_millis : ℕ → ℕ
as_millis ns = ns / 1000000

-- `u64::saturating_add`
unfoldable pub saturating_add : ℕ → ℕ → ℕ
saturating_add a b = min (a + b) disarmed

unfoldable pub new : PauseClock → ℕ → TimeoutState
new clock now = record {
  epoch = now;
  earliest_ms = disarmed;
  armed = [];
  next_token = 1;
  timed_out = false;
  cancelled = false;
  clock = clock;
  never_parks = clock.never_parks;
}

unfoldable pub deadline_ms : TimeoutState → ℕ → ℕ
deadline_ms s deadline =
    let ms = as_millis (deadline - s.epoch) in
    min (if leb ms disarmed then ms else disarmed - 1) (disarmed - 1)

-- The least deadline, by `Iterator::min`.
unfoldable pub earliest : List Armed → Option ℕ
earliest [] = none
earliest (b ∷ armed) = elim (earliest armed) [
  | none ↦ some b.deadline_ms
  | some m ↦ some (min b.deadline_ms m)
]

-- `recompute`, on the list that the state is left with.
unfoldable pub recompute : List Armed → TimeoutState → TimeoutState
unfolding earliest
recompute armed s = record s {
  armed = armed;
  earliest_ms = elim (earliest armed) [ none ↦ disarmed | some m ↦ m ];
}

unfoldable pub parked_ms : TimeoutState → ℕ → ℕ
parked_ms s now = if s.never_parks then 0 else min (as_millis (s.clock.parked_now now)) disarmed

-- The entry that `arm` and `arm_host` push.
unfoldable pub budget : ℕ → ℕ → ℕ → TimeoutState → Armed
unfolding deadline_ms parked_ms
budget token deadline now s = record {
  token = token;
  deadline_ms = deadline_ms s deadline;
  parked_at_arm_ms = parked_ms s now;
}

-- The token counter is a `u64` that wraps.
unfoldable pub arm : ℕ → ℕ → TimeoutState → ℕ × TimeoutState
unfolding budget recompute
arm deadline now s = (
  s.next_token,
  recompute (s.armed ++ budget s.next_token deadline now s ∷ [])
      (record s { next_token = (s.next_token + 1) % 18446744073709551616 }),
)

unfoldable pub keeps : ℕ → Armed → Bool
keeps token b = not (b.token == token)

unfoldable pub disarm : ℕ → TimeoutState → TimeoutState
unfolding keeps recompute
disarm token s = recompute (retain (keeps token) s.armed) s

unfoldable pub arm_host : ℕ → ℕ → TimeoutState → TimeoutState
unfolding keeps budget recompute
arm_host deadline now s =
    recompute (retain (keeps host_token) s.armed ++ budget host_token deadline now s ∷ []) s

unfoldable pub disarm_host : TimeoutState → TimeoutState
unfolding disarm
disarm_host s = disarm host_token s

unfoldable pub elapsed_ms : TimeoutState → ℕ → ℕ
elapsed_ms s now = min (as_millis (now - s.epoch)) disarmed

-- The budget has run out, the time parked since it was armed given back.
unfoldable pub run_out : TimeoutState → ℕ → Armed → Bool
unfolding saturating_add parked_ms elapsed_ms
run_out s now b =
    leb (saturating_add b.deadline_ms (parked_ms s now - b.parked_at_arm_ms)) (elapsed_ms s now)

unfoldable pub expired : TimeoutState → ℕ → Bool
unfolding run_out elapsed_ms
expired s now =
    if s.cancelled
    then true
    else if s.earliest_ms == disarmed
    then false
    else if ltb (elapsed_ms s now) s.earliest_ms
    then false
    else if s.never_parks
    then true
    else any (run_out s now) s.armed

-- `Deadline::arm` and `Deadline::disarm`, the handle of a host.
unfoldable pub deadline_arm : ℕ → ℕ → TimeoutState → TimeoutState
unfolding arm_host
deadline_arm timeout now s = arm_host (now + timeout) now s

-- The handler of crates/ferrijs/src/runtime.rs: whether the interpreter is halted.
unfoldable pub interrupt : ℕ → TimeoutState → Bool × TimeoutState
unfolding expired
interrupt now s = if expired s now then (true, record s { timed_out = true }) else (false, s)

-- The drop of an armed run guard of crates/ferrijs/src/runtime.rs, before its budget is disarmed.
unfoldable pub cancel : TimeoutState → TimeoutState
cancel s = record s { cancelled = true }

-- What reaches the state of a realm, each with the instant at which it does.
pub data Op : Type 0 where
  arms disarms host_arms : ℕ → Op
  host_disarms cancels interrupts : Op

unfoldable pub step : TimeoutState → ℕ × Op → TimeoutState
unfolding arm disarm deadline_arm disarm_host cancel interrupt
step s (now, arms deadline) = (arm deadline now s).1
step s (now, disarms token) = disarm token s
step s (now, host_arms timeout) = deadline_arm timeout now s
step s (now, host_disarms) = disarm_host s
step s (now, cancels) = cancel s
step s (now, interrupts) = (interrupt now s).1

unfoldable pub run : TimeoutState → List (ℕ × Op) → TimeoutState
unfolding step
run s [] = s
run s (op ∷ ops) = run (step s op) ops
