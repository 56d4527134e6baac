-- ===== src/Runtime/Deadline/Due.antt =====
-- The cached deadline against the definition that looks at every armed budget.
use ferrijs.Prelude.{
  ℕ, ◌≤◌, ◌<◌, ◌≡◌, ◌≢◌, refl, Bool, true, false, ◌||◌, List, [], ◌∷◌, arith, if◌then◌else◌, ltb,
  any, All, ◌==◌, nat_eq,
}
use ferrijs.Runtime.Deadline.{
  PauseClock, Armed, TimeoutState, disarmed, saturating_add, earliest, parked_ms, elapsed_ms,
  run_out, expired, new, Op, run,
}
use ferrijs.Runtime.Deadline.Valid.{IsArmable, or_disarmed, IsValid, new-IsValid, run-IsValid}

-- The reference: the realm is cancelled, or the time of some armed budget has run out.
unfoldable pub is_due : TimeoutState → ℕ → Bool
is_due s now = s.cancelled || any (run_out s now) s.armed

-- The least deadline of a list that is not empty is a deadline.
earliest_lt :
    (b : Armed) (bs : List Armed) → IsArmable b → or_disarmed (earliest (b ∷ bs)) < disarmed
unfolding earliest
earliest_lt b bs a = ground arith

-- A budget that has run out had its deadline behind it, so the least one is behind too.
earliest_le :
    (s : TimeoutState) (now : ℕ) (bs : List Armed)
    → All IsArmable bs
    → any (run_out s now) bs ≡ true
    → or_disarmed (earliest bs) ≤ elapsed_ms s now
unfolding earliest run_out saturating_add
earliest_le s now [] a h = cc
earliest_le s now (b ∷ bs) a h = ground (arith, a.0, earliest_le s now bs a.1)

-- Where no time is ever parked, the least deadline is that of a budget.
earliest_attained :
    (s : TimeoutState) (now : ℕ) (bs : List Armed)
    → s.never_parks ≡ true
    → All IsArmable bs
    → or_disarmed (earliest bs) ≢ disarmed
    → or_disarmed (earliest bs) ≤ elapsed_ms s now
    → any (run_out s now) bs ≡ true
unfolding earliest run_out saturating_add parked_ms
earliest_attained s now [] n a h le = absurd (h refl)
earliest_attained s now (b ∷ bs) n a h le = ground (arith, a.0, earliest_attained s now bs n a.1)

-- The branches of `expired` behind the test for cancellation, on any list with this cache.
branches :
    (s : TimeoutState) (now : ℕ) (bs : List Armed)
    → All IsArmable bs
    → s.earliest_ms ≡ or_disarmed (earliest bs)
    → (if s.earliest_ms == disarmed
        then false
        else if ltb (elapsed_ms s now) s.earliest_ms
        then false
        else if s.never_parks
        then true
        else any (run_out s now) bs)
      ≡ any (run_out s now) bs
unfolding earliest
branches s now [] a e = ground arith
branches s now (b ∷ bs) a e =
    ground
      (arith, earliest_lt b bs a.0, earliest_le s now (b ∷ bs) a, earliest_attained s now (b ∷ bs))

-- On a valid state the cached deadline answers what the armed budgets say.
pub expired-eq : (s : TimeoutState) (now : ℕ) → IsValid s → expired s now ≡ is_due s now
unfolding expired is_due
expired-eq s now v = ground (arith, branches s now s.armed v.armable v.cached)

-- After every history, whatever was armed, disarmed, cancelled or interrupted, and when: the
-- handler finds the deadline expired exactly if the realm is cancelled or some armed budget has
-- run out, the time parked since it was armed given back, although it reads only the cached
-- least deadline unless that looks due.
pub expired-run :
    (clock : PauseClock) (epoch : ℕ) (ops : List (ℕ × Op)) (now : ℕ)
    → let s = run (new clock epoch) ops in expired s now ≡ is_due s now
expired-run clock epoch ops now =
    expired-eq _ now (run-IsValid (new clock epoch) ops (new-IsValid clock epoch))
