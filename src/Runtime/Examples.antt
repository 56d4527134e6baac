-- ===== src/Runtime/Examples.antt =====
-- Deadlines and pools of realms at concrete inputs, after the tests of
-- crates/ferrijs/src/limits.rs.
use mathlib.Core.Option
use mathlib.Core.List.{Nodup, Nodup-cons, Nodup-nil, Mem, mem-cons, not-mem-nil}
use mathlib.Core.HLevel.{⊥_prop}
use mathlib.Core.Logic.Or
use ferrijs.Prelude.{
  ℕ, ◌+◌, ◌≡◌, ◌≢◌, refl, All, true, false, List, [], ◌∷◌, ◌++◌, some, arith, ◌-◌, ◌*◌,
  if◌then◌else◌, leb, length,
}
use ferrijs.Prelude.Result.{ok, err}
use ferrijs.Runtime.Deadline.{
  PauseClock, never_parked, new, arm, disarm, expired, Op, arms, disarms, host_arms, host_disarms,
  interrupts, run,
}
use ferrijs.Runtime.Deadline.Valid.{run-IsValid, new-IsValid}
use ferrijs.Runtime.Deadline.Due.{is_due, expired-run}
use ferrijs.Runtime.Deadline.Tokens.{disarm-arm}
use ferrijs.Runtime.Deadline.Fires.{arm_fires}
use ferrijs.Runtime.RealmPool.{Event, takes, filled, acquire}
use ferrijs.Runtime.RealmPool
use ferrijs.Runtime.RealmPool.Filled.{IsBounded, pool_settles, all_built}
use ferrijs.Runtime.RealmPool.Owned.{built, owned, pool_run}

-- Every instant is a second, in nanoseconds.
abbrev second : ℕ
second = 1000000000

-- A debugger stopped the process for the seconds from the third to the tenth.
stopped : PauseClock
stopped = record {
  parked_now = λ now.
      if leb now (3 * second)
      then 0
      else (if leb now (10 * second) then now - 3 * second else 7 * second);
  never_parks = false;
}

-- A far and a near budget; the far one ends first.
abbrev overlapping : List (ℕ × Op)
overlapping =
    (1 * second, arms (60 * second))
    ∷ (2 * second, arms (5 * second))
    ∷ (2 * second, disarms 1)
    ∷ []

near_expires : expired (run (new never_parked 0) overlapping) (6 * second) ≡ true
unfolding expired run new never_parked
near_expires = refl

-- The stop is given back: the near budget runs out at the twelfth second.
parked_kept : expired (run (new stopped 0) overlapping) (11 * second) ≡ false
unfolding expired run new stopped
parked_kept = refl

parked_expires : expired (run (new stopped 0) overlapping) (12 * second) ≡ true
unfolding expired run new stopped
parked_expires = refl

expired-run_example :
    let s = run (new stopped 0) overlapping in expired s (11 * second) ≡ is_due s (11 * second)
expired-run_example = expired-run stopped 0 overlapping (11 * second)

disarm-arm_example :
    let s = run (new stopped 0) overlapping in
    let (token, armed) = arm (4 * second) (3 * second) s in
    disarm token armed ≡ record s { next_token = s.next_token + 1 }
unfolding new run
disarm-arm_example = disarm-arm stopped 0 overlapping (4 * second) (3 * second) (omega arith)

-- What other runs do while the budget of the third is armed.
abbrev others : List (ℕ × Op)
others =
    (3 * second, arms (90 * second))
    ∷ (3 * second, disarms 2)
    ∷ (4 * second, host_arms 1)
    ∷ (5 * second, interrupts)
    ∷ (5 * second, host_disarms)
    ∷ []

arm_fires_example :
    expired
      (run (arm (5 * second) (2 * second) (run (new stopped 0) overlapping)).1 others)
      (13 * second)
    ≡ true
unfolding run new stopped
arm_fires_example =
    arm_fires (run (new stopped 0) overlapping) (5 * second) (2 * second) others (13 * second)
      (run-IsValid (new stopped 0) overlapping (new-IsValid stopped 0)) (omega arith) (omega arith)
      (omega arith)

-- Two builds end, one of them badly; three takes, of which one finds nothing ready; a build ends.
abbrev busy : List (Event ℕ ℕ)
busy =
    filled (ok 1) ∷ filled (err 9) ∷ takes (ok 7) ∷ takes (ok 2) ∷ takes (ok 8) ∷ filled (ok 3) ∷ []

handed_out :
    Option.map (λ t. t.0) (RealmPool.run ℕ ℕ ([], RealmPool.new ℕ ℕ 2) busy) ≡ some (1 ∷ 2 ∷ 8 ∷ [])
unfolding RealmPool.run RealmPool.new RealmPool.step
handed_out = refl

abbrev IsDistinct : List ℕ → Type 0
IsDistinct [] = Unit
IsDistinct (x ∷ xs) = All (λ y. x ≢ y) xs × IsDistinct xs

not-mem_of_All : (x : ℕ) (xs : List ℕ) → All (λ y. x ≢ y) xs → ¬ Mem x xs
not-mem_of_All x [] a m = not-mem-nil m
not-mem_of_All x (y ∷ ys) a m = Or.elim ⊥_prop (mem-cons.0 m) a.0 (not-mem_of_All x ys a.1)

Nodup-of_IsDistinct : (xs : List ℕ) → IsDistinct xs → Nodup xs
Nodup-of_IsDistinct [] d = Nodup-nil
Nodup-of_IsDistinct (x ∷ xs) d = Nodup-cons.1 (not-mem_of_All x xs d.0, Nodup-of_IsDistinct xs d.1)

pool_run_example :
    (t : List ℕ × RealmPool.RealmPool ℕ ℕ) × (RealmPool.run ℕ ℕ ([], RealmPool.new ℕ ℕ 2) busy
      ≡ some t)
    × IsBounded ℕ ℕ t.1
    × (t.1.target ≡ 2)
    × Nodup (owned ℕ ℕ t)
pool_run_example = pool_run ℕ ℕ 2 busy (Nodup-of_IsDistinct (built ℕ ℕ busy) (omega arith))

pool_settles_example :
    (t : List ℕ × RealmPool.RealmPool ℕ ℕ) × (RealmPool.run ℕ ℕ ([], RealmPool.new ℕ ℕ 2) busy
      ≡ some t)
    × (let (answer, q) = acquire ℕ ℕ (ok 4) t.1 in
        (out : List ℕ) (realms : List ℕ)
        → length realms ≡ q.spawned
        → (r : RealmPool.RealmPool ℕ ℕ) × (RealmPool.run ℕ ℕ (out, q) (all_built ℕ ℕ realms)
            ≡ some (out, r))
          × (r.ready ≡ q.ready ++ realms)
          × (length r.ready ≡ 2)
          × (r.building ≡ 0))
pool_settles_example = pool_settles ℕ ℕ 2 busy (ok 4)
