-- ===== src/Runtime/RealmPool.antt =====
-- crates/ferrijs/src/pool.rs: realms that are built ahead of need. The builds are a parameter: each
-- answers a realm or an error. A spawned task is one that is in flight until its build ends; what
-- happens to the pool is a sequence of takes and of ends of builds.
pub mod Filled
pub mod Owned
use ferrijs.Prelude.{ℕ, zero, suc, ◌+◌, ◌-◌, ◌≡◌, List, [], ◌∷◌, ◌++◌, Option, none, some, length}
use ferrijs.Prelude.Result.{Result, ok, err}

module _ (Realm Error : Type 0) where
  -- `Inner` with its `State`; `spawned` counts the tasks in flight that `refill` has spawned.
  pub record RealmPool : Type 0 where
    pub target : ℕ
    pub ready : List Realm
    pub building : ℕ
    pub spawned : ℕ

  -- `refill`: a subtraction that stops at 0, as `saturating_sub` does.
  unfoldable pub refill : RealmPool → RealmPool
  refill p =
      let missing = p.target - (length p.ready + p.building) in
      record p { building = p.building + missing; spawned = p.spawned + missing }

  unfoldable pub new : ℕ → RealmPool
  unfolding refill
  new target = refill (record { target = target; ready = []; building = 0; spawned = 0 })

  -- `VecDeque::pop_front`, and the queue that is left.
  unfoldable pub pop_front : List Realm → Option Realm × List Realm
  pop_front [] = (none, [])
  pop_front (r ∷ rs) = (some r, rs)

  -- The take, with what the inline build answers if it comes to one.
  unfoldable pub acquire : Result Error Realm → RealmPool → Result Error Realm × RealmPool
  unfolding pop_front refill
  acquire inline p =
      let (taken, rest) = pop_front p.ready in
      (elim taken [ some r ↦ ok r | none ↦ inline ], refill (record p { ready = rest }))

  -- `state.building -= 1`, which panics at 0.
  unfoldable pub less_one : ℕ → Option ℕ
  less_one zero = none
  less_one (suc n) = some n

  unfoldable pub push_built : Result Error Realm → List Realm → List Realm
  push_built (ok r) ready = ready ++ r ∷ []
  push_built (err e) ready = ready

  -- The end of `fill`, once the build has answered and the pool is still there.
  unfoldable pub fill : Result Error Realm → RealmPool → Option RealmPool
  unfolding less_one push_built
  fill built p = elim (less_one p.building) [
    | none ↦ none
    | some n ↦
        some (record p { building = n; ready = push_built built p.ready; spawned = p.spawned - 1 })
  ]

  -- What happens to a pool: a take, with the answer of the build it may need; or the end of a task
  -- in flight.
  pub data Event : Type 0 where
    takes filled : Result Error Realm → Event

  -- The realms that were handed out, the latest last, and the pool that is left; `none` is a panic.
  -- A build that ends has been spawned, so with none in flight there is no such event.
  unfoldable pub step : List Realm × RealmPool → Event → Option (List Realm × RealmPool)
  unfolding acquire fill push_built
  step (out, p) (takes inline) =
      let (answer, q) = acquire inline p in some (push_built answer out, q)
  step (out, p) (filled built) = elim p.spawned [
    | zero ↦ some (out, p)
    | suc n ↦ elim (fill built p) [ none ↦ none | some q ↦ some (out, q) ]
  ]

  unfoldable pub run : List Realm × RealmPool → List Event → Option (List Realm × RealmPool)
  run s [] = some s
  run s (e ∷ es) = elim (step s e) [ none ↦ none | some t ↦ run t es ]
