-- ===== src/Runtime/RealmPool/Filled.antt =====
-- How many realms a pool holds and builds, and that it fills up.
use mathlib.Core.List.{append-nil, append_assoc}
use ferrijs.Prelude.{
  ℕ, zero, suc, ◌+◌, ◌-◌, ◌≤◌, ◌≡◌, refl, sym, ap, ◌∙◌, List, [], ◌∷◌, ◌++◌, some, arith, length,
  length-append,
}
use ferrijs.Prelude.Result.{Result, ok, err}
use ferrijs.Runtime.RealmPool.{
  RealmPool, refill, new, pop_front, acquire, push_built, fill, Event, takes, filled, step, run,
}

module _ (Realm Error : Type 0) where
  -- Every build that is counted is in flight, and there are never more realms than the target.
  pub record IsBounded (p : RealmPool Realm Error) : Type 0 where
    pub counted : p.building ≡ p.spawned
    pub within : length p.ready + p.building ≤ p.target

  pub new-IsBounded : (n : ℕ) → IsBounded (new Realm Error n)
  unfolding new
  new-IsBounded n = ground arith

  pop_front-le : (rs : List Realm) → length (pop_front Realm Error rs).1 ≤ length rs
  unfolding pop_front
  pop_front-le [] = omega arith
  pop_front-le (r ∷ rs) = omega arith

  -- After a take the ready realms and those in flight make up the target.
  pub acquire_tops_up :
      (inline : Result Error Realm) (p : RealmPool Realm Error)
      → IsBounded p
      → let q = (acquire Realm Error inline p).1 in
        IsBounded q × (length q.ready + q.building ≡ q.target) × (q.target ≡ p.target)
  unfolding acquire refill
  acquire_tops_up inline p b = ground (arith, pop_front-le p.ready)

  -- The pool after the end of a build in flight.
  unfoldable pub ended : Result Error Realm → RealmPool Realm Error → RealmPool Realm Error
  ended built p = record p {
    building = p.building - 1;
    ready = push_built Realm Error built p.ready;
    spawned = p.spawned - 1;
  }

  pub fill-eq-ended :
      (built : Result Error Realm) (p : RealmPool Realm Error) (n : ℕ)
      → p.building ≡ suc n
      → fill Realm Error built p ≡ some (ended built p)
  unfolding fill ended
  fill-eq-ended built p n e = ground arith

  length-push_built :
      (built : Result Error Realm) (rs : List Realm)
      → length (push_built Realm Error built rs) ≤ length rs + 1
  unfolding push_built
  length-push_built (ok r) rs = omega (arith, length-append {0} rs (r ∷ []))
  length-push_built (err e) rs = omega arith

  ended-IsBounded :
      (built : Result Error Realm) (p : RealmPool Realm Error) (n : ℕ)
      → p.spawned ≡ suc n
      → IsBounded p
      → IsBounded (ended built p)
  unfolding ended
  ended-IsBounded built p n e b = ground (arith, length-push_built built p.ready)

  pub flight_ends :
      (built : Result Error Realm) (out : List Realm) (p : RealmPool Realm Error) (n : ℕ)
      → p.spawned ≡ suc n
      → IsBounded p
      → step Realm Error (out, p) (filled built) ≡ some (out, ended built p)
  unfolding step
  flight_ends built out p n e b = ground (arith, fill-eq-ended built p n)

  -- What a step leaves: with no build in flight, none ends.
  unfoldable pub after :
      List Realm → RealmPool Realm Error → Event Realm Error → List Realm × RealmPool Realm Error
  unfolding ended
  after out p (takes inline) =
      let (answer, q) = acquire Realm Error inline p in (push_built Realm Error answer out, q)
  after out p (filled built) = elim p.spawned [ zero ↦ (out, p) | suc n ↦ (out, ended built p) ]

  in_flight :
      (built : Result Error Realm) (out : List Realm) (p : RealmPool Realm Error) (k : ℕ)
      → p.spawned ≡ k
      → IsBounded p
      → (step Realm Error (out, p) (filled built) ≡ some (after out p (filled built)))
        × IsBounded (after out p (filled built)).1
        × ((after out p (filled built)).1.target ≡ p.target)
  unfolding step after ended
  in_flight built out p zero e b = (ground arith, ground arith, ground arith)
  in_flight built out p (suc n) e b = (
    ground (arith, flight_ends built out p n),
    ground (arith, ended-IsBounded built p n e b),
    ground arith,
  )

  -- A step does not panic, and keeps the pool bounded.
  pub step-IsBounded :
      (out : List Realm) (p : RealmPool Realm Error) (e : Event Realm Error)
      → IsBounded p
      → (step Realm Error (out, p) e ≡ some (after out p e))
        × IsBounded (after out p e).1
        × ((after out p e).1.target ≡ p.target)
  unfolding step after
  step-IsBounded out p (takes inline) b = let (v, _, t) = acquire_tops_up inline p b in (refl, v, t)
  step-IsBounded out p (filled built) b = in_flight built out p p.spawned refl b

  pub run-cons :
      (s t : List Realm × RealmPool Realm Error) (e : Event Realm Error)
      (es : List (Event Realm Error))
      → step Realm Error s e ≡ some t
      → run Realm Error s (e ∷ es) ≡ run Realm Error t es
  unfolding run
  run-cons s t e es h = rw (h, run) refl

  -- All the builds in flight end well.
  abbrev pub all_built : List Realm → List (Event Realm Error)
  all_built [] = []
  all_built (r ∷ rs) = filled (ok r) ∷ all_built rs

  settle :
      (out : List Realm) (rs : List Realm) (p : RealmPool Realm Error)
      → p.spawned ≡ length rs
      → IsBounded p
      → (q : RealmPool Realm Error) × (run Realm Error (out, p) (all_built rs) ≡ some (out, q))
        × (q.ready ≡ p.ready ++ rs)
        × (q.building ≡ 0)
  unfolding run ended push_built
  settle out [] p e b = (p, refl, sym (append-nil p.ready), ground arith)
  settle out (r ∷ rs) p e b =
      let rest =
        settle out rs (ended (ok r) p) (omega arith) (ended-IsBounded (ok r) p (length rs) e b) in
      (
        rest.0,
        run-cons _ _ _ (all_built rs) (flight_ends (ok r) out p (length rs) e b) ∙ rest.1,
        rest.2 ∙ append_assoc p.ready (r ∷ []) rs,
        rest.3,
      )

  -- No history of takes and ends of builds panics, and it keeps the target.
  pub run-IsBounded :
      (out : List Realm) (p : RealmPool Realm Error) (es : List (Event Realm Error))
      → IsBounded p
      → (t : List Realm × RealmPool Realm Error) × (run Realm Error (out, p) es ≡ some t)
        × IsBounded t.1
        × (t.1.target ≡ p.target)
  unfolding run
  run-IsBounded out p [] b = ((out, p), refl, b, refl)
  run-IsBounded out p (e ∷ es) b =
      let (stepped, v, t) = step-IsBounded out p e b in
      let (last, ran, w, u) = run-IsBounded (after out p e).0 (after out p e).1 es v in
      (last, run-cons _ _ e es stepped ∙ ran, w, u ∙ t)

  filled_up :
      (q : RealmPool Realm Error) (built : List Realm) (n : ℕ)
      → length built ≡ q.spawned
      → IsBounded q
      → length q.ready + q.building ≡ q.target
      → q.target ≡ n
      → length (q.ready ++ built) ≡ n
  filled_up q built n e b full kept = omega (arith, length-append {0} q.ready built, b.counted)

  -- A pool fills up: whatever was taken and whichever builds failed, after the next take all that
  -- is missing is in flight, and once those builds have ended well, as many realms are ready as the
  -- pool was made for, and nothing is handed out or left to build.
  pub pool_settles :
      (n : ℕ) (es : List (Event Realm Error)) (inline : Result Error Realm)
      → (t : List Realm × RealmPool Realm Error) × (run Realm Error ([], new Realm Error n) es
          ≡ some t)
        × (let (answer, q) = acquire Realm Error inline t.1 in
            (out : List Realm) (built : List Realm)
            → length built ≡ q.spawned
            → (r : RealmPool Realm Error) × (run Realm Error (out, q) (all_built built)
                ≡ some (out, r))
              × (r.ready ≡ q.ready ++ built)
              × (length r.ready ≡ n)
              × (r.building ≡ 0))
  unfolding new
  pool_settles n es inline =
      let (t, ran, b, same) = run-IsBounded [] (new Realm Error n) es (new-IsBounded n) in
      let (v, full, kept) = acquire_tops_up inline t.1 b in
      (
        t,
        ran,
        λ out built e.
            let (r, ends, ready, done) = settle out built _ (sym e) v in
            (r, ends, ready, ap length ready ∙ filled_up _ built n e v full (kept ∙ same), done),
      )
