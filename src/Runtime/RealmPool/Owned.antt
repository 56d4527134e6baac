-- ===== src/Runtime/RealmPool/Owned.antt =====
-- A realm leaves the pool for good: no two takers get the same one.
use mathlib.Core.List.{Nodup, Nodup-append, append-nil, append_assoc, perm_append_comm}
use mathlib.Core.List.Perm
use ferrijs.Prelude.{ℕ, zero, suc, ◌≡◌, refl, sym, subst, ◌∙◌, List, [], ◌∷◌, ◌++◌, some, arith}
use ferrijs.Prelude.Result.{Result, ok, err}
use ferrijs.Runtime.RealmPool.{
  RealmPool, refill, new, pop_front, acquire, push_built, Event, takes, filled, run,
}
use ferrijs.Runtime.RealmPool.Filled.{
  IsBounded, new-IsBounded, ended, after, step-IsBounded, run-cons,
}

drop_middle {ℓ} : {A : Type ℓ} (a u b : List A) → Nodup ((a ++ u) ++ b) → Nodup (a ++ b)
drop_middle a u b h =
    (Nodup-append.0 (
      subst Nodup (sym (append_assoc a b u)) (
        Perm.nodup (Perm.append_left a (perm_append_comm u b))
          (subst Nodup (append_assoc a u b) h)))).0

module _ (Realm Error : Type 0) where
  -- The realms that the builds of a history answer, if all of them are asked for.
  abbrev pub answered : Result Error Realm → List Realm
  answered (ok r) = r ∷ []
  answered (err e) = []

  abbrev pub built : List (Event Realm Error) → List Realm
  built [] = []
  built (takes inline ∷ es) = answered inline ++ built es
  built (filled b ∷ es) = answered b ++ built es

  abbrev answer_of : Event Realm Error → List Realm
  answer_of (takes inline) = answered inline
  answer_of (filled b) = answered b

  -- Every realm that was handed out or is ready.
  abbrev pub owned : List Realm × RealmPool Realm Error → List Realm
  owned (out, p) = out ++ p.ready

  push_built-eq :
      (b : Result Error Realm) (rs : List Realm) → push_built Realm Error b rs ≡ rs ++ answered b
  unfolding push_built
  push_built-eq (ok r) rs = refl
  push_built-eq (err e) rs = sym (append-nil rs)

  -- A take moves a ready realm, or hands out the one that is built for it.
  taken-owned :
      (out : List Realm) (p : RealmPool Realm Error) (inline : Result Error Realm) (rs : List Realm)
      → p.ready ≡ rs
      → (u : List Realm) × (owned (after Realm Error out p (takes inline)) ++ u
          ≡ (out ++ rs) ++ answered inline)
  unfolding after acquire refill pop_front push_built
  taken-owned out p inline [] e = (
    [],
    ground (
      arith,
      push_built-eq inline out,
      append-nil {A = Realm} out,
      append-nil (out ++ answered inline),
    ),
  )
  taken-owned out p inline (r ∷ rs) e =
      (answered inline, ground (arith, append_assoc out (r ∷ []) rs))

  ended-owned :
      (out : List Realm) (p : RealmPool Realm Error) (b : Result Error Realm) (k : ℕ)
      → p.spawned ≡ k
      → (u : List Realm) × (owned (after Realm Error out p (filled b)) ++ u
          ≡ (out ++ p.ready) ++ answered b)
  unfolding after ended
  ended-owned out p b zero e = (answered b, ground arith)
  ended-owned out p b (suc n) e = (
    [],
    ground (
      arith,
      push_built-eq b p.ready,
      append-nil (out ++ (p.ready ++ answered b)),
      append_assoc out p.ready (answered b),
    ),
  )

  moved :
      (out : List Realm) (p : RealmPool Realm Error) (e : Event Realm Error)
      → (u : List Realm) × (owned (after Realm Error out p e) ++ u ≡ owned (out, p) ++ answer_of e)
  moved out p (takes inline) = taken-owned out p inline p.ready refl
  moved out p (filled b) = ended-owned out p b p.spawned refl

  built-cons :
      (e : Event Realm Error) (es : List (Event Realm Error))
      → built (e ∷ es) ≡ answer_of e ++ built es
  built-cons (takes inline) es = refl
  built-cons (filled b) es = refl

  regrouped :
      (e : Event Realm Error) (es : List (Event Realm Error)) (before now : List Realm)
      → now ≡ before ++ answer_of e
      → before ++ built (e ∷ es) ≡ now ++ built es
  regrouped e es before now h =
      rw (h, built-cons e es) (sym (append_assoc before (answer_of e) (built es)))

  run-owned :
      (out : List Realm) (p : RealmPool Realm Error) (es : List (Event Realm Error))
      → IsBounded Realm Error p
      → Nodup (owned (out, p) ++ built es)
      → (t : List Realm × RealmPool Realm Error) × (run Realm Error (out, p) es ≡ some t)
        × IsBounded Realm Error t.1
        × (t.1.target ≡ p.target)
        × Nodup (owned t)
  unfolding run
  run-owned out p [] b d = ((out, p), refl, b, refl, subst Nodup (append-nil (owned (out, p))) d)
  run-owned out p (e ∷ es) b d =
      let (stepped, v, same) = step-IsBounded Realm Error out p e b in
      let (u, eq) = moved out p e in
      let (q, r) = after Realm Error out p e in
      let rest = run-owned q r es v (
        drop_middle (owned (q, r)) u (built es)
          (subst Nodup (regrouped e es (owned (out, p)) (owned (q, r) ++ u) eq) d)) in
      (rest.0, run-cons Realm Error _ _ e es stepped ∙ rest.1, rest.2, rest.3 ∙ same, rest.4)

  -- Whatever is taken and whichever builds end or fail, in any order, if no two builds answer the
  -- same realm: the pool never panics, it never holds and builds more realms than its target, no
  -- realm is handed out twice, and none that was handed out is still in the pool.
  pub pool_run :
      (n : ℕ) (es : List (Event Realm Error))
      → Nodup (built es)
      → (t : List Realm × RealmPool Realm Error) × (run Realm Error ([], new Realm Error n) es
          ≡ some t)
        × IsBounded Realm Error t.1
        × (t.1.target ≡ n)
        × Nodup (owned t)
  unfolding new
  pool_run n es d = run-owned [] (new Realm Error n) es (new-IsBounded Realm Error n) d
