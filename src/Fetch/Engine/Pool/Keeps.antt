-- ===== src/Fetch/Engine/Pool/Keeps.antt =====
-- The clients that a pool keeps are the ones that their keys describe.
use mathlib.Core.Option.{some-injective}
use ferrijs.Prelude.{
  ◌≡◌, refl, sym, subst, Bool, true, false, ◌&&◌, ◌||◌, All-imp, List, [], ◌∷◌, Option, none, some,
  if◌then◌else◌, arith, ◌==◌, find, All, Bool-cases, and-eq-true, inl, inr,
}
use ferrijs.Prelude.Result.{Result, ok, err}
use ferrijs.Fetch.Guard.{NetGuard}
use ferrijs.Fetch.Engine.Model.{FetchError}
use ferrijs.Fetch.Engine.Pool.{
  ClientKey, Client, ClientPool, standalone, bridged_pool, with_proxy, guard_filter, build_client,
  transport_of, base_client, variant_client, client, client_with, get_or_init, or_insert_with,
  DnsFilter, Building, builds, falls_back, falls_back_twice, configured, no_redirects, plain,
  client_key_eq, same_flag, is_none,
}

find-All :
    {A : Type 0} (Q : A → Type 0) (p : A → Bool) (es : List A) (e : A)
    → All Q es
    → find p es ≡ some e
    → Q e × (p e ≡ true)
find-All Q p [] e a h = absurd cc
find-All Q p (x ∷ es) e a h = elim (Bool-cases (p x)) [
  | inl b ↦
      let i : x ≡ e = some-injective x e (ground arith) in
      (subst Q i a.0, subst (λ y. p y ≡ true) i b)
  | inr b ↦ find-All Q p es e a.1 (ground arith)
]

-- A key by its parts.
abbrev pub key_of : Bool → Option DnsFilter → ClientKey
key_of ignore_https dns = record { ignore_https = ignore_https; dns = dns }

default_key :
    (a b : Bool) (dns : Option DnsFilter)
    → same_flag a b ≡ true
    → is_none dns ≡ true
    → key_of a dns ≡ key_of b none
default_key true true none f n = refl
default_key false false none f n = refl
default_key true false dns f n = absurd cc
default_key false true dns f n = absurd cc
default_key true true (some d) f n = absurd cc
default_key false false (some d) f n = absurd cc

-- A build has failed.
abbrev pub failed : Building → Bool
failed builds = false
failed falls_back = true
failed falls_back_twice = true

module _ {P T : Type 0} (to_transport : P → Result FetchError T) where
  -- A client is the one of a key behind a proxy, or a fallback, where a build has failed.
  abbrev pub IsOf : Bool → ClientKey → Option P → Client T → Type 0
  IsOf fell_back key proxy (configured k t) = (k ≡ key) × (transport_of to_transport proxy ≡ ok t)
  IsOf fell_back key proxy no_redirects = fell_back ≡ true
  IsOf fell_back key proxy plain = fell_back ≡ true

  -- The clients of a pool are those of their keys behind the pool's proxy, the base client that of
  -- the pool's default without an address filter; or fallbacks, where a build has failed.
  pub record Keeps (fell_back : Bool) (pool : ClientPool P T) : Type 0 where
    pub base :
        (c : Client T)
        → pool.base ≡ some c
        → IsOf fell_back
            (record { ignore_https = pool.default_ignore_https; dns = none })
            pool.proxy
            c
    pub variants : All (λ e. IsOf fell_back e.0 pool.proxy e.1) pool.variants

  pub standalone-Keeps : (ignore_https : Bool) → Keeps false (standalone ignore_https)
  unfolding standalone
  standalone-Keeps ignore_https = record { base = λ c e. absurd cc; variants = tt }

  bridged_pool-Keeps : Keeps false bridged_pool
  unfolding bridged_pool
  bridged_pool-Keeps = record { base = λ c e. absurd cc; variants = tt }

  with_proxy-Keeps :
      (proxy : Option P) (pool : ClientPool P T) → Keeps false (with_proxy proxy pool)
  unfolding with_proxy
  with_proxy-Keeps proxy pool = record { base = λ c e. absurd cc; variants = tt }

  IsOf-later :
      (before now : Bool) (key : ClientKey) (proxy : Option P) (c : Client T)
      → IsOf before key proxy c
      → IsOf (before || now) key proxy c
  IsOf-later before now key proxy (configured k t) h = h
  IsOf-later before now key proxy no_redirects h = ground arith
  IsOf-later before now key proxy plain h = ground arith

  Keeps-later :
      (before now : Bool) (pool : ClientPool P T) → Keeps before pool → Keeps (before || now) pool
  Keeps-later before now pool k = record {
    base = λ c e. IsOf-later before now _ pool.proxy c (k.base c e);
    variants =
        All-imp (λ e. IsOf before e.0 pool.proxy e.1) (λ e. IsOf (before || now) e.0 pool.proxy e.1)
          pool.variants (λ e. IsOf-later before now e.0 pool.proxy e.1) k.variants;
  }

  build_client-IsOf :
      (before : Bool) (building : Building) (ignore_https : Bool) (dns : Option DnsFilter)
      (proxy : Option P) (transport : Option T)
      → transport_of to_transport proxy ≡ ok transport
      → IsOf
          (before || failed building)
          (key_of ignore_https dns)
          proxy
          (build_client building ignore_https dns transport)
  unfolding build_client
  build_client-IsOf before builds ignore_https dns proxy transport t = (refl, t)
  build_client-IsOf before falls_back ignore_https dns proxy transport t = ground arith
  build_client-IsOf before falls_back_twice ignore_https dns proxy transport t = ground arith

  -- What a client comes from: the pool that is left keeps its clients, and the client is the one
  -- asked for.
  abbrev pub Gives : Bool → ClientKey → ClientPool P T → ClientPool P T × Client T → Type 0
  Gives fell_back key pool (pool', c) =
      Keeps fell_back pool' × (pool'.proxy ≡ pool.proxy) × IsOf fell_back key pool.proxy c

  Gives-if :
      (fell_back : Bool) (key : ClientKey) (pool : ClientPool P T) (b : Bool)
      (x y : ClientPool P T × Client T)
      → (b ≡ true → Gives fell_back key pool x)
      → (b ≡ false → Gives fell_back key pool y)
      → Gives fell_back key pool (if b then x else y)
  Gives-if fell_back key pool true x y f g = f refl
  Gives-if fell_back key pool false x y f g = g refl

  -- What `client` answers, and the pool that it leaves.
  abbrev pub Answers :
      Bool → ClientKey → ClientPool P T → ClientPool P T × Result FetchError (Client T) → Type 0
  Answers fell_back key pool (pool', err e) = pool' ≡ pool
  Answers fell_back key pool (pool', ok c) = Gives fell_back key pool (pool', c)

  module _ (before : Bool) (building : Building) where
    abbrev after : Bool
    after = before || failed building

    get_or_init-Gives :
        (transport : Option T) (pool : ClientPool P T) (b : Option (Client T))
        → pool.base ≡ b
        → transport_of to_transport pool.proxy ≡ ok transport
        → Keeps before pool
        → Gives after
            (key_of pool.default_ignore_https none)
            pool
            (get_or_init to_transport building transport pool b)
    unfolding get_or_init
    get_or_init-Gives transport pool (some c) b t k = (
      Keeps-later before (failed building) pool k,
      refl,
      IsOf-later before (failed building) (key_of pool.default_ignore_https none) pool.proxy c
          (k.base c b),
    )
    get_or_init-Gives transport pool none b t k =
        let made =
          build_client-IsOf before building pool.default_ignore_https none pool.proxy transport t in
        (
          record {
            base = λ c e.
                subst (IsOf after (key_of pool.default_ignore_https none) pool.proxy)
                  (some-injective _ _ e) made;
            variants = (Keeps-later before (failed building) pool k).variants;
          },
          refl,
          made,
        )

    or_insert_with-Gives :
        (key : ClientKey) (transport : Option T) (pool : ClientPool P T)
        (found : Option (ClientKey × Client T))
        → find (λ (e : ClientKey × Client T). e.0 == key) pool.variants ≡ found
        → transport_of to_transport pool.proxy ≡ ok transport
        → Keeps before pool
        → Gives after key pool (or_insert_with to_transport building key transport pool found)
    unfolding or_insert_with
    or_insert_with-Gives key transport pool (some (k, c)) f t i =
        let later = Keeps-later before (failed building) pool i in
        let (q, e) =
          find-All (λ e. IsOf after e.0 pool.proxy e.1) (λ e. e.0 == key) pool.variants (k, c)
            later.variants f in
        (later, refl, subst (λ x. IsOf after x pool.proxy c) ((client_key_eq.eq_iff k key).0 e) q)
    or_insert_with-Gives key transport pool none f t i =
        let made =
          build_client-IsOf before building key.ignore_https key.dns pool.proxy transport t in
        let later = Keeps-later before (failed building) pool i in
        (record { base = later.base; variants = (made, later.variants) }, refl, made)

    client_with-Answers :
        (ignore_https : Bool) (dns : Option DnsFilter) (pool : ClientPool P T)
        (transport : Result FetchError (Option T))
        → transport_of to_transport pool.proxy ≡ transport
        → Keeps before pool
        → Answers after
            (key_of ignore_https dns)
            pool
            (client_with to_transport building ignore_https dns pool transport)
    unfolding client_with base_client variant_client
    client_with-Answers ignore_https dns pool (err e) t k = refl
    client_with-Answers ignore_https dns pool (ok transport) t k =
        Gives-if after (key_of ignore_https dns) pool
          (same_flag ignore_https pool.default_ignore_https && is_none dns)
          (base_client to_transport building transport pool)
          (variant_client to_transport building (key_of ignore_https dns) transport pool)
          (λ b.
            let (f, n) =
              and-eq-true (same_flag ignore_https pool.default_ignore_https) (is_none dns) b in
            subst (λ key. Gives after key pool (base_client to_transport building transport pool))
              (sym (default_key ignore_https pool.default_ignore_https dns f n))
              (get_or_init-Gives transport pool pool.base refl t k))
          (λ b.
            or_insert_with-Gives (key_of ignore_https dns) transport pool
              (find (λ (e : ClientKey × Client T). e.0 == key_of ignore_https dns) pool.variants)
              refl t k)

  -- As long as no build of a client has failed, `client` answers a client that accepts invalid
  -- certificates exactly if asked, whose resolver has exactly the address filter of the guard, and
  -- which is behind the proxy of the pool; and the pool that is left keeps such clients. Once a
  -- build has failed, it answers such a client or a fallback, and the pool keeps such clients or
  -- fallbacks. An error leaves the pool as it was.
  pub client-Keeps :
      (before : Bool) (building : Building) (ignore_https : Bool) (guard : Option NetGuard)
      (pool : ClientPool P T)
      → Keeps before pool
      → Answers
          (before || failed building)
          (key_of ignore_https (guard_filter guard))
          pool
          (client to_transport building ignore_https guard pool)
  unfolding client
  client-Keeps before building ignore_https guard pool k =
      client_with-Answers before building ignore_https (guard_filter guard) pool
        (transport_of to_transport pool.proxy) refl k
