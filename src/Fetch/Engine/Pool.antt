-- ===== src/Fetch/Engine/Pool.antt =====
-- `ClientPool`: the clients that the engine keeps. A client is what `build_client` makes of its
-- arguments, or its fallback; a proxy's settings and the transport that they describe are types of
-- the `reqwest` crate, and whether the crate builds a client is a parameter.
pub mod Keeps
use ferrijs.Prelude.{
  ◌≡◌, ◌⊎◌, inl, inr, refl, ◌∙◌, sym, ap, Bool, true, false, ◌&&◌, List, [], ◌∷◌, Option, none,
  some, if◌then◌else◌, arith, PartialEq, ◌==◌, discrete_eq, option_eq, find, All, Bool-cases,
  Option-cases,
}
use ferrijs.Prelude.Result.{Result, ok, err}
use ferrijs.Fetch.Guard.{NetGuard, dns_filter}
use ferrijs.Fetch.Engine.Model.{FetchError}

abbrev same_flag : Bool → Bool → Bool
same_flag true b = b
same_flag false true = false
same_flag false false = true

abbrev is_none : {A : Type 0} → Option A → Bool
is_none none = true
is_none (some a) = false

-- The address filter of a resolver: whether metadata and private addresses are blocked.
pub record DnsFilter : Type 0 where
  pub block_metadata : Bool
  pub block_private : Bool

-- `ClientKey`
pub record ClientKey : Type 0 where
  pub ignore_https : Bool
  pub dns : Option DnsFilter

pub ClientKey-discrete : Discrete ClientKey
ClientKey-discrete = hlevel

instance abbrev pub client_key_eq : PartialEq ClientKey
client_key_eq = discrete_eq ClientKey-discrete

-- What comes of `build`: it succeeds, it fails, or it fails for the fallback too.
pub data Building : Type 0 where
  builds falls_back falls_back_twice : Building

-- A client with the certificate checks and the address filter of a key behind a transport; or one
-- without any of them, which follows no redirects, or all of them.
pub data Client (T : Type 0) : Type 0 where
  configured : ClientKey → Option T → Client T
  no_redirects plain : Client T

pub record ClientPool (P T : Type 0) : Type 0 where
  pub base : Option (Client T)
  pub has_jar : Bool
  pub default_ignore_https : Bool
  pub variants : List (ClientKey × Client T)
  pub proxy : Option P

module _ {P T : Type 0} where
  unfoldable pub standalone : Bool → ClientPool P T
  standalone ignore_https = record {
    base = none;
    has_jar = true;
    default_ignore_https = ignore_https;
    variants = [];
    proxy = none;
  }

  unfoldable pub bridged_pool : ClientPool P T
  bridged_pool = record {
    base = none;
    has_jar = false;
    default_ignore_https = false;
    variants = [];
    proxy = none;
  }

  unfoldable pub with_proxy : Option P → ClientPool P T → ClientPool P T
  with_proxy proxy pool = record pool { base = none; variants = []; proxy = proxy }

-- `guard.and_then(NetGuard::dns_filter)`
unfoldable pub guard_filter : Option NetGuard → Option DnsFilter
unfolding dns_filter
guard_filter none = none
guard_filter (some g) = elim (dns_filter g) [
  | none ↦ none
  | some (m, p) ↦ some (record { block_metadata = m; block_private = p })
]

unfoldable pub build_client :
    {T : Type 0} → Building → Bool → Option DnsFilter → Option T → Client T
build_client builds ignore_https dns proxy =
    configured (record { ignore_https = ignore_https; dns = dns }) proxy
build_client falls_back ignore_https dns proxy = no_redirects
build_client falls_back_twice ignore_https dns proxy = plain

-- `self.proxy.as_ref().map(Proxy::to_transport).transpose()`
unfoldable pub transport_of :
    {P T : Type 0} → (P → Result FetchError T) → Option P → Result FetchError (Option T)
transport_of to_transport none = ok none
transport_of to_transport (some p) = elim (to_transport p) [ err e ↦ err e | ok t ↦ ok (some t) ]

module _ {P T : Type 0} (to_transport : P → Result FetchError T) (building : Building) where
  -- `OnceLock::get_or_init`, on what the lock holds.
  unfoldable pub get_or_init :
      Option T → ClientPool P T → Option (Client T) → ClientPool P T × Client T
  unfolding build_client
  get_or_init transport pool (some c) = (pool, c)
  get_or_init transport pool none =
      let c = build_client building pool.default_ignore_https none transport in
      (record pool { base = some c }, c)

  unfoldable pub base_client : Option T → ClientPool P T → ClientPool P T × Client T
  unfolding get_or_init
  base_client transport pool = get_or_init transport pool pool.base

  -- `HashMap::entry` with `or_insert_with`, on the entry of the key.
  unfoldable pub or_insert_with :
      ClientKey
      → Option T
      → ClientPool P T
      → Option (ClientKey × Client T)
      → ClientPool P T × Client T
  unfolding build_client
  or_insert_with key transport pool (some (k, c)) = (pool, c)
  or_insert_with key transport pool none =
      let c = build_client building key.ignore_https key.dns transport in
      (record pool { variants = (key, c) ∷ pool.variants }, c)

  unfoldable pub variant_client : ClientKey → Option T → ClientPool P T → ClientPool P T × Client T
  unfolding or_insert_with
  variant_client key transport pool =
      or_insert_with key transport pool
        (find (λ (e : ClientKey × Client T). e.0 == key) pool.variants)

  -- `ClientPool::client`, on the proxy's transport.
  unfoldable pub client_with :
      Bool
      → Option DnsFilter
      → ClientPool P T
      → Result FetchError (Option T)
      → ClientPool P T × Result FetchError (Client T)
  unfolding base_client variant_client
  client_with ignore_https dns pool (err e) = (pool, err e)
  client_with ignore_https dns pool (ok transport) =
      let (pool', c) =
        if same_flag ignore_https pool.default_ignore_https && is_none dns
        then base_client transport pool
        else variant_client (record { ignore_https = ignore_https; dns = dns }) transport pool in
      (pool', ok c)

  unfoldable pub client :
      Bool → Option NetGuard → ClientPool P T → ClientPool P T × Result FetchError (Client T)
  unfolding transport_of guard_filter client_with
  client ignore_https guard pool =
      client_with ignore_https (guard_filter guard) pool (transport_of to_transport pool.proxy)
