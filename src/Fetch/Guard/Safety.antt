-- ===== src/Fetch/Guard/Safety.antt =====
-- What a URL that passes the guard satisfies, and what the resolver lets through.
use ferrijs.Prelude.{
  ℕ, ◌≡◌, subst, All-imp, All-retain_self, ◌⊎◌, inl, inr, Bool, true, false, not, List, ◌∷◌, Option,
  none, some, arith, retain, All, Option-cases, list_eq, nat_eq, list_beq_iff,
}
use ferrijs.Prelude.Result.{Result, ok, err}
use ferrijs.Text.{Text, text}
use ferrijs.Permissions.Ip.{IpAddr}
use ferrijs.Fetch.Guard.{
  NetGuard, NetPolicy, Url, IpText, ip_blocked, check_host, check_url, unbracket, resolve,
}

-- What the guard promises of a URL that it lets through.
pub record IsSafe (t : IpText) (g : NetGuard) (url : Url) (host : Text) : Type 0 where
  pub scheme : (url.scheme ≡ text "http") ⊎ (url.scheme ≡ text "https")
  pub has_host : url.host_str ≡ some host
  pub address :
      (ip : IpAddr)
      → t.parse_ip host ≡ some ip
      → ip_blocked ip g.block_metadata g.block_private ≡ false
  pub granted :
      (policy : NetPolicy)
      → g.policy ≡ some policy
      → policy (unbracket host) url.port_or_known_default ≡ ok tt

check_host-address :
    (t : IpText) (g : NetGuard) (host : Text) (port : Option ℕ)
    → check_host t g host port ≡ ok tt
    → (ip : IpAddr) → t.parse_ip host ≡ some ip
    → ip_blocked ip g.block_metadata g.block_private ≡ false
unfolding check_host
check_host-address t g host port h ip e = ground arith

check_host-granted :
    (t : IpText) (g : NetGuard) (host : Text) (port : Option ℕ)
    → check_host t g host port ≡ ok tt
    → (policy : NetPolicy) → g.policy ≡ some policy
    → policy (unbracket host) port ≡ ok tt
unfolding check_host
check_host-granted t g host port h policy e = ground arith

-- A URL that passes is `http` or `https` and has a host; if the host as it stands, with the brackets
-- of an IPv6 literal, parses as an address, that is in no blocked range, which says nothing of an
-- IPv6 literal, since brackets are no part of an address; and the policy, if there is one, grants
-- the host without brackets at the port.
pub check_url-IsSafe :
    (t : IpText) (url : Url) (g : NetGuard)
    → check_url t url g ≡ ok tt
    → (host : Text) × IsSafe t g url host
unfolding check_url
check_url-IsSafe t url g h = elim (Option-cases url.host_str) [
  | inl n ↦ absurd (ground arith)
  | inr (host, e) ↦
      let passed : check_host t g host url.port_or_known_default ≡ ok tt = ground arith in
      (
        host,
        record {
          scheme = ground (
            arith,
            list_beq_iff url.scheme (text "http"),
            list_beq_iff url.scheme (text "https"),
          );
          has_host = e;
          address = check_host-address t g host url.port_or_known_default passed;
          granted = check_host-granted t g host url.port_or_known_default passed;
        },
      )
]

false_of_not : (b : Bool) → not b ≡ true → b ≡ false
false_of_not b h = ground arith

-- No address in a blocked range comes out of the resolver, whatever the lookup answered.
pub resolve_filters :
    (m p : Bool) (lookup : Result Text (List IpAddr)) (addrs : List IpAddr)
    → resolve m p lookup ≡ ok addrs
    → All (λ ip. ip_blocked ip m p ≡ false) addrs
unfolding resolve
resolve_filters m p (err e) addrs h = cc
resolve_filters m p (ok found) addrs h =
    let kept = retain (λ ip. not (ip_blocked ip m p)) found in
    let same : kept ≡ addrs = ground arith in
    subst (All (λ ip. ip_blocked ip m p ≡ false)) same (
      All-imp (λ ip. not (ip_blocked ip m p) ≡ true) (λ ip. ip_blocked ip m p ≡ false) kept
        (λ ip. false_of_not (ip_blocked ip m p))
        (All-retain_self (λ ip. not (ip_blocked ip m p)) found))

-- A host in brackets is no literal address for the parser, so no range is blocked: without a policy
-- the URL passes, whatever address stands between the brackets.
pub check_url_brackets :
    (t : IpText) (host : Text) (g : NetGuard) (url : Url)
    → t.parse_ip (b'[' ∷ host) ≡ none
    → url.scheme ≡ text "http"
    → url.host_str ≡ some (b'[' ∷ host)
    → g.policy ≡ none
    → check_url t url g ≡ ok tt
unfolding check_url check_host
check_url_brackets t host g url p s h n = ground (arith, list_beq_iff url.scheme (text "http"))
