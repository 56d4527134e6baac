-- ===== src/Fetch/Guard.antt =====
-- crates/ferrijs-fetch/src/net_guard.rs: which URLs a request may go to, and which resolved
-- addresses it may connect to. A URL, as the `url` crate parses it, is the three parts that the
-- code reads. The DNS lookup and `str::parse::<IpAddr>` are parameters.
pub mod Safety
use ferrijs.Prelude.{
  ℕ, Bool, true, false, not, ◌&&◌, ◌||◌, List, [], ◌∷◌, ◌++◌, Option, none, some, if◌then◌else◌,
  is_empty, retain, ◌==◌, list_eq, nat_eq,
}
use ferrijs.Prelude.Result.{Result, ok, err, ◌>>=◌}
use ferrijs.Text.{Text, text, trim_start_matches, trim_end_matches}
use ferrijs.Permissions.Allow.{Denied}
use ferrijs.Permissions.Policy.{Permissions, Checked, check_net}
use ferrijs.Permissions.Ip.{IpAddr, is_metadata_ip, is_private_ip}

-- `NetPolicy`: what `check` answers for a host and a port.
abbrev pub NetPolicy : Type 0
NetPolicy = Text → Option ℕ → Checked

-- `impl NetPolicy for Permissions`
abbrev pub permissions_policy : Permissions → NetPolicy
permissions_policy p host port = check_net p host port

pub data GuardError : Type 0 where
  invalid blocked : Text → GuardError
  denied : Denied → GuardError

pub record NetGuard : Type 0 where
  pub policy : Option NetPolicy
  pub block_metadata : Bool
  pub block_private : Bool

unfoldable pub is_active : NetGuard → Bool
is_active g =
    elim g.policy [ some _ ↦ true | none ↦ false ] || (g.block_metadata || g.block_private)

unfoldable pub dns_filter : NetGuard → Option (Bool × Bool)
dns_filter g =
    if g.block_metadata || g.block_private then some (g.block_metadata, g.block_private) else none

unfoldable pub ip_blocked : IpAddr → Bool → Bool → Bool
ip_blocked ip block_metadata block_private =
    block_metadata && is_metadata_ip ip || block_private && is_private_ip ip

-- What the code reads of a `reqwest::Url`. The host is as `host_str` gives it, an IPv6 address
-- between brackets.
pub record Url : Type 0 where
  pub scheme : Text
  pub host_str : Option Text
  pub port_or_known_default : Option ℕ

abbrev pub unbracket : Text → Text
unbracket host = trim_end_matches (λ c. c == b']') (trim_start_matches (λ c. c == b'[') host)

-- `str::parse::<IpAddr>` and `impl Display for IpAddr`.
pub record IpText : Type 0 where
  pub parse_ip : Text → Option IpAddr
  pub display_ip : IpAddr → Text

-- The literal address of the host, if it lies in a blocked range.
unfoldable pub blocked_literal : IpText → NetGuard → Text → Option IpAddr
blocked_literal t g host = elim (t.parse_ip host) [
  | some ip ↦ if ip_blocked ip g.block_metadata g.block_private then some ip else none
  | none ↦ none
]

unfoldable pub ask_policy : Option NetPolicy → Text → Option ℕ → Result GuardError (Unit {0})
ask_policy none host port = ok tt
ask_policy (some policy) host port = elim (policy host port) [
  | ok u ↦ ok tt
  | err d ↦ err (denied d)
]

unfoldable pub check_host : IpText → NetGuard → Text → Option ℕ → Result GuardError (Unit {0})
unfolding blocked_literal ask_policy
check_host t g host port = elim (blocked_literal t g host) [
  | some ip ↦ err (
      blocked (
        text "request to blocked address "
        ++ (t.display_ip ip ++ text " (sandbox network policy)")))
  | none ↦ ask_policy g.policy (unbracket host) port
]

unfoldable pub check_url : IpText → Url → NetGuard → Result GuardError (Unit {0})
unfolding check_host
check_url t url g =
    if not (url.scheme == text "http") && not (url.scheme == text "https")
    then err (
        invalid (
          text "scheme \""
          ++ (url.scheme ++ text "\" is not permitted by the sandbox network policy")))
    else elim url.host_str [
      | none ↦ err (invalid (text "request to a URL with no host is not permitted"))
      | some host ↦ check_host t g host url.port_or_known_default
    ]

-- `preflight`, with the URL parser as a parameter.
unfoldable pub preflight :
    IpText → (Text → Option Url) → Text → NetGuard → Result GuardError (Unit {0})
unfolding check_url
preflight t parse_url resolved_url g = elim (parse_url resolved_url) [
  | some url ↦ check_url t url g
  | none ↦ err (
      invalid (
        text "request to invalid/relative URL \""
        ++ (resolved_url ++ text "\" is not permitted by the sandbox network policy")))
]

-- `GuardedResolver::resolve` on the answer of the lookup; an error is its message.
unfoldable pub resolve : Bool → Bool → Result Text (List IpAddr) → Result Text (List IpAddr)
unfolding ip_blocked
resolve block_metadata block_private lookup = lookup >>= λ addrs.
    let kept = retain (λ ip. not (ip_blocked ip block_metadata block_private)) addrs in
    if not (is_empty addrs) && is_empty kept
    then err (text "all resolved addresses blocked by sandbox network policy")
    else ok kept
