-- ===== src/Permissions/Net.antt =====
-- `NetRule`: a host, or a wildcard over its subdomains, and a port. An error is its message.
pub mod Subsumes
use ferrijs.Prelude.{
  ℕ, zero, suc, ◌≡◌, ◌↔◌, Bool, true, false, ◌&&◌, ◌||◌, List, [], ◌∷◌, ◌++◌, Option, none, some,
  arith, if◌then◌else◌, is_empty, ltb, PartialEq, ◌==◌, nat_eq, list_eq, list_beq_iff, option_eq,
  option_beq_iff, nat_beq_iff,
}
use ferrijs.Prelude.Result.{Result, ok, err, ◌>>=◌, ok_or}
use ferrijs.Text.{
  Text, text, to_ascii_lowercase, strip_prefix, split_once, rsplit_once, count_char, trim,
  contains_char,
}
use ferrijs.Text.Affix.{has_dotted_suffix}
use ferrijs.Text.Number.{parse_u16, show}

pub record NetRule : Type 0 where
  pub host : Text
  pub port : Option ℕ

abbrev pub net_rule_beq : NetRule → NetRule → Bool
net_rule_beq a b = a.host == b.host && a.port == b.port

pub net_rule_beq_iff : (a b : NetRule) → (net_rule_beq a b ≡ true) ↔ (a ≡ b)
net_rule_beq_iff a b = ground (arith, list_beq_iff a.host b.host, option_beq_iff a.port b.port)

instance abbrev pub net_rule_eq : PartialEq NetRule
net_rule_eq = record { eq = net_rule_beq; eq_iff = net_rule_beq_iff }

-- The messages of `NetRule::parse`: `network rule `{entry}`: ...`.
unfoldable pub net_rule_error : Text → Text → Text
net_rule_error entry what = text "network rule `" ++ (entry ++ (text "`: " ++ what))

unfoldable pub parse_port : Text → Text → Result Text ℕ
unfolding net_rule_error
parse_port entry port =
    ok_or (parse_u16 port) (net_rule_error entry (text "`" ++ (port ++ text "` is not a port")))

-- What follows the `]` of a bracketed address.
unfoldable pub parse_after_address : Text → Text → Result Text (Option ℕ)
unfolding parse_port net_rule_error
parse_after_address entry after = elim (strip_prefix after (text ":")) [
  | some p ↦ (parse_port entry p >>= λ n. ok (some n))
  | none ↦
      (if is_empty after
        then ok none
        else err (net_rule_error entry (text "unexpected `" ++ (after ++ text "` after address"))))
]

-- The host and the port of a trimmed entry, before the host is lowered and checked.
unfoldable pub split_entry : Text → Result Text (Text × Option ℕ)
unfolding parse_after_address parse_port net_rule_error
split_entry entry = elim (strip_prefix entry (text "[")) [
  | some rest ↦
      (ok_or (split_once rest b']') (net_rule_error entry (text "unterminated IPv6 literal"))
        >>= λ (addr, after). parse_after_address entry after >>= λ port. ok (addr, port))
  | none ↦
      (if ltb 1 (count_char entry b':') then ok (entry, none) else elim (rsplit_once entry b':') [
        | some (host, port) ↦ (parse_port entry port >>= λ n. ok (host, some n))
        | none ↦ ok (entry, none)
      ])
]

-- `NetRule::parse` of a trimmed entry that is not empty.
unfoldable pub parse_entry : Text → Result Text NetRule
unfolding split_entry net_rule_error
parse_entry entry = split_entry entry >>= λ (host, port).
    let host' = to_ascii_lowercase host in
    if is_empty host' || host' == text "*."
    then err (net_rule_error entry (text "empty host"))
    else ok (record { host = host'; port = port })

-- `NetRule::parse`
unfoldable pub parse : Text → Result Text NetRule
unfolding parse_entry
parse entry =
    let entry' = trim entry in
    if is_empty entry' then err (text "empty network rule") else parse_entry entry'

-- The suffix of a wildcard host, `self.host.strip_prefix("*.")`.
unfoldable pub wildcard : Text → Option Text
wildcard host = strip_prefix host (text "*.")

-- The host half of `NetRule::covers`.
unfoldable pub covers_host : Text → Text → Bool
unfolding wildcard
covers_host rule host = if rule == host then true else elim (wildcard rule) [
  | some suffix ↦ host == suffix || has_dotted_suffix host suffix
  | none ↦ false
]

-- `NetRule::covers`
unfoldable pub covers : NetRule → Text → Option ℕ → Bool
unfolding covers_host
covers rule host port =
    covers_host rule.host host && elim rule.port [ none ↦ true | some p ↦ port == some p ]

-- The host half of `NetRule::subsumes`.
unfoldable pub subsumes_host : Text → Text → Bool
unfolding wildcard
subsumes_host rule other = if rule == other then true else elim (wildcard rule) [
  | some suffix ↦
      other == suffix
      || (has_dotted_suffix other suffix || elim (wildcard other) [
        | some other_suffix ↦ other_suffix == suffix || has_dotted_suffix other_suffix suffix
        | none ↦ false
      ])
  | none ↦ false
]

-- `NetRule::subsumes`
unfoldable pub subsumes : NetRule → NetRule → Bool
unfolding subsumes_host
subsumes rule other =
    subsumes_host rule.host other.host
    && (elim rule.port [ none ↦ true | some _ ↦ false ] || rule.port == other.port)

-- `impl Display for NetRule`
unfoldable pub display : NetRule → Text
display rule = elim rule.port [
  | some p ↦
      (if contains_char rule.host b':'
        then text "[" ++ (rule.host ++ (text "]:" ++ show p))
        else rule.host ++ (text ":" ++ show p))
  | none ↦ rule.host
]
