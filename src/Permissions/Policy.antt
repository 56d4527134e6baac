-- ===== src/Permissions/Policy.antt =====
-- `Deny`, `Permissions`, its builders and its checks.
pub mod Ask
pub mod Narrow
use mathlib.Core.List.{filter_map}
use ferrijs.Prelude.{
  ℕ, Bool, true, false, not, ◌&&◌, ◌||◌, List, [], ◌∷◌, ◌++◌, map, Option, none, some,
  if◌then◌else◌, PartialEq, ◌==◌, nat_eq, list_eq, is_empty, any, retain, contains, find,
}
use ferrijs.Prelude.Result.{Result, ok, err, ◌>>=◌, collect}
use ferrijs.Text.{
  Text, text, to_ascii_lowercase, trim_start_matches, trim_end_matches, contains_char,
}
use ferrijs.Text.Number.{show}
use ferrijs.Permissions.Allow
use ferrijs.Permissions.Allow.{Allow, Kind, Denied, grants, intersect_with, union, map_allow}
use ferrijs.Permissions.Net
use ferrijs.Permissions.Net.{NetRule, net_rule_eq}
use ferrijs.Permissions.Path.{
  FileSystem, PathRule, CheckedPath, path_rule_eq, path_rule, checked_path, path_covers,
  path_subsumes,
}
use ferrijs.Permissions.Sys.{SysInfo, sys_info_eq, as_str}

pub record Deny : Type 0 where
  pub read : List PathRule
  pub write : List PathRule
  pub net : List NetRule
  pub env : List Text
  pub sys : List SysInfo

-- `Deny::default`
abbrev pub deny_nothing : Deny
deny_nothing = record { read = []; write = []; net = []; env = []; sys = [] }

-- `Deny::is_empty`
unfoldable pub deny_is_empty : Deny → Bool
deny_is_empty d =
    is_empty d.read && (is_empty d.write && (is_empty d.net && (is_empty d.env && is_empty d.sys)))

-- `Deny::merged`
unfoldable pub merged : Deny → Deny → Deny
merged a b = record {
  read = union a.read b.read;
  write = union a.write b.write;
  net = union a.net b.net;
  env = union a.env b.env;
  sys = union a.sys b.sys;
}

pub record Permissions : Type 0 where
  pub read : Allow PathRule
  pub write : Allow PathRule
  pub net : Allow NetRule
  pub env : Allow Text
  pub sys : Allow SysInfo
  pub deny : Deny

-- `Permissions::none`, the default.
unfoldable pub nothing : Permissions
nothing = record {
  read = Allow.none;
  write = Allow.none;
  net = Allow.none;
  env = Allow.none;
  sys = Allow.none;
  deny = deny_nothing;
}

-- `Permissions::all`
unfoldable pub everything : Permissions
everything = record {
  read = Allow.all;
  write = Allow.all;
  net = Allow.all;
  env = Allow.all;
  sys = Allow.all;
  deny = deny_nothing;
}

unfoldable pub allow_read : FileSystem → List Text → Permissions → Permissions
allow_read fs roots p = record p { read = Allow.only (map (path_rule fs) roots) }

unfoldable pub allow_write : FileSystem → List Text → Permissions → Permissions
allow_write fs roots p = record p { write = Allow.only (map (path_rule fs) roots) }

unfoldable pub allow_net : List Text → Permissions → Result Text Permissions
allow_net hosts p = collect Net.parse hosts >>= λ rules. ok (record p { net = Allow.only rules })

unfoldable pub allow_env : List Text → Permissions → Permissions
allow_env names p = record p { env = Allow.only names }

unfoldable pub allow_sys : List SysInfo → Permissions → Permissions
allow_sys items p = record p { sys = Allow.only items }

unfoldable pub allow_all_read : Permissions → Permissions
allow_all_read p = record p { read = Allow.all }

unfoldable pub allow_all_write : Permissions → Permissions
allow_all_write p = record p { write = Allow.all }

unfoldable pub allow_all_net : Permissions → Permissions
allow_all_net p = record p { net = Allow.all }

unfoldable pub allow_all_env : Permissions → Permissions
allow_all_env p = record p { env = Allow.all }

unfoldable pub allow_all_sys : Permissions → Permissions
allow_all_sys p = record p { sys = Allow.all }

unfoldable pub deny_read : FileSystem → List Text → Permissions → Permissions
deny_read fs roots p = record p {
  deny = record (p.deny) { read = p.deny.read ++ map (path_rule fs) roots };
}

unfoldable pub deny_write : FileSystem → List Text → Permissions → Permissions
deny_write fs roots p = record p {
  deny = record (p.deny) { write = p.deny.write ++ map (path_rule fs) roots };
}

-- The loop stops at the first entry that does not parse, and the policy is dropped with it.
unfoldable pub deny_net : List Text → Permissions → Result Text Permissions
deny_net [] p = ok p
deny_net (host ∷ hosts) p = Net.parse host >>= λ rule.
    deny_net hosts (record p { deny = record (p.deny) { net = p.deny.net ++ rule ∷ [] } })

unfoldable pub deny_env : List Text → Permissions → Permissions
deny_env names p = record p { deny = record (p.deny) { env = p.deny.env ++ names } }

unfoldable pub deny_sys : List SysInfo → Permissions → Permissions
deny_sys items p = record p { deny = record (p.deny) { sys = p.deny.sys ++ items } }

-- `Permissions::intersect`
unfoldable pub intersect : Permissions → Permissions → Permissions
unfolding merged
intersect p q = record {
  read = intersect_with path_subsumes p.read q.read;
  write = intersect_with path_subsumes p.write q.write;
  net = intersect_with Net.subsumes p.net q.net;
  env = intersect_with (λ a b. a == b) p.env q.env;
  sys = intersect_with (λ a b. a == b) p.sys q.sys;
  deny = merged p.deny q.deny;
}

-- `Ok(())`, or the refusal.
abbrev pub Checked : Type 0
Checked = Result Denied (Unit {0})

abbrev pub verdict : Bool → Kind → Text → Checked
verdict granted kind resource = elim granted [
  | true ↦ ok tt
  | false ↦ err (record { kind = kind; resource = resource })
]

-- The test of `check_path`. The file system is asked only where a rule has to be compared.
unfoldable pub path_granted : FileSystem → Allow PathRule → List PathRule → Text → Bool
path_granted fs Allow.none deny path = false
path_granted fs Allow.all [] path = true
path_granted fs Allow.all (r ∷ deny) path =
    let candidate = checked_path fs path in not (any (λ d. path_covers d candidate) (r ∷ deny))
path_granted fs (Allow.only rules) deny path =
    let candidate = checked_path fs path in
    not (any (λ d. path_covers d candidate) deny) && any (λ d. path_covers d candidate) rules

unfoldable pub check_path : FileSystem → Kind → Allow PathRule → List PathRule → Text → Checked
unfolding path_granted
check_path fs kind allow deny path = verdict (path_granted fs allow deny path) kind path

unfoldable pub check_read : FileSystem → Permissions → Text → Checked
unfolding check_path
check_read fs p path = check_path fs Kind.read p.read p.deny.read path

unfoldable pub check_write : FileSystem → Permissions → Text → Checked
unfolding check_path
check_write fs p path = check_path fs Kind.write p.write p.deny.write path

-- The host as `check_net` compares it: lower case, without brackets.
unfoldable pub bare_host : Text → Text
bare_host host =
    trim_end_matches (λ c. c == b']')
      (trim_start_matches (λ c. c == b'[') (to_ascii_lowercase host))

-- The resource that a network refusal names.
unfoldable pub net_resource : Text → Option ℕ → Text
net_resource host none = host
net_resource host (some p) =
    if contains_char host b':'
    then text "[" ++ (host ++ (text "]:" ++ show p))
    else host ++ (text ":" ++ show p)

unfoldable pub check_net : Permissions → Text → Option ℕ → Checked
check_net p host port =
    let host' = bare_host host in
    verdict
      (not (any (λ r. Net.covers r host' port) p.deny.net)
        && grants (λ r. Net.covers r host' port) p.net)
      Kind.net (net_resource host' port)

unfoldable pub check_env : Permissions → Text → Checked
check_env p name =
    verdict (not (contains p.deny.env name) && grants (λ n. n == name) p.env) Kind.env name

unfoldable pub check_sys : Permissions → SysInfo → Checked
check_sys p item =
    verdict (not (contains p.deny.sys item) && grants (λ i. i == item) p.sys) Kind.sys (as_str item)
