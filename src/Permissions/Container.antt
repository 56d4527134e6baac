-- ===== src/Permissions/Container.antt =====
-- `Container`: the policy of one realm with the hook and the audit of the host. The lock leaves no
-- trace: each method is one step on the container. The audit, a callback that returns nothing, is
-- the list of what it was called with, oldest first.
pub mod Checks
pub mod Extends
pub mod Life
use ferrijs.Prelude.{
  ℕ, Bool, true, false, not, ◌&&◌, List, [], ◌∷◌, ◌++◌, Option, none, some, if◌then◌else◌, is_empty,
  ◌==◌, list_eq, nat_eq,
}
use ferrijs.Prelude.Result.{Result, ok, err, ◌>>=◌, is_ok}
use ferrijs.Text.{Text, text}
use ferrijs.Text.Number.{show}
use ferrijs.Permissions.Allow.{Allow, Kind, Denied, is_all}
use ferrijs.Permissions.Net
use ferrijs.Permissions.Path.{FileSystem, path_rule}
use ferrijs.Permissions.Sys.{SysInfo, as_str, sys_info_from_str}
use ferrijs.Permissions.Policy.{
  Deny, Permissions, Checked, intersect, check_read, check_write, check_net, check_env, check_sys,
}

pub data Decision : Type 0 where
  allow deny : Decision

pub record Request : Type 0 where
  pub kind : Kind
  pub resource : Text

pub record Container : Type 0 where
  pub policy : Permissions
  pub hook : Option (Request → Decision)
  pub audited : Bool
  pub audit : List (Request × Bool)

-- `Container::new`
unfoldable pub new : Permissions → Container
new policy = record { policy = policy; hook = none; audited = false; audit = [] }

unfoldable pub with_hook : (Request → Decision) → Container → Container
with_hook hook c = record c { hook = some hook }

unfoldable pub with_audit : Container → Container
with_audit c = record c { audited = true }

unfoldable pub revoke : Permissions → Container → Container
revoke remaining c = record c { policy = intersect c.policy remaining }

-- The policy of `Container::deny`, with one more denial of the kind.
unfoldable pub deny_policy : FileSystem → Kind → Text → Permissions → Result Text Permissions
deny_policy fs Kind.read resource p =
    ok (record p { deny = record (p.deny) { read = p.deny.read ++ path_rule fs resource ∷ [] } })
deny_policy fs Kind.write resource p =
    ok (record p { deny = record (p.deny) { write = p.deny.write ++ path_rule fs resource ∷ [] } })
deny_policy fs Kind.net resource p = Net.parse resource >>= λ rule.
    ok (record p { deny = record (p.deny) { net = p.deny.net ++ rule ∷ [] } })
deny_policy fs Kind.env resource p =
    ok (record p { deny = record (p.deny) { env = p.deny.env ++ resource ∷ [] } })
deny_policy fs Kind.sys resource p = sys_info_from_str resource >>= λ item.
    ok (record p { deny = record (p.deny) { sys = p.deny.sys ++ item ∷ [] } })

-- `Container::deny`: an error leaves the container as it was.
unfoldable pub deny_resource :
    FileSystem → Kind → Text → Container → Container × Result Text (Unit {0})
unfolding deny_policy
deny_resource fs kind resource c = elim (deny_policy fs kind resource c.policy) [
  | ok next ↦ (record c { policy = next }, ok tt)
  | err e ↦ (c, err e)
]

-- What the hook makes of a refusal.
unfoldable pub ask_hook : Option (Request → Decision) → Request → Checked → Checked
ask_hook hook request (ok u) = ok tt
ask_hook none request (err denied) = err denied
ask_hook (some hook) request (err denied) = elim (hook request) [
  | Decision.allow ↦ ok tt
  | Decision.deny ↦ err denied
]

-- `Container::decide`
unfoldable pub decide : Kind → Text → Checked → Container → Container × Checked
unfolding ask_hook
decide kind resource statically c =
    let request : Request = record { kind = kind; resource = resource } in
    let outcome = ask_hook c.hook request statically in
    (
      if c.audited then record c { audit = c.audit ++ (request, is_ok outcome) ∷ [] } else c,
      outcome,
    )

-- `Container::check_read` and the four others.
unfoldable pub container_check_read : FileSystem → Text → Container → Container × Checked
unfolding decide
container_check_read fs path c = decide Kind.read path (check_read fs c.policy path) c

unfoldable pub container_check_write : FileSystem → Text → Container → Container × Checked
unfolding decide
container_check_write fs path c = decide Kind.write path (check_write fs c.policy path) c

-- The resource that the hook and the audit are shown, the host as it was written.
unfoldable pub request_resource : Text → Option ℕ → Text
request_resource host (some p) = host ++ (text ":" ++ show p)
request_resource host none = host

unfoldable pub container_check_net : Text → Option ℕ → Container → Container × Checked
unfolding decide request_resource
container_check_net host port c =
    decide Kind.net (request_resource host port) (check_net c.policy host port) c

unfoldable pub container_check_env : Text → Container → Container × Checked
unfolding decide
container_check_env name c = decide Kind.env name (check_env c.policy name) c

unfoldable pub container_check_sys : SysInfo → Container → Container × Checked
unfolding decide
container_check_sys item c = decide Kind.sys (as_str item) (check_sys c.policy item) c

-- `Container::has` of a kind as a whole.
unfoldable pub has_kind : Permissions → Kind → Bool
has_kind p Kind.read = is_all p.read && is_empty p.deny.read
has_kind p Kind.write = is_all p.write && is_empty p.deny.write
has_kind p Kind.net = is_all p.net && is_empty p.deny.net
has_kind p Kind.env = is_all p.env && is_empty p.deny.env
has_kind p Kind.sys = is_all p.sys && is_empty p.deny.sys

-- `Container::has` of one resource.
unfoldable pub has_resource : FileSystem → Permissions → Kind → Text → Result Text Bool
has_resource fs p Kind.read r = ok (is_ok (check_read fs p r))
has_resource fs p Kind.write r = ok (is_ok (check_write fs p r))
has_resource fs p Kind.net r = Net.parse r >>= λ rule. ok (is_ok (check_net p rule.host rule.port))
has_resource fs p Kind.env r = ok (is_ok (check_env p r))
has_resource fs p Kind.sys r = sys_info_from_str r >>= λ item. ok (is_ok (check_sys p item))

unfoldable pub has : FileSystem → Kind → Option Text → Container → Result Text Bool
unfolding has_kind has_resource
has fs kind none c = ok (has_kind c.policy kind)
has fs kind (some r) c = has_resource fs c.policy kind r

-- `impl FromStr for Kind`
unfoldable pub kind_from_str : Text → Result Text Kind
kind_from_str s =
    if s == text "read"
    then ok Kind.read
    else if s == text "write"
    then ok Kind.write
    else if s == text "net"
    then ok Kind.net
    else if s == text "env"
    then ok Kind.env
    else if s == text "sys"
    then ok Kind.sys
    else err (text "`" ++ (s ++ text "` is not a permission kind (read, write, net, env, sys)"))
