-- ===== src/Permissions/Policy/Ask.antt =====
-- The five checks of a policy under one type of question, with what the policy denies and what its
-- grants cover.
use ferrijs.Prelude.{
  ℕ, ◌≡◌, refl, Bool, true, false, not, ◌&&◌, List, [], ◌∷◌, Option, arith, any, sym, ◌∙◌, ◌==◌,
  list_eq, nat_eq,
}
use ferrijs.Prelude.Result.{ok, err}
use ferrijs.Text.{Text}
use ferrijs.Permissions.Allow.{Allow, Kind, grants}
use ferrijs.Permissions.Net
use ferrijs.Permissions.Path.{FileSystem, PathRule, path_rule_eq, path_covers, checked_path}
use ferrijs.Permissions.Sys.{SysInfo, sys_info_eq, as_str}
use ferrijs.Permissions.Policy.{
  Permissions, Checked, verdict, path_granted, check_path, check_read, check_write, check_net,
  check_env, check_sys, bare_host, net_resource,
}

-- A request, as one of the five checks takes it.
pub data Ask : Type 0 where
  read write env : Text → Ask
  net : Text → Option ℕ → Ask
  sys : SysInfo → Ask

abbrev pub kind_of : Ask → Kind
kind_of (read _) = Kind.read
kind_of (write _) = Kind.write
kind_of (env _) = Kind.env
kind_of (net _ _) = Kind.net
kind_of (sys _) = Kind.sys

-- What a refusal names.
abbrev pub resource_of : Ask → Text
resource_of (read path) = path
resource_of (write path) = path
resource_of (env name) = name
resource_of (net host port) = net_resource (bare_host host) port
resource_of (sys item) = as_str item

unfoldable pub check : FileSystem → Permissions → Ask → Checked
unfolding check_read check_write check_net check_env check_sys
check fs p (read path) = check_read fs p path
check fs p (write path) = check_write fs p path
check fs p (env name) = check_env p name
check fs p (net host port) = check_net p host port
check fs p (sys item) = check_sys p item

-- Some entry of the denial list covers the request.
unfoldable pub denies : FileSystem → Permissions → Ask → Bool
denies fs p (read path) = any (λ d. path_covers d (checked_path fs path)) p.deny.read
denies fs p (write path) = any (λ d. path_covers d (checked_path fs path)) p.deny.write
denies fs p (env name) = any (λ n. n == name) p.deny.env
denies fs p (net host port) = any (λ r. Net.covers r (bare_host host) port) p.deny.net
denies fs p (sys item) = any (λ i. i == item) p.deny.sys

-- The grant of the kind covers the request.
unfoldable pub allows : FileSystem → Permissions → Ask → Bool
allows fs p (read path) = grants (λ d. path_covers d (checked_path fs path)) p.read
allows fs p (write path) = grants (λ d. path_covers d (checked_path fs path)) p.write
allows fs p (env name) = grants (λ n. n == name) p.env
allows fs p (net host port) = grants (λ r. Net.covers r (bare_host host) port) p.net
allows fs p (sys item) = grants (λ i. i == item) p.sys

path_granted-eq :
    (fs : FileSystem) (a : Allow PathRule) (d : List PathRule) (path : Text)
    → path_granted fs a d path ≡ (
        not (any (λ r. path_covers r (checked_path fs path)) d)
        && grants (λ r. path_covers r (checked_path fs path)) a)
unfolding path_granted grants
path_granted-eq fs Allow.none d path = ground arith
path_granted-eq fs Allow.all [] path = refl
path_granted-eq fs Allow.all (r ∷ d) path = ground arith
path_granted-eq fs (Allow.only rules) d path = refl

-- Every check, also the two on paths that skip the file system where they can, answers from the
-- denials and the grants alone: granted if no denial and the grant covers the request, and
-- otherwise refused with the kind and the resource of the request.
pub check-eq :
    (fs : FileSystem) (p : Permissions) (a : Ask)
    → check fs p a ≡ verdict (not (denies fs p a) && allows fs p a) (kind_of a) (resource_of a)
unfolding check denies allows check_path
check-eq fs p (read path) = rw (path_granted-eq fs p.read p.deny.read path)
check-eq fs p (write path) = rw (path_granted-eq fs p.write p.deny.write path)
check-eq fs p (env name) = refl
check-eq fs p (net host port) = refl
check-eq fs p (sys item) = refl

verdict-eq-ok : (b : Bool) (k : Kind) (r : Text) → verdict b k r ≡ ok tt → b ≡ true
verdict-eq-ok true k r h = refl
verdict-eq-ok false k r h = cc

-- A check passes exactly if nothing denies the request and the grant covers it.
pub check-ok :
    (fs : FileSystem) (p : Permissions) (a : Ask)
    → check fs p a ≡ ok tt
    → (denies fs p a ≡ false) × (allows fs p a ≡ true)
check-ok fs p a h =
    let e = verdict-eq-ok _ (kind_of a) (resource_of a) (sym (check-eq fs p a) ∙ h) in ground arith

pub check_of :
    (fs : FileSystem) (p : Permissions) (a : Ask)
    → denies fs p a ≡ false
    → allows fs p a ≡ true
    → check fs p a ≡ ok tt
check_of fs p a d g = check-eq fs p a ∙ (rw (d, g))

-- A denial wins over every grant, and the refusal names the kind and the resource.
pub check_denied :
    (fs : FileSystem) (p : Permissions) (a : Ask)
    → denies fs p a ≡ true
    → check fs p a ≡ err (record { kind = kind_of a; resource = resource_of a })
check_denied fs p a d = check-eq fs p a ∙ (rw d)
