-- ===== src/Permissions/Container/Checks.antt =====
-- The checks of a container: what the hook, the audit and the policy contribute.
use ferrijs.Prelude.{
  ◌≡◌, refl, Bool, true, false, ◌||◌, [], ◌∷◌, ◌++◌, none, some, arith, if◌then◌else◌,
}
use ferrijs.Prelude.Result.{ok, err, is_ok}
use ferrijs.Text.{Text}
use ferrijs.Permissions.Allow.{Kind, is_all, grants}
use ferrijs.Permissions.Path.{FileSystem}
use ferrijs.Permissions.Sys.{as_str}
use ferrijs.Permissions.Policy.{Permissions, Checked}
use ferrijs.Permissions.Policy.Ask.{Ask, kind_of, check, check_of, denies, allows}
use ferrijs.Permissions.Container.{
  Container, Request, Decision, decide, ask_hook, container_check_read, container_check_write,
  container_check_net, container_check_env, container_check_sys, request_resource, has, has_kind,
}

-- The check of the request's kind.
unfoldable pub container_check : FileSystem → Ask → Container → Container × Checked
container_check fs (Ask.read path) c = container_check_read fs path c
container_check fs (Ask.write path) c = container_check_write fs path c
container_check fs (Ask.env name) c = container_check_env name c
container_check fs (Ask.net host port) c = container_check_net host port c
container_check fs (Ask.sys item) c = container_check_sys item c

-- What the hook and the audit are shown of a request.
abbrev pub request_of : Ask → Request
request_of (Ask.read path) = record { kind = Kind.read; resource = path }
request_of (Ask.write path) = record { kind = Kind.write; resource = path }
request_of (Ask.env name) = record { kind = Kind.env; resource = name }
request_of (Ask.net host port) = record { kind = Kind.net; resource = request_resource host port }
request_of (Ask.sys item) = record { kind = Kind.sys; resource = as_str item }

-- The hook grants the request.
abbrev pub hook_allows : Container → Request → Bool
hook_allows c r = elim c.hook [
  | none ↦ false
  | some hook ↦ elim (hook r) [ Decision.allow ↦ true | Decision.deny ↦ false ]
]

container_check-eq :
    (fs : FileSystem) (a : Ask) (c : Container)
    → container_check fs a c
      ≡ decide (request_of a).kind (request_of a).resource (check fs c.policy a) c
unfolding container_check container_check_read container_check_write container_check_net
    container_check_env container_check_sys check
container_check-eq fs (Ask.read path) c = refl
container_check-eq fs (Ask.write path) c = refl
container_check-eq fs (Ask.env name) c = refl
container_check-eq fs (Ask.net host port) c = refl
container_check-eq fs (Ask.sys item) c = refl

decide-outcome :
    (k : Kind) (r : Text) (s : Checked) (c : Container)
    → is_ok (decide k r s c).1 ≡ (is_ok s || hook_allows c (record { kind = k; resource = r }))
unfolding decide ask_hook
decide-outcome k r (ok u) c = refl
decide-outcome k r (err d) c = ground arith

decide-audit :
    (k : Kind) (r : Text) (s : Checked) (c : Container)
    → (decide k r s c).0 ≡ record c {
      audit =
          if c.audited
          then c.audit ++ (record { kind = k; resource = r }, is_ok (decide k r s c).1) ∷ []
          else c.audit;
    }
unfolding decide
decide-audit k r s c = ground arith

-- A request passes exactly if the policy passes it or an installed hook allows it; the hook is
-- shown the kind and the resource of the request.
pub container_check_outcome :
    (fs : FileSystem) (a : Ask) (c : Container)
    → is_ok (container_check fs a c).1
      ≡ (is_ok (check fs c.policy a) || hook_allows c (request_of a))
container_check_outcome fs a c =
    rw (container_check-eq fs a c)
      (decide-outcome (request_of a).kind (request_of a).resource (check fs c.policy a) c)

-- A check changes nothing but the audit, and that gains exactly one entry, the request with its
-- outcome, if an audit is installed, whether the request passes or not.
pub container_check_audit :
    (fs : FileSystem) (a : Ask) (c : Container)
    → (container_check fs a c).0 ≡ record c {
      audit =
          if c.audited
          then c.audit ++ (request_of a, is_ok (container_check fs a c).1) ∷ []
          else c.audit;
    }
container_check_audit fs a c =
    rw (container_check-eq fs a c)
      (decide-audit (request_of a).kind (request_of a).resource (check fs c.policy a) c)

has_kind_sound :
    (fs : FileSystem) (a : Ask) (p : Permissions)
    → has_kind p (kind_of a) ≡ true
    → (denies fs p a ≡ false) × (allows fs p a ≡ true)
unfolding has_kind denies allows is_all grants
has_kind_sound fs (Ask.read path) p h = ground arith
has_kind_sound fs (Ask.write path) p h = ground arith
has_kind_sound fs (Ask.env name) p h = ground arith
has_kind_sound fs (Ask.net host port) p h = ground arith
has_kind_sound fs (Ask.sys item) p h = ground arith

-- Where `has` answers that a kind is granted as a whole, every request of the kind passes, whatever
-- the file system.
pub has_kind_whole :
    (fs fs' : FileSystem) (a : Ask) (c : Container)
    → has fs (kind_of a) none c ≡ ok true
    → check fs' c.policy a ≡ ok tt
unfolding has
has_kind_whole fs fs' a c h =
    let (d, g) = has_kind_sound fs' a c.policy (cc) in check_of fs' c.policy a d g
