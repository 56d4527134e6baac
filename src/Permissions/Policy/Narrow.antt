-- ===== src/Permissions/Policy/Narrow.antt =====
-- `Permissions::intersect` is no wider than either side.
use ferrijs.Prelude.{◌≡◌, true, ◌||◌, List, [], ◌∷◌, arith, All, ◌==◌, list_eq, nat_eq, PartialEq}
use ferrijs.Prelude.Result.{ok}
use ferrijs.Permissions.Allow.{entries}
use ferrijs.Permissions.Allow.Narrow.{grants-intersect_with, any-union}
use ferrijs.Permissions.Net
use ferrijs.Permissions.Net.{NetRule, net_rule_eq}
use ferrijs.Permissions.Net.Subsumes.{IsPlain, covers-subsumes}
use ferrijs.Permissions.Path.{FileSystem, path_rule_eq, path_covers, path_subsumes, checked_path}
use ferrijs.Permissions.Path.Prefix.{path_covers-path_subsumes}
use ferrijs.Permissions.Sys.{sys_info_eq}
use ferrijs.Permissions.Policy.{Permissions, intersect, bare_host}
use ferrijs.Permissions.Policy.Ask.{Ask, check, denies, allows, check-ok, check_of}

-- No network grant of the policy is a wildcard over wildcards.
abbrev pub HasPlainHosts : Permissions → Type 0
HasPlainHosts p = All (λ (r : NetRule). IsPlain r.host) (entries p.net)

-- The same, where the request is one to a host.
abbrev pub IsPlainFor : Ask → Permissions → Type 0
IsPlainFor (Ask.net host port) p = HasPlainHosts p
IsPlainFor _ p = Unit {0}

pub IsPlainFor-of_all : (a : Ask) (p : Permissions) → HasPlainHosts p → IsPlainFor a p
IsPlainFor-of_all (Ask.net host port) p h = h
IsPlainFor-of_all (Ask.read path) p h = tt
IsPlainFor-of_all (Ask.write path) p h = tt
IsPlainFor-of_all (Ask.env name) p h = tt
IsPlainFor-of_all (Ask.sys item) p h = tt

All-units : {A : Type 0} (xs : List A) → All (λ _. Unit {0}) xs
All-units [] = tt
All-units (x ∷ xs) = (tt, All-units xs)

module _ {T : Type 0} ⦃e : PartialEq T⦄ where
  equal_up : (z x y : T) → Unit {0} → (x == y) ≡ true → (y == z) ≡ true → (x == z) ≡ true
  equal_up z x y u h k = ground (arith, e.eq_iff x y, e.eq_iff y z, e.eq_iff x z)

-- The denials of an intersection are those of both sides.
pub denies-intersect :
    (fs : FileSystem) (p q : Permissions) (a : Ask)
    → denies fs (intersect p q) a ≡ (denies fs p a || denies fs q a)
unfolding denies intersect
denies-intersect fs p q (Ask.read path) =
    any-union (λ d. path_covers d (checked_path fs path)) q.deny.read p.deny.read
denies-intersect fs p q (Ask.write path) =
    any-union (λ d. path_covers d (checked_path fs path)) q.deny.write p.deny.write
denies-intersect fs p q (Ask.env name) = any-union (λ n. n == name) q.deny.env p.deny.env
denies-intersect fs p q (Ask.net host port) =
    any-union (λ r. Net.covers r (bare_host host) port) q.deny.net p.deny.net
denies-intersect fs p q (Ask.sys item) = any-union (λ i. i == item) q.deny.sys p.deny.sys

-- What the grants of an intersection cover, the grants of both sides cover.
pub allows-intersect :
    (fs : FileSystem) (p q : Permissions) (a : Ask)
    → IsPlainFor a p
    → IsPlainFor a q
    → allows fs (intersect p q) a ≡ true
    → (allows fs p a ≡ true) × (allows fs q a ≡ true)
unfolding allows intersect
allows-intersect fs p q (Ask.read path) hp hq h =
    grants-intersect_with (λ d. path_covers d (checked_path fs path)) path_subsumes (λ _. Unit {0})
      (λ x y u. path_covers-path_subsumes x y (checked_path fs path)) p.read q.read
      (All-units (entries p.read)) (All-units (entries q.read)) h
allows-intersect fs p q (Ask.write path) hp hq h =
    grants-intersect_with (λ d. path_covers d (checked_path fs path)) path_subsumes (λ _. Unit {0})
      (λ x y u. path_covers-path_subsumes x y (checked_path fs path)) p.write q.write
      (All-units (entries p.write)) (All-units (entries q.write)) h
allows-intersect fs p q (Ask.env name) hp hq h =
    grants-intersect_with (λ n. n == name) (λ a b. a == b) (λ _. Unit {0}) (equal_up name) p.env
      q.env (All-units (entries p.env)) (All-units (entries q.env)) h
allows-intersect fs p q (Ask.net host port) hp hq h =
    grants-intersect_with (λ r. Net.covers r (bare_host host) port) Net.subsumes
      (λ r. IsPlain r.host) (λ x y. covers-subsumes x y (bare_host host) port) p.net q.net hp hq h
allows-intersect fs p q (Ask.sys item) hp hq h =
    grants-intersect_with (λ i. i == item) (λ a b. a == b) (λ _. Unit {0}) (equal_up item) p.sys
      q.sys (All-units (entries p.sys)) (All-units (entries q.sys)) h

-- A request that passes under the intersection of two policies passes under each of them, for
-- every kind of request and every file system, if no network grant of either is a wildcard over
-- wildcards.
pub intersect_narrows :
    (fs : FileSystem) (p q : Permissions) (a : Ask)
    → HasPlainHosts p
    → HasPlainHosts q
    → check fs (intersect p q) a ≡ ok tt
    → (check fs p a ≡ ok tt) × (check fs q a ≡ ok tt)
intersect_narrows fs p q a hp hq h =
    let (d, g) = check-ok fs (intersect p q) a h in
    let (gp, gq) =
      allows-intersect fs p q a (IsPlainFor-of_all a p hp) (IsPlainFor-of_all a q hq) g in
    let d' = denies-intersect fs p q a in
    (check_of fs p a (ground arith) gp, check_of fs q a (ground arith) gq)
