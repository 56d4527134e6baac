-- ===== src/Permissions/Container/Life.antt =====
-- The life of a container: any sequence of its methods only ever narrows the policy.
use ferrijs.Prelude.{
  ℕ, Option, ◌≡◌, sym, subst, ap, ◌∙◌, true, List, [], ◌∷◌, arith, All, list_eq, nat_eq, inl, inr,
}
use ferrijs.Prelude.Result.{Result, ok, err, Result-cases}
use ferrijs.Text.{Text}
use ferrijs.Permissions.Allow.Narrow.{All-intersect_with}
use ferrijs.Permissions.Net.Subsumes.{IsPlain}
use ferrijs.Permissions.Allow.{entries, Kind}
use ferrijs.Permissions.Net
use ferrijs.Permissions.Net.{NetRule, net_rule_eq}
use ferrijs.Permissions.Path.{FileSystem}
use ferrijs.Permissions.Sys.{sys_info_eq}
use ferrijs.Permissions.Policy.{Permissions, intersect}
use ferrijs.Permissions.Policy.Ask.{
  Ask, check, denies, allows, check-ok, check_of, check_denied, kind_of, resource_of,
}
use ferrijs.Permissions.Policy.Narrow.{
  HasPlainHosts, IsPlainFor, denies-intersect, allows-intersect,
}
use ferrijs.Permissions.Container.{Container, deny_policy, deny_resource, revoke}
use ferrijs.Permissions.Container.Extends.{
  deny_policy-Extends, denies-Extends, allows-Extends, IsTarget, denies-deny_policy,
}
use ferrijs.Permissions.Container.Checks.{container_check, container_check_audit}

-- A call of a method that a container in use can receive.
pub data Op : Type 0 where
  revoke_to : Permissions → Op
  deny_one : FileSystem → Kind → Text → Op
  ask : FileSystem → Ask → Op

unfoldable pub step : Op → Container → Container
step (revoke_to remaining) c = revoke remaining c
step (deny_one fs kind resource) c = (deny_resource fs kind resource c).0
step (ask fs a) c = (container_check fs a c).0

unfoldable pub run : List Op → Container → Container
run [] c = c
run (op ∷ ops) c = run ops (step op c)

-- The policies that are revoked to hold no wildcard over wildcards, if the request is one to a host.
abbrev pub IsPlainOp : Ask → Op → Type 0
IsPlainOp a (revoke_to remaining) = IsPlainFor a remaining
IsPlainOp a _ = Unit {0}

-- What a step leaves of the policy: the same, the intersection, or one more denial.
policy-ask :
    (fs : FileSystem) (a : Ask) (c : Container) → (container_check fs a c).0.policy ≡ c.policy
policy-ask fs a c = ap (λ (d : Container). d.policy) (container_check_audit fs a c)

deny_resource-ok :
    (gs : FileSystem) (k : Kind) (r : Text) (c : Container) (q : Permissions)
    → deny_policy gs k r c.policy ≡ ok q
    → deny_resource gs k r c ≡ (record c { policy = q }, ok tt)
unfolding deny_resource
deny_resource-ok gs k r c q e = ground arith

deny_resource-err :
    (gs : FileSystem) (k : Kind) (r : Text) (c : Container) (m : Text)
    → deny_policy gs k r c.policy ≡ err m
    → deny_resource gs k r c ≡ (c, err m)
unfolding deny_resource
deny_resource-err gs k r c m e = ground arith

module _ (fs : FileSystem) (a : Ask) where
  denies-deny_resource :
      (gs : FileSystem) (k : Kind) (r : Text) (c : Container)
      → denies fs c.policy a ≡ true
      → denies fs (deny_resource gs k r c).0.policy a ≡ true
  denies-deny_resource gs k r c h = elim (Result-cases (deny_policy gs k r c.policy)) [
    | inl (q, e) ↦
        rw (deny_resource-ok gs k r c q e)
          (denies-Extends fs a c.policy q (deny_policy-Extends gs k r c.policy q e) h)
    | inr (m, e) ↦ rw (deny_resource-err gs k r c m e) h
  ]

  denies-step :
      (op : Op) (c : Container)
      → denies fs c.policy a ≡ true
      → denies fs (step op c).policy a ≡ true
  unfolding step revoke
  denies-step (revoke_to remaining) c h = denies-intersect fs c.policy remaining a ∙ (rw h)
  denies-step (deny_one gs k r) c h = denies-deny_resource gs k r c h
  denies-step (ask gs b) c h = rw (policy-ask gs b c) h

  denies-run :
      (ops : List Op) (c : Container)
      → denies fs c.policy a ≡ true
      → denies fs (run ops c).policy a ≡ true
  unfolding run
  denies-run [] c h = h
  denies-run (op ∷ ops) c h = denies-run ops (step op c) (denies-step op c h)

  -- Once `deny` has carved a resource out of a kind, every request that the resource covers is
  -- refused by the policy, after any sequence of revocations, denials and checks.
  pub deny_is_final :
      (gs : FileSystem) (k : Kind) (r : Text) (c : Container) (ops : List Op)
      → IsTarget gs k r fs a
      → (deny_resource gs k r c).1 ≡ ok tt
      → check fs (run ops (deny_resource gs k r c).0).policy a
        ≡ err (record { kind = kind_of a; resource = resource_of a })
  deny_is_final gs k r c ops t h = elim (Result-cases (deny_policy gs k r c.policy)) [
    | inl (q, e) ↦ check_denied fs _ a (
        denies-run ops _
          (rw (deny_resource-ok gs k r c q e) (denies-deny_policy gs k r fs a c.policy q t e)))
    | inr (m, e) ↦ absurd (ground (arith, deny_resource-err gs k r c m e))
  ]

  allows-deny_resource :
      (gs : FileSystem) (k : Kind) (r : Text) (c : Container)
      → allows fs (deny_resource gs k r c).0.policy a ≡ allows fs c.policy a
  allows-deny_resource gs k r c = elim (Result-cases (deny_policy gs k r c.policy)) [
    | inl (q, e) ↦
        rw (deny_resource-ok gs k r c q e)
          (allows-Extends fs a c.policy q (deny_policy-Extends gs k r c.policy q e))
    | inr (m, e) ↦ rw (deny_resource-err gs k r c m e)
  ]

HasPlainHosts-deny_resource :
    (gs : FileSystem) (k : Kind) (r : Text) (c : Container)
    → HasPlainHosts c.policy
    → HasPlainHosts (deny_resource gs k r c).0.policy
HasPlainHosts-deny_resource gs k r c h = elim (Result-cases (deny_policy gs k r c.policy)) [
  | inl (q, e) ↦
      subst (λ (x : Container × Result Text (Unit {0})). HasPlainHosts x.0.policy)
        (sym (deny_resource-ok gs k r c q e))
        (subst (λ x. All (λ (n : NetRule). IsPlain n.host) (entries x))
          (sym (deny_policy-Extends gs k r c.policy q e).net) h)
  | inr (m, e) ↦
      subst (λ (x : Container × Result Text (Unit {0})). HasPlainHosts x.0.policy)
        (sym (deny_resource-err gs k r c m e)) h
]

HasPlainHosts-step :
    (host : Text) (port : Option ℕ) (op : Op) (c : Container)
    → IsPlainOp (Ask.net host port) op
    → HasPlainHosts c.policy
    → HasPlainHosts (step op c).policy
unfolding step revoke intersect
HasPlainHosts-step host port (revoke_to remaining) c g h =
    All-intersect_with Net.subsumes (λ (n : NetRule). IsPlain n.host) c.policy.net remaining.net h g
HasPlainHosts-step host port (deny_one gs k r) c g h = HasPlainHosts-deny_resource gs k r c h
HasPlainHosts-step host port (ask gs b) c g h = subst HasPlainHosts (sym (policy-ask gs b c)) h

IsPlainFor-step :
    (a : Ask) (op : Op) (c : Container)
    → IsPlainOp a op
    → IsPlainFor a c.policy
    → IsPlainFor a (step op c).policy
IsPlainFor-step (Ask.net host port) op c g h = HasPlainHosts-step host port op c g h
IsPlainFor-step (Ask.read path) op c g h = tt
IsPlainFor-step (Ask.write path) op c g h = tt
IsPlainFor-step (Ask.env name) op c g h = tt
IsPlainFor-step (Ask.sys item) op c g h = tt

module _ (fs : FileSystem) (a : Ask) where
  allows-step :
      (op : Op) (c : Container)
      → IsPlainFor a c.policy
      → IsPlainOp a op
      → allows fs (step op c).policy a ≡ true
      → allows fs c.policy a ≡ true
  unfolding step revoke
  allows-step (revoke_to remaining) c p g h = (allows-intersect fs c.policy remaining a p g h).0
  allows-step (deny_one gs k r) c p g h = sym (allows-deny_resource fs a gs k r c) ∙ h
  allows-step (ask gs b) c p g h = subst (λ x. allows fs x a ≡ true) (policy-ask gs b c) h

  allows-run :
      (ops : List Op) (c : Container)
      → IsPlainFor a c.policy
      → All (IsPlainOp a) ops
      → allows fs (run ops c).policy a ≡ true
      → allows fs c.policy a ≡ true
  unfolding run
  allows-run [] c p g h = h
  allows-run (op ∷ ops) c p g h =
      allows-step op c p g.0 (allows-run ops (step op c) (IsPlainFor-step a op c g.0 p) g.1 h)

  -- No sequence of revocations, denials and checks widens the policy: a request that passes after
  -- it passed before it, whatever the file system was at each step; a request to a host, if no
  -- network grant of the policy and of the policies revoked to is a wildcard over wildcards.
  pub run_narrows :
      (ops : List Op) (c : Container)
      → IsPlainFor a c.policy
      → All (IsPlainOp a) ops
      → check fs (run ops c).policy a ≡ ok tt
      → check fs c.policy a ≡ ok tt
  run_narrows ops c p g h =
      let (d, w) = check-ok fs (run ops c).policy a h in
      let kept = denies-run fs a ops c in
      check_of fs c.policy a (ground (arith, kept)) (allows-run ops c p g w)
