-- ===== src/Permissions/Container/Extends.antt =====
-- What `Container::deny` does to a policy: one list of denials grows, and nothing else changes.
use mathlib.Core.List.{append-nil}
use ferrijs.Prelude.{
  ◌≡◌, refl, sym, subst, ap, ◌∙◌, Bool, true, List, [], ◌∷◌, ◌++◌, arith, any, any-append, ◌==◌,
  list_eq, nat_eq, beq_refl,
}
use ferrijs.Prelude.Result.{ok, >>=-eq-ok, ok-injective}
use ferrijs.Text.{Text}
use ferrijs.Permissions.Allow.{Kind}
use ferrijs.Permissions.Net
use ferrijs.Permissions.Net.{NetRule}
use ferrijs.Permissions.Path.{FileSystem, PathRule, path_covers, path_rule, checked_path}
use ferrijs.Permissions.Sys.{SysInfo, sys_info_eq, sys_info_from_str}
use ferrijs.Permissions.Policy.{Deny, Permissions, bare_host}
use ferrijs.Permissions.Policy.Ask.{Ask, denies, allows}
use ferrijs.Permissions.Container.{deny_policy}

-- `q` grants what `p` grants, and its denials are those of `p` with more behind them.
pub record Extends (p q : Permissions) : Type 0 where
  pub read : q.read ≡ p.read
  pub write : q.write ≡ p.write
  pub net : q.net ≡ p.net
  pub env : q.env ≡ p.env
  pub sys : q.sys ≡ p.sys
  pub more_read : (more : List PathRule) × (q.deny.read ≡ p.deny.read ++ more)
  pub more_write : (more : List PathRule) × (q.deny.write ≡ p.deny.write ++ more)
  pub more_net : (more : List NetRule) × (q.deny.net ≡ p.deny.net ++ more)
  pub more_env : (more : List Text) × (q.deny.env ≡ p.deny.env ++ more)
  pub more_sys : (more : List SysInfo) × (q.deny.sys ≡ p.deny.sys ++ more)

abbrev no_more {ℓ} : {A : Type ℓ} (xs : List A) → (more : List A) × (xs ≡ xs ++ more)
no_more xs = ([], sym (append-nil xs))

Extends-of_deny :
    (p : Permissions) (d : Deny)
    → (more : List PathRule) × (d.read ≡ p.deny.read ++ more)
    → (more : List PathRule) × (d.write ≡ p.deny.write ++ more)
    → (more : List NetRule) × (d.net ≡ p.deny.net ++ more)
    → (more : List Text) × (d.env ≡ p.deny.env ++ more)
    → (more : List SysInfo) × (d.sys ≡ p.deny.sys ++ more)
    → Extends p (record p { deny = d })
Extends-of_deny p d r w n e s = record {
  read = refl;
  write = refl;
  net = refl;
  env = refl;
  sys = refl;
  more_read = r;
  more_write = w;
  more_net = n;
  more_env = e;
  more_sys = s;
}

pub deny_policy-Extends :
    (gs : FileSystem) (k : Kind) (r : Text) (p q : Permissions)
    → deny_policy gs k r p ≡ ok q
    → Extends p q
unfolding deny_policy
deny_policy-Extends gs Kind.read r p q e = subst (Extends p) (ok-injective _ q e) (
    Extends-of_deny p _ (path_rule gs r ∷ [], refl) (no_more p.deny.write) (no_more p.deny.net)
      (no_more p.deny.env) (no_more p.deny.sys))
deny_policy-Extends gs Kind.write r p q e = subst (Extends p) (ok-injective _ q e) (
    Extends-of_deny p _ (no_more p.deny.read) (path_rule gs r ∷ [], refl) (no_more p.deny.net)
      (no_more p.deny.env) (no_more p.deny.sys))
deny_policy-Extends gs Kind.net r p q e =
    let (rule, parsed, e') = >>=-eq-ok (Net.parse r) _ q e in
    subst (Extends p) (ok-injective _ q e') (
      Extends-of_deny p _ (no_more p.deny.read) (no_more p.deny.write) (rule ∷ [], refl)
        (no_more p.deny.env) (no_more p.deny.sys))
deny_policy-Extends gs Kind.env r p q e = subst (Extends p) (ok-injective _ q e) (
    Extends-of_deny p _ (no_more p.deny.read) (no_more p.deny.write) (no_more p.deny.net)
      (r ∷ [], refl) (no_more p.deny.sys))
deny_policy-Extends gs Kind.sys r p q e =
    let (item, parsed, e') = >>=-eq-ok (sys_info_from_str r) _ q e in
    subst (Extends p) (ok-injective _ q e') (
      Extends-of_deny p _ (no_more p.deny.read) (no_more p.deny.write) (no_more p.deny.net)
        (no_more p.deny.env) (item ∷ [], refl))

any_more {ℓ} :
    {A : Type ℓ} (f : A → Bool) (xs ys more : List A)
    → ys ≡ xs ++ more
    → any f xs ≡ true
    → any f ys ≡ true
any_more f xs ys more e h = ap (any f) e ∙ (any-append f xs more ∙ (ground arith))

-- What is denied stays denied.
pub denies-Extends :
    (fs : FileSystem) (a : Ask) (p q : Permissions)
    → Extends p q
    → denies fs p a ≡ true
    → denies fs q a ≡ true
unfolding denies
denies-Extends fs (Ask.read path) p q x h =
    any_more (λ d. path_covers d (checked_path fs path)) p.deny.read q.deny.read x.more_read.0
      x.more_read.1 h
denies-Extends fs (Ask.write path) p q x h =
    any_more (λ d. path_covers d (checked_path fs path)) p.deny.write q.deny.write x.more_write.0
      x.more_write.1 h
denies-Extends fs (Ask.env name) p q x h =
    any_more (λ n. n == name) p.deny.env q.deny.env x.more_env.0 x.more_env.1 h
denies-Extends fs (Ask.net host port) p q x h =
    any_more (λ r. Net.covers r (bare_host host) port) p.deny.net q.deny.net x.more_net.0
      x.more_net.1 h
denies-Extends fs (Ask.sys item) p q x h =
    any_more (λ i. i == item) p.deny.sys q.deny.sys x.more_sys.0 x.more_sys.1 h

-- The grants are the same.
pub allows-Extends :
    (fs : FileSystem) (a : Ask) (p q : Permissions) → Extends p q → allows fs q a ≡ allows fs p a
unfolding allows
allows-Extends fs (Ask.read path) p q x = rw x.read
allows-Extends fs (Ask.write path) p q x = rw x.write
allows-Extends fs (Ask.env name) p q x = rw x.env
allows-Extends fs (Ask.net host port) p q x = rw x.net
allows-Extends fs (Ask.sys item) p q x = rw x.sys

-- The requests that `Container::deny` of a kind and a resource is about.
abbrev pub IsTarget : FileSystem → Kind → Text → FileSystem → Ask → Type 0
IsTarget gs Kind.read r fs (Ask.read path) =
    path_covers (path_rule gs r) (checked_path fs path) ≡ true
IsTarget gs Kind.write r fs (Ask.write path) =
    path_covers (path_rule gs r) (checked_path fs path) ≡ true
IsTarget gs Kind.net r fs (Ask.net host port) =
    (rule : NetRule) × (Net.parse r ≡ ok rule) × (Net.covers rule (bare_host host) port ≡ true)
IsTarget gs Kind.env r fs (Ask.env name) = name ≡ r
IsTarget gs Kind.sys r fs (Ask.sys item) = sys_info_from_str r ≡ ok item
IsTarget _ _ _ _ _ = ⊥

any_last {ℓ} :
    {A : Type ℓ} (f : A → Bool) (xs : List A) (x : A) → f x ≡ true → any f (xs ++ x ∷ []) ≡ true
any_last f xs x h = any-append f xs (x ∷ []) ∙ (ground arith)

-- After a denial its targets are denied.
pub denies-deny_policy :
    (gs : FileSystem) (k : Kind) (r : Text) (fs : FileSystem) (a : Ask) (p q : Permissions)
    → IsTarget gs k r fs a
    → deny_policy gs k r p ≡ ok q
    → denies fs q a ≡ true
unfolding denies deny_policy
denies-deny_policy gs Kind.read r fs (Ask.read path) p q t e =
    subst (λ x. denies fs x (Ask.read path) ≡ true) (ok-injective _ q e)
      (any_last (λ d. path_covers d (checked_path fs path)) p.deny.read (path_rule gs r) t)
denies-deny_policy gs Kind.write r fs (Ask.write path) p q t e =
    subst (λ x. denies fs x (Ask.write path) ≡ true) (ok-injective _ q e)
      (any_last (λ d. path_covers d (checked_path fs path)) p.deny.write (path_rule gs r) t)
denies-deny_policy gs Kind.net r fs (Ask.net host port) p q t e =
    let (rule, parsed, e') = >>=-eq-ok (Net.parse r) _ q e in
    let same : t.0 ≡ rule = ok-injective t.0 rule (sym t.1 ∙ parsed) in
    subst (λ x. denies fs x (Ask.net host port) ≡ true) (ok-injective _ q e')
      (any_last (λ d. Net.covers d (bare_host host) port) p.deny.net rule
        (subst (λ x. Net.covers x (bare_host host) port ≡ true) same t.2))
denies-deny_policy gs Kind.env r fs (Ask.env name) p q t e =
    subst (λ x. denies fs x (Ask.env name) ≡ true) (ok-injective _ q e)
      (any_last (λ n. n == name) p.deny.env r (rw t (beq_refl r)))
denies-deny_policy gs Kind.sys r fs (Ask.sys item) p q t e =
    let (found, parsed, e') = >>=-eq-ok (sys_info_from_str r) _ q e in
    let same : item ≡ found = ok-injective item found (sym t ∙ parsed) in
    subst (λ x. denies fs x (Ask.sys item) ≡ true) (ok-injective _ q e')
      (any_last (λ i. i == item) p.deny.sys found (rw same (beq_refl found)))
denies-deny_policy gs k r fs a p q t e = absurd t
