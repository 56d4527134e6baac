-- ===== src/Std/FsGuard/Rights.antt =====
-- What `open` is allowed: its check asks for exactly the rights of the options that its flags stand
-- for.
use mathlib.Core.Option.{some-injective}
use ferrijs.Prelude.{
  ◌≡◌, refl, sym, subst, ◌∙◌, Bool, true, false, not, ◌&&◌, ◌||◌, List, [], ◌∷◌, Option, none, some,
  arith, if◌then◌else◌, find, All, Bool-cases, inl, inr, ◌==◌, list_eq, nat_eq, list_beq_iff,
}
use ferrijs.Prelude.Result.{ok, err, is_ok}
use ferrijs.Text.{Text}
use ferrijs.Permissions.Path.{FileSystem}
use ferrijs.Permissions.Policy.{Checked}
use ferrijs.Permissions.Policy.Ask.{Ask, check}
use ferrijs.Permissions.Container.Checks.{
  container_check, container_check_outcome, container_check_audit, hook_allows, request_of,
}
use ferrijs.Std.FsGuard.{
  Realm, realm_check_read, realm_check_write, and_then, read_flags, read_write_flags, is_one_of,
  or_read, check_flags, check_open_flags, OpenOptions, open_table, open_options,
}

-- The realm passes a request: it has no container, or the policy or the hook of its container does.
abbrev pub passes : FileSystem → Ask → Realm → Bool
passes fs ask none = true
passes fs ask (some c) = is_ok (check fs c.policy ask) || hook_allows c (request_of ask)

-- The options change the file or make one.
abbrev pub modifies : OpenOptions → Bool
modifies o = o.write || (o.append || (o.create || (o.create_new || o.truncate)))

realm_check_read-passes :
    (fs : FileSystem) (path : Text) (realm : Realm)
    → is_ok (realm_check_read fs path realm).1 ≡ passes fs (Ask.read path) realm
unfolding realm_check_read container_check
realm_check_read-passes fs path none = refl
realm_check_read-passes fs path (some c) = container_check_outcome fs (Ask.read path) c

realm_check_write-passes :
    (fs : FileSystem) (path : Text) (realm : Realm)
    → is_ok (realm_check_write fs path realm).1 ≡ passes fs (Ask.write path) realm
unfolding realm_check_write container_check
realm_check_write-passes fs path none = refl
realm_check_write-passes fs path (some c) = container_check_outcome fs (Ask.write path) c

-- A check of the realm leaves every request passing as it did.
realm_check_read_kept :
    (fs : FileSystem) (path : Text) (ask : Ask) (realm : Realm)
    → passes fs ask (realm_check_read fs path realm).0 ≡ passes fs ask realm
unfolding realm_check_read container_check
realm_check_read_kept fs path ask none = refl
realm_check_read_kept fs path ask (some c) =
    subst (λ c'. passes fs ask (some c') ≡ passes fs ask (some c))
      (sym (container_check_audit fs (Ask.read path) c)) refl

and_then-ok :
    (first : Realm × Checked) (next : Realm → Realm × Checked)
    → is_ok (and_then first next).1 ≡ (is_ok first.1 && is_ok (next first.0).1)
unfolding and_then
and_then-ok (realm, err d) next = refl
and_then-ok (realm, ok u) next = refl

-- Where the checks and the table place flags.
abbrev IsPlaced : Text → OpenOptions → Type 0
IsPlaced f o =
    (is_one_of read_flags f ≡ (o.read && not (modifies o)))
    × (is_one_of read_write_flags f ≡ (o.read && modifies o))
    × ((o.read || modifies o) ≡ true)

table-IsPlaced : All (λ e. All (λ f. IsPlaced f e.1) e.0) open_table
table-IsPlaced = (
  ((refl, refl, refl), tt),
  (
    ((refl, refl, refl), ((refl, refl, refl), tt)),
    (
      ((refl, refl, refl), tt),
      (
        ((refl, refl, refl), ((refl, refl, refl), tt)),
        (
          ((refl, refl, refl), tt),
          (
            ((refl, refl, refl), tt),
            (
              ((refl, refl, refl), tt),
              (
                ((refl, refl, refl), ((refl, refl, refl), tt)),
                (((refl, refl, refl), tt), (((refl, refl, refl), ((refl, refl, refl), tt)), tt)),
              ),
            ),
          ),
        ),
      ),
    ),
  ),
)

IsPlaced-of_any :
    (o : OpenOptions) (names : List Text) (f : Text)
    → All (λ g. IsPlaced g o) names
    → is_one_of names f ≡ true
    → IsPlaced f o
IsPlaced-of_any o [] f a h = absurd cc
IsPlaced-of_any o (g ∷ names) f a h = elim (Bool-cases (g == f)) [
  | inl e ↦ subst (λ x. IsPlaced x o) ((list_beq_iff g f).0 e) a.0
  | inr e ↦ IsPlaced-of_any o names f a.1 (ground arith)
]

open_options-IsPlaced :
    (table : List (List Text × OpenOptions)) (f : Text) (o : OpenOptions)
    → All (λ e. All (λ g. IsPlaced g e.1) e.0) table
    → (elim (find (λ (e : List Text × OpenOptions). is_one_of e.0 f) table)
        as (λ _. Option OpenOptions) [ none ↦ none | some (names, options) ↦ some options ])
      ≡ some o
    → IsPlaced f o
open_options-IsPlaced [] f o a h = absurd cc
open_options-IsPlaced ((names, options) ∷ table) f o a h = elim (Bool-cases (is_one_of names f)) [
  | inl e ↦
      subst (IsPlaced f) (some-injective options o (ground arith))
        (IsPlaced-of_any options names f a.0 e)
  | inr e ↦ open_options-IsPlaced table f o a.1 (ground arith)
]

-- The three checks by whether the file is read and modified.
rights_exact :
    (fs : FileSystem) (path : Text) (realm : Realm) (reads modified : Bool)
    → (reads || modified) ≡ true
    → is_ok
        (if reads && not modified
          then realm_check_read fs path realm
          else if reads && modified
          then and_then (realm_check_read fs path realm) (realm_check_write fs path)
          else realm_check_write fs path realm).1
      ≡ ((not reads || passes fs (Ask.read path) realm)
          && (not modified || passes fs (Ask.write path) realm))
rights_exact fs path realm true true h =
    and_then-ok (realm_check_read fs path realm) (realm_check_write fs path)
    ∙ (rw
        (
          realm_check_read-passes fs path realm,
          realm_check_write-passes fs path (realm_check_read fs path realm).0,
          realm_check_read_kept fs path (Ask.write path) realm,
        )
        refl)
rights_exact fs path realm true false h = realm_check_read-passes fs path realm ∙ (ground arith)
rights_exact fs path realm false true h = realm_check_write-passes fs path realm
rights_exact fs path realm false false h = absurd cc

-- For flags that `open` takes, its check passes exactly if the realm passes a read where the file
-- is opened for reading, and a write where it is opened for writing, for appending, or is created
-- or truncated.
pub check_open_flags-open_options :
    (fs : FileSystem) (path : Text) (flags : Option Text) (realm : Realm) (o : OpenOptions)
    → open_options (or_read flags) ≡ some o
    → is_ok (check_open_flags fs path flags realm).1 ≡ (
        (not o.read || passes fs (Ask.read path) realm)
        && (not (modifies o) || passes fs (Ask.write path) realm))
unfolding check_open_flags check_flags open_options
check_open_flags-open_options fs path flags realm o h =
    let (p, q, r) = open_options-IsPlaced open_table (or_read flags) o table-IsPlaced h in
    rw (p, q) (rights_exact fs path realm o.read (modifies o) r)
