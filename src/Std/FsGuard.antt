-- ===== src/Std/FsGuard.antt =====
-- crates/ferrijs-std/src/fs/guard.rs: the checks in front of the `fs` entry points, with the checks
-- of crates/ferrijs-std/src/permissions.rs and the table of flags of
-- crates/ferrijs-std/src/fs/open.rs. An entry point and its `_sync` twin make the same checks and
-- are one operation here; what runs behind the checks is not modelled.
pub mod Rights
mod Examples
use ferrijs.Prelude.{
  ℕ, ◌/◌, ◌%◌, Bool, true, false, not, ◌&&◌, ◌||◌, List, [], ◌∷◌, Option, none, some, find,
  if◌then◌else◌, any, ◌==◌, list_eq, nat_eq,
}
use ferrijs.Prelude.Result.{Result, ok, err}
use ferrijs.Text.{Text, text}
use ferrijs.Permissions.Path.{FileSystem}
use ferrijs.Permissions.Policy.{Checked}
use ferrijs.Permissions.Container.{Container, container_check_read, container_check_write}

-- The realm's container, if a host installed one.
abbrev pub Realm : Type 0
Realm = Option Container

abbrev keep : Container × Checked → Realm × Checked
keep (c, checked) = (some c, checked)

-- `permissions::check_read` and `permissions::check_write`
unfoldable pub realm_check_read : FileSystem → Text → Realm → Realm × Checked
realm_check_read fs path none = (none, ok tt)
realm_check_read fs path (some c) = keep (container_check_read fs path c)

unfoldable pub realm_check_write : FileSystem → Text → Realm → Realm × Checked
realm_check_write fs path none = (none, ok tt)
realm_check_write fs path (some c) = keep (container_check_write fs path c)

-- One check and, if it passes, another: `?`.
unfoldable pub and_then : Realm × Checked → (Realm → Realm × Checked) → Realm × Checked
and_then (realm, err denied) next = (realm, err denied)
and_then (realm, ok u) next = next realm

-- The bits of `R_OK`, `W_OK` and `X_OK`.
abbrev pub asks_read : ℕ → Bool
asks_read mode = mode / 4 % 2 == 1

abbrev pub asks_write : ℕ → Bool
asks_write mode = mode / 2 % 2 == 1

abbrev pub asks_execute : ℕ → Bool
asks_execute mode = mode % 2 == 1

unfoldable pub check_access_mode : FileSystem → Text → Option ℕ → Realm → Realm × Checked
unfolding realm_check_read realm_check_write and_then
check_access_mode fs path given realm =
    let mode = elim given as (λ _. ℕ) [ none ↦ 0 | some m ↦ m ] in
    and_then (if asks_write mode then realm_check_write fs path realm else (realm, ok tt)) (λ r.
      if asks_read mode || asks_execute mode || not (asks_write mode)
      then realm_check_read fs path r
      else (r, ok tt))

abbrev pub read_flags : List Text
read_flags = text "r" ∷ text "rs" ∷ text "sr" ∷ []

abbrev pub read_write_flags : List Text
read_write_flags =
    text "r+"
    ∷ text "rs+"
    ∷ text "sr+"
    ∷ text "w+"
    ∷ text "wx+"
    ∷ text "xw+"
    ∷ text "a+"
    ∷ text "ax+"
    ∷ text "xa+"
    ∷ text "as+"
    ∷ text "sa+"
    ∷ []

-- `unwrap_or("r")`
abbrev pub or_read : Option Text → Text
or_read none = text "r"
or_read (some flags) = flags

abbrev pub is_one_of : List Text → Text → Bool
is_one_of flags f = any (λ g. g == f) flags

unfoldable pub check_flags : FileSystem → Text → Text → Realm → Realm × Checked
unfolding realm_check_read realm_check_write and_then
check_flags fs path flags realm =
    if is_one_of read_flags flags
    then realm_check_read fs path realm
    else if is_one_of read_write_flags flags
    then and_then (realm_check_read fs path realm) (realm_check_write fs path)
    else realm_check_write fs path realm

unfoldable pub check_open_flags : FileSystem → Text → Option Text → Realm → Realm × Checked
unfolding check_flags
check_open_flags fs path flags realm = check_flags fs path (or_read flags) realm

-- What `OpenOptions` is told of a file: `tokio::fs::OpenOptions`.
pub record OpenOptions : Type 0 where
  pub read : Bool
  pub write : Bool
  pub append : Bool
  pub create : Bool
  pub create_new : Bool
  pub truncate : Bool

abbrev pub no_options : OpenOptions
no_options = record {
  read = false;
  write = false;
  append = false;
  create = false;
  create_new = false;
  truncate = false;
}

-- The table of `open`.
abbrev pub open_table : List (List Text × OpenOptions)
open_table =
    (text "a" ∷ [], record no_options { append = true; create = true })
    ∷ (text "ax" ∷ text "xa" ∷ [], record no_options { append = true; create_new = true })
    ∷ (text "a+" ∷ [], record no_options { append = true; read = true; create = true })
    ∷ (
      text "ax+" ∷ text "xa+" ∷ [],
      record no_options { append = true; read = true; create_new = true },
    )
    ∷ (text "r" ∷ [], record no_options { read = true })
    ∷ (text "r+" ∷ [], record no_options { read = true; write = true })
    ∷ (text "w" ∷ [], record no_options { write = true; create = true; truncate = true })
    ∷ (text "wx" ∷ text "xw" ∷ [], record no_options { write = true; create_new = true })
    ∷ (
      text "w+" ∷ [],
      record no_options { write = true; read = true; create = true; truncate = true },
    )
    ∷ (
      text "wx+" ∷ text "xw+" ∷ [],
      record no_options { write = true; read = true; create_new = true },
    )
    ∷ []

-- The options that the flags stand for; other flags are refused.
unfoldable pub open_options : Text → Option OpenOptions
open_options flags = elim (find (λ (e : List Text × OpenOptions). is_one_of e.0 flags) open_table) [
  | none ↦ none
  | some (names, options) ↦ some options
]

-- The entry points with the paths that they are given.
pub data FsCall : Type 0 where
  access : Text → Option ℕ → FsCall
  open_file : Text → Option Text → FsCall
  append_file realpath chmod mkdir mkdtemp read_dir read_file exists rmdir rmfile stat lstat
        write_file :
      Text → FsCall
  rename symlink : Text → Text → FsCall

-- The checks of each; `exists` answers false where its check fails.
unfoldable pub guarded : FileSystem → FsCall → Realm → Realm × Checked
unfolding check_access_mode check_open_flags realm_check_read realm_check_write and_then
guarded fs (FsCall.access path mode) realm = check_access_mode fs path mode realm
guarded fs (FsCall.open_file path flags) realm = check_open_flags fs path flags realm
guarded fs (FsCall.append_file path) realm = realm_check_write fs path realm
guarded fs (FsCall.realpath path) realm = realm_check_read fs path realm
guarded fs (FsCall.chmod path) realm = realm_check_write fs path realm
guarded fs (FsCall.mkdir path) realm = realm_check_write fs path realm
guarded fs (FsCall.mkdtemp prefix) realm = realm_check_write fs prefix realm
guarded fs (FsCall.read_dir path) realm = realm_check_read fs path realm
guarded fs (FsCall.read_file path) realm = realm_check_read fs path realm
guarded fs (FsCall.exists path) realm = realm_check_read fs path realm
guarded fs (FsCall.rmdir path) realm = realm_check_write fs path realm
guarded fs (FsCall.rmfile path) realm = realm_check_write fs path realm
guarded fs (FsCall.stat path) realm = realm_check_read fs path realm
guarded fs (FsCall.lstat path) realm = realm_check_read fs path realm
guarded fs (FsCall.write_file path) realm = realm_check_write fs path realm
guarded fs (FsCall.rename old_path new_path) realm =
    and_then (realm_check_write fs old_path realm) (realm_check_write fs new_path)
guarded fs (FsCall.symlink target path) realm = realm_check_write fs path realm
