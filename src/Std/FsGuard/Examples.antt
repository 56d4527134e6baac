-- ===== src/Std/FsGuard/Examples.antt =====
-- Tests of the checks, and the theorem at a concrete input.
use ferrijs.Prelude.{◌≡◌, refl, true, false, not, ◌&&◌, ◌||◌, none, some}
use ferrijs.Prelude.Result.{is_ok, ok}
use ferrijs.Text.{text}
use ferrijs.Permissions.Path.{FileSystem}
use ferrijs.Permissions.Policy.{nothing, allow_all_read, check_read, check_write}
use ferrijs.Permissions.Policy.Ask.{Ask}
use ferrijs.Permissions.Container.{new, container_check_read, container_check_write}
use ferrijs.Std.FsGuard.{Realm, FsCall, guarded, check_open_flags, open_options}
use ferrijs.Std.FsGuard.Rights.{passes, check_open_flags-open_options}

abbrev no_links : FileSystem
no_links = record { current_dir = none; canonicalize = λ p. none }

-- A realm that may read everything and write nothing.
abbrev reader : Realm
reader = some (new (allow_all_read nothing))

unrestricted : (guarded no_links (FsCall.rename (text "/a") (text "/b")) none).1 ≡ ok tt
unfolding guarded
unrestricted = refl

check_open_flags-open_options_example :
    is_ok (check_open_flags no_links (text "/x") (some (text "w+")) reader).1 ≡ (
      (not true || passes no_links (Ask.read (text "/x")) reader)
      && (not true || passes no_links (Ask.write (text "/x")) reader))
unfolding open_options
check_open_flags-open_options_example =
    check_open_flags-open_options no_links (text "/x") (some (text "w+")) reader
      (record {
        read = true;
        write = true;
        append = false;
        create = true;
        create_new = false;
        truncate = true;
      })
      refl

-- The reader may look at a file and may not make one.
reader_opens : is_ok (guarded no_links (FsCall.open_file (text "/x") none) reader).1 ≡ true
unfolding guarded container_check_read check_read new allow_all_read nothing
reader_opens = refl

reader_writes :
    is_ok (guarded no_links (FsCall.open_file (text "/x") (some (text "a"))) reader).1 ≡ false
unfolding guarded container_check_write check_write new allow_all_read nothing
reader_writes = refl
