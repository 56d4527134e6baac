-- ===== src/Permissions/Examples.antt =====
-- Tests of the permission model, and the theorems at concrete inputs.
use ferrijs.Prelude.{
  ◌==◌, list_eq, nat_eq, ℕ, ◌≡◌, refl, ◌≢◌, Bool, ◌&&◌, ◌||◌, true, false, not, List, [], ◌∷◌, ◌++◌,
  Option, none, some, All,
}
use ferrijs.Prelude.Result.{ok, err, is_ok}
use ferrijs.Text.{
  Text, text, trim, trim_start_matches, trim_end_matches, to_ascii_lowercase, to_lower,
  strip_prefix, strip_suffix, ends_with_char, split_once, rsplit_once, count_char, split,
}
use ferrijs.Text.Affix.{has_dotted_suffix}
use ferrijs.Text.Number.{parse_u16}
use ferrijs.Permissions.Allow.{Allow, Kind, grants, entries, intersect_with, union, is_all}
use ferrijs.Permissions.Net
use ferrijs.Permissions.Net.{NetRule, covers, subsumes, wildcard, covers_host}
use ferrijs.Permissions.Net.Subsumes.{is_plain, is_plain-IsPlain, covers-subsumes}
use ferrijs.Permissions.Path.{
  component_eq, root_dir, cur_dir, parent_dir, normal, PathBuf, FileSystem, PathRule, CheckedPath,
  components, normalize, resolve_existing, path_rule, checked_path, path_covers,
}
use ferrijs.Permissions.Policy.{Permissions, deny_nothing, intersect, bare_host}
use ferrijs.Permissions.Path.Normal.{IsName, normalize-absolute}
use ferrijs.Permissions.Path.Existing.{resolve_existing-longest}
use ferrijs.Permissions.Policy.{verdict}
use ferrijs.Permissions.Policy.Ask.{Ask, check, check-eq, kind_of, resource_of, denies, allows}
use ferrijs.Permissions.Policy.Narrow.{HasPlainHosts, intersect_narrows}
use ferrijs.Permissions.Container.{Container, revoke, deny_resource, container_check_net, has}
use ferrijs.Permissions.Container.Checks.{
  container_check, container_check_outcome, has_kind_whole, hook_allows, request_of,
}
use ferrijs.Permissions.Container.Life.{Op, step, run, run_narrows, deny_is_final}
use ferrijs.Permissions.Ip.{V4}
use ferrijs.Permissions.Sys.{SysInfo}

abbrev rule : Text → Option ℕ → NetRule
rule host port = record { host = host; port = port }

parse_net_rules :
    (Net.parse (text " *.Example.com:443 ") ≡ ok (rule (text "*.example.com") (some 443)))
    × (Net.parse (text "[::1]:8080") ≡ ok (rule (text "::1") (some 8080)))
    × (Net.parse (text "fe80::1") ≡ ok (rule (text "fe80::1") none))
    × (is_ok (Net.parse (text "example.com:65536")) ≡ false)
    × (is_ok (Net.parse (text "*.")) ≡ false)
unfolding Net.parse trim to_ascii_lowercase to_lower strip_prefix split_once rsplit_once count_char
    parse_u16
parse_net_rules = (refl, refl, refl, refl, refl)

wildcard_covers :
    (covers (rule (text "*.example.com") none) (text "api.example.com") none ≡ true)
    × (covers (rule (text "*.example.com") none) (text "example.com") none ≡ true)
    × (covers (rule (text "*.example.com") none) (text "badexample.com") none ≡ false)
unfolding covers strip_prefix has_dotted_suffix strip_suffix ends_with_char
wildcard_covers = (refl, refl, refl)

normalize_test :
    normalize (components (text "/a//b/./../c/"))
    ≡ root_dir ∷ normal (text "a") ∷ normal (text "c") ∷ []
unfolding normalize components split
normalize_test = refl

-- A file system where `/data/link` points to `/secret` and only that and the roots exist.
abbrev link : PathBuf
link = root_dir ∷ normal (text "data") ∷ normal (text "link") ∷ []

abbrev same_path : PathBuf → PathBuf → Bool
same_path p q = p == q

abbrev disk : FileSystem
disk = record {
  current_dir = some (root_dir ∷ normal (text "data") ∷ []);
  canonicalize = λ p. elim (same_path p link) [
    | true ↦ some (root_dir ∷ normal (text "secret") ∷ [])
    | false ↦ elim (same_path p (root_dir ∷ [])) [ true ↦ some (root_dir ∷ []) | false ↦ none ]
  ];
}

-- A link inside a granted directory does not lead out of it.
link_refused :
    (path_covers (path_rule disk (text "/data")) (checked_path disk (text "/data/x.txt")) ≡ true)
    × (path_covers (path_rule disk (text "/data")) (checked_path disk (text "link/x.txt")) ≡ false)
unfolding path_covers path_rule checked_path components split
link_refused = (refl, refl)

abbrev wide : Permissions
wide = record {
  read = Allow.all;
  write = Allow.none;
  net = Allow.only (rule (text "*.example.com") none ∷ []);
  env = Allow.only (text "HOME" ∷ []);
  sys = Allow.all;
  deny = deny_nothing;
}

abbrev narrow : Permissions
narrow = record wide { net = Allow.only (rule (text "api.example.com") (some 443) ∷ []) }

abbrev request : Ask
request = Ask.net (text "API.example.com") (some 443)

plain_wide : HasPlainHosts wide
unfolding is_plain strip_prefix wildcard entries
plain_wide = (is_plain-IsPlain (text "*.example.com") refl, tt)

plain_narrow : HasPlainHosts narrow
unfolding is_plain strip_prefix wildcard entries
plain_narrow = (is_plain-IsPlain (text "api.example.com") refl, tt)

request_passes : check disk (intersect wide narrow) request ≡ ok tt
unfolding check intersect intersect_with grants union covers subsumes strip_prefix strip_suffix
    ends_with_char has_dotted_suffix bare_host to_ascii_lowercase to_lower trim_start_matches
    trim_end_matches
request_passes = refl

intersect_narrows_example : (check disk wide request ≡ ok tt) × (check disk narrow request ≡ ok tt)
intersect_narrows_example =
    intersect_narrows disk wide narrow request plain_wide plain_narrow request_passes

check-eq_example :
    check disk wide request
    ≡ verdict
        (not (denies disk wide request) && allows disk wide request)
        (kind_of request)
        (resource_of request)
check-eq_example = check-eq disk wide request

covers-subsumes_example :
    covers (rule (text "*.example.com") none) (text "api.example.com") (some 443) ≡ true
unfolding subsumes covers strip_prefix strip_suffix ends_with_char has_dotted_suffix wildcard
    is_plain
covers-subsumes_example =
    covers-subsumes (rule (text "*.example.com") none) (rule (text "api.example.com") (some 443))
      (text "api.example.com") (some 443) (is_plain-IsPlain (text "*.example.com") refl) refl refl

abbrev data_rule : PathRule
data_rule = record {
  lexical = root_dir ∷ normal (text "data") ∷ [];
  resolved = root_dir ∷ normal (text "data") ∷ [];
}

abbrev sub_rule : PathRule
sub_rule = record {
  lexical = root_dir ∷ normal (text "data") ∷ normal (text "sub") ∷ [];
  resolved = root_dir ∷ normal (text "data") ∷ normal (text "sub") ∷ [];
}

abbrev sub_file : CheckedPath
sub_file = record {
  lexical = root_dir ∷ normal (text "data") ∷ normal (text "sub") ∷ normal (text "f") ∷ [];
  resolved = root_dir ∷ normal (text "data") ∷ normal (text "sub") ∷ normal (text "f") ∷ [];
}

abbrev dotted : PathBuf
dotted =
    parent_dir ∷ normal (text "etc") ∷ cur_dir ∷ parent_dir ∷ parent_dir ∷ normal (text "x") ∷ []

normalize-absolute_example :
    (q : PathBuf) × (normalize (root_dir ∷ dotted) ≡ root_dir ∷ q) × All IsName q
normalize-absolute_example = normalize-absolute dotted

-- Behind the link nothing exists.
nothing_behind :
    (k l : PathBuf)
    → k ++ l ≡ normal (text "x") ∷ []
    → k ≢ []
    → disk.canonicalize (link ++ k) ≡ none
nothing_behind [] l e h = absurd (h refl)
nothing_behind (c ∷ []) l e h = refl
nothing_behind (c ∷ d ∷ k) l e h = cc

resolve_existing-longest_example :
    resolve_existing disk (link ++ normal (text "x") ∷ [])
    ≡ (root_dir ∷ normal (text "secret") ∷ []) ++ normal (text "x") ∷ []
resolve_existing-longest_example =
    resolve_existing-longest disk link (normal (text "x") ∷ [])
      (root_dir ∷ normal (text "secret") ∷ []) (tt, tt) refl nothing_behind

abbrev realm : Container
realm = record { policy = wide; hook = none; audited = true; audit = [] }

abbrev steps : List Op
steps = Op.ask disk request ∷ Op.revoke_to narrow ∷ Op.deny_one disk Kind.env (text "PATH") ∷ []

abbrev home : Ask
home = Ask.env (text "HOME")

run_narrows_example : check disk realm.policy request ≡ ok tt
unfolding run step container_check container_check_net revoke deny_resource check intersect
    intersect_with grants union covers subsumes strip_prefix strip_suffix ends_with_char
    has_dotted_suffix bare_host to_ascii_lowercase to_lower trim_start_matches trim_end_matches
run_narrows_example =
    run_narrows disk request steps realm plain_wide (tt, (plain_narrow, (tt, tt))) refl

deny_is_final_example :
    check disk (run steps (deny_resource disk Kind.env (text "HOME") realm).0).policy home
    ≡ err (record { kind = Kind.env; resource = text "HOME" })
unfolding deny_resource
deny_is_final_example = deny_is_final disk home disk Kind.env (text "HOME") realm steps refl refl

container_check_outcome_example :
    is_ok (container_check disk home realm).1
    ≡ (is_ok (check disk realm.policy home) || hook_allows realm (request_of home))
container_check_outcome_example = container_check_outcome disk home realm

has_kind_whole_example : check disk realm.policy (Ask.sys SysInfo.uid) ≡ ok tt
unfolding has is_all
has_kind_whole_example = has_kind_whole disk disk (Ask.sys SysInfo.uid) realm refl

abbrev metadata : V4
metadata = record { o0 = 169; o1 = 254; o2 = 169; o3 = 254 }
