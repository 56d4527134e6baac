-- ===== src/Std/NodePath.antt =====
-- crates/ferrijs-std/src/node/path.rs: `node:path`, operations on POSIX paths as texts. `path.parse`
-- answers a record for the JS object, and `path.format` takes its fields; the working directory is
-- an argument. Offsets count code points, which the code only takes at the bounds of segments.
pub mod Reference
pub mod Normal
pub mod Again
pub mod Resolve
pub mod Relative
pub mod Parts
mod Examples
use mathlib.Core.List.{reverse}
use ferrijs.Prelude.{
  ℕ, zero, suc, ◌+◌, ◌-◌, Bool, true, false, not, ◌&&◌, ◌||◌, List, [], ◌∷◌, ◌++◌, Option, none,
  some, if◌then◌else◌, length, take, drop, last, find, retain, is_empty, ltb, ◌==◌, list_eq, nat_eq,
}
use ferrijs.Text.{
  Text, text, starts_with, ends_with_char, ends_with, split, join, trim_end_matches, rsplit_once,
}

-- What a pass has written, and where each segment that `..` may drop begins, the last one first.
pub record Written : Type 0 where
  pub out : Text
  pub starts : List ℕ

-- `if out.len() > body { out.push('/') }`
unfoldable pub separated : ℕ → Text → Text
separated body out = if ltb body (length out) then out ++ text "/" else out

-- `starts.pop()` and what follows.
unfoldable pub pop_segment : Bool → ℕ → Text → List ℕ → Written
unfolding separated
pop_segment absolute body out (start ∷ starts) = record { out = take start out; starts = starts }
pop_segment absolute body out [] = record {
  out = if absolute then out else separated body out ++ text "..";
  starts = [];
}

-- The loop's body.
unfoldable pub write_segment : Bool → ℕ → Text → Written → Written
unfolding pop_segment separated
write_segment absolute body seg w =
    if seg == [] || seg == text "."
    then w
    else if seg == text ".."
    then pop_segment absolute body w.out w.starts
    else record { out = separated body w.out ++ seg; starts = length w.out ∷ w.starts }

unfoldable pub write_segments : Bool → ℕ → List Text → Written → Written
unfolding write_segment
write_segments absolute body [] w = w
write_segments absolute body (seg ∷ parts) w =
    write_segments absolute body parts (write_segment absolute body seg w)

-- `normalize_into`, the end of it.
unfoldable pub close : Bool → Bool → ℕ → ℕ → Text → Text
close absolute trailing root body out =
    if length out == body
    then (if absolute then out else take root out ++ text ".")
    else (if trailing then out ++ text "/" else out)

unfoldable pub normalize_into : List Text → Bool → Bool → Text → Text
unfolding write_segments close
normalize_into parts absolute trailing out =
    let opened = if absolute then out ++ text "/" else out in
    let w = write_segments absolute (length opened) parts (record { out = opened; starts = [] }) in
    close absolute trailing (length out) (length opened) w.out

abbrev pub is_absolute : Text → Bool
is_absolute path = starts_with path (text "/")

-- `path.len() > 1 && path.ends_with('/')`
unfoldable pub is_trailing : Text → Bool
is_trailing path = ltb 1 (length path) && ends_with_char path b'/'

unfoldable pub normalize_str : Text → Text
unfolding normalize_into is_trailing
normalize_str path = normalize_into (split path b'/') (is_absolute path) (is_trailing path) []

-- `flat_map(|s| s.split('/'))`
unfoldable pub split_all : List Text → List Text
split_all [] = []
split_all (s ∷ segments) = split s b'/' ++ split_all segments

unfoldable pub join_segments : List Text → Text
unfolding split_all normalize_into is_trailing
join_segments segments =
    let filled = retain (λ s. not (is_empty s)) segments in
    elim (find (λ s. not (is_empty s)) segments) [
      | none ↦ text "."
      | some first ↦
          let final = elim (last filled) as (λ _. Text) [ none ↦ first | some s ↦ s ] in
          normalize_into (split_all filled) (is_absolute first) (is_trailing final) []
    ]

unfoldable pub trim_slashes : Text → Text
trim_slashes path = trim_end_matches (λ c. c == b'/') path

-- By the two sides of the last slash: the text before it, `/` if that is empty, and `fallback`
-- without a slash.
abbrev pub before_of : Text → Option (Text × Text) → Text
before_of fallback none = fallback
before_of fallback (some (a, b)) = if is_empty a then text "/" else a

unfoldable pub before_slash : Text → Text → Text
before_slash fallback trimmed = before_of fallback (rsplit_once trimmed b'/')

unfoldable pub dirname_str : Text → Text
unfolding before_slash trim_slashes
dirname_str path =
    before_slash (if is_absolute path then text "/" else text ".") (trim_slashes path)

-- `rsplit('/').next()`, by the two sides of the last slash.
abbrev pub after_of : Text → Option (Text × Text) → Text
after_of trimmed none = trimmed
after_of trimmed (some (a, b)) = b

unfoldable pub after_slash : Text → Text
after_slash trimmed = after_of trimmed (rsplit_once trimmed b'/')

unfoldable pub basename_of : Text → Text
unfolding after_slash trim_slashes
basename_of path = after_slash (trim_slashes path)

unfoldable pub basename_str : Text → Option Text → Text
unfolding basename_of
basename_str path none = basename_of path
basename_str path (some ext) =
    let base = basename_of path in
    if ltb (length ext) (length base) && ends_with base ext
    then take (length base - length ext) base
    else base

-- By the two sides of the last dot.
abbrev pub extension_of : Option (Text × Text) → Text
extension_of none = []
extension_of (some (a, b)) = if is_empty a then [] else b'.' ∷ b

unfoldable pub extname_of : Text → Text
extname_of base = extension_of (rsplit_once base b'.')

unfoldable pub extname_str : Text → Text
unfolding extname_of basename_of
extname_str path = extname_of (basename_of path)

-- The loop of `resolve_segments` over the arguments from the right, and whether it met an absolute
-- one, at which it stops.
unfoldable pub collect_segments : List Text → List Text × Bool
collect_segments [] = ([], false)
collect_segments (seg ∷ segments) =
    let (parts, absolute) = collect_segments segments in
    if is_empty seg
    then (parts, absolute)
    else if is_absolute seg
    then (seg ∷ [], true)
    else (seg ∷ parts, absolute)

-- The end of `resolve_segments`, with the working directory where no argument was absolute.
unfoldable pub resolve_collected : Text → List Text × Bool → Text
unfolding split_all normalize_into
resolve_collected cwd (parts, true) = normalize_into (split_all (reverse parts)) true false []
resolve_collected cwd (parts, false) =
    normalize_into (split_all (reverse (parts ++ cwd ∷ []))) (is_absolute cwd) false []

unfoldable pub resolve_segments : Text → List Text → Text
unfolding collect_segments resolve_collected
resolve_segments cwd segments = resolve_collected cwd (collect_segments (reverse segments))

-- `zip`, `take_while` and `count`
unfoldable pub common_length : List Text → List Text → ℕ
common_length [] t = 0
common_length (a ∷ f) [] = 0
common_length (a ∷ f) (b ∷ t) = let rest = common_length f t in if a == b then suc rest else 0

-- `vec![s; n]`
unfoldable pub copies : ℕ → Text → List Text
copies zero s = []
copies (suc n) s = s ∷ copies n s

-- `split('/')` without the empty pieces.
unfoldable pub names : Text → List Text
names path = retain (λ s. not (is_empty s)) (split path b'/')

unfoldable pub relative_str : Text → Text → Text
unfolding normalize_str names common_length copies
relative_str from to =
    let fp = names (normalize_str from) in
    let tp = names (normalize_str to) in
    let common = common_length fp tp in
    join (copies (length fp - common) (text "..") ++ drop common tp) (text "/")

-- `path.relative`
unfoldable pub relative : Text → Text → Text → Text
unfolding relative_str resolve_segments
relative cwd from to =
    relative_str (resolve_segments cwd (from ∷ [])) (resolve_segments cwd (to ∷ []))

-- The object that `path.parse` answers.
pub record Parsed : Type 0 where
  pub root : Text
  pub dir : Text
  pub base : Text
  pub ext : Text
  pub name : Text

unfoldable pub parse_object : Text → Parsed
unfolding basename_of extname_of before_slash trim_slashes
parse_object path =
    let base = basename_of path in
    let ext = extname_of base in
    record {
      root = if is_absolute path then text "/" else [];
      dir = before_slash [] (trim_slashes path);
      base = base;
      ext = ext;
      name = take (length base - length ext) base;
    }

-- The base name, or the name and the extension with a dot between them.
unfoldable pub format_base : Text → Text → Text → Text
format_base base name ext =
    if is_empty base
    then (if not (is_empty ext) && not (starts_with ext (text "."))
        then name ++ (text "." ++ ext)
        else name ++ ext)
    else base

unfoldable pub format_dir : Text → Text → Text → Text
format_dir root dir base =
    if is_empty dir
    then root ++ base
    else if dir == text "/"
    then text "/" ++ base
    else dir ++ (text "/" ++ base)

unfoldable pub format_str : Text → Text → Text → Text → Text → Text
unfolding format_base format_dir
format_str root dir base name ext = format_dir root dir (format_base base name ext)
