-- ===== src/Std/NodePath/Examples.antt =====
-- Tests of the paths, and the theorems at concrete inputs.
use ferrijs.Prelude.{◌≡◌, refl, true, false, [], ◌∷◌}
use ferrijs.Text.{text, join, split, starts_with, ends_with_char, rsplit_once, trim_end_matches}
use ferrijs.Std.NodePath.{
  normalize_into, normalize_str, join_segments, dirname_str, extname_str, resolve_segments,
  relative_str, relative, parse_object, format_str, collect_segments,
}
use ferrijs.Std.NodePath.Reference.{reduce, render, normalize_into-eq}
use ferrijs.Std.NodePath.Again.{normalize_str-normalize_str}
use ferrijs.Std.NodePath.Resolve.{IsFromRoot, resolve_segments-IsFromRoot}
use ferrijs.Std.NodePath.Relative.{resolve_segments-relative_str}
use ferrijs.Std.NodePath.Parts.{format_str-parse_object}

normalize_dots : normalize_str (text "/foo/bar//baz/asdf/quux/..") ≡ text "/foo/bar/baz/asdf"
unfolding normalize_str split starts_with ends_with_char
normalize_dots = refl

normalize_parents : normalize_str (text "../..") ≡ text "../.."
unfolding normalize_str split starts_with ends_with_char
normalize_parents = refl

normalize_slash : normalize_str (text "./a/") ≡ text "a/"
unfolding normalize_str split starts_with ends_with_char
normalize_slash = refl

join_dots :
    join_segments (text "/foo" ∷ text "bar" ∷ text "baz/asdf" ∷ text "quux" ∷ text ".." ∷ [])
    ≡ text "/foo/bar/baz/asdf"
unfolding join_segments split starts_with ends_with_char
join_dots = refl

-- `path.join("a", "/")` is `a/` in Node.
join_last_slash : join_segments (text "a" ∷ text "/" ∷ []) ≡ text "a"
unfolding join_segments split starts_with ends_with_char
join_last_slash = refl

-- `path.normalize("./")` is `./` in Node.
normalize_here : normalize_str (text "./") ≡ text "."
unfolding normalize_str split starts_with ends_with_char
normalize_here = refl

dirname_file : dirname_str (text "/a/b/") ≡ text "/a"
unfolding dirname_str trim_end_matches rsplit_once starts_with
dirname_file = refl

extname_hidden : extname_str (text "/home/.gitignore") ≡ []
unfolding extname_str trim_end_matches rsplit_once
extname_hidden = refl

relative_up : relative (text "/w") (text "/a/b/c") (text "/a/x") ≡ text "../../x"
unfolding relative split starts_with ends_with_char join collect_segments
relative_up = refl

normalize_into-eq_example :
    normalize_into (text "a" ∷ text ".." ∷ text ".." ∷ text "b" ∷ []) false true []
    ≡ render false true (reduce false (text "a" ∷ text ".." ∷ text ".." ∷ text "b" ∷ []) [])
normalize_into-eq_example =
    normalize_into-eq (text "a" ∷ text ".." ∷ text ".." ∷ text "b" ∷ []) false true

normalize_str-normalize_str_example :
    normalize_str (normalize_str (text "../a/.//b/../c/")) ≡ normalize_str (text "../a/.//b/../c/")
normalize_str-normalize_str_example = normalize_str-normalize_str (text "../a/.//b/../c/")

resolve_segments-IsFromRoot_example :
    IsFromRoot (resolve_segments (text "/base") (text "../../x" ∷ text "./y/" ∷ []))
unfolding starts_with
resolve_segments-IsFromRoot_example =
    resolve_segments-IsFromRoot (text "/base") (text "../../x" ∷ text "./y/" ∷ []) refl

resolve_segments-relative_str_example :
    resolve_segments (text "/w") (text "/a/b" ∷ relative_str (text "/a/b") (text "/a/c/d") ∷ [])
    ≡ resolve_segments (text "/w") (text "/a/c/d" ∷ [])
unfolding starts_with
resolve_segments-relative_str_example =
    resolve_segments-relative_str (text "/w") (text "/a/b") (text "/a/c/d") refl refl

format_str-parse_object_example :
    (format_str (text "/") (text "/home/u") (text "f.txt") (text "f") (text ".txt")
      ≡ text "/home/u/f.txt")
    × (format_str (text "/") (text "/home/u") [] (text "f") (text ".txt") ≡ text "/home/u/f.txt")
unfolding starts_with ends_with_char parse_object rsplit_once trim_end_matches
format_str-parse_object_example = format_str-parse_object (text "/home/u/f.txt") refl refl
