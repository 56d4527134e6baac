-- ===== src/Permissions/Path.antt =====
-- `PathRule`, `CheckedPath` and the path functions, on a Unix system. A `&Path` is its text, and a
-- `PathBuf` the list of its components, which is all that the code reads of one.
pub mod Prefix
pub mod Normal
pub mod Existing
use ferrijs.Prelude.{
  ℕ, ◌≡◌, ◌↔◌, Bool, true, false, ◌&&◌, List, [], ◌∷◌, ◌++◌, Option, none, some, arith,
  if◌then◌else◌, PartialEq, ◌==◌, list_eq, list_beq_iff, nat_eq, last, init,
}
use mathlib.Core.List.{foldl, reverse}
use ferrijs.Text.{Text, text, split}

pub data Component : Type 0 where
  root_dir cur_dir parent_dir : Component
  normal : Text → Component

abbrev pub component_beq : Component → Component → Bool
component_beq root_dir root_dir = true
component_beq cur_dir cur_dir = true
component_beq parent_dir parent_dir = true
component_beq (normal a) (normal b) = a == b
component_beq _ _ = false

pub component_beq_iff : (a b : Component) → (component_beq a b ≡ true) ↔ (a ≡ b)
component_beq_iff (normal a) (normal b) = ground (arith, list_beq_iff a b)
component_beq_iff root_dir root_dir = ground arith
component_beq_iff cur_dir cur_dir = ground arith
component_beq_iff parent_dir parent_dir = ground arith
component_beq_iff _ _ = ground arith

instance abbrev pub component_eq : PartialEq Component
component_eq = record { eq = component_beq; eq_iff = component_beq_iff }

abbrev pub PathBuf : Type 0
PathBuf = List Component

-- One piece between separators: empty ones and `.` leave no component.
unfoldable pub piece_components : List Text → PathBuf
piece_components [] = []
piece_components (s ∷ pieces) =
    let rest = piece_components pieces in
    if s == []
    then rest
    else if s == text "."
    then rest
    else if s == text ".."
    then parent_dir ∷ rest
    else normal s ∷ rest

-- A `.` stays where a relative path begins with it.
relative_components : List Text → PathBuf
unfolding piece_components
relative_components [] = []
relative_components (s ∷ pieces) =
    if s == text "." then cur_dir ∷ piece_components pieces else piece_components (s ∷ pieces)

unfoldable pub is_absolute : Text → Bool
is_absolute [] = false
is_absolute (c ∷ s) = c == b'/'

-- `Path::components`
unfoldable pub components : Text → PathBuf
unfolding relative_components piece_components is_absolute
components path =
    if is_absolute path
    then root_dir ∷ piece_components (split path b'/')
    else relative_components (split path b'/')

-- `Path::starts_with`
unfoldable pub path_starts_with : PathBuf → PathBuf → Bool
path_starts_with p [] = true
path_starts_with [] (c ∷ q) = false
path_starts_with (d ∷ p) (c ∷ q) = d == c && path_starts_with p q

-- `PathBuf::push` of one component: the root replaces what is there.
unfoldable pub push : PathBuf → Component → PathBuf
push out root_dir = root_dir ∷ []
push out c = out ++ c ∷ []

-- What the program asks of the operating system.
pub record FileSystem : Type 0 where
  -- `std::env::current_dir`
  pub current_dir : Option PathBuf
  -- `std::fs::canonicalize`
  pub canonicalize : PathBuf → Option PathBuf

-- `absolute`, as components. Joining drops a `.` at the start of the path, which `normalize`
-- does too.
unfoldable pub absolute : FileSystem → Text → PathBuf
absolute fs path =
    if is_absolute path
    then components path
    else elim fs.current_dir [ none ↦ components path | some cwd ↦ cwd ++ components path ]

-- One round of the loop of `normalize`.
unfoldable pub normalize_step : PathBuf → Component → PathBuf
unfolding push
normalize_step out cur_dir = out
normalize_step out parent_dir = elim (last out) [
  | none ↦ out
  | some root_dir ↦ out
  | some _ ↦ init out
]
normalize_step out root_dir = push out root_dir
normalize_step out (normal n) = push out (normal n)

unfoldable pub normalize : PathBuf → PathBuf
unfolding normalize_step
normalize path = foldl normalize_step [] path

-- The loop of `resolve_existing`, over the components of `existing` from the last to the first;
-- `rest` holds what was cut off, in the order of the path. `none` is the `break`.
unfoldable pub resolve_loop : FileSystem → PathBuf → PathBuf → Option PathBuf
resolve_loop fs [] rest = elim (fs.canonicalize []) [
  | some canonical ↦ some (canonical ++ rest)
  | none ↦ none
]
resolve_loop fs (c ∷ existing) rest =
    let next = resolve_loop fs existing (c ∷ rest) in
    elim (fs.canonicalize (reverse (c ∷ existing))) [
      | some canonical ↦ some (canonical ++ rest)
      | none ↦ elim c [ normal name ↦ next | _ ↦ none ]
    ]

unfoldable pub resolve_existing : FileSystem → PathBuf → PathBuf
unfolding resolve_loop
resolve_existing fs path = elim (resolve_loop fs (reverse path) []) [ some out ↦ out | none ↦ path ]

pub record PathRule : Type 0 where
  pub lexical : PathBuf
  pub resolved : PathBuf

abbrev pub path_rule_beq : PathRule → PathRule → Bool
path_rule_beq a b = a.lexical == b.lexical && a.resolved == b.resolved

pub path_rule_beq_iff : (a b : PathRule) → (path_rule_beq a b ≡ true) ↔ (a ≡ b)
path_rule_beq_iff a b =
    ground (arith, list_beq_iff a.lexical b.lexical, list_beq_iff a.resolved b.resolved)

instance abbrev pub path_rule_eq : PartialEq PathRule
path_rule_eq = record { eq = path_rule_beq; eq_iff = path_rule_beq_iff }

-- `PathRule::new`
unfoldable pub path_rule : FileSystem → Text → PathRule
unfolding absolute normalize resolve_existing
path_rule fs root =
    let lexical = normalize (absolute fs root) in
    record { lexical = lexical; resolved = resolve_existing fs lexical }

-- A path as a check sees it.
pub record CheckedPath : Type 0 where
  pub lexical : PathBuf
  pub resolved : PathBuf

-- `CheckedPath::new`
unfoldable pub checked_path : FileSystem → Text → CheckedPath
unfolding absolute normalize resolve_existing
checked_path fs path =
    let lexical = normalize (absolute fs path) in
    record { lexical = lexical; resolved = resolve_existing fs lexical }

-- `PathRule::covers`
unfoldable pub path_covers : PathRule → CheckedPath → Bool
unfolding path_starts_with
path_covers rule candidate =
    path_starts_with candidate.lexical rule.lexical
    && path_starts_with candidate.resolved rule.resolved

-- `path_subsumes` of `Permissions::intersect`
unfoldable pub path_subsumes : PathRule → PathRule → Bool
unfolding path_starts_with
path_subsumes a b = path_starts_with b.lexical a.lexical && path_starts_with b.resolved a.resolved
