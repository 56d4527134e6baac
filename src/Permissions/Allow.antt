-- ===== src/Permissions/Allow.antt =====
-- `Kind`, `Allow<T>` and its operations, `Denied`, and the union of denial lists.
pub mod Narrow
use ferrijs.Prelude.{
  Bool, true, false, not, ◌&&◌, List, [], ◌∷◌, ◌++◌, map, if◌then◌else◌, any, retain, contains,
  PartialEq,
}
use ferrijs.Text.{Text, text}

pub data Kind : Type 0 where
  read write net env sys : Kind

unfoldable pub kind_as_str : Kind → Text
kind_as_str read = text "read"
kind_as_str write = text "write"
kind_as_str net = text "net"
kind_as_str env = text "env"
kind_as_str sys = text "sys"

pub data Allow {ℓ} (T : Type ℓ) : Type ℓ where
  none : Allow T
  all : Allow T
  only : List T → Allow T

module _ {ℓ} {T : Type ℓ} where
  unfoldable pub is_all : Allow T → Bool
  is_all all = true
  is_all _ = false

  unfoldable pub is_none : Allow T → Bool
  is_none none = true
  is_none _ = false

  unfoldable pub entries : Allow T → List T
  entries (only list) = list
  entries _ = []

  -- `Allow::map`
  unfoldable pub map_allow {κ} : {U : Type κ} → (T → U) → Allow T → Allow U
  map_allow f none = none
  map_allow f all = all
  map_allow f (only list) = only (map f list)

  -- What each check does with a grant once the denials are out of the way.
  unfoldable pub grants : (T → Bool) → Allow T → Bool
  grants covers none = false
  grants covers all = true
  grants covers (only rules) = any covers rules

module _ {ℓ} {T : Type ℓ} ⦃e : PartialEq T⦄ where
  -- The second loop of `intersect_with`: the entries of `theirs` that `mine` covers and that are
  -- not kept yet are pushed behind `kept`.
  unfoldable pub keep_theirs : (T → T → Bool) → List T → List T → List T → List T
  keep_theirs subsumes mine [] kept = kept
  keep_theirs subsumes mine (x ∷ theirs) kept =
      keep_theirs subsumes mine theirs
        (if any (λ m. subsumes m x) mine && not (contains kept x) then kept ++ x ∷ [] else kept)

  unfoldable pub intersect_with : (T → T → Bool) → Allow T → Allow T → Allow T
  unfolding keep_theirs
  intersect_with subsumes none other = none
  intersect_with subsumes all none = none
  intersect_with subsumes (only mine) none = none
  intersect_with subsumes all all = all
  intersect_with subsumes all (only theirs) = only theirs
  intersect_with subsumes (only mine) all = only mine
  intersect_with subsumes (only mine) (only theirs) =
      only (keep_theirs subsumes mine theirs (retain (λ x. any (λ t. subsumes t x) theirs) mine))

  -- `union` of `Deny::merged`
  unfoldable pub union : List T → List T → List T
  union out [] = out
  union out (item ∷ b) = union (if contains out item then out else out ++ item ∷ []) b

-- `Denied`
pub record Denied : Type 0 where
  pub kind : Kind
  pub resource : Text
