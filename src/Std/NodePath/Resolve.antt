-- ===== src/Std/NodePath/Resolve.antt =====
-- `path.resolve`: with an absolute working directory it answers the root and names.
use mathlib.Core.List.{reverse, append-nil}
use ferrijs.Prelude.{
  ℕ, ◌≡◌, refl, sym, ap, subst, ◌∙◌, Bool, true, false, List, [], ◌∷◌, ◌++◌, length, ◌==◌, list_eq,
  nat_eq, arith, All, All-append, Bool-cases, inl, inr,
}
use ferrijs.Text.{Text, text, join, split}
use ferrijs.Std.NodePath.{
  resolve_segments, resolve_collected, collect_segments, split_all, normalize_into, is_absolute,
}
use ferrijs.Std.NodePath.Reference.{
  is_blank, drop_name, reduce_step, reduce, render, normalize_into-eq,
}
use ferrijs.Std.NodePath.Normal.{IsSegment, IsReduced, split_segments, reduce-IsReduced}
use ferrijs.Std.NodePath.Again.{reverse-All}

-- A name of a normal path: not empty, neither `.` nor `..`, and without a slash.
pub record IsName (s : Text) : Type 0 where
  pub filled : is_blank s ≡ false
  pub no_parent : (s == text "..") ≡ false
  pub segment : IsSegment s

cons_ne : {A : Type 0} (x : A) (xs : List A) → xs ≡ x ∷ xs → ⊥
cons_ne x xs e = omega (arith, ap {B = ℕ} length e)

cons2_ne : {A : Type 0} (x y : A) (xs : List A) → xs ≡ x ∷ y ∷ xs → ⊥
cons2_ne x y xs e = omega (arith, ap {B = ℕ} length e)

-- At the root no `..` is left.
parent_gone : (st : List Text) (s : Text) → All IsName st → drop_name true st ≡ s ∷ st → ⊥
parent_gone [] s a e = absurd cc
parent_gone (t ∷ st) s a e = cons2_ne s t st (sym (rw (a.0.no_parent) refl) ∙ e)

-- A segment that stays on the stack is a name.
reduced-IsName :
    (s : Text) (st : List Text)
    → All IsName st
    → reduce_step true s st ≡ s ∷ st
    → IsSegment s
    → IsName s
reduced-IsName s st a e h = elim (Bool-cases (is_blank s)) [
  | inl b ↦ absurd (cons_ne s st (sym (rw b refl) ∙ e))
  | inr b ↦ elim (Bool-cases (s == text "..")) [
    | inl d ↦ absurd (parent_gone st s a (sym (rw (b, d) refl) ∙ e))
    | inr d ↦ record { filled = b; no_parent = d; segment = h }
  ]
]

pub IsReduced-names : (st : List Text) → IsReduced true st → All IsName st
IsReduced-names [] r = tt
IsReduced-names (s ∷ st) r = let a = IsReduced-names st r.3 in (reduced-IsName s st a r.0 r.2, a)

pub split_all_segments : (segments : List Text) → All IsSegment (split_all segments)
unfolding split_all
split_all_segments [] = tt
split_all_segments (s ∷ segments) =
    All-append IsSegment (split s b'/') (split_all segments) (split_segments s)
      (split_all_segments segments)

-- A path from the root, of names only.
abbrev pub IsFromRoot : Text → Type 0
IsFromRoot path = (ns : List Text) × (path ≡ text "/" ++ join ns (text "/")) × All IsName ns

render-IsFromRoot : (st : List Text) → IsReduced true st → IsFromRoot (render true false st)
unfolding join
render-IsFromRoot [] r = ([], refl, tt)
render-IsFromRoot (s ∷ st) r = (
  reverse (s ∷ st),
  ap (λ t. text "/" ++ t) (append-nil (join (reverse (s ∷ st)) (text "/"))),
  reverse-All IsName (s ∷ st) (IsReduced-names (s ∷ st) r),
)

normalized-IsFromRoot :
    (segments : List Text) → IsFromRoot (normalize_into (split_all segments) true false [])
normalized-IsFromRoot segments =
    subst IsFromRoot (sym (normalize_into-eq (split_all segments) true false)) (
      render-IsFromRoot (reduce true (split_all segments) [])
        (reduce-IsReduced true (split_all segments) [] (split_all_segments segments) tt))

collected-IsFromRoot :
    (cwd : Text) (c : List Text × Bool)
    → is_absolute cwd ≡ true
    → IsFromRoot (resolve_collected cwd c)
unfolding resolve_collected
collected-IsFromRoot cwd (parts, true) h = normalized-IsFromRoot (reverse parts)
collected-IsFromRoot cwd (parts, false) h =
    rw h (normalized-IsFromRoot (reverse (parts ++ cwd ∷ [])))

-- `path.resolve` of any arguments is a path from the root, of names only, if the working directory
-- is absolute.
pub resolve_segments-IsFromRoot :
    (cwd : Text) (segments : List Text)
    → is_absolute cwd ≡ true
    → IsFromRoot (resolve_segments cwd segments)
unfolding resolve_segments
resolve_segments-IsFromRoot cwd segments h =
    collected-IsFromRoot cwd (collect_segments (reverse segments)) h
