-- ===== src/Permissions/Path/Normal.antt =====
-- `normalize`: what its results look like, and what `..` does.
use mathlib.Core.List.{foldl, append_assoc, append-nil}
use ferrijs.Prelude.{
  ◌≡◌, refl, sym, subst, ap, ◌∙◌, ◌⊎◌, inl, inr, List, [], ◌∷◌, ◌++◌, none, some, arith, last, init,
  All, All-append,
}
use ferrijs.Text.{Text}
use ferrijs.Permissions.Path.{
  Component, root_dir, cur_dir, parent_dir, normal, PathBuf, push, normalize_step, normalize,
}

-- A file or directory name, no `.`, no `..`, no root.
abbrev pub IsName : Component → Type 0
IsName (normal n) = Unit {0}
IsName _ = ⊥

-- Only names, but for a root at the front.
abbrev pub IsNormalized : PathBuf → Type 0
IsNormalized (root_dir ∷ p) = All IsName p
IsNormalized p = All IsName p

module _ {ℓ} {A : Type ℓ} where
  pub last-append : (p : List A) (c : A) → last (p ++ c ∷ []) ≡ some c
  last-append [] c = refl
  last-append (d ∷ []) c = refl
  last-append (d ∷ e ∷ p) c = last-append (e ∷ p) c

  pub init-append : (p : List A) (c : A) → init (p ++ c ∷ []) ≡ p
  init-append [] c = refl
  init-append (d ∷ []) c = refl
  init-append (d ∷ e ∷ p) c = ap (λ t. d ∷ t) (init-append (e ∷ p) c)

  foldl-append {κ} :
      {B : Type κ} (f : B → A → B) (b : B) (p q : List A)
      → foldl f b (p ++ q) ≡ foldl f (foldl f b p) q
  foldl-append f b [] q = refl
  foldl-append f b (c ∷ p) q = foldl-append f (f b c) p q

All-IsName-init : (p : PathBuf) → All IsName p → All IsName (init p)
All-IsName-init [] h = tt
All-IsName-init (c ∷ []) h = tt
All-IsName-init (c ∷ d ∷ p) h = (h.0, All-IsName-init (d ∷ p) h.1)

normal-IsNormalized : (n : Text) (p : PathBuf) → IsNormalized p → IsNormalized (p ++ normal n ∷ [])
normal-IsNormalized n [] h = (tt, tt)
normal-IsNormalized n (root_dir ∷ p) h = All-append IsName p (normal n ∷ []) h (tt, tt)
normal-IsNormalized n (normal m ∷ p) h = (tt, All-append IsName p (normal n ∷ []) h.1 (tt, tt))
normal-IsNormalized n (cur_dir ∷ p) h = absurd h.0
normal-IsNormalized n (parent_dir ∷ p) h = absurd h.0

parent_cases :
    (p : PathBuf) → (normalize_step p parent_dir ≡ p) ⊎ (normalize_step p parent_dir ≡ init p)
unfolding normalize_step
parent_cases p =
    elim (last p)
      as (λ l.
        (elim l as (λ _. PathBuf) [ none ↦ p | some root_dir ↦ p | some _ ↦ init p ] ≡ p)
        ⊎ (elim l as (λ _. PathBuf) [ none ↦ p | some root_dir ↦ p | some _ ↦ init p ] ≡ init p)) [
          | none ↦ inl refl
          | some root_dir ↦ inl refl
          | some cur_dir ↦ inr refl
          | some parent_dir ↦ inr refl
          | some (normal n) ↦ inr refl
        ]

init-IsNormalized : (p : PathBuf) → IsNormalized p → IsNormalized (init p)
init-IsNormalized [] h = tt
init-IsNormalized (root_dir ∷ []) h = tt
init-IsNormalized (root_dir ∷ c ∷ p) h = All-IsName-init (c ∷ p) h
init-IsNormalized (normal m ∷ []) h = tt
init-IsNormalized (normal m ∷ c ∷ p) h = (tt, All-IsName-init (c ∷ p) h.1)
init-IsNormalized (cur_dir ∷ p) h = absurd h.0
init-IsNormalized (parent_dir ∷ p) h = absurd h.0

parent-IsNormalized : (p : PathBuf) → IsNormalized p → IsNormalized (normalize_step p parent_dir)
parent-IsNormalized p h = elim (parent_cases p) [
  | inl e ↦ subst IsNormalized (sym e) h
  | inr e ↦ subst IsNormalized (sym e) (init-IsNormalized p h)
]

normalize_step-IsNormalized :
    (p : PathBuf) (c : Component) → IsNormalized p → IsNormalized (normalize_step p c)
normalize_step-IsNormalized p root_dir h = unfold normalize_step push in tt
normalize_step-IsNormalized p cur_dir h = unfold normalize_step in h
normalize_step-IsNormalized p parent_dir h = parent-IsNormalized p h
normalize_step-IsNormalized p (normal n) h = unfold normalize_step push in normal-IsNormalized n p h

fold-IsNormalized : (q p : PathBuf) → IsNormalized p → IsNormalized (foldl normalize_step p q)
fold-IsNormalized [] p h = h
fold-IsNormalized (c ∷ q) p h =
    fold-IsNormalized q (normalize_step p c) (normalize_step-IsNormalized p c h)

-- A normalised path has no `.` and no `..`, and a root only at its front.
pub normalize-IsNormalized : (p : PathBuf) → IsNormalized (normalize p)
unfolding normalize
normalize-IsNormalized p = fold-IsNormalized p [] tt

fold_names : (q p : PathBuf) → All IsName q → foldl normalize_step p q ≡ p ++ q
unfolding normalize_step push
fold_names [] p h = rw append-nil
fold_names (normal n ∷ q) p h =
    fold_names q (p ++ normal n ∷ []) h.1 ∙ append_assoc p (normal n ∷ []) q
fold_names (root_dir ∷ q) p h = absurd h.0
fold_names (cur_dir ∷ q) p h = absurd h.0
fold_names (parent_dir ∷ q) p h = absurd h.0

normalize_id : (p : PathBuf) → IsNormalized p → normalize p ≡ p
unfolding normalize normalize_step push
normalize_id [] h = refl
normalize_id (root_dir ∷ p) h = fold_names p (root_dir ∷ []) h
normalize_id (normal n ∷ p) h = fold_names p (normal n ∷ []) h.1
normalize_id (cur_dir ∷ p) h = absurd h.0
normalize_id (parent_dir ∷ p) h = absurd h.0

-- Normalising twice is normalising once.
pub normalize-normalize : (p : PathBuf) → normalize (normalize p) ≡ normalize p
normalize-normalize p = normalize_id (normalize p) (normalize-IsNormalized p)

normal_parent :
    (out : PathBuf) (n : Text) → normalize_step (normalize_step out (normal n)) parent_dir ≡ out
unfolding normalize_step push
normal_parent out n = ground (arith, last-append out (normal n), init-append out (normal n))

-- A name followed by `..` leaves no trace, wherever it stands.
pub normalize-parent :
    (p q : PathBuf) (n : Text) → normalize (p ++ normal n ∷ parent_dir ∷ q) ≡ normalize (p ++ q)
unfolding normalize
normalize-parent p q n =
    foldl-append normalize_step [] p (normal n ∷ parent_dir ∷ q)
    ∙ ap (λ (t : PathBuf). foldl normalize_step t q) (normal_parent (foldl normalize_step [] p) n)
    ∙ sym (foldl-append normalize_step [] p q)

root_step :
    (p : PathBuf) (c : Component) → (q : PathBuf) × (normalize_step (root_dir ∷ p) c ≡ root_dir ∷ q)
unfolding normalize_step push
root_step p root_dir = ([], refl)
root_step p cur_dir = (p, refl)
root_step p (normal n) = (p ++ normal n ∷ [], refl)
root_step [] parent_dir = ([], refl)
root_step (c ∷ p) parent_dir = elim (parent_cases (root_dir ∷ c ∷ p)) [
  | inl e ↦ (c ∷ p, e)
  | inr e ↦ (init (c ∷ p), e)
]

root_fold : (r p : PathBuf) → (q : PathBuf) × (foldl normalize_step (root_dir ∷ p) r ≡ root_dir ∷ q)
root_fold [] p = (p, refl)
root_fold (c ∷ r) p =
    let (q, e) = root_step p c in
    let (q', e') = root_fold r q in (q', ap (λ (t : PathBuf). foldl normalize_step t r) e ∙ e')

-- However many `..` an absolute path holds, it stays at or below the root: what follows the root
-- in its normal form is only names.
pub normalize-absolute :
    (p : PathBuf) → (q : PathBuf) × (normalize (root_dir ∷ p) ≡ root_dir ∷ q) × All IsName q
unfolding normalize normalize_step push
normalize-absolute p =
    let (q, e) = root_fold p [] in
    (q, e, subst IsNormalized e (normalize-IsNormalized (root_dir ∷ p)))
