-- ===== src/Std/NodePath/Normal.antt =====
-- Normal paths: what the stack of a path holds, how a rendered path splits again, and the functions
-- that normalise.
use mathlib.Core.List.{reverse, reverse-cons}
use ferrijs.Prelude.{
  ℕ, ◌≡◌, refl, ap, ◌∙◌, Bool, true, false, ◌||◌, List, [], ◌∷◌, ◌++◌, if◌then◌else◌, is_empty,
  ◌==◌, list_eq, nat_eq, arith, All, Bool-cases, inl, inr,
}
use ferrijs.Text.{Text, text, split, contains_char}
use ferrijs.Std.NodePath.Reference.{drop_name, is_blank, reduce_step, reduce}

-- A segment: no slash in it.
abbrev pub IsSegment : Text → Type 0
IsSegment s = contains_char s b'/' ≡ false

pub split_segments : (path : Text) → All IsSegment (split path b'/')
unfolding split contains_char
split_segments [] = (refl, tt)
split_segments (c ∷ path) = pieces c (split path b'/') (split_segments path)
  where
    pieces :
        (c : ℕ) (ps : List Text)
        → All IsSegment ps
        → All IsSegment (elim ps as (λ _. List Text) [
          | [] ↦ []
          | piece ∷ rest ↦ if c == b'/' then [] ∷ piece ∷ rest else (c ∷ piece) ∷ rest
        ])
    pieces c [] a = tt
    pieces c (p ∷ ps) a = elim (Bool-cases (c == b'/')) [
      | inl e ↦ rw e (refl, a)
      | inr e ↦ rw e (rw e (a.0), a.1)
    ]

-- The slash that the text begins with is a piece of its own, as is one that it ends with.
pub split-segment : (s : Text) → IsSegment s → split s b'/' ≡ s ∷ []
unfolding split contains_char
split-segment [] h = refl
split-segment (c ∷ s) h = ground (arith, split-segment s)

split_filled : (s : Text) → (p : Text) × (ps : List Text) × (split s b'/' ≡ p ∷ ps)
unfolding split
split_filled [] = ([], [], refl)
split_filled (c ∷ s) =
    let (p, ps, e) = split_filled s in
    elim (Bool-cases (c == b'/')) [
      | inl d ↦ ([], p ∷ ps, rw (e, d) refl)
      | inr d ↦ (c ∷ p, ps, rw (e, d) refl)
    ]

pub or-eq-false : (a b : Bool) → (a || b) ≡ false → (a ≡ false) × (b ≡ false)
or-eq-false a b h = (ground arith, ground arith)

pub split-append :
    (s rest : Text) → IsSegment s → split (s ++ (text "/" ++ rest)) b'/' ≡ s ∷ split rest b'/'
unfolding split contains_char
split-append [] rest h = let (p, ps, e) = split_filled rest in rw e refl
split-append (c ∷ s) rest h =
    let (n, i) = or-eq-false (c == b'/') (contains_char s b'/') h in
    rw (split-append s rest i, n) refl

-- A stack that no further reduction changes.
abbrev pub IsReduced : Bool → List Text → Type 0
IsReduced absolute [] = Unit
IsReduced absolute (s ∷ st) =
    (reduce_step absolute s st ≡ s ∷ st)
    × (is_empty s ≡ false)
    × IsSegment s
    × IsReduced absolute st

not_blank_filled : (s : Text) → is_blank s ≡ false → is_empty s ≡ false
not_blank_filled [] e = absurd cc
not_blank_filled (c ∷ s) e = refl

parent-IsSegment : IsSegment (text "..")
unfolding contains_char
parent-IsSegment = refl

drop_name-IsReduced :
    (absolute b : Bool) (st : List Text)
    → absolute ≡ b
    → IsReduced absolute st
    → IsReduced absolute (drop_name absolute st)
drop_name-IsReduced absolute true [] e r = rw e tt
drop_name-IsReduced absolute false [] e r = rw e (refl, refl, parent-IsSegment, tt)
drop_name-IsReduced absolute b (s ∷ st) e r = elim (Bool-cases (s == text "..")) [
  | inl d ↦ rw d (rw d refl, refl, parent-IsSegment, r)
  | inr d ↦ rw d r.3
]

reduce_step-IsReduced :
    (absolute : Bool) (s : Text) (st : List Text)
    → IsSegment s
    → IsReduced absolute st
    → IsReduced absolute (reduce_step absolute s st)
reduce_step-IsReduced absolute s st h r = elim (Bool-cases (is_blank s)) [
  | inl e ↦ rw e r
  | inr e ↦ elim (Bool-cases (s == text "..")) [
    | inl d ↦ rw (e, d) (drop_name-IsReduced absolute absolute st refl r)
    | inr d ↦ rw (e, d) (rw (e, d) refl, not_blank_filled s e, h, r)
  ]
]

pub reduce-IsReduced :
    (absolute : Bool) (parts st : List Text)
    → All IsSegment parts
    → IsReduced absolute st
    → IsReduced absolute (reduce absolute parts st)
reduce-IsReduced absolute [] st a r = r
reduce-IsReduced absolute (s ∷ parts) st a r =
    reduce-IsReduced absolute parts (reduce_step absolute s st) a.1
      (reduce_step-IsReduced absolute s st a.0 r)

pub reduce-append :
    (absolute : Bool) (xs ys st : List Text)
    → reduce absolute (xs ++ ys) st ≡ reduce absolute ys (reduce absolute xs st)
reduce-append absolute [] ys st = refl
reduce-append absolute (x ∷ xs) ys st = reduce-append absolute xs ys (reduce_step absolute x st)

-- The segments of a reduced stack, in order, make the stack again.
pub reduce-reverse :
    (absolute : Bool) (st : List Text)
    → IsReduced absolute st
    → reduce absolute (reverse st) [] ≡ st
reduce-reverse absolute [] r = refl
reduce-reverse absolute (s ∷ st) r =
    ap (λ xs. reduce absolute xs []) (reverse-cons s st)
    ∙ (reduce-append absolute (reverse st) (s ∷ []) []
        ∙ (ap (reduce_step absolute s) (reduce-reverse absolute st r.3) ∙ r.0))
