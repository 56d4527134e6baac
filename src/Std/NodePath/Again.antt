-- ===== src/Std/NodePath/Again.antt =====
-- A rendered path read again: its segments are those of its stack, so normalising twice is
-- normalising once.
use mathlib.Core.List.{reverse, reverse-cons, append_assoc, append-nil}
use ferrijs.Prelude.{
  ℕ, ◌<◌, ◌≡◌, refl, sym, ap, subst, ◌∙◌, Bool, true, false, List, [], ◌∷◌, ◌++◌, if◌then◌else◌,
  length, length-append, is_empty, ◌==◌, list_eq, nat_eq, arith, All,
}
use ferrijs.Text.{Text, text, join, split, contains_char, starts_with, ends_with_char}
use ferrijs.Text.Affix.{ends_with_char-append}
use ferrijs.Std.NodePath.{normalize_str, is_absolute, is_trailing}
use ferrijs.Std.NodePath.Reference.{reduce, render, normalize_into-eq, join_last, snoc_filled}
use ferrijs.Std.NodePath.Normal.{
  IsSegment, IsReduced, split_segments, split-segment, split-append, or-eq-false, reduce-IsReduced,
  reduce-append, reduce-reverse,
}

-- What a segment of a stack is: not empty, and without a slash.
abbrev pub IsFull : Text → Type 0
IsFull s = (is_empty s ≡ false) × IsSegment s

All-snoc :
    {A : Type 0} (P : A → Type 0) (xs : List A) (x : A) → All P xs → P x → All P (xs ++ x ∷ [])
All-snoc P [] x a p = (p, tt)
All-snoc P (y ∷ xs) x a p = (a.0, All-snoc P xs x a.1 p)

pub reverse-All : {A : Type 0} (P : A → Type 0) (xs : List A) → All P xs → All P (reverse xs)
reverse-All P [] a = tt
reverse-All P (x ∷ xs) a =
    subst (All P) (sym (reverse-cons x xs)) (All-snoc P (reverse xs) x (reverse-All P xs a.1) a.0)

pub IsReduced-IsFull : (absolute : Bool) (st : List Text) → IsReduced absolute st → All IsFull st
IsReduced-IsFull absolute [] r = tt
IsReduced-IsFull absolute (s ∷ st) r = ((r.1, r.2), IsReduced-IsFull absolute st r.3)

pub reverse_filled : (s : Text) (st : List Text) → is_empty (reverse (s ∷ st)) ≡ false
reverse_filled s st = ap is_empty (reverse-cons s st) ∙ snoc_filled (reverse st) s

-- The slash that a path may end with.
abbrev pub slash_if : Bool → Text
slash_if trailing = if trailing then text "/" else []

-- The empty piece behind that slash.
abbrev pub piece_if : Bool → List Text
piece_if trailing = if trailing then [] ∷ [] else []

-- Segments that are joined, with or without a slash behind them, split again.
pub split-join :
    (trailing : Bool) (xs : List Text)
    → is_empty xs ≡ false
    → All IsFull xs
    → split (join xs (text "/") ++ slash_if trailing) b'/' ≡ xs ++ piece_if trailing
unfolding join split
split-join trailing [] e a = absurd cc
split-join true (x ∷ []) e a = split-append x [] a.0.1
split-join false (x ∷ []) e a = rw (append-nil x) (split-segment x a.0.1)
split-join trailing (x ∷ y ∷ xs) e a =
    let rest = join (y ∷ xs) (text "/") in
    ap (λ t. split t b'/') (append_assoc x (text "/" ++ rest) (slash_if trailing))
    ∙ (split-append x (rest ++ slash_if trailing) a.0.1
        ∙ ap (λ ps. x ∷ ps) (split-join trailing (y ∷ xs) refl a.1))

reduce-piece_if :
    (absolute trailing : Bool) (st : List Text) → reduce absolute (piece_if trailing) st ≡ st
reduce-piece_if absolute true st = refl
reduce-piece_if absolute false st = refl

pub reduce-split :
    (absolute trailing : Bool) (xs acc : List Text)
    → is_empty xs ≡ false
    → All IsFull xs
    → reduce absolute (split (join xs (text "/") ++ slash_if trailing) b'/') acc
      ≡ reduce absolute xs acc
reduce-split absolute trailing xs acc e a =
    ap (λ ps. reduce absolute ps acc) (split-join trailing xs e a)
    ∙ (reduce-append absolute xs (piece_if trailing) acc
        ∙ reduce-piece_if absolute trailing (reduce absolute xs acc))

reduce-join :
    (absolute trailing : Bool) (s : Text) (st : List Text)
    → IsReduced absolute (s ∷ st)
    → reduce absolute (split (join (reverse (s ∷ st)) (text "/") ++ slash_if trailing) b'/') []
      ≡ s ∷ st
reduce-join absolute trailing s st r =
    reduce-split absolute trailing (reverse (s ∷ st)) [] (reverse_filled s st)
      (reverse-All IsFull (s ∷ st) (IsReduced-IsFull absolute (s ∷ st) r))
    ∙ reduce-reverse absolute (s ∷ st) r

reduce-render :
    (absolute trailing : Bool) (st : List Text)
    → IsReduced absolute st
    → reduce absolute (split (render absolute trailing st) b'/') [] ≡ st
unfolding split contains_char
reduce-render true trailing [] r = refl
reduce-render false trailing [] r = refl
reduce-render true trailing (s ∷ st) r =
    ap (λ ps. reduce true ps [])
      (split-append [] (join (reverse (s ∷ st)) (text "/") ++ slash_if trailing) refl)
    ∙ reduce-join true trailing s st r
reduce-render false trailing (s ∷ st) r = reduce-join false trailing s st r

pub is_absolute-join :
    (xs : List Text) (tail : Text)
    → is_empty xs ≡ false
    → All IsFull xs
    → is_absolute (join xs (text "/") ++ tail) ≡ false
unfolding join starts_with contains_char
is_absolute-join [] tail e a = absurd cc
is_absolute-join ([] ∷ xs) tail e a = absurd cc
is_absolute-join ((c ∷ x) ∷ []) tail e a =
    rw ((or-eq-false (c == b'/') (contains_char x b'/') a.0.1).0) refl
is_absolute-join ((c ∷ x) ∷ y ∷ xs) tail e a =
    rw ((or-eq-false (c == b'/') (contains_char x b'/') a.0.1).0) refl

is_absolute-render :
    (absolute trailing : Bool) (st : List Text)
    → IsReduced absolute st
    → is_absolute (render absolute trailing st) ≡ absolute
unfolding starts_with
is_absolute-render true trailing [] r = refl
is_absolute-render false trailing [] r = refl
is_absolute-render true trailing (s ∷ st) r = refl
is_absolute-render false trailing (s ∷ st) r =
    is_absolute-join (reverse (s ∷ st)) (slash_if trailing) (reverse_filled s st)
      (reverse-All IsFull (s ∷ st) (IsReduced-IsFull false (s ∷ st) r))

ends_with_char-cons :
    (c : ℕ) (t : Text) → is_empty t ≡ false → ends_with_char (c ∷ t) b'/' ≡ ends_with_char t b'/'
unfolding ends_with_char
ends_with_char-cons c [] e = absurd cc
ends_with_char-cons c (d ∷ t) e = refl

append_filled : (p s : Text) → is_empty s ≡ false → is_empty (p ++ s) ≡ false
append_filled [] s e = e
append_filled (c ∷ p) s e = refl

ends_plain : (p s : Text) → is_empty s ≡ false → IsSegment s → ends_with_char (p ++ s) b'/' ≡ false
unfolding ends_with_char contains_char
ends_plain [] [] e h = absurd cc
ends_plain [] (c ∷ []) e h = (or-eq-false (c == b'/') false h).0
ends_plain [] (c ∷ d ∷ s) e h =
    ends_plain [] (d ∷ s) refl (or-eq-false (c == b'/') (contains_char (d ∷ s) b'/') h).1
ends_plain (c ∷ p) s e h = ends_with_char-cons c (p ++ s) (append_filled p s e) ∙ ends_plain p s e h

-- The joined segments end with the last one.
join_ends : (s : Text) (st : List Text) → (p : Text) × (join (reverse (s ∷ st)) (text "/") ≡ p ++ s)
unfolding join
join_ends s [] = ([], refl)
join_ends s (t ∷ st) = (
  join (reverse (t ∷ st)) (text "/") ++ text "/",
  ap (λ xs. join xs (text "/")) (reverse-cons s (t ∷ st))
      ∙ (join_last (reverse (t ∷ st)) s (reverse_filled t st)
          ∙ sym (append_assoc (join (reverse (t ∷ st)) (text "/")) (text "/") s)),
)

filled_length : (s : Text) → is_empty s ≡ false → 0 < length s
filled_length [] e = absurd cc
filled_length (c ∷ s) e = omega arith

is_trailing-render :
    (absolute trailing : Bool) (s : Text) (st : List Text)
    → IsReduced absolute (s ∷ st)
    → is_trailing (render absolute trailing (s ∷ st)) ≡ trailing
unfolding is_trailing
is_trailing-render absolute true s st r =
    let root = slash_if absolute in
    let (p, e) = join_ends s st in
    rw
      (
        e,
        sym (append_assoc root (p ++ s) (text "/")),
        ends_with_char-append (root ++ (p ++ s)) b'/',
      )
      (ground (
        arith,
        length-append (root ++ (p ++ s)) (text "/"),
        length-append root (p ++ s),
        length-append p s,
        filled_length s r.1,
      ))
is_trailing-render absolute false s st r =
    let root = slash_if absolute in
    let (p, e) = join_ends s st in
    rw (e, append-nil (p ++ s), sym (append_assoc root p s), ends_plain (root ++ p) s r.1 r.2)
      (ground arith)

-- `path.normalize` is the path of the stack that the segments leave.
pub normalize_str-eq :
    (path : Text)
    → normalize_str path
      ≡ render
          (is_absolute path)
          (is_trailing path)
          (reduce (is_absolute path) (split path b'/') [])
unfolding normalize_str
normalize_str-eq path = normalize_into-eq (split path b'/') (is_absolute path) (is_trailing path)

-- A path that is rendered from a stack of normal segments is its own normal form.
pub normalize_str-render :
    (absolute trailing : Bool) (st : List Text)
    → IsReduced absolute st
    → normalize_str (render absolute trailing st) ≡ render absolute trailing st
unfolding normalize_str is_trailing starts_with split ends_with_char
normalize_str-render true trailing [] r = refl
normalize_str-render false trailing [] r = refl
normalize_str-render absolute trailing (s ∷ st) r =
    normalize_str-eq (render absolute trailing (s ∷ st))
    ∙ (rw
        (
          is_absolute-render absolute trailing (s ∷ st) r,
          is_trailing-render absolute trailing s st r,
          reduce-render absolute trailing (s ∷ st) r,
        )
        refl)

-- `path.normalize` twice is once.
pub normalize_str-normalize_str :
    (path : Text) → normalize_str (normalize_str path) ≡ normalize_str path
normalize_str-normalize_str path =
    let absolute = is_absolute path in
    let st = reduce absolute (split path b'/') [] in
    ap normalize_str (normalize_str-eq path)
    ∙ (normalize_str-render absolute (is_trailing path) st
          (reduce-IsReduced absolute (split path b'/') [] (split_segments path) tt)
        ∙ sym (normalize_str-eq path))
