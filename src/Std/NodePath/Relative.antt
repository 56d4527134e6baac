-- ===== src/Std/NodePath/Relative.antt =====
-- `path.relative`: the path that it answers leads from the one argument to the other.
use mathlib.Core.List.{
  reverse, reverse-cons, reverse-append, reverse-reverse, append_assoc, append-nil,
}
use ferrijs.Prelude.{
  length-reverse, take-drop, length-drop, drop-All, retain-append, ℕ, zero, suc, ◌-◌, ◌≡◌, refl,
  sym, ap, ◌∙◌, Bool, true, false, not, List, [], ◌∷◌, ◌++◌, length, take, drop, retain, is_empty,
  ◌==◌, list_eq, list_beq_iff, nat_eq, All, All-append, Bool-cases, inl, inr,
}
use ferrijs.Text.{Text, text, join, split, contains_char, starts_with}
use ferrijs.Std.NodePath.{
  resolve_segments, resolve_collected, collect_segments, split_all, normalize_str, is_absolute,
  is_trailing, names, common_length, copies, relative_str,
}
use ferrijs.Std.NodePath.Reference.{reduce_step, reduce, render, normalize_into-eq}
use ferrijs.Std.NodePath.Normal.{
  IsReduced, split_segments, split-append, reduce-IsReduced, reduce-append,
}
use ferrijs.Std.NodePath.Again.{
  IsFull, IsReduced-IsFull, reverse-All, reverse_filled, slash_if, piece_if, split-join,
  is_absolute-join, reduce-split, normalize_str-eq,
}
use ferrijs.Std.NodePath.Resolve.{IsName, IsReduced-names}

-- The segments counted are the same in both lists.
take-common_length : (f t : List Text) → take (common_length f t) f ≡ take (common_length f t) t
unfolding common_length
take-common_length [] t = refl
take-common_length (a ∷ f) [] = refl
take-common_length (a ∷ f) (b ∷ t) = elim (Bool-cases (a == b)) [
  | inl e ↦ rw e (
      ap (λ x. x ∷ take (common_length f t) f) ((list_beq_iff a b).0 e)
      ∙ ap (λ l. b ∷ l) (take-common_length f t))
  | inr e ↦ rw e refl
]

-- One `..` for each name takes the names off the stack.
reduce-copies :
    (ys st : List Text)
    → All IsName ys
    → reduce true (copies (length ys) (text "..")) (ys ++ st) ≡ st
unfolding copies
reduce-copies [] st a = refl
reduce-copies (y ∷ ys) st a =
    let dropped : reduce_step true (text "..") (y ∷ (ys ++ st)) ≡ ys ++ st =
      rw (a.0.no_parent) refl in
    ap (reduce true (copies (length ys) (text ".."))) dropped ∙ reduce-copies ys st a.1

-- Names go on the stack.
reduce-names : (xs st : List Text) → All IsName xs → reduce true xs st ≡ reverse xs ++ st
reduce-names [] st a = refl
reduce-names (x ∷ xs) st a =
    rw (a.0.filled, a.0.no_parent)
      (reduce-names xs (x ∷ st) a.1
        ∙ (sym (append_assoc (reverse xs) (x ∷ []) st)
            ∙ ap (λ l. l ++ st) (sym (reverse-cons x xs))))

-- From the stack of one list of names, the relative path leads to that of the other.
reduce-relative :
    (f t : List Text)
    → All IsName f
    → All IsName t
    → reduce true
        (copies (length f - common_length f t) (text "..") ++ drop (common_length f t) t)
        (reverse f)
      ≡ reverse t
reduce-relative f t a b =
    let c = common_length f t in
    let ys = reverse (drop c f) in
    let count : length f - c ≡ length ys = sym (length-reverse (drop c f) ∙ length-drop c f) in
    let whole : reverse f ≡ ys ++ reverse (take c f) =
      ap reverse (sym (take-drop c f)) ∙ reverse-append (take c f) (drop c f) in
    reduce-append true (copies (length f - c) (text "..")) (drop c t) (reverse f)
    ∙ (ap (reduce true (drop c t)) (
          rw (count, whole)
            (reduce-copies ys (reverse (take c f))
              (reverse-All IsName (drop c f) (drop-All IsName c f a))))
        ∙ (reduce-names (drop c t) (reverse (take c f)) (drop-All IsName c t b)
            ∙ (ap (λ l. reverse (drop c t) ++ reverse l) (take-common_length f t)
                ∙ (sym (reverse-append (take c t) (drop c t)) ∙ ap reverse (take-drop c t)))))

retain_full : (xs : List Text) → All IsFull xs → retain (λ s. not (is_empty s)) xs ≡ xs
retain_full [] a = refl
retain_full (x ∷ xs) a = rw (a.0.0) (ap (λ l. x ∷ l) (retain_full xs a.1))

retain-piece_if : (trailing : Bool) → retain (λ s. not (is_empty s)) (piece_if trailing) ≡ []
retain-piece_if true = refl
retain-piece_if false = refl

-- The names of an absolute path are those of its stack.
names-render :
    (trailing : Bool) (st : List Text)
    → IsReduced true st
    → names (render true trailing st) ≡ reverse st
unfolding names split contains_char
names-render trailing [] r = refl
names-render trailing (s ∷ st) r =
    let xs = reverse (s ∷ st) in
    let full = reverse-All IsFull (s ∷ st) (IsReduced-IsFull true (s ∷ st) r) in
    ap (retain (λ (s : Text). not (is_empty s))) (
      split-append [] (join xs (text "/") ++ slash_if trailing) refl
      ∙ ap (λ ps. [] ∷ ps) (split-join trailing xs (reverse_filled s st) full))
    ∙ (retain-append (λ (s : Text). not (is_empty s)) xs (piece_if trailing)
        ∙ (rw (retain_full xs full, retain-piece_if trailing) (append-nil xs)))

-- The stack of an absolute path.
abbrev stack_of : Text → List Text
stack_of path = reduce true (split path b'/') []

stack_of-IsReduced : (path : Text) → IsReduced true (stack_of path)
stack_of-IsReduced path = reduce-IsReduced true (split path b'/') [] (split_segments path) tt

names-normalize_str :
    (path : Text) → is_absolute path ≡ true → names (normalize_str path) ≡ reverse (stack_of path)
names-normalize_str path h =
    ap names (normalize_str-eq path ∙ (rw h refl))
    ∙ names-render (is_trailing path) (stack_of path) (stack_of-IsReduced path)

resolve_absolute :
    (cwd : Text) (segments parts : List Text)
    → collect_segments (reverse segments) ≡ (parts, true)
    → resolve_segments cwd segments ≡ render true false (reduce true (split_all (reverse parts)) [])
unfolding resolve_segments resolve_collected
resolve_absolute cwd segments parts e =
    ap (resolve_collected cwd) e ∙ normalize_into-eq (split_all (reverse parts)) true false

absolute_filled : (path : Text) → is_absolute path ≡ true → is_empty path ≡ false
unfolding starts_with
absolute_filled [] h = absurd cc
absolute_filled (c ∷ path) h = refl

collect_one :
    (path : Text) → is_absolute path ≡ true → collect_segments (path ∷ []) ≡ (path ∷ [], true)
unfolding collect_segments
collect_one path h = rw (absolute_filled path h, h) refl

resolve_one :
    (cwd path : Text)
    → is_absolute path ≡ true
    → resolve_segments cwd (path ∷ []) ≡ render true false (stack_of path)
unfolding split_all
resolve_one cwd path h =
    resolve_absolute cwd (path ∷ []) (path ∷ []) (collect_one path h)
    ∙ ap (λ ps. render true false (reduce true ps [])) (append-nil (split path b'/'))

collect_two :
    (path q : Text)
    → is_absolute path ≡ true
    → is_empty q ≡ false
    → is_absolute q ≡ false
    → collect_segments (q ∷ path ∷ []) ≡ (q ∷ path ∷ [], true)
unfolding collect_segments
collect_two path q h e n = rw (e, n, collect_one path h) refl

join_filled :
    (x : Text) (xs : List Text) → is_empty x ≡ false → is_empty (join (x ∷ xs) (text "/")) ≡ false
unfolding join
join_filled [] xs e = absurd cc
join_filled (c ∷ x) [] e = refl
join_filled (c ∷ x) (y ∷ xs) e = refl

-- Segments behind an absolute path.
resolve_joined :
    (cwd path : Text) (xs : List Text)
    → is_absolute path ≡ true
    → All IsFull xs
    → resolve_segments cwd (path ∷ join xs (text "/") ∷ [])
      ≡ render true false (reduce true xs (stack_of path))
unfolding split_all join collect_segments
resolve_joined cwd path [] h a =
    resolve_absolute cwd (path ∷ [] ∷ []) (path ∷ []) (collect_one path h)
    ∙ ap (λ ps. render true false (reduce true ps [])) (append-nil (split path b'/'))
resolve_joined cwd path (x ∷ xs) h a =
    let q = join (x ∷ xs) (text "/") in
    let plain : is_absolute q ≡ false =
      ap is_absolute (sym (append-nil q)) ∙ is_absolute-join (x ∷ xs) [] refl a in
    resolve_absolute cwd (path ∷ q ∷ []) (q ∷ path ∷ [])
      (collect_two path q h (join_filled x xs a.0.0) plain)
    ∙ (ap (λ ps. render true false (reduce true (split path b'/' ++ ps) []))
          (append-nil (split q b'/'))
        ∙ ap (render true false) (
            reduce-append true (split path b'/') (split q b'/') []
            ∙ (ap (λ t. reduce true (split t b'/') (stack_of path)) (sym (append-nil q))
                ∙ reduce-split true false (x ∷ xs) (stack_of path) refl a)))

-- The segments of the relative path between two lists of names.
abbrev steps : List Text → List Text → List Text
steps f t = copies (length f - common_length f t) (text "..") ++ drop (common_length f t) t

relative_str-eq :
    (from to : Text)
    → is_absolute from ≡ true
    → is_absolute to ≡ true
    → relative_str from to
      ≡ join (steps (reverse (stack_of from)) (reverse (stack_of to))) (text "/")
unfolding relative_str
relative_str-eq from to f t =
    ap (λ fp. join (steps fp (names (normalize_str to))) (text "/")) (names-normalize_str from f)
    ∙ ap (λ tp. join (steps (reverse (stack_of from)) tp) (text "/")) (names-normalize_str to t)

stack_of-names : (path : Text) → All IsName (reverse (stack_of path))
stack_of-names path =
    reverse-All IsName (stack_of path) (IsReduced-names (stack_of path) (stack_of-IsReduced path))

copies-All : (n : ℕ) → All IsFull (copies n (text ".."))
unfolding copies contains_char
copies-All zero = tt
copies-All (suc n) = ((refl, refl), copies-All n)

-- Between two absolute paths: the path that `relative_str` answers, resolved behind the first, is
-- what the second resolves to.
pub resolve_segments-relative_str :
    (cwd from to : Text)
    → is_absolute from ≡ true
    → is_absolute to ≡ true
    → resolve_segments cwd (from ∷ relative_str from to ∷ []) ≡ resolve_segments cwd (to ∷ [])
resolve_segments-relative_str cwd from to f t =
    let F = stack_of from in
    let T = stack_of to in
    let c = common_length (reverse F) (reverse T) in
    let full : All IsFull (steps (reverse F) (reverse T)) =
      All-append IsFull (copies (length (reverse F) - c) (text "..")) (drop c (reverse T))
        (copies-All (length (reverse F) - c))
        (drop-All IsFull c (reverse T)
          (reverse-All IsFull T (IsReduced-IsFull true T (stack_of-IsReduced to)))) in
    ap (λ q. resolve_segments cwd (from ∷ q ∷ [])) (relative_str-eq from to f t)
    ∙ (resolve_joined cwd from (steps (reverse F) (reverse T)) f full
        ∙ (ap (render true false) (
              ap (reduce true (steps (reverse F) (reverse T))) (sym (reverse-reverse F))
              ∙ (reduce-relative (reverse F) (reverse T) (stack_of-names from) (stack_of-names to)
                  ∙ reverse-reverse T))
            ∙ sym (resolve_one cwd to t)))
