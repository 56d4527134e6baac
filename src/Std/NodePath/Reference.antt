-- ===== src/Std/NodePath/Reference.antt =====
-- The pass of `normalize_into` against a stack of segments: what it writes is what the stack, in
-- order and between slashes, holds.
use mathlib.Core.List.{reverse, reverse-cons, append_assoc, append-nil}
use ferrijs.Prelude.{
  ℕ, ◌<◌, ◌≡◌, refl, sym, ap, subst, ◌∙◌, Bool, true, false, ◌||◌, List, [], ◌∷◌, ◌++◌,
  if◌then◌else◌, length, length-append, take, ltb, is_empty, ◌==◌, list_eq, nat_eq, arith,
  Bool-cases, inl, inr,
}
use ferrijs.Text.{Text, text, join}
use ferrijs.Std.NodePath.{
  Written, separated, pop_segment, write_segment, write_segments, close, normalize_into,
}

-- The stack after a segment, the last segment first: `..` drops a name, stays where there is none
-- to drop, and vanishes at the root.
abbrev pub drop_name : Bool → List Text → List Text
drop_name absolute [] = if absolute then [] else text ".." ∷ []
drop_name absolute (s ∷ st) = if s == text ".." then text ".." ∷ s ∷ st else st

abbrev pub is_blank : Text → Bool
is_blank seg = seg == [] || seg == text "."

abbrev pub reduce_step : Bool → Text → List Text → List Text
reduce_step absolute seg st =
    if is_blank seg then st else if seg == text ".." then drop_name absolute st else seg ∷ st

abbrev pub reduce : Bool → List Text → List Text → List Text
reduce absolute [] st = st
reduce absolute (seg ∷ parts) st = reduce absolute parts (reduce_step absolute seg st)

-- The path of a stack.
abbrev pub render : Bool → Bool → List Text → Text
render absolute trailing [] = if absolute then text "/" else text "."
render absolute trailing (s ∷ st) =
    (if absolute then text "/" else [])
    ++ (join (reverse (s ∷ st)) (text "/") ++ (if trailing then text "/" else []))

-- The segments of a stack in order, between slashes.
abbrev stack_text : List Text → Text
stack_text [] = []
stack_text (s ∷ []) = s
stack_text (s ∷ t ∷ st) = stack_text (t ∷ st) ++ (text "/" ++ s)

pub join-append :
    (x : Text) (xs : List Text) (s : Text)
    → join ((x ∷ xs) ++ s ∷ []) (text "/") ≡ join (x ∷ xs) (text "/") ++ (text "/" ++ s)
unfolding join
join-append x [] s = refl
join-append x (y ∷ xs) s =
    rw (join-append y xs s)
      (sym (append_assoc x (text "/" ++ join (y ∷ xs) (text "/")) (text "/" ++ s)))

take-append : {A : Type 0} (xs ys : List A) → take (length xs) (xs ++ ys) ≡ xs
take-append [] ys = refl
take-append (x ∷ xs) ys = ap (λ t. x ∷ t) (take-append xs ys)

-- The segments of a stack are not empty.
abbrev IsFilled : List Text → Type 0
IsFilled [] = Unit
IsFilled (s ∷ st) = 0 < length (stack_text (s ∷ st))

not_blank : (seg : Text) → is_blank seg ≡ false → 0 < length seg
not_blank [] e = absurd cc
not_blank (c ∷ seg) e = omega arith

module _ (absolute : Bool) (root : Text) where
  -- What the pass has written, with the stack that it stands for.
  data Built : Text → List ℕ → List Text → Type 0 where
    opened : Built root [] []
    climbed :
        (out : Text) (st : List Text)
        → absolute ≡ false
        → Built out [] st
        → Built (separated (length root) out ++ text "..") [] (text ".." ∷ st)
    entered :
        (out : Text) (starts : List ℕ) (st : List Text) (seg : Text)
        → is_blank seg ≡ false
        → (seg == text "..") ≡ false
        → Built out starts st
        → Built (separated (length root) out ++ seg) (length out ∷ starts) (seg ∷ st)

  abbrev IsBuilt : Written → List Text → Type 0
  IsBuilt w st = Built w.out w.starts st

  take-separated : (out seg : Text) → take (length out) (separated (length root) out ++ seg) ≡ out
  unfolding separated
  take-separated out seg = elim (Bool-cases (ltb (length root) (length out))) [
    | inl e ↦ rw e (
        ap (take (length out)) (append_assoc out (text "/") seg)
        ∙ take-append out (text "/" ++ seg))
    | inr e ↦ rw e (take-append out seg)
  ]

  Built-climbed :
      (b : Bool) (out : Text) (st st' : List Text)
      → absolute ≡ b
      → (b ≡ true → st' ≡ st)
      → (b ≡ false → st' ≡ text ".." ∷ st)
      → Built out [] st
      → Built (if b then out else separated (length root) out ++ text "..") [] st'
  Built-climbed true out st st' e f g b = subst (Built out []) (sym (f refl)) b
  Built-climbed false out st st' e f g b =
      subst (Built (separated (length root) out ++ text "..") []) (sym (g refl))
        (climbed out st e b)

  Built-pop_segment :
      (out : Text) (starts : List ℕ) (st : List Text)
      → Built out starts st
      → IsBuilt (pop_segment absolute (length root) out starts) (drop_name absolute st)
  unfolding pop_segment
  Built-pop_segment _ _ _ opened =
      Built-climbed absolute root [] (drop_name absolute []) refl (λ e. rw e refl) (λ e. rw e refl)
        opened
  Built-pop_segment _ _ _ (climbed out st e b) =
      Built-climbed absolute (separated (length root) out ++ text "..") (text ".." ∷ st)
        (text ".." ∷ text ".." ∷ st) refl (λ f. absurd cc) (λ f. refl) (climbed out st e b)
  Built-pop_segment _ _ _ (entered out starts st seg e n b) = rw (n, take-separated out seg) b

  Built-write_segment :
      (seg : Text) (w : Written) (st : List Text)
      → IsBuilt w st
      → IsBuilt (write_segment absolute (length root) seg w) (reduce_step absolute seg st)
  unfolding write_segment
  Built-write_segment seg w st b = elim (Bool-cases (is_blank seg)) [
    | inl e ↦ rw e b
    | inr e ↦ elim (Bool-cases (seg == text "..")) [
      | inl d ↦ rw (e, d) (Built-pop_segment w.out w.starts st b)
      | inr d ↦ rw (e, d) (entered w.out w.starts st seg e d b)
    ]
  ]

  Built-write_segments :
      (parts : List Text) (w : Written) (st : List Text)
      → IsBuilt w st
      → IsBuilt (write_segments absolute (length root) parts w) (reduce absolute parts st)
  unfolding write_segments
  Built-write_segments [] w st b = b
  Built-write_segments (seg ∷ parts) w st b =
      Built-write_segments parts (write_segment absolute (length root) seg w)
        (reduce_step absolute seg st) (Built-write_segment seg w st b)

  separated-stack_text :
      (out : Text) (st : List Text) (s : Text)
      → out ≡ root ++ stack_text st
      → IsFilled st
      → separated (length root) out ++ s ≡ root ++ stack_text (s ∷ st)
  unfolding separated
  separated-stack_text out [] s e f =
      let same : out ≡ root = e ∙ append-nil root in
      let short : ltb (length root) (length out) ≡ false = ground (arith, ap length same) in
      rw short (ap (λ (o : Text). o ++ s) same)
  separated-stack_text out (t ∷ st) s e f =
      let long : ltb (length root) (length out) ≡ true =
        ground (arith, ap length e, length-append root (stack_text (t ∷ st)), f) in
      rw long (
        append_assoc out (text "/") s
        ∙ (ap (λ (o : Text). o ++ (text "/" ++ s)) e
            ∙ append_assoc root (stack_text (t ∷ st)) (text "/" ++ s)))

  IsFilled-cons : (s : Text) (st : List Text) → 0 < length s → IsFilled (s ∷ st)
  IsFilled-cons s [] h = h
  IsFilled-cons s (t ∷ st) h = grind (arith, length-append (stack_text (t ∷ st)) (text "/" ++ s))

  Built-text :
      (out : Text) (starts : List ℕ) (st : List Text)
      → Built out starts st
      → (out ≡ root ++ stack_text st) × IsFilled st
  Built-text _ _ _ opened = (sym (append-nil root), tt)
  Built-text _ _ _ (climbed out st e b) =
      let (t, f) = Built-text out [] st b in
      (separated-stack_text out st (text "..") t f, IsFilled-cons (text "..") st (omega arith))
  Built-text _ _ _ (entered out starts st seg e n b) =
      let (t, f) = Built-text out starts st b in
      (separated-stack_text out st seg t f, IsFilled-cons seg st (not_blank seg e))

pub snoc_filled : (xs : List Text) (s : Text) → is_empty (xs ++ s ∷ []) ≡ false
snoc_filled [] s = refl
snoc_filled (x ∷ xs) s = refl

pub join_last :
    (xs : List Text) (s : Text)
    → is_empty xs ≡ false
    → join (xs ++ s ∷ []) (text "/") ≡ join xs (text "/") ++ (text "/" ++ s)
join_last [] s e = absurd cc
join_last (x ∷ xs) s e = join-append x xs s

-- The text of a stack is the join of its segments in order.
stack_text-join :
    (s : Text) (st : List Text) → stack_text (s ∷ st) ≡ join (reverse (s ∷ st)) (text "/")
unfolding join
stack_text-join s [] = refl
stack_text-join s (t ∷ st) =
    let filled : is_empty (reverse (t ∷ st)) ≡ false =
      ap is_empty (reverse-cons t st) ∙ snoc_filled (reverse st) t in
    ap (λ x. x ++ (text "/" ++ s)) (stack_text-join t st)
    ∙ (sym (join_last (reverse (t ∷ st)) s filled)
        ∙ ap (λ xs. join xs (text "/")) (sym (reverse-cons s (t ∷ st))))

abbrev root_of : Bool → Text
root_of absolute = if absolute then text "/" else []

close_filled :
    (absolute trailing : Bool) (out : Text) (body : ℕ)
    → (length out == body) ≡ false
    → close absolute trailing 0 body out ≡ out ++ (if trailing then text "/" else [])
unfolding close
close_filled absolute true out body e = rw e refl
close_filled absolute false out body e = rw e (sym (append-nil out))

close-render :
    (absolute trailing : Bool) (out : Text) (st : List Text)
    → out ≡ root_of absolute ++ stack_text st
    → IsFilled st
    → close absolute trailing 0 (length (root_of absolute)) out ≡ render absolute trailing st
unfolding close
close-render true trailing out [] e f =
    subst (λ o. close true trailing 0 1 o ≡ text "/") (sym e) refl
close-render false trailing out [] e f =
    subst (λ o. close false trailing 0 0 o ≡ text ".") (sym e) refl
close-render absolute trailing out (s ∷ st) e f =
    let tail = if trailing then text "/" else [] in
    let longer : (length out == length (root_of absolute)) ≡ false =
      ground (arith, ap length e, length-append (root_of absolute) (stack_text (s ∷ st)), f) in
    close_filled absolute trailing out (length (root_of absolute)) longer
    ∙ (ap (λ (o : Text). o ++ tail)
          (e ∙ ap (λ (o : Text). root_of absolute ++ o) (stack_text-join s st))
        ∙ append_assoc (root_of absolute) (join (reverse (s ∷ st)) (text "/")) tail)

-- The one pass with truncation writes the path of the stack that the segments leave.
pub normalize_into-eq :
    (parts : List Text) (absolute trailing : Bool)
    → normalize_into parts absolute trailing []
      ≡ render absolute trailing (reduce absolute parts [])
unfolding normalize_into
normalize_into-eq parts absolute trailing =
    let w =
      write_segments absolute (length (root_of absolute)) parts
        (record { out = root_of absolute; starts = [] }) in
    let (e, f) = Built-text absolute (root_of absolute) w.out w.starts (reduce absolute parts []) (
      Built-write_segments absolute (root_of absolute) parts
        (record { out = root_of absolute; starts = [] }) [] opened) in
    close-render absolute trailing w.out (reduce absolute parts []) e f
