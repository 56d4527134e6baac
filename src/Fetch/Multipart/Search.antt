-- ===== src/Fetch/Multipart/Search.antt =====
-- How a needle is found behind bytes that do not belong to it, and how a body is cut at it.
use ferrijs.Prelude.{
  ℕ, zero, suc, ◌+◌, ◌≤◌, ◌≡◌, refl, ap, ◌∙◌, false, List, [], ◌∷◌, ◌++◌, Option, none, some, arith,
  if◌then◌else◌, length, length-drop, take, drop, Option-cases, inl, inr, nat_eq,
}
use ferrijs.Text.{starts_with, contains_char}
use ferrijs.Text.Affix.{starts_with-append}
use ferrijs.Fetch.Multipart.{find, split_loop}

abbrev pub shift : ℕ → Option ℕ → Option ℕ
shift n none = none
shift n (some i) = some (n + i)

pub take-append {ℓ} : {A : Type ℓ} (xs ys : List A) → take (length xs) (xs ++ ys) ≡ xs
take-append [] ys = refl
take-append (x ∷ xs) ys = ap (λ t. x ∷ t) (take-append xs ys)

pub drop-append {ℓ} : {A : Type ℓ} (xs ys : List A) → drop (length xs) (xs ++ ys) ≡ ys
drop-append [] ys = refl
drop-append (x ∷ xs) ys = drop-append xs ys

-- A needle without the byte `c` does not reach over one.
starts_with_over :
    (x : List ℕ) (c : ℕ) (r d : List ℕ)
    → contains_char d c ≡ false
    → starts_with (x ++ c ∷ r) d ≡ starts_with x d
unfolding starts_with contains_char
starts_with_over x c r [] h = ground arith
starts_with_over [] c r (e ∷ d) h = ground arith
starts_with_over (y ∷ x) c r (e ∷ d) h = ground (arith, starts_with_over x c r d)

-- Past bytes in which a needle without `c` is not found, and a byte `c`, the search goes on.
pub find_over :
    (x : List ℕ) (c : ℕ) (r : List ℕ) (e : ℕ) (d : List ℕ)
    → contains_char (e ∷ d) c ≡ false
    → find x (e ∷ d) ≡ none
    → find (x ++ c ∷ r) (e ∷ d) ≡ shift (suc (length x)) (find r (e ∷ d))
unfolding find starts_with
find_over [] c r e d h n = ground (arith, starts_with_over [] c r (e ∷ d) h)
find_over (y ∷ x) c r e d h n =
    ground (arith, starts_with_over (y ∷ x) c r (e ∷ d) h, find_over x c r e d h)

-- A needle at the front is found there.
pub find_here : (e : ℕ) (d r : List ℕ) → find ((e ∷ d) ++ r) (e ∷ d) ≡ some 0
unfolding find
find_here e d r = rw (starts_with-append (e ∷ d) r) refl

abbrev pub found : Option ℕ → ℕ
found none = 0
found (some i) = i

-- The search in `x`, behind which nothing of the needle can begin.
pub find_up_to :
    (x : List ℕ) (c : ℕ) (r : List ℕ) (e : ℕ) (d : List ℕ) (i : ℕ)
    → contains_char (e ∷ d) c ≡ false
    → find x (e ∷ d) ≡ none
    → find r (e ∷ d) ≡ some i
    → find (x ++ c ∷ r) (e ∷ d) ≡ some (suc (length x) + i)
find_up_to x c r e d i h n f = find_over x c r e d h n ∙ ap (shift (suc (length x))) f

-- Nothing is found in bytes that lack the first of the needle.
pub find_absent :
    (x : List ℕ) (e : ℕ) (d : List ℕ) → contains_char x e ≡ false → find x (e ∷ d) ≡ none
unfolding find contains_char starts_with
find_absent [] e d h = refl
find_absent (y ∷ x) e d h = ground (arith, find_absent x e d)

drop_past {ℓ} : {A : Type ℓ} (p sep r : List A) → drop (length p + length sep) (p ++ (sep ++ r)) ≡ r
drop_past [] sep r = ground (arith, drop-append sep r)
drop_past (x ∷ p) sep r =
    let e : suc (length p) + length sep ≡ suc (length p + length sep) = omega arith in
    ap (λ (n : ℕ). drop n (x ∷ (p ++ (sep ++ r)))) e ∙ drop_past p sep r

-- One round of the cut: the piece up to the separator, and the rest behind it.
pub split_loop-cons :
    (n : ℕ) (p sep r : List ℕ)
    → find (p ++ (sep ++ r)) sep ≡ some (length p)
    → split_loop (suc n) (p ++ (sep ++ r)) sep ≡ p ∷ split_loop n r sep
unfolding split_loop
split_loop-cons n p sep r h = rw (h, split_loop, take-append p (sep ++ r), drop_past p sep r) refl

-- Fuel for every byte is enough, since each round drops the separator.
pub split_loop_fuel :
    (n m : ℕ) (h : List ℕ) (e : ℕ) (d : List ℕ)
    → length h ≤ n
    → length h ≤ m
    → split_loop n h (e ∷ d) ≡ split_loop m h (e ∷ d)
unfolding split_loop find
split_loop_fuel zero zero h e d a b = refl
split_loop_fuel zero (suc m) [] e d a b = refl
split_loop_fuel (suc n) zero [] e d a b = refl
split_loop_fuel zero (suc m) (x ∷ h) e d a b = absurd (omega arith)
split_loop_fuel (suc n) zero (x ∷ h) e d a b = absurd (omega arith)
split_loop_fuel (suc n) (suc m) h e d a b = elim (Option-cases (find h (e ∷ d))) [
  | inl q ↦ rw (q, split_loop) refl
  | inr (i, q) ↦
      rw (q, split_loop)
        (ap (λ t. take i h ∷ t)
          (split_loop_fuel n m (drop (i + suc (length d)) h) e d
            (omega (arith, length-drop (i + suc (length d)) h))
            (omega (arith, length-drop (i + suc (length d)) h))))
]

pub find-cons :
    (c : ℕ) (h d : List ℕ)
    → find (c ∷ h) d ≡ (if starts_with (c ∷ h) d then some 0 else shift 1 (find h d))
unfolding find
find-cons c h d = ground arith

-- Past bytes that lack the first of the needle, the search goes on.
pub find_clear :
    (x r : List ℕ) (e : ℕ) (d : List ℕ)
    → contains_char x e ≡ false
    → find (x ++ r) (e ∷ d) ≡ shift (length x) (find r (e ∷ d))
unfolding find contains_char starts_with
find_clear [] r e d h = ground arith
find_clear (y ∷ x) r e d h = ground (arith, find_clear x r e d)
