-- ===== src/Std/ReuseList/Lists.antt =====
-- Reading a list after a write or an append, and counting the present items.
use ferrijs.Prelude.{
  ℕ, zero, suc, ◌<◌, ◌≡◌, refl, ap, List, [], ◌∷◌, ◌++◌, Option, none, some, arith, length,
  get_elem?, set, ◌⊎◌, inl, inr,
}

module _ {A : Type 0} where
  pub get_elem?-append_left :
      (xs ys : List A) (i : ℕ) (v : A) → get_elem? xs i ≡ some v → get_elem? (xs ++ ys) i ≡ some v
  get_elem?-append_left [] ys i v h = cc
  get_elem?-append_left (x ∷ xs) ys zero v h = h
  get_elem?-append_left (x ∷ xs) ys (suc i) v h = get_elem?-append_left xs ys i v h

  pub get_elem?-append_last : (xs : List A) (v : A) → get_elem? (xs ++ v ∷ []) (length xs) ≡ some v
  get_elem?-append_last [] v = refl
  get_elem?-append_last (x ∷ xs) v = get_elem?-append_last xs v

  pub get_elem?-append_inv :
      (xs : List A) (v w : A) (i : ℕ)
      → get_elem? (xs ++ v ∷ []) i ≡ some w
      → (get_elem? xs i ≡ some w) ⊎ ((i ≡ length xs) × (v ≡ w))
  get_elem?-append_inv [] v w zero h = inr (refl, cc)
  get_elem?-append_inv [] v w (suc i) h = cc
  get_elem?-append_inv (x ∷ xs) v w zero h = inl h
  get_elem?-append_inv (x ∷ xs) v w (suc i) h = elim (get_elem?-append_inv xs v w i h) [
    | inl p ↦ inl p
    | inr (p, q) ↦ inr (ap suc p, q)
  ]

  pub get_elem?-lt-length : (xs : List A) (i : ℕ) (v : A) → get_elem? xs i ≡ some v → i < length xs
  get_elem?-lt-length [] i v h = cc
  get_elem?-lt-length (x ∷ xs) zero v h = omega arith
  get_elem?-lt-length (x ∷ xs) (suc i) v h = omega (arith, get_elem?-lt-length xs i v h)

  pub get_elem?_of_lt : (xs : List A) (i : ℕ) → i < length xs → (v : A) × (get_elem? xs i ≡ some v)
  get_elem?_of_lt [] i h = absurd (omega arith)
  get_elem?_of_lt (x ∷ xs) zero h = (x, refl)
  get_elem?_of_lt (x ∷ xs) (suc i) h = get_elem?_of_lt xs i (omega arith)

module _ {A : Type 0} where
  abbrev pub count_some : List (Option A) → ℕ
  count_some [] = 0
  count_some (none ∷ xs) = count_some xs
  count_some (some _ ∷ xs) = suc (count_some xs)

  pub count_some-append-some :
      (xs : List (Option A)) (a : A) → count_some (xs ++ some a ∷ []) ≡ suc (count_some xs)
  count_some-append-some [] a = refl
  count_some-append-some (none ∷ xs) a = count_some-append-some xs a
  count_some-append-some (some b ∷ xs) a = ap suc (count_some-append-some xs a)

  pub count_some-set-some :
      (xs : List (Option A)) (i : ℕ) (a : A)
      → get_elem? xs i ≡ some none
      → count_some (set xs i (some a)) ≡ suc (count_some xs)
  count_some-set-some [] i a h = cc
  count_some-set-some (none ∷ xs) zero a h = refl
  count_some-set-some (some b ∷ xs) zero a h = cc
  count_some-set-some (none ∷ xs) (suc i) a h = count_some-set-some xs i a h
  count_some-set-some (some b ∷ xs) (suc i) a h = ap suc (count_some-set-some xs i a h)

  pub count_some-set-none :
      (xs : List (Option A)) (i : ℕ) (a : A)
      → get_elem? xs i ≡ some (some a)
      → suc (count_some (set xs i none)) ≡ count_some xs
  count_some-set-none [] i a h = cc
  count_some-set-none (none ∷ xs) zero a h = cc
  count_some-set-none (some b ∷ xs) zero a h = refl
  count_some-set-none (none ∷ xs) (suc i) a h = count_some-set-none xs i a h
  count_some-set-none (some b ∷ xs) (suc i) a h = ap suc (count_some-set-none xs i a h)
