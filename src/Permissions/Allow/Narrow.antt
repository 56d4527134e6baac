-- ===== src/Permissions/Allow/Narrow.antt =====
-- `intersect_with` grants nothing that one side refuses, and `union` denies what either side does.
use ferrijs.Prelude.{
  ◌≡◌, refl, ◌⊎◌, inl, inr, Bool, true, not, ◌&&◌, ◌||◌, List, [], ◌∷◌, ◌++◌, arith, any,
  any-append, any-retain_le, retain, contains, PartialEq, All, All-append, Bool-cases,
}
use ferrijs.Permissions.Allow.{Allow, grants, keep_theirs, intersect_with, union, entries}

module _ {ℓ κ} {T : Type ℓ} ⦃e : PartialEq T⦄ (covers : T → Bool) (subsumes : T → T → Bool)
    (Good : T → Type κ)
    (up : (x y : T) → Good x → subsumes x y ≡ true → covers y ≡ true → covers x ≡ true) where
  any-covers_up :
      (y : T) (xs : List T)
      → All Good xs
      → any (λ x. subsumes x y) xs ≡ true
      → covers y ≡ true
      → any covers xs ≡ true
  any-covers_up y [] g h c = h
  any-covers_up y (x ∷ xs) g h c = ground (arith, up x y g.0, any-covers_up y xs g.1)

  any-retain_theirs :
      (mine theirs : List T)
      → All Good theirs
      → any covers (retain (λ x. any (λ t. subsumes t x) theirs) mine) ≡ true
      → any covers theirs ≡ true
  any-retain_theirs [] theirs g h = cc
  any-retain_theirs (x ∷ mine) theirs g h =
      ground (arith, any-covers_up x theirs g, any-retain_theirs mine theirs g)

  any-keep_theirs :
      (mine theirs kept : List T)
      → All Good mine
      → any covers (keep_theirs subsumes mine theirs kept) ≡ true
      → (any covers kept ≡ true) ⊎ ((any covers mine ≡ true) × (any covers theirs ≡ true))
  unfolding keep_theirs
  any-keep_theirs mine [] kept g h = inl h
  any-keep_theirs mine (x ∷ theirs) kept g h = ground (
    arith,
    any-keep_theirs mine theirs kept g,
    any-keep_theirs mine theirs (kept ++ x ∷ []) g,
    any-append covers kept (x ∷ []),
    any-covers_up x mine g,
  )

  -- A grant that the intersection covers is covered by both sides.
  pub grants-intersect_with :
      (a b : Allow T)
      → All Good (entries a)
      → All Good (entries b)
      → grants covers (intersect_with subsumes a b) ≡ true
      → (grants covers a ≡ true) × (grants covers b ≡ true)
  unfolding grants intersect_with entries
  grants-intersect_with Allow.none b ga gb h = cc
  grants-intersect_with Allow.all Allow.none ga gb h = cc
  grants-intersect_with (Allow.only mine) Allow.none ga gb h = cc
  grants-intersect_with Allow.all Allow.all ga gb h = (refl, refl)
  grants-intersect_with Allow.all (Allow.only theirs) ga gb h = (refl, h)
  grants-intersect_with (Allow.only mine) Allow.all ga gb h = (h, refl)
  grants-intersect_with (Allow.only mine) (Allow.only theirs) ga gb h =
      let kept = retain (λ x. any (λ t. subsumes t x) theirs) mine in
      ground (
        arith,
        any-keep_theirs mine theirs kept ga h,
        any-retain_le covers (λ x. any (λ t. subsumes t x) theirs) mine,
        any-retain_theirs mine theirs gb,
      )

module _ {ℓ} {T : Type ℓ} ⦃e : PartialEq T⦄ (p : T → Bool) where
  any_of_contains : (x : T) (xs : List T) → contains xs x ≡ true → p x ≡ true → any p xs ≡ true
  any_of_contains x [] h c = h
  any_of_contains x (y ∷ xs) h c = ground (arith, e.eq_iff y x, any_of_contains x xs)

  -- A test holds of an entry of the union exactly if it holds of an entry of one of the lists.
  pub any-union : (b out : List T) → any p (union out b) ≡ (any p out || any p b)
  unfolding union
  any-union [] out = ground arith
  any-union (x ∷ b) out = ground (
    arith,
    any-union b out,
    any-union b (out ++ x ∷ []),
    any-append p out (x ∷ []),
    any_of_contains x out,
  )

module _ {ℓ κ} {T : Type ℓ} ⦃e : PartialEq T⦄ (subsumes : T → T → Bool) (P : T → Type κ) where
  All-retain : (f : T → Bool) (xs : List T) → All P xs → All P (retain f xs)
  All-retain f [] h = tt
  All-retain f (x ∷ xs) h = elim (Bool-cases (f x)) [
    | inl b ↦ rw b (h.0, All-retain f xs h.1)
    | inr b ↦ rw b (All-retain f xs h.1)
  ]

  All-keep_theirs :
      (mine theirs kept : List T)
      → All P theirs
      → All P kept
      → All P (keep_theirs subsumes mine theirs kept)
  unfolding keep_theirs
  All-keep_theirs mine [] kept h k = k
  All-keep_theirs mine (x ∷ theirs) kept h k =
      elim (Bool-cases (any (λ m. subsumes m x) mine && not (contains kept x))) [
        | inl b ↦ rw b (
            All-keep_theirs mine theirs (kept ++ x ∷ []) h.1
              (All-append P kept (x ∷ []) k (h.0, tt)))
        | inr b ↦ rw b (All-keep_theirs mine theirs kept h.1 k)
      ]

  -- What holds of every entry of two grants holds of every entry of their intersection.
  pub All-intersect_with :
      (a b : Allow T)
      → All P (entries a)
      → All P (entries b)
      → All P (entries (intersect_with subsumes a b))
  unfolding intersect_with entries
  All-intersect_with Allow.none b ga gb = tt
  All-intersect_with Allow.all Allow.none ga gb = tt
  All-intersect_with (Allow.only mine) Allow.none ga gb = tt
  All-intersect_with Allow.all Allow.all ga gb = tt
  All-intersect_with Allow.all (Allow.only theirs) ga gb = gb
  All-intersect_with (Allow.only mine) Allow.all ga gb = ga
  All-intersect_with (Allow.only mine) (Allow.only theirs) ga gb =
      All-keep_theirs mine theirs _ gb (All-retain _ mine ga)
