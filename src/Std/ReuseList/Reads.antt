-- ===== src/Std/ReuseList/Reads.antt =====
-- What a list answers at an index, from what its items hold there.
use ferrijs.Prelude.{
  ℕ, zero, suc, ◌≡◌, ◌≢◌, refl, ap, List, [], ◌∷◌, ◌++◌, Option, none, some, length, get_elem?,
  nat_eq,
}
use ferrijs.Std.ReuseList.{ReuseList, get}

module _ {A : Type 0} where
  pub get_eq :
      (r r' : ReuseList A) (j : ℕ) → get_elem? r'.items j ≡ get_elem? r.items j → get j r' ≡ get j r
  unfolding get
  get_eq r r' j e = rw (e, get)

  pub get-some :
      (r : ReuseList A) (i : ℕ) (o : Option A) → get_elem? r.items i ≡ some o → get i r ≡ o
  unfolding get
  get-some r i o e = rw (e, get)

  pub get_elem?-length : (xs : List (Option A)) → get_elem? xs (length xs) ≡ none
  get_elem?-length [] = refl
  get_elem?-length (x ∷ xs) = get_elem?-length xs

  pub get-none : (r : ReuseList A) (i : ℕ) → get_elem? r.items i ≡ none → get i r ≡ none
  unfolding get
  get-none r i e = rw (e, get)

  pub get_elem?-append_other :
      (xs : List (Option A)) (v : Option A) (j : ℕ)
      → length xs ≢ j
      → get_elem? (xs ++ v ∷ []) j ≡ get_elem? xs j
  get_elem?-append_other [] v zero h = absurd (h refl)
  get_elem?-append_other [] v (suc j) h = refl
  get_elem?-append_other (x ∷ xs) v zero h = refl
  get_elem?-append_other (x ∷ xs) v (suc j) h = get_elem?-append_other xs v j (λ e. h (ap suc e))
