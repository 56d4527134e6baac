-- ===== src/Prelude/Equality.antt =====
-- `PartialEq` on the types that the program compares, with the law that `==` decides equality.
use mathlib.Core.Path.{◌≡◌, refl}
use mathlib.Core.Logic.{◌↔◌}
use mathlib.Core.Bool.{Bool, true, false, ◌&&◌}
use mathlib.Core.List.{List, [], ◌∷◌}
use mathlib.Core.Option.{Option, none, some}
use native.Mathlib.Omega.{arith}
use Prim.Native.Nat.{ℕ}
use ferrijs.Prelude.Tests.{nat_beq, nat_beq_iff}
use ferrijs.Prelude.Lists.{any}

-- The trait, with the law: the method answers true exactly on equal arguments.
pub record PartialEq {ℓ} (T : Type ℓ) : Type ℓ where
  pub eq : T → T → Bool
  pub eq_iff : (x y : T) → (eq x y ≡ true) ↔ (x ≡ y)

instance abbrev pub nat_eq : PartialEq ℕ
nat_eq = record { eq_iff = nat_beq_iff; eq = nat_beq }

infix 50 ◌==◌
abbrev pub ◌==◌ {ℓ} : {T : Type ℓ} ⦃i : PartialEq T⦄ (x y : T) → Bool
◌==◌ ⦃i⦄ x y = i.eq x y

module _ {ℓ} {A : Type ℓ} ⦃e : PartialEq A⦄ where
  abbrev pub list_beq : List A → List A → Bool
  list_beq [] [] = true
  list_beq (x ∷ xs) (y ∷ ys) = x == y && list_beq xs ys
  list_beq _ _ = false

  pub list_beq_iff : (xs ys : List A) → (list_beq xs ys ≡ true) ↔ (xs ≡ ys)
  list_beq_iff [] [] = ground arith
  list_beq_iff (x ∷ xs) (y ∷ ys) = ground (arith, list_beq_iff xs ys, e.eq_iff x y)
  list_beq_iff [] (y ∷ ys) = ground arith
  list_beq_iff (x ∷ xs) [] = ground arith

  instance abbrev pub list_eq : PartialEq (List A)
  list_eq = record { eq = list_beq; eq_iff = list_beq_iff }

  pub beq_refl : (a : A) → (a == a) ≡ true
  beq_refl a = (e.eq_iff a a).1 refl

  -- `slice::contains`
  abbrev pub contains : List A → A → Bool
  contains xs a = any (λ x. x == a) xs

module _ {ℓ} {A : Type ℓ} ⦃e : PartialEq A⦄ where
  abbrev pub option_beq : Option A → Option A → Bool
  option_beq none none = true
  option_beq (some a) (some b) = a == b
  option_beq _ _ = false

  pub option_beq_iff : (a b : Option A) → (option_beq a b ≡ true) ↔ (a ≡ b)
  option_beq_iff none none = ground arith
  option_beq_iff (some a) (some b) = ground (arith, e.eq_iff a b)
  option_beq_iff none (some b) = ground arith
  option_beq_iff (some a) none = ground arith

  instance abbrev pub option_eq : PartialEq (Option A)
  option_eq = record { eq = option_beq; eq_iff = option_beq_iff }

-- `derive(PartialEq)` on a type whose equality a decision procedure decides.
module _ {ℓ} {A : Type ℓ} (d : Discrete A) where
  abbrev pub discrete_beq : A → A → Bool
  discrete_beq a b = elim (d a b) [ yes _ ↦ true | no _ ↦ false ]

  pub discrete_beq_iff : (a b : A) → (discrete_beq a b ≡ true) ↔ (a ≡ b)
  discrete_beq_iff a b = decided (d a b)
    where
      decided :
          (c : Dec (a ≡ b))
          → (elim c as (λ _. Bool) [ yes _ ↦ true | no _ ↦ false ] ≡ true) ↔ (a ≡ b)
      decided (yes p) = ((λ _. p), (λ _. refl))
      decided (no p) = ((λ e. cc), (λ e. absurd (p e)))

  abbrev pub discrete_eq : PartialEq A
  discrete_eq = record { eq = discrete_beq; eq_iff = discrete_beq_iff }
