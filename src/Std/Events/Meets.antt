-- ===== src/Std/Events/Meets.antt =====
-- The steps of the code on the items of one key are the promised ones.
use mathlib.Core.Option.{some-injective}
use ferrijs.Prelude.{
  ℕ, suc, ◌≡◌, refl, ap, ◌∙◌, Bool, true, false, List, [], ◌∷◌, Option, none, some, arith, retain,
  is_empty, length, take, Bool-cases, Option-cases, inl, inr, PartialEq, ◌==◌,
}
use ferrijs.Prelude.Result.{Result, ok, err}
use ferrijs.Std.Events.{EventItem, place, callbacks, stays, remove_first, call_all}
use ferrijs.Std.Events.Promise.{
  inserted, lasting, functions, first_thrown, emitted, before, from, without,
}

module _ {Function : Type 0} where
  pub inserted-place :
      (prepend : Bool) (item : EventItem Function) (items : List (EventItem Function))
      → inserted prepend item items ≡ place prepend item items
  unfolding inserted place
  inserted-place true item items = refl
  inserted-place false item [] = refl
  inserted-place false item (old ∷ items) = ap (λ l. old ∷ l) (inserted-place false item items)

  pub lasting-retain : (items : List (EventItem Function)) → lasting items ≡ retain stays items
  unfolding lasting
  lasting-retain [] = refl
  lasting-retain (item ∷ items) = ground (arith, lasting-retain items)

  pub functions-callbacks : (items : List (EventItem Function)) → functions items ≡ callbacks items
  unfolding functions
  functions-callbacks [] = refl
  functions-callbacks (item ∷ items) = ap (λ l. item.callback ∷ l) (functions-callbacks items)

  -- The calls up to the one that throws, or all.
  abbrev until :
      {Thrown : Type 0} → List Function → Option (ℕ × Thrown) → List Function × Result Thrown Bool
  until fs none = (fs, ok true)
  until fs (some (made, e)) = (take made fs, err e)

  call_step :
      {Thrown : Type 0} (thrown : ℕ → Option Thrown) (i : ℕ) (c : Function) (fs : List Function)
      → thrown i ≡ none
      → call_all thrown i (c ∷ fs)
        ≡ (c ∷ (call_all thrown (suc i) fs).0, (call_all thrown (suc i) fs).1)
  unfolding call_all
  call_step thrown i c fs h = rw (h, call_all) refl

  until_step :
      {Thrown : Type 0} (thrown : ℕ → Option Thrown) (i : ℕ) (c : Function) (fs : List Function)
      → thrown i ≡ none
      → (
        c ∷ (until fs (first_thrown thrown (suc i) (length fs))).0,
        (until fs (first_thrown thrown (suc i) (length fs))).1,
      )
        ≡ until (c ∷ fs) (first_thrown thrown i (suc (length fs)))
  unfolding first_thrown
  until_step thrown i c fs h = elim (Option-cases (first_thrown thrown (suc i) (length fs))) [
    | inl n ↦ rw (h, n, first_thrown) refl
    | inr ((made, e), n) ↦ rw (h, n, first_thrown) refl
  ]

  -- From any call on, the loop makes the calls up to the first that throws.
  calls_until :
      {Thrown : Type 0} (thrown : ℕ → Option Thrown) (i : ℕ) (fs : List Function)
      → call_all thrown i fs ≡ until fs (first_thrown thrown i (length fs))
  unfolding call_all first_thrown
  calls_until thrown i [] = refl
  calls_until thrown i (c ∷ fs) = elim (Option-cases (thrown i)) [
    | inr (e, h) ↦ rw (h, call_all, first_thrown) refl
    | inl h ↦
        call_step thrown i c fs h
        ∙ (ap (λ p. (c ∷ p.0, p.1)) (calls_until thrown (suc i) fs) ∙ until_step thrown i c fs h)
  ]

  pub emitted-call_all :
      {Thrown : Type 0} (thrown : ℕ → Option Thrown) (items : List (EventItem Function))
      → is_empty items ≡ false
      → call_all thrown 0 (callbacks items) ≡ emitted thrown (functions items)
  unfolding emitted
  emitted-call_all thrown [] h = absurd cc
  emitted-call_all thrown (item ∷ items) h =
      rw (functions-callbacks (item ∷ items)) (calls_until thrown 0 (callbacks (item ∷ items)))

  pub emitted-nil :
      {Thrown : Type 0} (thrown : ℕ → Option Thrown)
      → ([], ok false) ≡ emitted thrown (functions {Function = Function} [])
  unfolding emitted functions first_thrown
  emitted-nil thrown = refl

module _ {Function : Type 0} ⦃f : PartialEq Function⦄ where
  pub without_kept :
      (listener : Function) (items : List (EventItem Function))
      → remove_first listener items ≡ none
      → without listener items ≡ items
  unfolding remove_first without before from
  without_kept listener [] h = refl
  without_kept listener (item ∷ items) h = elim (Bool-cases (item.callback == listener)) [
    | inl e ↦ absurd (ground arith)
    | inr e ↦ rw e (ap (λ l. item ∷ l) (without_kept listener items (ground arith)))
  ]

  pub without_left :
      (listener : Function) (items left : List (EventItem Function))
      → remove_first listener items ≡ some left
      → without listener items ≡ left
  unfolding remove_first without before from
  without_left listener [] left h = absurd cc
  without_left listener (item ∷ items) left h = elim (Bool-cases (item.callback == listener)) [
    | inl e ↦ some-injective (without listener (item ∷ items)) left (ground arith)
    | inr e ↦ elim (Option-cases (remove_first listener items)) [
      | inl n ↦ absurd (ground arith)
      | inr (rest, n) ↦
          some-injective (without listener (item ∷ items)) left
            (ground (arith, without_left listener items rest n))
    ]
  ]
