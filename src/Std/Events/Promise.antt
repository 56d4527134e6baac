-- ===== src/Std/Events/Promise.antt =====
-- What an emitter promises, apart from how the table keeps it and from how it is computed.
use ferrijs.Prelude.{
  ℕ, zero, suc, Bool, true, false, not, List, [], ◌∷◌, ◌++◌, Option, none, some, if◌then◌else◌,
  drop, take, length, is_empty, PartialEq, ◌==◌,
}
use ferrijs.Prelude.Result.{Result, ok, err}
use ferrijs.Std.Events.{EventItem}

-- What an emitter promises: each key has a list of items, and an operation changes only its own.
abbrev pub Map : Type 0 → Type 0 → Type 0
Map Function Key = Key → List (EventItem Function)

-- An operation of the table; an emission with what its calls throw.
pub data Op (Function Key Thrown : Type 0) : Type 0 where
  adds : Key → Function → Bool → Bool → Op Function Key Thrown
  removes : Key → Function → Op Function Key Thrown
  emits : Key → (ℕ → Option Thrown) → Op Function Key Thrown
  removes_all : Option Key → Op Function Key Thrown

-- The first of so many calls, from the call `i` on, that throws: how many were made, and what it
-- throws.
unfoldable pub first_thrown : {Thrown : Type 0} → (ℕ → Option Thrown) → ℕ → ℕ → Option (ℕ × Thrown)
first_thrown thrown i zero = none
first_thrown thrown i (suc left) = elim (thrown i) [
  | some e ↦ some (1, e)
  | none ↦ elim (first_thrown thrown (suc i) left) [
    | some (made, e) ↦ some (suc made, e)
    | none ↦ none
  ]
]

module _ {Function : Type 0} where
  -- A new item stands last, or first if it is prepended.
  unfoldable pub inserted :
      Bool → EventItem Function → List (EventItem Function) → List (EventItem Function)
  inserted true item items = item ∷ items
  inserted false item [] = item ∷ []
  inserted false item (old ∷ items) = old ∷ inserted false item items

  -- The items that are not for one call.
  unfoldable pub lasting : List (EventItem Function) → List (EventItem Function)
  lasting [] = []
  lasting (item ∷ items) = if item.once then lasting items else item ∷ lasting items

  unfoldable pub functions : List (EventItem Function) → List Function
  functions [] = []
  functions (item ∷ items) = item.callback ∷ functions items

  -- All are called and the answer is whether there were any, unless a call throws: it is the last.
  unfoldable pub emitted :
      {Thrown : Type 0} → (ℕ → Option Thrown) → List Function → List Function × Result Thrown Bool
  unfolding first_thrown
  emitted thrown fs = elim (first_thrown thrown 0 (length fs)) [
    | none ↦ (fs, ok (not (is_empty fs)))
    | some (made, e) ↦ (take made fs, err e)
  ]

module _ {Function : Type 0} ⦃f : PartialEq Function⦄ where
  -- The items before the first one of a listener, and those from it on.
  unfoldable pub before : Function → List (EventItem Function) → List (EventItem Function)
  before listener [] = []
  before listener (item ∷ items) =
      if item.callback == listener then [] else item ∷ before listener items

  unfoldable pub from : Function → List (EventItem Function) → List (EventItem Function)
  from listener [] = []
  from listener (item ∷ items) =
      if item.callback == listener then item ∷ items else from listener items

  unfoldable pub without : Function → List (EventItem Function) → List (EventItem Function)
  unfolding before from
  without listener items = before listener items ++ drop 1 (from listener items)

abbrev pub update :
    {Function Key : Type 0} ⦃k : PartialEq Key⦄
    → Key
    → List (EventItem Function)
    → Map Function Key
    → Map Function Key
update key items m j = if key == j then items else m j

module _ {Function Key Thrown : Type 0} ⦃f : PartialEq Function⦄ ⦃k : PartialEq Key⦄ where
  -- The map after the operation: the new item stands last, or first if it is prepended; the first
  -- item of the listener is gone; the items for one call are gone; all items are gone.
  unfoldable pub promised : Op Function Key Thrown → Map Function Key → Map Function Key
  unfolding inserted lasting without
  promised (adds key listener prepend once) m =
      update key (inserted prepend (record { callback = listener; once = once }) (m key)) m
  promised (removes key listener) m = update key (without listener (m key)) m
  promised (emits key thrown) m = update key (lasting (m key)) m
  promised (removes_all none) m = λ _. []
  promised (removes_all (some key)) m = update key [] m

  -- What is called, in order, and the answer, by the items of the key.
  unfoldable pub called :
      Op Function Key Thrown → Map Function Key → List Function × Result Thrown Bool
  unfolding emitted functions
  called (emits key thrown) m = emitted thrown (functions (m key))
  called (adds key listener prepend once) m = ([], ok false)
  called (removes key listener) m = ([], ok false)
  called (removes_all key) m = ([], ok false)

  unfoldable pub promised_run :
      List (Op Function Key Thrown)
      → Map Function Key
      → Map Function Key × List (List Function × Result Thrown Bool)
  unfolding promised called
  promised_run [] m = (m, [])
  promised_run (op ∷ ops) m =
      let (last, rest) = promised_run ops (promised op m) in (last, called op m ∷ rest)
