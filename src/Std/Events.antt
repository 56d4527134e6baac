-- ===== src/Std/Events.antt =====
-- crates/ferrijs-std/src/events/mod.rs: the listener table of an emitter. Functions and symbols of
-- JS are values that can be compared. The lookup of the table on an object and the argument of
-- `EventKey::from_value` are left out, and so is the lock. `do_emit` calls with the table released:
-- it answers which callbacks it called, in order, and what a callback does to the table are further
-- operations. What a call throws is a parameter. `on_event_changed` is what an operation reports.
pub mod Valid
pub mod Promise
pub mod Meets
pub mod Table
mod Examples
use ferrijs.Prelude.{
  ℕ, suc, ◌≡◌, Bool, true, false, not, ◌&&◌, List, [], ◌∷◌, ◌++◌, Option, none, some, map,
  if◌then◌else◌, retain, find, any, is_empty, length, PartialEq, ◌==◌,
}
use ferrijs.Prelude.Result.{Result, ok, err}

pub record EventItem (Function : Type 0) : Type 0 where
  pub callback : Function
  pub once : Bool

abbrev pub EventList : Type 0 → Type 0 → Type 0
EventList Function Key = List (Key × List (EventItem Function))

module _ {Function : Type 0} where
  unfoldable pub place :
      Bool → EventItem Function → List (EventItem Function) → List (EventItem Function)
  place prepend item items = if prepend then item ∷ items else items ++ item ∷ []

  abbrev pub callbacks : List (EventItem Function) → List Function
  callbacks items = map (λ item. item.callback) items

  abbrev pub stays : EventItem Function → Bool
  stays item = not item.once

-- The calls one after the other, from the call `i` on: `thrown` says of each call what it throws,
-- which ends them. A call that is deferred throws if it cannot be put off.
unfoldable pub call_all :
    {Function Thrown : Type 0}
    → (ℕ → Option Thrown)
    → ℕ
    → List Function
    → List Function × Result Thrown Bool
call_all thrown i [] = ([], ok true)
call_all thrown i (callback ∷ callbacks) =
    let (called, answer) = call_all thrown (suc i) callbacks in
    elim (thrown i) [ none ↦ (callback ∷ called, answer) | some e ↦ (callback ∷ [], err e) ]

unfoldable pub event_names : {Function Key : Type 0} → EventList Function Key → List Key
event_names events = map (λ entry. entry.0) events

module _ {Function : Type 0} ⦃f : PartialEq Function⦄ where
  -- `items.remove(pos)` at the first item with the listener, if there is one.
  unfoldable pub remove_first :
      Function → List (EventItem Function) → Option (List (EventItem Function))
  remove_first listener [] = none
  remove_first listener (item ∷ items) =
      let rest = remove_first listener items in
      if item.callback == listener
      then some items
      else elim rest [ none ↦ none | some left ↦ some (item ∷ left) ]

module _ {Function Key : Type 0} ⦃k : PartialEq Key⦄ where
  -- `iter().find(|(k, _)| k == &key)`, the items of the entry.
  unfoldable pub items_of : Key → EventList Function Key → Option (List (EventItem Function))
  items_of key [] = none
  items_of key ((j, items) ∷ events) =
      let rest = items_of key events in if j == key then some items else rest

  -- A write through the entry that the same search finds.
  unfoldable pub write_items :
      Key → List (EventItem Function) → EventList Function Key → EventList Function Key
  write_items key new [] = []
  write_items key new ((j, items) ∷ events) =
      let rest = write_items key new events in
      if j == key then (j, new) ∷ events else (j, items) ∷ rest

  -- `events.remove(index)` at the index of the key.
  unfoldable pub remove_entry : Key → EventList Function Key → EventList Function Key
  remove_entry key [] = []
  remove_entry key ((j, items) ∷ events) =
      let rest = remove_entry key events in if j == key then events else (j, items) ∷ rest

  -- The table, and whether the key is new, which is reported if the object is of the class.
  unfoldable pub add_event_listener :
      Key → Function → Bool → Bool → EventList Function Key → EventList Function Key × Bool
  unfolding items_of write_items place
  add_event_listener key listener prepend once events =
      let item : EventItem Function = record { callback = listener; once = once } in
      elim (items_of key events) [
        | some items ↦ (write_items key (place prepend item items) events, false)
        | none ↦ (events ++ (key, place prepend item []) ∷ [], true)
      ]

  -- The items that are left, or no entry if there are none.
  unfoldable pub keep_items :
      Key → List (EventItem Function) → EventList Function Key → EventList Function Key
  unfolding write_items remove_entry
  keep_items key left events =
      if is_empty left then remove_entry key events else write_items key left events

  -- The table, the callbacks that are called, in order, and the answer.
  unfoldable pub do_emit :
      {Thrown : Type 0}
      → (ℕ → Option Thrown)
      → Key
      → EventList Function Key
      → EventList Function Key × List Function × Result Thrown Bool
  unfolding items_of keep_items call_all
  do_emit thrown key events = elim (items_of key events) [
    | none ↦ (events, [], ok false)
    | some items ↦
        let (called, answer) = call_all thrown 0 (callbacks items) in
        (keep_items key (retain stays items) events, called, answer)
  ]

  unfoldable pub listener_count : Key → EventList Function Key → ℕ
  unfolding items_of
  listener_count key events = elim (items_of key events) [ none ↦ 0 | some items ↦ length items ]

  -- `retain(|(k, _)| k != &key)`; with no event given, or undefined, `clear`.
  unfoldable pub remove_all_listeners : Option Key → EventList Function Key → EventList Function Key
  remove_all_listeners none events = []
  remove_all_listeners (some key) events = retain (λ entry. not (entry.0 == key)) events

  unfoldable pub find_all_listeners : Key → EventList Function Key → List Function
  unfolding items_of
  find_all_listeners key events = elim (items_of key events) [
    | none ↦ []
    | some items ↦ callbacks items
  ]

  unfoldable pub has_key : Key → EventList Function Key → Bool
  has_key key events = any (λ entry. entry.0 == key) events

module _ {Function Key : Type 0} ⦃f : PartialEq Function⦄ ⦃k : PartialEq Key⦄ where
  unfoldable pub remove_event_listener :
      Key → Function → EventList Function Key → EventList Function Key
  unfolding items_of keep_items remove_first
  remove_event_listener key listener events = elim (items_of key events) [
    | none ↦ events
    | some items ↦ elim (remove_first listener items) [
      | none ↦ events
      | some left ↦ keep_items key left events
    ]
  ]
