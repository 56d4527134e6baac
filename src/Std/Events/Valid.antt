-- ===== src/Std/Events/Valid.antt =====
-- The invariant of the table and what the writes of an entry do to what each key finds.
use ferrijs.Prelude.{
  ◌≡◌, refl, true, false, not, List, [], ◌∷◌, ◌++◌, Option, none, some, arith, if◌then◌else◌,
  retain, is_empty, All, All-append, All-retain, Bool-cases, inl, inr, PartialEq, ◌==◌,
}
use ferrijs.Std.Events.{
  EventItem, EventList, items_of, write_items, remove_entry, keep_items, has_key,
}

abbrev pub or_empty :
    {Function : Type 0} → Option (List (EventItem Function)) → List (EventItem Function)
or_empty none = []
or_empty (some items) = items

empty_of_is_empty :
    {Function : Type 0} (xs : List (EventItem Function)) → is_empty xs ≡ true → xs ≡ []
empty_of_is_empty [] h = refl
empty_of_is_empty (x ∷ xs) h = cc

module _ {Function Key : Type 0} ⦃k : PartialEq Key⦄ where
  -- The items that a key finds; a key with no entry has none.
  unfoldable pub view : EventList Function Key → Key → List (EventItem Function)
  view events key = or_empty (items_of key events)

  abbrev pub Differs : Key → Key × List (EventItem Function) → Type 0
  Differs key (j, items) = (j == key) ≡ false

  -- No key has two entries, and no entry is empty.
  abbrev pub IsTable : EventList Function Key → Type 0
  IsTable [] = Unit
  IsTable ((j, items) ∷ events) = (is_empty items ≡ false) × All (Differs j) events × IsTable events

  pub items_of-Differs :
      (key : Key) (events : EventList Function Key)
      → All (Differs key) events
      → items_of key events ≡ none
  unfolding items_of
  items_of-Differs key [] a = refl
  items_of-Differs key ((j, items) ∷ events) a =
      ground (arith, a.0, items_of-Differs key events a.1)

  pub view-write_items :
      (key j : Key) (new old : List (EventItem Function)) (events : EventList Function Key)
      → items_of key events ≡ some old
      → view (write_items key new events) j ≡ (if key == j then new else view events j)
  unfolding view items_of write_items
  view-write_items key j new old [] h = cc
  view-write_items key j new old ((i, items) ∷ events) h =
      ground
        (arith, k.eq_iff i key, k.eq_iff i j, k.eq_iff key j, view-write_items key j new old events)

  pub view-remove_entry :
      (key j : Key) (events : EventList Function Key)
      → IsTable events
      → view (remove_entry key events) j ≡ (if key == j then [] else view events j)
  unfolding view items_of remove_entry
  view-remove_entry key j [] t = ground arith
  view-remove_entry key j ((i, items) ∷ events) t = ground (
    arith,
    k.eq_iff i key,
    k.eq_iff i j,
    k.eq_iff key j,
    items_of-Differs i events t.1,
    view-remove_entry key j events t.2,
  )

  pub view-push :
      (key j : Key) (new : List (EventItem Function)) (events : EventList Function Key)
      → items_of key events ≡ none
      → view (events ++ (key, new) ∷ []) j ≡ (if key == j then new else view events j)
  unfolding view items_of
  view-push key j new [] h = ground arith
  view-push key j new ((i, items) ∷ events) h =
      ground (arith, k.eq_iff i key, k.eq_iff i j, k.eq_iff key j, view-push key j new events)

  pub view-keep_items :
      (key j : Key) (left old : List (EventItem Function)) (events : EventList Function Key)
      → IsTable events
      → items_of key events ≡ some old
      → view (keep_items key left events) j ≡ (if key == j then left else view events j)
  unfolding keep_items
  view-keep_items key j left old events t h = ground (
    arith,
    empty_of_is_empty left,
    view-remove_entry key j events t,
    view-write_items key j left old events h,
  )

  Differs-write_items :
      (i key : Key) (new : List (EventItem Function)) (events : EventList Function Key)
      → All (Differs i) events
      → All (Differs i) (write_items key new events)
  unfolding write_items
  Differs-write_items i key new [] a = tt
  Differs-write_items i key new ((j, items) ∷ events) a = elim (Bool-cases (j == key)) [
    | inl e ↦ rw e (a.0, a.1)
    | inr e ↦ rw e (a.0, Differs-write_items i key new events a.1)
  ]

  Differs-remove_entry :
      (i key : Key) (events : EventList Function Key)
      → All (Differs i) events
      → All (Differs i) (remove_entry key events)
  unfolding remove_entry
  Differs-remove_entry i key [] a = tt
  Differs-remove_entry i key ((j, items) ∷ events) a = elim (Bool-cases (j == key)) [
    | inl e ↦ rw e a.1
    | inr e ↦ rw e (a.0, Differs-remove_entry i key events a.1)
  ]

  pub write_items-IsTable :
      (key : Key) (new : List (EventItem Function)) (events : EventList Function Key)
      → is_empty new ≡ false
      → IsTable events
      → IsTable (write_items key new events)
  unfolding write_items
  write_items-IsTable key new [] n t = tt
  write_items-IsTable key new ((j, items) ∷ events) n t = elim (Bool-cases (j == key)) [
    | inl e ↦ rw e (n, t.1, t.2)
    | inr e ↦
        rw e
          (t.0, Differs-write_items j key new events t.1, write_items-IsTable key new events n t.2)
  ]

  remove_entry-IsTable :
      (key : Key) (events : EventList Function Key)
      → IsTable events
      → IsTable (remove_entry key events)
  unfolding remove_entry
  remove_entry-IsTable key [] t = tt
  remove_entry-IsTable key ((j, items) ∷ events) t = elim (Bool-cases (j == key)) [
    | inl e ↦ rw e t.2
    | inr e ↦ rw e (t.0, Differs-remove_entry j key events t.1, remove_entry-IsTable key events t.2)
  ]

  pub keep_items-IsTable :
      (key : Key) (left : List (EventItem Function)) (events : EventList Function Key)
      → IsTable events
      → IsTable (keep_items key left events)
  unfolding keep_items
  keep_items-IsTable key left events t = elim (Bool-cases (is_empty left)) [
    | inl e ↦ rw e (remove_entry-IsTable key events t)
    | inr e ↦ rw e (write_items-IsTable key left events e t)
  ]

  pub push-IsTable :
      (key : Key) (new : List (EventItem Function)) (events : EventList Function Key)
      → is_empty new ≡ false
      → items_of key events ≡ none
      → IsTable events
      → IsTable (events ++ (key, new) ∷ [])
  unfolding items_of
  push-IsTable key new [] n h t = (n, tt, tt)
  push-IsTable key new ((j, items) ∷ events) n h t = (
    t.0,
    All-append (Differs j) events _ t.1 (ground (arith, k.eq_iff key j, k.eq_iff j key), tt),
    push-IsTable key new events n (ground arith) t.2,
  )

  pub others-IsTable :
      (key : Key) (events : EventList Function Key)
      → IsTable events
      → IsTable (retain (λ entry. not (entry.0 == key)) events)
  others-IsTable key [] t = tt
  others-IsTable key ((j, items) ∷ events) t = elim (Bool-cases (j == key)) [
    | inl e ↦ rw e (others-IsTable key events t.2)
    | inr e ↦ rw e (t.0, All-retain (Differs j) _ events t.1, others-IsTable key events t.2)
  ]

  pub view-others :
      (key j : Key) (events : EventList Function Key)
      → view (retain (λ entry. not (entry.0 == key)) events) j
        ≡ (if key == j then [] else view events j)
  unfolding view items_of
  view-others key j [] = ground arith
  view-others key j ((i, items) ∷ events) =
      ground (arith, k.eq_iff i key, k.eq_iff i j, k.eq_iff key j, view-others key j events)

  -- Without entries that are empty, the queries answer what the items of the key say.
  pub has_key-eq :
      (key : Key) (events : EventList Function Key)
      → IsTable events
      → has_key key events ≡ not (is_empty (view events key))
  unfolding has_key view items_of
  has_key-eq key [] t = refl
  has_key-eq key ((j, items) ∷ events) t = ground (arith, t.0, has_key-eq key events t.2)

  pub found_filled :
      (key : Key) (events : EventList Function Key) (items : List (EventItem Function))
      → IsTable events
      → items_of key events ≡ some items
      → is_empty items ≡ false
  unfolding items_of
  found_filled key [] items t h = cc
  found_filled key ((j, old) ∷ events) items t h =
      ground (arith, t.0, found_filled key events items t.2)
