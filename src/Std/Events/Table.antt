-- ===== src/Std/Events/Table.antt =====
-- The listener table against the total map from keys to items that an emitter promises.
use mathlib.Core.Path.{fun_ext, ap₂}
use ferrijs.Prelude.{
  Option, ℕ, ◌≡◌, refl, sym, ap, ◌∙◌, Bool, true, false, not, List, [], ◌∷◌, none, some, arith,
  is_empty, length, Bool-cases, Option-cases, inl, inr, PartialEq, ◌==◌,
}
use ferrijs.Std.Events.{
  EventItem, EventList, items_of, place, callbacks, remove_first, add_event_listener,
  remove_event_listener, do_emit, remove_all_listeners, listener_count, find_all_listeners, has_key,
}
use ferrijs.Std.Events.Promise.{
  Map, Op, adds, removes, emits, removes_all, update, functions, promised, called, promised_run,
}
use ferrijs.Prelude.Result.{Result, ok}
use ferrijs.Std.Events.Meets.{
  inserted-place, lasting-retain, functions-callbacks, emitted-call_all, emitted-nil, without_kept,
  without_left,
}
use ferrijs.Std.Events.Valid.{
  view, IsTable, view-keep_items, view-push, view-write_items, keep_items-IsTable, push-IsTable,
  write_items-IsTable, others-IsTable, view-others, found_filled, has_key-eq,
}

place_filled :
    {Function : Type 0} (prepend : Bool) (item : EventItem Function)
    (items : List (EventItem Function))
    → is_empty (place prepend item items) ≡ false
unfolding place
place_filled true item items = refl
place_filled false item [] = refl
place_filled false item (x ∷ xs) = refl

module _ {Function Key : Type 0} ⦃k : PartialEq Key⦄ where
  -- What the key finds, in the map.
  found :
      (key : Key) (events : EventList Function Key) (items : List (EventItem Function))
      → items_of key events ≡ some items
      → view events key ≡ items
  unfolding view
  found key events items e = ground arith

  missing :
      (key : Key) (events : EventList Function Key)
      → items_of key events ≡ none
      → view events key ≡ []
  unfolding view
  missing key events e = ground arith

  -- A write of the value that is there changes nothing.
  update_same :
      (key j : Key) (items : List (EventItem Function)) (m : Map Function Key)
      → m key ≡ items
      → m j ≡ update key items m j
  update_same key j items m e = elim (Bool-cases (key == j)) [
    | inl b ↦ rw b (ap m (sym ((k.eq_iff key j).0 b)) ∙ e)
    | inr b ↦ rw b refl
  ]

  counted :
      (key : Key) (events : EventList Function Key)
      → listener_count key events ≡ length (view events key)
  unfolding listener_count view
  counted key events = elim (Option-cases (items_of key events)) [
    | inl e ↦ rw (e, listener_count, view) refl
    | inr (items, e) ↦ rw (e, listener_count, view) refl
  ]

  listed :
      (key : Key) (events : EventList Function Key)
      → find_all_listeners key events ≡ callbacks (view events key)
  unfolding find_all_listeners view
  listed key events = elim (Option-cases (items_of key events)) [
    | inl e ↦ rw (e, find_all_listeners, view) refl
    | inr (items, e) ↦ rw (e, find_all_listeners, view) refl
  ]

module _ {Function Key Thrown : Type 0} ⦃f : PartialEq Function⦄ ⦃k : PartialEq Key⦄ where
  unfoldable pub step :
      Op Function Key Thrown
      → EventList Function Key
      → EventList Function Key × (List Function × Result Thrown Bool)
  step (adds key listener prepend once) events =
      ((add_event_listener key listener prepend once events).0, ([], ok false))
  step (removes key listener) events = (remove_event_listener key listener events, ([], ok false))
  step (emits key thrown) events =
      let (left, calls, answer) = do_emit thrown key events in (left, (calls, answer))
  step (removes_all key) events = (remove_all_listeners key events, ([], ok false))

  unfoldable pub Follows : Op Function Key Thrown → EventList Function Key → Type 0
  Follows op events =
      IsTable (step op events).0
      × ((j : Key) → view (step op events).0 j ≡ promised op (view events) j)
      × ((step op events).1 ≡ called op (view events))

module _ {Function Key : Type 0} (Thrown : Type 0) ⦃f : PartialEq Function⦄
    ⦃k : PartialEq Key⦄ where
  add-Follows :
      (key : Key) (listener : Function) (prepend once : Bool) (events : EventList Function Key)
      → IsTable events
      → Follows {Thrown = Thrown} (adds key listener prepend once) events
  unfolding Follows step add_event_listener promised called
  add-Follows key listener prepend once events t = elim (Option-cases (items_of key events)) [
    | inl e ↦
        rw
          (
            e,
            missing key events e,
            inserted-place prepend (record { callback = listener; once = once }) [],
            add_event_listener,
          )
          (
            push-IsTable key _ events (place_filled prepend _ []) e t,
            (λ j. view-push key j _ events e),
            refl,
          )
    | inr (items, e) ↦
        rw
          (
            e,
            found key events items e,
            inserted-place prepend (record { callback = listener; once = once }) items,
            add_event_listener,
          )
          (
            write_items-IsTable key _ events (place_filled prepend _ items) t,
            (λ j. view-write_items key j _ items events e),
            refl,
          )
  ]

  remove-Follows :
      (key : Key) (listener : Function) (events : EventList Function Key)
      → IsTable events
      → Follows {Thrown = Thrown} (removes key listener) events
  unfolding Follows step remove_event_listener promised called
  remove-Follows key listener events t = elim (Option-cases (items_of key events)) [
    | inl e ↦
        rw (e, missing key events e, remove_event_listener)
          (t, (λ j. update_same key j [] (view events) (missing key events e)), refl)
    | inr (items, e) ↦ elim (Option-cases (remove_first listener items)) [
      | inl r ↦
          rw (e, found key events items e, r, without_kept listener items r, remove_event_listener)
            (t, (λ j. update_same key j items (view events) (found key events items e)), refl)
      | inr (left, r) ↦
          rw
            (
              e,
              found key events items e,
              r,
              without_left listener items left r,
              remove_event_listener,
            )
            (
              keep_items-IsTable key left events t,
              (λ j. view-keep_items key j left items events t e),
              refl,
            )
    ]
  ]

module _ {Function Key Thrown : Type 0} ⦃f : PartialEq Function⦄ ⦃k : PartialEq Key⦄ where
  emit-Follows :
      (key : Key) (thrown : ℕ → Option Thrown) (events : EventList Function Key)
      → IsTable events
      → Follows (emits key thrown) events
  unfolding Follows step do_emit promised called
  emit-Follows key thrown events t = elim (Option-cases (items_of key events)) [
    | inl e ↦
        rw (e, missing key events e, do_emit)
          (t, (λ j. update_same key j [] (view events) (missing key events e)), emitted-nil thrown)
    | inr (items, e) ↦
        let filled = found_filled key events items t e in
        rw (e, found key events items e, lasting-retain items, do_emit)
          (
            keep_items-IsTable key _ events t,
            (λ j. view-keep_items key j _ items events t e),
            emitted-call_all thrown items filled,
          )
  ]

  step-Follows :
      (op : Op Function Key Thrown) (events : EventList Function Key)
      → IsTable events
      → Follows op events
  step-Follows (adds key listener prepend once) events t =
      add-Follows Thrown key listener prepend once events t
  step-Follows (removes key listener) events t = remove-Follows Thrown key listener events t
  step-Follows (emits key thrown) events t = emit-Follows key thrown events t
  step-Follows (removes_all none) events t =
      unfold Follows step promised called remove_all_listeners view items_of in
      (tt, (λ j. refl), refl)
  step-Follows (removes_all (some key)) events t =
      unfold Follows step promised called remove_all_listeners in
      (others-IsTable key events t, (λ j. view-others key j events), refl)

  -- A history of operations: the table that is left, and the callbacks of each operation.
  unfoldable pub run :
      List (Op Function Key Thrown)
      → EventList Function Key
      → EventList Function Key × List (List Function × Result Thrown Bool)
  unfolding step
  run [] events = (events, [])
  run (op ∷ ops) events =
      let (next, calls) = step op events in let (last, rest) = run ops next in (last, calls ∷ rest)

  run_refines :
      (ops : List (Op Function Key Thrown)) (events : EventList Function Key)
      → IsTable events
      → IsTable (run ops events).0
        × (view (run ops events).0 ≡ (promised_run ops (view events)).0)
        × ((run ops events).1 ≡ (promised_run ops (view events)).1)
  unfolding run promised_run Follows
  run_refines [] events t = (t, refl, refl)
  run_refines (op ∷ ops) events t =
      let (v, m, c) = step-Follows op events t in
      let (w, n, d) = run_refines ops (step op events).0 v in
      let same = fun_ext m in
      (
        w,
        n ∙ ap (λ q. (promised_run ops q).0) same,
        ap₂ ◌∷◌ c (d ∙ ap (λ q. (promised_run ops q).1) same),
      )

  -- An emitter is the total map from keys to lists of items that it promises. After every history
  -- of additions, removals and emissions from an empty table, each emission has called exactly the
  -- listeners of its key in their order, and answered whether there were any, or, if a call threw,
  -- those up to it, and answered what it threw; and the queries of every key, whether it has an
  -- entry, how many listeners and which, answer what the map holds.
  pub emitter_refines :
      (ops : List (Op Function Key Thrown))
      → let (events, calls) = run ops [] in
        let (last, answers) = promised_run ops (λ _. []) in
        (calls ≡ answers)
        × ((key : Key) → has_key key events ≡ not (is_empty (last key)))
        × ((key : Key) → listener_count key events ≡ length (last key))
        × ((key : Key) → find_all_listeners key events ≡ functions (last key))
  unfolding view items_of
  emitter_refines ops =
      let (t, m, c) = run_refines ops [] tt in
      let at = λ (key : Key). ap (λ (q : Map Function Key). q key) m in
      (
        c,
        (λ key. has_key-eq key (run ops []).0 t ∙ ap (λ l. not (is_empty l)) (at key)),
        (λ key.
            counted key (run ops []).0 ∙ ap (λ (l : List (EventItem Function)). length l) (at key)),
        (λ key.
            listed key (run ops []).0
            ∙ (sym (functions-callbacks (view (run ops []).0 key))
                ∙ ap (λ (l : List (EventItem Function)). functions l) (at key))),
      )
