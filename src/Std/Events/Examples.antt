-- ===== src/Std/Events/Examples.antt =====
-- An emitter at concrete inputs: functions and keys are numbers.
use ferrijs.Prelude.{
  ℕ, zero, suc, Option, none, some, ◌≡◌, refl, true, false, not, List, [], ◌∷◌, is_empty, length,
  nat_eq,
}
use ferrijs.Prelude.Result.{ok, err}
use ferrijs.Text.{Text, text}
use ferrijs.Std.Events.{
  has_key, listener_count, find_all_listeners, event_names, do_emit, add_event_listener,
  remove_event_listener,
}
use ferrijs.Std.Events.Promise.{Op, adds, removes, emits, promised_run, functions}
use ferrijs.Std.Events.Table.{run, emitter_refines}

-- No call throws, and the first one does.
abbrev quiet : ℕ → Option Text
quiet i = none

abbrev first : ℕ → Option Text
first zero = some (text "no")
first (suc i) = none

-- Two listeners, one put before them for one call, two emissions, the second of which throws, a
-- removal and emissions.
abbrev history : List (Op ℕ ℕ Text)
history =
    adds 0 1 false false
    ∷ adds 0 2 false false
    ∷ adds 0 3 true true
    ∷ adds 5 9 false true
    ∷ emits 0 quiet
    ∷ emits 0 first
    ∷ removes 0 1
    ∷ emits 0 quiet
    ∷ emits 5 quiet
    ∷ emits 5 quiet
    ∷ []

calls_in_order :
    (run history []).1
    ≡ ([], ok false)
      ∷ ([], ok false)
      ∷ ([], ok false)
      ∷ ([], ok false)
      ∷ (3 ∷ 1 ∷ 2 ∷ [], ok true)
      ∷ (1 ∷ [], err (text "no"))
      ∷ ([], ok false)
      ∷ (2 ∷ [], ok true)
      ∷ (9 ∷ [], ok true)
      ∷ ([], ok false)
      ∷ []
unfolding run do_emit add_event_listener remove_event_listener
calls_in_order = refl

names_left : event_names (run history []).0 ≡ 0 ∷ []
unfolding run event_names do_emit add_event_listener remove_event_listener
names_left = refl

emitter_refines_example :
    let (events, calls) = run history [] in
    let (last, answers) = promised_run history (λ _. []) in
    (calls ≡ answers)
    × ((key : ℕ) → has_key key events ≡ not (is_empty (last key)))
    × ((key : ℕ) → listener_count key events ≡ length (last key))
    × ((key : ℕ) → find_all_listeners key events ≡ functions (last key))
emitter_refines_example = emitter_refines history
