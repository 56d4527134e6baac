-- ===== src/Fetch/Headers.antt =====
-- crates/ferrijs-fetch/src/headers.rs: the ordered header list with case-insensitive names.
pub mod Names
pub mod Store
pub mod Value
use ferrijs.Prelude.{
  ℕ, zero, suc, Bool, true, false, not, ◌&&◌, ◌||◌, List, [], ◌∷◌, ◌++◌, map, Option, none, some,
  if◌then◌else◌, is_empty, last, init, any, retain, position, get_elem?, in_range, ◌==◌, list_eq,
  nat_eq,
}
use ferrijs.Text.{
  Text, text, to_ascii_lowercase, eq_ignore_ascii_case, join, trim_start_matches, trim_end_matches,
}

abbrev pub Entry : Type 0
Entry = Text × Text

pub record Headers : Type 0 where
  pub entries : List Entry

-- The bytes of an RFC 7230 token.
unfoldable pub is_token : ℕ → Bool
is_token b =
    any (λ c. b == c) (text "!#$%&'*+-.^_`|~")
    || (in_range b'0' b'9' b || (in_range b'A' b'Z' b || in_range b'a' b'z' b))

unfoldable pub is_valid_name : Text → Bool
is_valid_name name = not (is_empty name) && not (any (λ b. not (is_token b)) name)

unfoldable pub is_value_char : ℕ → Bool
is_value_char c = c == 9 || (c == 0x20 || (in_range 0x21 0x7e c || (c == 0x0c || c == 0xa0)))

unfoldable pub is_valid_value : Text → Bool
is_valid_value value = not (any (λ c. not (is_value_char c)) value)

-- SP or HTAB, CR or LF.
abbrev pub is_blank : ℕ → Bool
is_blank c = c == 0x20 || c == 9

abbrev pub is_break : ℕ → Bool
is_break c = c == 13 || c == 10

-- The variables of the main loop of `normalize_value`.
pub record Scan : Type 0 where
  pub pending : Option ℕ
  pub out : Text

-- The `byte` arm: pending white space is pushed unless nothing stands before it.
unfoldable pub push_byte : ℕ → Scan → Scan
push_byte c s = elim s.pending [
  | some ws ↦
      if is_empty s.out
      then record { pending = none; out = s.out ++ c ∷ [] }
      else record { pending = none; out = (s.out ++ ws ∷ []) ++ c ∷ [] }
  | none ↦ record { pending = none; out = s.out ++ c ∷ [] }
]

-- The arms of the loop that read one byte.
unfoldable pub scan_byte : ℕ → Scan → Scan
unfolding push_byte
scan_byte c s =
    if is_break c then s else if is_blank c then record s { pending = some c } else push_byte c s

-- The main loop: an obs-fold, CR LF and a blank, is read as the blank.
unfoldable pub scan : Text → Scan → Scan
scan [] s = s
scan (a ∷ []) s = scan_byte a s
scan (a ∷ b ∷ []) s = scan_byte b (scan_byte a s)
scan (a ∷ b ∷ c ∷ rest) s =
    let folded = scan rest (record s { pending = some c }) in
    let plain = scan (b ∷ c ∷ rest) (scan_byte a s) in
    if a == 13 && (b == 10 && is_blank c) then folded else plain

unfoldable pub normalize_value : Text → Text
unfolding scan
normalize_value input =
    trim_end_matches is_blank
      (scan (trim_start_matches is_blank input) (record { pending = none; out = [] })).out

-- The test on an entry that every method makes.
unfoldable pub named : Text → Entry → Bool
named name e = eq_ignore_ascii_case e.0 name

unfoldable pub new : Headers
new = record { entries = [] }

unfoldable pub from_pairs : List Entry → Headers
from_pairs entries = record { entries = entries }

-- `Headers::position`
unfoldable pub position_of : Text → Headers → Option ℕ
position_of name h = position (named name) h.entries

unfoldable pub get_all : Text → Headers → List Text
get_all name h = map (λ (e : Entry). e.1) (retain (named name) h.entries)

unfoldable pub get : Text → Headers → Option Text
unfolding get_all
get name h =
    let values = get_all name h in
    if is_empty values
    then none
    else some
        (join values (if eq_ignore_ascii_case name (text "set-cookie") then 10 ∷ [] else text ", "))

unfoldable pub get_joined : Text → Headers → Option Text
unfolding get_all
get_joined name h =
    let values = get_all name h in if is_empty values then none else some (join values (text ", "))

unfoldable pub get_first : Text → Headers → Option Text
unfolding position_of
get_first name h = elim (position_of name h) [
  | none ↦ none
  | some i ↦ elim (get_elem? h.entries i) [ none ↦ none | some (k, v) ↦ some v ]
]

unfoldable pub get_set_cookie : Headers → List Text
unfolding get_all
get_set_cookie h = get_all (text "set-cookie") h

unfoldable pub contains_name : Text → Headers → Bool
unfolding position_of
contains_name name h = elim (position_of name h) [ none ↦ false | some _ ↦ true ]

-- `self.entries[i].1 = f(self.entries[i].1)`
unfoldable pub set_value : (Text → Text) → ℕ → List Entry → List Entry
set_value f i [] = []
set_value f zero ((k, v) ∷ es) = (k, f v) ∷ es
set_value f (suc i) (e ∷ es) = e ∷ set_value f i es

-- The `retain` of `set`, which keeps the first entry of the name.
unfoldable pub drop_later : Text → Bool → List Entry → List Entry
drop_later lower seen [] = []
drop_later lower seen (e ∷ es) =
    if named lower e
    then (let rest = drop_later lower true es in if seen then rest else e ∷ rest)
    else e ∷ drop_later lower seen es

unfoldable pub set : Text → Text → Headers → Headers
unfolding position_of set_value drop_later
set name value h = elim (position_of name h) [
  | some i ↦ record {
    entries = drop_later (to_ascii_lowercase name) false (set_value (λ _. value) i h.entries);
  }
  | none ↦ record { entries = h.entries ++ (name, value) ∷ [] }
]

unfoldable pub set_if_absent : Text → Text → Headers → Headers
unfolding contains_name
set_if_absent name value h =
    if not (contains_name name h) then record { entries = h.entries ++ (name, value) ∷ [] } else h

unfoldable pub append : Text → Text → Headers → Headers
append name value h = record { entries = h.entries ++ (name, value) ∷ [] }

unfoldable pub append_combined : Text → Text → Headers → Headers
unfolding position_of set_value
append_combined name_lc value h =
    if name_lc == text "set-cookie"
    then record { entries = h.entries ++ (name_lc, value) ∷ [] }
    else elim (position_of name_lc h) [
      | some i ↦ record { entries = set_value (λ old. old ++ (text ", " ++ value)) i h.entries }
      | none ↦ record { entries = h.entries ++ (name_lc, value) ∷ [] }
    ]

unfoldable pub remove : Text → Headers → Headers
remove name h = record { entries = retain (λ e. not (named name e)) h.entries }

-- `unwrap_or_default`
abbrev pub or_empty : Option Text → Text
or_empty none = []
or_empty (some v) = v

-- The loop of `to_object`.
unfoldable pub to_object_loop : Headers → List Entry → List Entry → List Entry
unfolding get
to_object_loop h [] out = out
to_object_loop h ((name, v) ∷ es) out =
    let lower = to_ascii_lowercase name in
    to_object_loop h es (
      if any (λ (e : Entry). e.0 == lower) out
      then out
      else out ++ (lower, or_empty (get lower h)) ∷ [])

unfoldable pub to_object : Headers → List Entry
unfolding to_object_loop
to_object h = to_object_loop h h.entries []
