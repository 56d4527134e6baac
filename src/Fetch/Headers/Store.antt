-- ===== src/Fetch/Headers/Store.antt =====
-- The header list as a map from names, in any case, to lists of values.
use mathlib.Core.List.{append-nil}
use ferrijs.Prelude.{
  ◌≢◌, list_beq_iff, list_eq, nat_eq, ℕ, zero, suc, ◌≡◌, refl, sym, ap, ◌∙◌, Bool, true, false, not,
  List, [], ◌∷◌, ◌++◌, map, Option, none, some, arith, Bool-cases, Option-cases, inl, inr,
  if◌then◌else◌, retain, position, is_empty,
}
use ferrijs.Text.{Text, text, to_ascii_lowercase, eq_ignore_ascii_case}
use ferrijs.Fetch.Headers.{
  Entry, Headers, named, get_all, get_first, contains_name, set_value, drop_later, set, append,
  append_combined, remove,
}
use ferrijs.Fetch.Headers.Names.{
  named-lower, named_ne, eq_ignore_ascii_case_refl, named-congruent, eq_ignore_ascii_case_iff,
}

-- The values of the entries of a name.
abbrev values : Text → List Entry → List Text
values name es = map (λ (e : Entry). e.1) (retain (named name) es)

values-append : (n : Text) (es fs : List Entry) → values n (es ++ fs) ≡ values n es ++ values n fs
values-append n [] fs = refl
values-append n (e ∷ es) fs = ground (arith, values-append n es fs)

-- `drop_later` with the flag up drops every entry of the name.
values-drop_later_seen :
    (n : Text) (es : List Entry) → values n (drop_later (to_ascii_lowercase n) true es) ≡ []
unfolding drop_later
values-drop_later_seen n [] = refl
values-drop_later_seen n (e ∷ es) = ground (arith, named-lower n e, values-drop_later_seen n es)

-- It leaves the other names alone.
values-drop_later_ne :
    (m n : Text) (seen : Bool) (es : List Entry)
    → eq_ignore_ascii_case m n ≡ false
    → values m (drop_later (to_ascii_lowercase n) seen es) ≡ values m es
unfolding drop_later
values-drop_later_ne m n seen [] h = refl
values-drop_later_ne m n seen (e ∷ es) h = ground (
  arith,
  named-lower n e,
  named_ne m n e h,
  values-drop_later_ne m n seen es h,
  values-drop_later_ne m n true es h,
)

named_key : (n k v w : Text) → named n (k, v) ≡ named n (k, w)
unfolding named
named_key n k v w = refl

values-set_self :
    (n v : Text) (es : List Entry) (i : ℕ)
    → position (named n) es ≡ some i
    → values n (drop_later (to_ascii_lowercase n) false (set_value (λ _. v) i es)) ≡ v ∷ []
unfolding drop_later set_value
values-set_self n v [] i h = cc
values-set_self n v ((k, w) ∷ es) zero h =
    ground (arith, named_key n k w v, named-lower n (k, v), values-drop_later_seen n es)
values-set_self n v ((k, w) ∷ es) (suc i) h =
    ground (arith, named-lower n (k, w), values-set_self n v es i)

values-set_ne :
    (m n : Text) (f : Text → Text) (es : List Entry) (i : ℕ)
    → eq_ignore_ascii_case m n ≡ false
    → position (named n) es ≡ some i
    → values m (set_value f i es) ≡ values m es
unfolding set_value
values-set_ne m n f [] i h p = cc
values-set_ne m n f ((k, w) ∷ es) zero h p =
    ground (arith, named_key m k w (f w), named_ne m n (k, w) h)
values-set_ne m n f ((k, w) ∷ es) (suc i) h p = ground (arith, values-set_ne m n f es i h)

values_none : (n : Text) (es : List Entry) → position (named n) es ≡ none → values n es ≡ []
values_none n [] h = refl
values_none n (e ∷ es) h = ground (arith, values_none n es)

values-congruent :
    (m n : Text) (es : List Entry)
    → to_ascii_lowercase m ≡ to_ascii_lowercase n
    → values m es ≡ values n es
values-congruent m n [] h = refl
values-congruent m n (e ∷ es) h = ground (arith, named-congruent m n e h, values-congruent m n es h)

set-some :
    (n v : Text) (es : List Entry) (i : ℕ)
    → position (named n) es ≡ some i
    → (set n v (record { entries = es })).entries
      ≡ drop_later (to_ascii_lowercase n) false (set_value (λ _. v) i es)
unfolding set
set-some n v es i h = ground arith

set-none :
    (n v : Text) (es : List Entry)
    → position (named n) es ≡ none
    → (set n v (record { entries = es })).entries ≡ es ++ (n, v) ∷ []
unfolding set
set-none n v es h = ground arith

named_self : (n v : Text) → named n (n, v) ≡ true
unfolding named
named_self n v = eq_ignore_ascii_case_refl n

values_one : (n v : Text) → values n ((n, v) ∷ []) ≡ v ∷ []
unfolding named
values_one n v = rw (eq_ignore_ascii_case_refl n)

values_if :
    (m n v : Text) → values m ((n, v) ∷ []) ≡ (if eq_ignore_ascii_case n m then v ∷ [] else [])
unfolding named
values_if m n v = ground arith

values_other : (m n v : Text) → eq_ignore_ascii_case m n ≡ false → values m ((n, v) ∷ []) ≡ []
values_other m n v e = ground (arith, named_ne m n (n, v) e, named_self n v)

values-retain_self : (n : Text) (es : List Entry) → values n (retain (λ e. not (named n e)) es) ≡ []
values-retain_self n [] = refl
values-retain_self n (e ∷ es) = ground (arith, values-retain_self n es)

values-retain_ne :
    (m n : Text) (es : List Entry)
    → eq_ignore_ascii_case m n ≡ false
    → values m (retain (λ e. not (named n e)) es) ≡ values m es
values-retain_ne m n [] h = refl
values-retain_ne m n (e ∷ es) h = ground (arith, values-retain_ne m n es h, named_ne m n e h)

contains_values :
    (n : Text) (es : List Entry)
    → elim (position (named n) es) as (λ _. Bool) [ none ↦ false | some _ ↦ true ]
      ≡ not (is_empty (values n es))
contains_values n [] = refl
contains_values n (e ∷ es) = ground (arith, contains_values n es)

-- After `set` the name, in whatever case it is asked for, has the one value that was set.
pub get_all-set_self :
    (n m v : Text) (h : Headers) → eq_ignore_ascii_case m n ≡ true → get_all m (set n v h) ≡ v ∷ []
unfolding get_all
get_all-set_self n m v h e =
    values-congruent m n (set n v h).entries ((eq_ignore_ascii_case_iff m n).0 e)
    ∙ (elim (Option-cases (position (named n) h.entries)) [
      | inl p ↦
          ap (values n) (set-none n v h.entries p)
          ∙ (values-append n h.entries ((n, v) ∷ [])
              ∙ (rw (values_none n h.entries p) (values_one n v)))
      | inr (i, p) ↦ ap (values n) (set-some n v h.entries i p) ∙ values-set_self n v h.entries i p
    ])

-- `set` leaves the values of every other name as they were.
pub get_all-set_ne :
    (n m v : Text) (h : Headers)
    → eq_ignore_ascii_case m n ≡ false
    → get_all m (set n v h) ≡ get_all m h
unfolding get_all
get_all-set_ne n m v h e = elim (Option-cases (position (named n) h.entries)) [
  | inl p ↦
      ap (values m) (set-none n v h.entries p)
      ∙ (values-append m h.entries ((n, v) ∷ [])
          ∙ (rw (values_other m n v e) (append-nil (values m h.entries))))
  | inr (i, p) ↦
      ap (values m) (set-some n v h.entries i p)
      ∙ (values-drop_later_ne m n false (set_value (λ _. v) i h.entries) e
          ∙ values-set_ne m n (λ _. v) h.entries i e p)
]

-- `append` adds the value behind those of its name, and to no other name.
pub get_all-append :
    (n m v : Text) (h : Headers)
    → get_all m (append n v h) ≡ get_all m h ++ (if eq_ignore_ascii_case n m then v ∷ [] else [])
unfolding get_all append
get_all-append n m v h =
    values-append m h.entries ((n, v) ∷ [])
    ∙ ap (λ (t : List Text). values m h.entries ++ t) (values_if m n v)

-- `remove` takes every value of the name, in whatever case, and leaves the other names alone.
pub get_all-remove :
    (n m : Text) (h : Headers)
    → get_all m (remove n h) ≡ (if eq_ignore_ascii_case m n then [] else get_all m h)
unfolding get_all remove
get_all-remove n m h = elim (Bool-cases (eq_ignore_ascii_case m n)) [
  | inl e ↦
      rw e (
        values-congruent m n _ ((eq_ignore_ascii_case_iff m n).0 e)
        ∙ values-retain_self n h.entries)
  | inr e ↦ rw e (values-retain_ne m n h.entries e)
]

-- A name is contained exactly if it has a value.
pub contains_name-get_all :
    (n : Text) (h : Headers) → contains_name n h ≡ not (is_empty (get_all n h))
unfolding contains_name get_all
contains_name-get_all n h = contains_values n h.entries

-- The value of the first entry of a name.
abbrev first_value : Text → List Entry → Option Text
first_value n [] = none
first_value n (e ∷ es) = let rest = first_value n es in if named n e then some e.1 else rest

get_first-eq :
    (n : Text) (es : List Entry) → get_first n (record { entries = es }) ≡ first_value n es
unfolding get_first
get_first-eq n [] = refl
get_first-eq n (e ∷ es) = ground (arith, get_first-eq n es)

first_value-none :
    (n : Text) (es : List Entry) → position (named n) es ≡ none → first_value n es ≡ none
first_value-none n [] h = refl
first_value-none n (e ∷ es) h = ground (arith, first_value-none n es)

first_value-set_value :
    (n old : Text) (f : Text → Text) (es : List Entry) (i : ℕ)
    → position (named n) es ≡ some i
    → first_value n es ≡ some old
    → first_value n (set_value f i es) ≡ some (f old)
unfolding set_value
first_value-set_value n old f [] i h g = cc
first_value-set_value n old f ((k, w) ∷ es) zero h g = ground (arith, named_key n k w (f w))
first_value-set_value n old f ((k, w) ∷ es) (suc i) h g =
    ground (arith, first_value-set_value n old f es i)

append_combined-some :
    (n v : Text) (es : List Entry) (i : ℕ)
    → n ≢ text "set-cookie"
    → position (named n) es ≡ some i
    → append_combined n v (record { entries = es })
      ≡ record { entries = set_value (λ old. old ++ (text ", " ++ v)) i es }
unfolding append_combined
append_combined-some n v es i c h = ground (arith, list_beq_iff n (text "set-cookie"))

-- `append_combined` of a name other than `set-cookie` that has a value already appends the new
-- value, behind `, `, to the first one.
pub get_first-append_combined :
    (n v old : Text) (h : Headers)
    → n ≢ text "set-cookie"
    → get_first n h ≡ some old
    → get_first n (append_combined n v h) ≡ some (old ++ (text ", " ++ v))
get_first-append_combined n v old h c g =
    let g' : first_value n h.entries ≡ some old = sym (get_first-eq n h.entries) ∙ g in
    elim (Option-cases (position (named n) h.entries)) [
      | inl p ↦ absurd (ground (arith, first_value-none n h.entries p))
      | inr (i, p) ↦
          ap (get_first n) (append_combined-some n v h.entries i c p)
          ∙ (get_first-eq n _
              ∙ first_value-set_value n old (λ x. x ++ (text ", " ++ v)) h.entries i p g')
    ]
