-- ===== src/Std/ReuseList/Remove.antt =====
-- What `remove` does to a valid list, as a client sees it.
use ferrijs.Prelude.{
  ℕ, zero, suc, ◌-◌, ◌<◌, ◌≡◌, ◌≢◌, refl, sym, ap, ◌∙◌, false, List, Option, none, some, arith,
  get_elem?, set, ◌⊎◌, inl, inr, Option-cases, Bool-cases, get_elem?-set_self, get_elem?-set_ne,
  ltb, nat_eq,
}
use ferrijs.Std.ReuseList.{ReuseList, remove, get, current_slot}
use ferrijs.Std.ReuseList.Valid.{IsValid, current_slot_total}
use ferrijs.Std.ReuseList.Removed.{recorded, recorded-IsValid, pushed, pushed-IsValid}
use ferrijs.Std.ReuseList.Lists.{get_elem?-lt-length, count_some-set-none}
use ferrijs.Std.ReuseList.Reads.{get_eq, get-some}

module _ {A : Type 0} where
  -- `remove` answers what the index held, which then holds nothing; nothing else moves.
  pub record IsRemoved (index : ℕ) (r r' : ReuseList A) (o : Option A) : Type 0 where
    pub valid : IsValid r'
    pub answer : o ≡ get index r
    pub gone : get index r' ≡ none
    pub others : (j : ℕ) → index ≢ j → get j r' ≡ get j r

  len_pos :
      (r : ReuseList A) (index : ℕ) (b : A)
      → IsValid r
      → get_elem? r.items index ≡ some (some b)
      → 0 < r.len
  len_pos r index b v at = omega (arith, v.counted, count_some-set-none r.items index b at)

  remove_absent :
      (index : ℕ) (r : ReuseList A)
      → (get_elem? r.items index ≡ none) ⊎ (get_elem? r.items index ≡ some none)
      → (remove index r ≡ some (r, none)) × (get index r ≡ none)
  unfolding remove get
  remove_absent index r h = (ground arith, ground arith)

  remove-recorded :
      (index : ℕ) (b : A) (r : ReuseList A)
      → get_elem? r.items index ≡ some (some b)
      → 0 < r.slot_size
      → current_slot r ≡ some 0
      → 0 < r.len
      → remove index r ≡ some (recorded r index, some b)
  unfolding remove recorded current_slot
  remove-recorded index b r at h c l = ground arith

  remove-pushed :
      (index s : ℕ) (r : ReuseList A) (item : A)
      → get_elem? r.items index ≡ some (some item)
      → current_slot r ≡ some (suc s)
      → 0 < r.len
      → remove index r ≡ some (pushed r index, some item)
  unfolding remove pushed current_slot
  remove-pushed index s r item at c l = ground arith

  remove_first :
      (index : ℕ) (r : ReuseList A) (item : A)
      → get_elem? r.items index ≡ some (some item)
      → ltb 0 r.slot_size ≡ false
      → 0 < r.len
      → remove index r ≡ some (pushed r index, some item)
  unfolding remove pushed
  remove_first index r item at c l = ground arith

  module _ (index : ℕ) (item : A) (r : ReuseList A) (v : IsValid r)
      (at : get_elem? r.items index ≡ some (some item)) where
    emptied_reads :
        (r' : ReuseList A)
        → r'.items ≡ set r.items index none
        → (get index r' ≡ none) × ((j : ℕ) → index ≢ j → get j r' ≡ get j r)
    emptied_reads r' e = (
      get-some r' index none (
          ap (λ (xs : List (Option A)). get_elem? xs index) e
          ∙ get_elem?-set_self r.items index none
              (get_elem?-lt-length r.items index (some item) at)),
      λ j ne. get_eq r r' j (
          ap (λ (xs : List (Option A)). get_elem? xs j) e
          ∙ get_elem?-set_ne r.items index j none ne),
    )

    as-IsRemoved :
        (r' : ReuseList A)
        → IsValid r'
        → r'.items ≡ set r.items index none
        → IsRemoved index r r' (some item)
    as-IsRemoved r' valid e =
        let (gone, others) = emptied_reads r' e in
        record {
          valid = valid;
          answer = sym (get-some r index (some item) at);
          gone = gone;
          others = others;
        }

    items-recorded : (recorded r index).items ≡ set r.items index none
    unfolding recorded
    items-recorded = refl

    items-pushed : (pushed r index).items ≡ set r.items index none
    unfolding pushed
    items-pushed = refl

    by_pushing : IsRemoved index r (pushed r index) (some item)
    by_pushing = as-IsRemoved (pushed r index) (pushed-IsValid r index item v at) items-pushed

    remove_present :
        (r' : ReuseList A) × (o : Option A) × (remove index r ≡ some (r', o))
        × IsRemoved index r r' o
    remove_present = elim (Bool-cases (ltb 0 r.slot_size)) [
      | inr none_free ↦ (
        pushed r index,
        some item,
        remove_first index r item at none_free (len_pos r index item v at),
        by_pushing,
      )
      | inl some_free ↦ from_slot (current_slot_total r v (ground arith)) (ground arith)
    ]
      where
        from_slot :
            (slot : ℕ) × (get_elem? r.slots (r.last_slot_idx - 1) ≡ some slot)
              × (current_slot r ≡ some slot)
            → 0 < r.slot_size
            → (r' : ReuseList A) × (o : Option A) × (remove index r ≡ some (r', o))
              × IsRemoved index r r' o
        from_slot (zero, e, c) h = (
          recorded r index,
          some item,
          remove-recorded index item r at h c (len_pos r index item v at),
          as-IsRemoved (recorded r index) (recorded-IsValid r index item v at h e) items-recorded,
        )
        from_slot (suc s, e, c) h = (
          pushed r index,
          some item,
          remove-pushed index s r item at c (len_pos r index item v at),
          by_pushing,
        )

  -- On a valid list `remove` never panics, in or out of range; it answers what the index held, the
  -- index then holds nothing, every other index reads as before, and the list is valid.
  pub remove_total :
      (index : ℕ) (r : ReuseList A)
      → IsValid r
      → (r' : ReuseList A) × (o : Option A) × (remove index r ≡ some (r', o))
        × IsRemoved index r r' o
  remove_total index r v = elim (Option-cases (get_elem? r.items index)) [
    | inl out ↦ absent (remove_absent index r (inl out))
    | inr (none, empty) ↦ absent (remove_absent index r (inr empty))
    | inr (some item, at) ↦ remove_present index item r v at
  ]
    where
      absent :
          (remove index r ≡ some (r, none)) × (get index r ≡ none)
          → (r' : ReuseList A) × (o : Option A) × (remove index r ≡ some (r', o))
            × IsRemoved index r r' o
      absent (e, n) =
          (r, none, e, record { valid = v; answer = sym n; gone = n; others = λ j ne. refl })
