-- ===== src/Std/ReuseList/Valid.antt =====
-- The invariant, and that every operation keeps it and never panics under it.
use native.Mathlib.Decide.{ℕ_discrete}
use ferrijs.Prelude.{
  ℕ, zero, suc, ◌+◌, ◌-◌, ◌<◌, ◌≤◌, ◌≡◌, ◌≢◌, sym, ap, ◌∙◌, List, [], ◌∷◌, none, some, arith,
  length, get_elem?, set, get_elem?-set_self, get_elem?-set_ne, length-set, ltb, if◌then◌else◌,
}
use ferrijs.Std.ReuseList.{ReuseList, slot_at, current_slot, push_item}
use ferrijs.Std.ReuseList.Lists.{
  get_elem?-append_left, get_elem?-lt-length, get_elem?_of_lt, count_some, count_some-append-some,
  count_some-set-some,
}

slot_at-eq-get_elem? : (xs : List ℕ) (n : ℕ) → 0 < n → slot_at xs n ≡ get_elem? xs (n - 1)
unfolding slot_at
slot_at-eq-get_elem? xs zero h = absurd (omega arith)
slot_at-eq-get_elem? xs (suc i) h = ap (get_elem? xs) (omega arith)

module _ {A : Type 0} where
  -- The slots that hold no 0 are, each once, 1 more than the index of an item that was removed.
  pub record IsValid (r : ReuseList A) : Type 0 where
    pub size : r.slot_size ≡ length r.slots
    pub bounded : r.last_slot_idx ≤ r.slot_size
    pub cursor : 0 < r.slot_size → 0 < r.last_slot_idx
    pub free : (j s : ℕ) → get_elem? r.slots j ≡ some (suc s) → get_elem? r.items s ≡ some none
    pub distinct :
        (j k s : ℕ)
        → get_elem? r.slots j ≡ some (suc s)
        → get_elem? r.slots k ≡ some (suc s)
        → j ≡ k
    pub counted : r.len ≡ count_some r.items

  -- Under the invariant the current slot is in bounds.
  pub current_slot_total :
      (r : ReuseList A)
      → IsValid r
      → 0 < r.slot_size
      → (slot : ℕ) × (get_elem? r.slots (r.last_slot_idx - 1) ≡ some slot)
        × (current_slot r ≡ some slot)
  unfolding current_slot
  current_slot_total r v h =
      let c = v.cursor h in
      let (slot, e) =
        get_elem?_of_lt r.slots (r.last_slot_idx - 1) (omega (arith, v.size, v.bounded)) in
      (slot, e, slot_at-eq-get_elem? r.slots r.last_slot_idx c ∙ e)

  pub push_item-IsValid : (a : A) (r : ReuseList A) → IsValid r → IsValid (push_item a r).0
  unfolding push_item
  push_item-IsValid a r v = record {
    size = v.size;
    bounded = v.bounded;
    cursor = v.cursor;
    free = λ j s h. get_elem?-append_left r.items (some a ∷ []) s none (v.free j s h);
    distinct = v.distinct;
    counted = omega (arith, v.counted, count_some-append-some r.items a);
  }

  -- The list after `append` took the slot `s + 1`.
  unfoldable pub reused : A → ReuseList A → ℕ → ReuseList A
  reused a r s = record r {
    items = set r.items s (some a);
    slots = set r.slots (r.last_slot_idx - 1) 0;
    last_slot_idx = if ltb 1 r.last_slot_idx then r.last_slot_idx - 1 else r.last_slot_idx;
    len = r.len + 1;
  }

  -- `append` as it takes the slot `suc s` at the cell `j`.
  module _ (a : A) (r : ReuseList A) (s : ℕ) (v : IsValid r) (h : 0 < r.slot_size)
      (e : get_elem? r.slots (r.last_slot_idx - 1) ≡ some (suc s)) where
    reused-cell :
        (k t : ℕ)
        → get_elem? (set r.slots (r.last_slot_idx - 1) 0) k ≡ some (suc t)
        → (r.last_slot_idx - 1 ≢ k) × (get_elem? r.slots k ≡ some (suc t))
    reused-cell k t q = elim (ℕ_discrete (r.last_slot_idx - 1) k) [
      | yes same ↦ absurd (
          cc (
            sym (
              get_elem?-set_self r.slots (r.last_slot_idx - 1) 0
                (get_elem?-lt-length r.slots (r.last_slot_idx - 1) (suc s) e))
            ∙ (ap (get_elem? (set r.slots (r.last_slot_idx - 1) 0)) same ∙ q)))
      | no ne ↦ (ne, sym (get_elem?-set_ne r.slots (r.last_slot_idx - 1) k 0 ne) ∙ q)
    ]

    pub reused-IsValid : IsValid (reused a r s)
    unfolding reused
    reused-IsValid =
        let c = v.cursor h in
        record {
          size = omega (arith, v.size, length-set {0} r.slots (r.last_slot_idx - 1) 0);
          bounded = ground (arith, v.bounded);
          cursor = λ p. ground arith;
          free = λ k t q.
              let (ne, old) = reused-cell k t q in
              get_elem?-set_ne r.items s t (some a)
                (λ same. ne (v.distinct _ k t (e ∙ ap (λ (x : ℕ). some (suc x)) same) old))
              ∙ v.free k t old;
          distinct = λ j k t p q. v.distinct j k t (reused-cell j t p).1 (reused-cell k t q).1;
          counted = omega (arith, v.counted, count_some-set-some r.items s a (v.free _ s e));
        }
