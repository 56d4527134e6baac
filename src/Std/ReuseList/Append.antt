-- ===== src/Std/ReuseList/Append.antt =====
-- What `append` does to a valid list, as a client sees it.
use ferrijs.Prelude.{
  ℕ, zero, suc, ◌+◌, ◌-◌, ◌<◌, ◌≡◌, ◌≢◌, refl, ◌∙◌, true, false, none, some, arith, length,
  get_elem?, inl, inr, Bool-cases, get_elem?-set_self, get_elem?-set_ne, ltb, nat_eq,
}
use ferrijs.Std.ReuseList.{ReuseList, append, get, current_slot, push_item, reuse_slot}
use ferrijs.Std.ReuseList.Valid.{
  IsValid, current_slot_total, push_item-IsValid, reused, reused-IsValid,
}
use ferrijs.Std.ReuseList.Lists.{get_elem?-append_last, get_elem?-lt-length}
use ferrijs.Std.ReuseList.Reads.{
  get_eq, get-some, get_elem?-length, get-none, get_elem?-append_other,
}

module _ {A : Type 0} where
  -- `append` answers an index that held nothing and now holds the item; nothing else moves.
  pub record IsAppended (a : A) (r r' : ReuseList A) (i : ℕ) : Type 0 where
    pub valid : IsValid r'
    pub fresh : get i r ≡ none
    pub stored : get i r' ≡ some a
    pub others : (j : ℕ) → i ≢ j → get j r' ≡ get j r
    pub longer : r'.len ≡ r.len + 1

  push_item-IsAppended :
      (a : A) (r : ReuseList A) → IsValid r → IsAppended a r (push_item a r).0 (push_item a r).1
  push_item-IsAppended a r v =
      let valid = push_item-IsValid a r v in
      unfold push_item in
      record {
        valid = valid;
        fresh = get-none r (length r.items) (get_elem?-length r.items);
        stored = get-some _ (length r.items) (some a) (get_elem?-append_last r.items (some a));
        others = λ j ne. get_eq r _ j (get_elem?-append_other r.items (some a) j ne);
        longer = refl;
      }

  reused-IsAppended :
      (a : A) (r : ReuseList A) (s : ℕ) (v : IsValid r) (h : 0 < r.slot_size)
      (e : get_elem? r.slots (r.last_slot_idx - 1) ≡ some (suc s))
      → IsAppended a r (reused a r s) s
  reused-IsAppended a r s v h e =
      let valid = reused-IsValid a r s v h e in
      let was = v.free (r.last_slot_idx - 1) s e in
      unfold reused in
      record {
        valid = valid;
        fresh = get-some r s none was;
        stored =
            get-some _ s (some a)
              (get_elem?-set_self r.items s (some a) (get_elem?-lt-length r.items s none was));
        others = λ j ne. get_eq r _ j (get_elem?-set_ne r.items s j (some a) ne);
        longer = refl;
      }

  reuse_slot-eq :
      (a : A) (r : ReuseList A) (s : ℕ)
      → s < length r.items
      → reuse_slot a (suc s) r ≡ some (reused a r s, s)
  unfolding reuse_slot reused
  reuse_slot-eq a r s h = let e : suc s - 1 ≡ s = omega arith in ground (arith, e)

  append_push_empty :
      (a : A) (r : ReuseList A) → ltb 0 r.slot_size ≡ false → append a r ≡ some (push_item a r)
  unfolding append
  append_push_empty a r h = ground arith

  append_push_zero :
      (a : A) (r : ReuseList A) → current_slot r ≡ some 0 → append a r ≡ some (push_item a r)
  unfolding append
  append_push_zero a r h = ground arith

  append_reuse :
      (a : A) (r : ReuseList A) (s : ℕ)
      → ltb 0 r.slot_size ≡ true
      → current_slot r ≡ some (suc s)
      → append a r ≡ reuse_slot a (suc s) r
  unfolding append
  append_reuse a r s h e = ground arith

  -- On a valid list `append` never panics; it answers an index that held nothing, the item is
  -- stored there, every other index reads as before, the length grows by 1, and the list is valid.
  pub append_total :
      (a : A) (r : ReuseList A)
      → IsValid r
      → (r' : ReuseList A) × (i : ℕ) × (append a r ≡ some (r', i)) × IsAppended a r r' i
  append_total a r v = elim (Bool-cases (ltb 0 r.slot_size)) [
    | inr none_free ↦ (
      (push_item a r).0,
      (push_item a r).1,
      append_push_empty a r none_free,
      push_item-IsAppended a r v,
    )
    | inl some_free ↦ from_slot (current_slot_total r v (ground arith)) some_free
  ]
    where
      from_slot :
          (slot : ℕ) × (get_elem? r.slots (r.last_slot_idx - 1) ≡ some slot)
            × (current_slot r ≡ some slot)
          → ltb 0 r.slot_size ≡ true
          → (r' : ReuseList A) × (i : ℕ) × (append a r ≡ some (r', i)) × IsAppended a r r' i
      from_slot (zero, e, c) h =
          ((push_item a r).0, (push_item a r).1, append_push_zero a r c, push_item-IsAppended a r v)
      from_slot (suc s, e, c) h = (
        reused a r s,
        s,
        append_reuse a r s h c
            ∙ reuse_slot-eq a r s
                (get_elem?-lt-length r.items s none (v.free (r.last_slot_idx - 1) s e)),
        reused-IsAppended a r s v (ground arith) e,
      )
