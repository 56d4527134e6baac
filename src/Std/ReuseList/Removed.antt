-- ===== src/Std/ReuseList/Removed.antt =====
-- The two ways in which `remove` records a slot keep the invariant.
use native.Mathlib.Decide.{ℕ_discrete}
use ferrijs.Prelude.{
  ℕ, suc, ◌+◌, ◌-◌, ◌<◌, ◌≡◌, ◌≢◌, sym, ap, ◌∙◌, subst, [], ◌∷◌, ◌++◌, Option, none, some, arith,
  length, get_elem?, set, ◌⊎◌, inl, inr, get_elem?-set_self, get_elem?-set_ne, length-set,
  length-append,
}
use ferrijs.Std.ReuseList.{ReuseList}
use ferrijs.Std.ReuseList.Valid.{IsValid}
use ferrijs.Std.ReuseList.Lists.{get_elem?-append_inv, get_elem?-lt-length, count_some-set-none}

some-suc : (a b : ℕ) → ◌≡◌ {A = Option ℕ} (some (a + 1)) (some (suc b)) → a ≡ b
some-suc a b e = ground arith

-- The list without the item, its slot in the current cell.
unfoldable pub recorded : {A : Type 0} → ReuseList A → ℕ → ReuseList A
recorded r index = record r {
  items = set r.items index none;
  slots = set r.slots (r.last_slot_idx - 1) (index + 1);
  len = r.len - 1;
}

-- The list without the item, its slot in a new cell behind the others.
unfoldable pub pushed : {A : Type 0} → ReuseList A → ℕ → ReuseList A
pushed r index = record r {
  items = set r.items index none;
  slots = r.slots ++ (index + 1) ∷ [];
  last_slot_idx = r.last_slot_idx + 1;
  slot_size = r.slot_size + 1;
  len = r.len - 1;
}

module _ {A : Type 0} (r : ReuseList A) (index : ℕ) (b : A) (v : IsValid r)
    (at : get_elem? r.items index ≡ some (some b)) where
  -- An item that is present is not recorded as free.
  not_free : (k t : ℕ) → get_elem? r.slots k ≡ some (suc t) → index ≢ t
  not_free k t q same = cc (v.free k t q, ap (get_elem? r.items) same, at)

  emptied :
      (t : ℕ) → get_elem? r.items t ≡ some none → get_elem? (set r.items index none) t ≡ some none
  emptied t q = elim (ℕ_discrete index t) [
    | yes same ↦
        subst (λ x. get_elem? (set r.items index none) x ≡ some none) same
          (get_elem?-set_self r.items index none (get_elem?-lt-length r.items index (some b) at))
    | no ne ↦ get_elem?-set_ne r.items index t none ne ∙ q
  ]

  emptied_self : get_elem? (set r.items index none) index ≡ some none
  emptied_self =
      get_elem?-set_self r.items index none (get_elem?-lt-length r.items index (some b) at)

  pub recorded-IsValid :
      0 < r.slot_size
      → get_elem? r.slots (r.last_slot_idx - 1) ≡ some 0
      → IsValid (recorded r index)
  unfolding recorded
  recorded-IsValid h e =
      let cell = r.last_slot_idx - 1 in
      let room = get_elem?-lt-length r.slots cell 0 e in
      let read = λ (k t : ℕ) (q : get_elem? (set r.slots cell (index + 1)) k ≡ some (suc t)).
        recorded_cell k t q room in
      record {
        size = omega (arith, v.size, length-set {0} r.slots cell (index + 1));
        bounded = v.bounded;
        cursor = v.cursor;
        free = λ k t q. elim (read k t q) [
          | inl (same, is) ↦
              subst (λ x. get_elem? (set r.items index none) x ≡ some none) is emptied_self
          | inr (ne, old) ↦ emptied t (v.free k t old)
        ];
        distinct = λ j k t p q. elim (read j t p) [
          | inl (same, is) ↦ elim (read k t q) [
            | inl (same', is') ↦ sym same ∙ same'
            | inr (ne', old') ↦ absurd (not_free k t old' is)
          ]
          | inr (ne, old) ↦ elim (read k t q) [
            | inl (same', is') ↦ absurd (not_free j t old is')
            | inr (ne', old') ↦ v.distinct j k t old old'
          ]
        ];
        counted = omega (arith, v.counted, count_some-set-none r.items index b at);
      }
    where
      recorded_cell :
          (k t : ℕ)
          → get_elem? (set r.slots (r.last_slot_idx - 1) (index + 1)) k ≡ some (suc t)
          → r.last_slot_idx - 1 < length r.slots
          → ((r.last_slot_idx - 1 ≡ k) × (index ≡ t))
            ⊎ ((r.last_slot_idx - 1 ≢ k) × (get_elem? r.slots k ≡ some (suc t)))
      recorded_cell k t q room = elim (ℕ_discrete (r.last_slot_idx - 1) k) [
        | yes same ↦ inl (
          same,
          some-suc index t (
              sym (get_elem?-set_self r.slots (r.last_slot_idx - 1) (index + 1) room)
              ∙ (ap (get_elem? (set r.slots (r.last_slot_idx - 1) (index + 1))) same ∙ q)),
        )
        | no ne ↦
            inr (ne, sym (get_elem?-set_ne r.slots (r.last_slot_idx - 1) k (index + 1) ne) ∙ q)
      ]

  pushed_cell :
      (k t : ℕ)
      → get_elem? (r.slots ++ (index + 1) ∷ []) k ≡ some (suc t)
      → (get_elem? r.slots k ≡ some (suc t)) ⊎ ((k ≡ length r.slots) × (index ≡ t))
  pushed_cell k t q = elim (get_elem?-append_inv r.slots (index + 1) (suc t) k q) [
    | inl old ↦ inl old
    | inr (last, same) ↦ inr (last, omega arith)
  ]

  pub pushed-IsValid : IsValid (pushed r index)
  unfolding pushed
  pushed-IsValid = record {
    size = omega (arith, v.size, length-append {0} r.slots ((index + 1) ∷ []));
    bounded = omega (arith, v.bounded);
    cursor = λ p. omega arith;
    free = λ k t q. elim (pushed_cell k t q) [
      | inl old ↦ emptied t (v.free k t old)
      | inr (last, is) ↦
          subst (λ x. get_elem? (set r.items index none) x ≡ some none) is emptied_self
    ];
    distinct = λ j k t p q. elim (pushed_cell j t p) [
      | inl old ↦ elim (pushed_cell k t q) [
        | inl old' ↦ v.distinct j k t old old'
        | inr (last', is') ↦ absurd (not_free j t old is')
      ]
      | inr (last, is) ↦ elim (pushed_cell k t q) [
        | inl old' ↦ absurd (not_free k t old' is)
        | inr (last', is') ↦ last ∙ sym last'
      ]
    ];
    counted = omega (arith, v.counted, count_some-set-none r.items index b at);
  }
