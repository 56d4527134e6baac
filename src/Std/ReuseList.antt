-- ===== src/Std/ReuseList.antt =====
-- crates/ferrijs-std/src/utils/reuse_list.rs: a list that reuses the slots of removed items. An
-- operation that indexes a vector answers `none` where Rust would panic.
pub mod Lists
pub mod Valid
pub mod Removed
pub mod Reads
pub mod Append
pub mod Remove
pub mod Compact
use ferrijs.Prelude.{
  ℕ, zero, suc, ◌+◌, ◌-◌, Bool, true, false, ◌&&◌, List, [], ◌∷◌, ◌++◌, Option, none, some,
  if◌then◌else◌, ltb, leb, length, get_elem?, set, ◌==◌, nat_eq,
}

pub record ReuseList (A : Type 0) : Type 0 where
  pub items : List (Option A)
  pub slots : List ℕ
  pub last_slot_idx : ℕ
  pub len : ℕ
  pub slot_size : ℕ

-- `slots[last - 1]`: the subtraction panics at 0.
unfoldable pub slot_at : List ℕ → ℕ → Option ℕ
slot_at slots zero = none
slot_at slots (suc i) = get_elem? slots i

module _ {A : Type 0} where
  -- `new`, `with_capacity`: capacities are not modelled.
  unfoldable pub new : ReuseList A
  new = record { items = []; slots = []; last_slot_idx = 0; len = 0; slot_size = 0 }

  unfoldable pub is_empty : ReuseList A → Bool
  is_empty r = r.len == 0

  -- `self.slots[self.last_slot_idx - 1]`
  unfoldable pub current_slot : ReuseList A → Option ℕ
  unfolding slot_at
  current_slot r = slot_at r.slots r.last_slot_idx

  -- The end of `append`: no valid empty slot.
  unfoldable pub push_item : A → ReuseList A → ReuseList A × ℕ
  push_item item r =
      (record r { items = r.items ++ some item ∷ []; len = r.len + 1 }, length r.items)

  -- The reuse of the slot `slot`, which is 1 more than an index.
  unfoldable pub reuse_slot : A → ℕ → ReuseList A → Option (ReuseList A × ℕ)
  reuse_slot item slot r =
      if ltb (slot - 1) (length r.items)
      then some (
        record r {
          items = set r.items (slot - 1) (some item);
          slots = set r.slots (r.last_slot_idx - 1) 0;
          last_slot_idx = if ltb 1 r.last_slot_idx then r.last_slot_idx - 1 else r.last_slot_idx;
          len = r.len + 1;
        },
        slot - 1,
      )
      else none

  unfoldable pub append : A → ReuseList A → Option (ReuseList A × ℕ)
  unfolding current_slot push_item reuse_slot
  append item r =
      if ltb 0 r.slot_size
      then elim (current_slot r) [
        | none ↦ none
        | some slot ↦ if ltb 0 slot then reuse_slot item slot r else some (push_item item r)
      ]
      else some (push_item item r)

  -- The list with the item at `index` taken out and its slot recorded.
  unfoldable pub record_slot : ℕ → ReuseList A → Option (ReuseList A)
  unfolding current_slot
  record_slot index r =
      let pushed : ReuseList A = record r {
        slots = r.slots ++ (index + 1) ∷ [];
        last_slot_idx = r.last_slot_idx + 1;
        slot_size = r.slot_size + 1;
      } in
      if ltb 0 r.slot_size
      then elim (current_slot r) [
        | none ↦ none
        | some slot ↦
            if slot == 0
            then some (record r { slots = set r.slots (r.last_slot_idx - 1) (index + 1) })
            else some pushed
      ]
      else some pushed

  unfoldable pub remove : ℕ → ReuseList A → Option (ReuseList A × Option A)
  unfolding record_slot
  remove index r = elim (get_elem? r.items index) [
    | none ↦ some (r, none)
    | some none ↦ some (r, none)
    | some (some item) ↦ elim (record_slot index (record r { items = set r.items index none })) [
      | none ↦ none
      | some r' ↦ if ltb 0 r'.len then some (record r' { len = r'.len - 1 }, some item) else none
    ]
  ]

  unfoldable pub get : ℕ → ReuseList A → Option A
  get index r = elim (get_elem? r.items index) [ none ↦ none | some item ↦ item ]

  -- `iter`, as the list of what it yields.
  unfoldable pub present : List (Option A) → List A
  present [] = []
  present (none ∷ items) = present items
  present (some item ∷ items) = item ∷ present items

  unfoldable pub iter : ReuseList A → List A
  unfolding present
  iter r = present r.items

  unfoldable pub clear : ReuseList A → ReuseList A
  clear r = record { items = []; slots = []; last_slot_idx = 0; len = 0; slot_size = 0 }

  -- The loop of `optimize`.
  unfoldable pub compact : List (Option A) → List (Option A)
  compact [] = []
  compact (none ∷ items) = compact items
  compact (some item ∷ items) = some item ∷ compact items

  unfoldable pub optimize : ReuseList A → ReuseList A
  unfolding compact
  optimize r = record r { items = compact r.items; slots = []; last_slot_idx = 0; slot_size = 0 }
