-- ===== src/Std/ReuseList/Compact.antt =====
-- `new`, `clear` and `optimize`, and the length.
use ferrijs.Prelude.{
  suc, ◌≡◌, refl, sym, ap, ◌∙◌, List, [], ◌∷◌, Option, none, some, arith, length, nat_eq,
}
use ferrijs.Std.ReuseList.{ReuseList, new, optimize, iter, present, compact}
use ferrijs.Std.ReuseList.Valid.{IsValid}
use ferrijs.Std.ReuseList.Lists.{count_some}

module _ {A : Type 0} where
  count_some-compact : (xs : List (Option A)) → count_some (compact xs) ≡ count_some xs
  unfolding compact
  count_some-compact [] = refl
  count_some-compact (none ∷ xs) = count_some-compact xs
  count_some-compact (some x ∷ xs) = ap suc (count_some-compact xs)

  present-compact : (xs : List (Option A)) → present (compact xs) ≡ present xs
  unfolding present compact
  present-compact [] = refl
  present-compact (none ∷ xs) = present-compact xs
  present-compact (some x ∷ xs) = ap (λ (t : List A). x ∷ t) (present-compact xs)

  -- The length of a valid list is the number of items that are iterated.
  len-eq-iter : (r : ReuseList A) → IsValid r → r.len ≡ length (iter r)
  unfolding iter
  len-eq-iter r v = v.counted ∙ count_present r.items
    where
      count_present : (xs : List (Option A)) → count_some xs ≡ length (present xs)
      count_present [] = refl
      count_present (none ∷ xs) = count_present xs
      count_present (some x ∷ xs) = ap suc (count_present xs)

  -- `optimize` keeps the list valid, the items that are iterated and their order, and the
  -- length, which is the number of those items.
  pub optimize_keeps :
      (r : ReuseList A)
      → IsValid r
      → IsValid (optimize r)
        × (iter (optimize r) ≡ iter r)
        × ((optimize r).len ≡ r.len)
        × (r.len ≡ length (iter r))
  unfolding optimize iter
  optimize_keeps r v = (
    record {
      size = refl;
      bounded = omega arith;
      cursor = λ h. absurd (omega arith);
      free = λ j s h. cc;
      distinct = λ j k s h q. cc;
      counted = v.counted ∙ sym (count_some-compact r.items);
    },
    present-compact r.items,
    refl,
    len-eq-iter r v,
  )

  new-IsValid : IsValid (new {A = A})
  unfolding new
  new-IsValid = record {
    size = refl;
    bounded = omega arith;
    cursor = λ h. absurd (omega arith);
    free = λ j s h. cc;
    distinct = λ j k s h q. cc;
    counted = refl;
  }
