-- ===== src/Fetch/Cookie/Jar.antt =====
-- What the jar holds after `add`, `all` and `remove`.
use mathlib.Core.List.{append-nil}
use ferrijs.Prelude.{
  ◌≡◌, inl, inr, refl, ap, ◌∙◌, Bool, true, false, not, List, [], ◌∷◌, ◌++◌, arith, list_eq, nat_eq,
  list_beq_iff, if◌then◌else◌, Bool-cases, retain, any, any-append, any-retain_le, All,
  All-retain_self,
}
use ferrijs.Fetch.Cookie.{Cookie, Seconds, expired, same_cookie, add_loop, add, all, remove}

module _ {F : Type 0} where
  same_cookie_comm : (a b : Cookie F) → same_cookie a b ≡ same_cookie b a
  unfolding same_cookie
  same_cookie_comm a b = ground (
    arith,
    list_beq_iff a.name b.name,
    list_beq_iff b.name a.name,
    list_beq_iff a.domain b.domain,
    list_beq_iff b.domain a.domain,
    list_beq_iff a.path b.path,
    list_beq_iff b.path a.path,
  )

  same_cookie_refl : (a : Cookie F) → same_cookie a a ≡ true
  unfolding same_cookie
  same_cookie_refl a = ground (
    arith,
    list_beq_iff a.name a.name,
    list_beq_iff a.domain a.domain,
    list_beq_iff a.path a.path,
  )

  same_cookie_trans :
      (a b c : Cookie F) → same_cookie a b ≡ true → same_cookie b c ≡ true → same_cookie a c ≡ true
  unfolding same_cookie
  same_cookie_trans a b c h k = ground (
    arith,
    list_beq_iff a.name b.name,
    list_beq_iff b.name c.name,
    list_beq_iff a.name c.name,
    list_beq_iff a.domain b.domain,
    list_beq_iff b.domain c.domain,
    list_beq_iff a.domain c.domain,
    list_beq_iff a.path b.path,
    list_beq_iff b.path c.path,
    list_beq_iff a.path c.path,
  )

  -- No two cookies of the jar have the same name, domain and path.
  unfoldable pub IsJar : List (Cookie F) → Type 0
  IsJar [] = Unit
  IsJar (c ∷ cs) = (any (same_cookie c) cs ≡ false) × IsJar cs

  any-retain_none :
      (p q : Cookie F → Bool) (cs : List (Cookie F))
      → any p cs ≡ false
      → any p (retain q cs) ≡ false
  any-retain_none p q cs h = ground (arith, any-retain_le p q cs)

  IsJar-retain : (q : Cookie F → Bool) (cs : List (Cookie F)) → IsJar cs → IsJar (retain q cs)
  unfolding IsJar
  IsJar-retain q [] h = tt
  IsJar-retain q (c ∷ cs) h = elim (Bool-cases (q c)) [
    | inl e ↦ rw e (any-retain_none (same_cookie c) q cs h.0, IsJar-retain q cs h.1)
    | inr e ↦ rw e (IsJar-retain q cs h.1)
  ]

  IsJar-append_one :
      (cs : List (Cookie F)) (c : Cookie F)
      → IsJar cs
      → All (λ o. not (same_cookie o c) ≡ true) cs
      → IsJar (cs ++ c ∷ [])
  unfolding IsJar
  IsJar-append_one [] c h a = (refl, tt)
  IsJar-append_one (o ∷ cs) c h a = (
    ground (arith, any-append (same_cookie o) cs (c ∷ []), h.0, a.0),
    IsJar-append_one cs c h.1 a.1,
  )

  IsJar-add_loop :
      (cookies stored : List (Cookie F)) → IsJar stored → IsJar (add_loop cookies stored)
  unfolding add_loop
  IsJar-add_loop [] stored h = h
  IsJar-add_loop (c ∷ cookies) stored h =
      let kept = retain (λ o. not (same_cookie o c)) stored in
      IsJar-add_loop cookies (kept ++ c ∷ []) (
        IsJar-append_one kept c (IsJar-retain _ stored h)
          (All-retain_self (λ o. not (same_cookie o c)) stored))

module _ {F : Type 0} (f : Seconds F) (now : F) where
  -- Whatever is added, read or removed, the jar never holds two cookies of the same name, domain
  -- and path; after an addition or a reading it holds no expired one.
  pub add-IsJar :
      (cookies stored : List (Cookie F)) (matches : Cookie F → Bool)
      → IsJar stored
      → (IsJar (add f now cookies stored)
          × All (λ c. not (expired f now c) ≡ true) (add f now cookies stored))
        × (IsJar (all f now stored) × All (λ c. not (expired f now c) ≡ true) (all f now stored))
        × IsJar (remove f now matches stored)
  unfolding add all remove
  add-IsJar cookies stored matches h = (
    (
      IsJar-retain _ (add_loop cookies stored) (IsJar-add_loop cookies stored h),
      All-retain_self (λ c. not (expired f now c)) (add_loop cookies stored),
    ),
    (IsJar-retain _ stored h, All-retain_self (λ c. not (expired f now c)) stored),
    IsJar-retain _ stored h,
  )

module _ {F : Type 0} where
  retain-append :
      (p : Cookie F → Bool) (xs ys : List (Cookie F))
      → retain p (xs ++ ys) ≡ retain p xs ++ retain p ys
  retain-append p [] ys = refl
  retain-append p (x ∷ xs) ys = ground (arith, retain-append p xs ys)

  -- Two passes, the first of which drops all that the second keeps.
  retain-retain_none :
      (p q : Cookie F → Bool) (xs : List (Cookie F))
      → ((x : Cookie F) → p x ≡ true → q x ≡ false)
      → retain p (retain q xs) ≡ []
  retain-retain_none p q [] h = refl
  retain-retain_none p q (x ∷ xs) h = ground (arith, h x, retain-retain_none p q xs h)

  -- Two passes, the first of which drops nothing that the second keeps.
  retain-retain_all :
      (p q : Cookie F → Bool) (xs : List (Cookie F))
      → ((x : Cookie F) → p x ≡ true → q x ≡ true)
      → retain p (retain q xs) ≡ retain p xs
  retain-retain_all p q [] h = refl
  retain-retain_all p q (x ∷ xs) h = ground (arith, h x, retain-retain_all p q xs h)

  retain_comm :
      (p q : Cookie F → Bool) (xs : List (Cookie F))
      → retain p (retain q xs) ≡ retain q (retain p xs)
  retain_comm p q [] = refl
  retain_comm p q (x ∷ xs) = ground (arith, retain_comm p q xs)

module _ {F : Type 0} (f : Seconds F) (now : F) where
  -- After a cookie is added, it is the one cookie of its name, domain and path, or there is none if
  -- it has expired.
  pub add_self :
      (c : Cookie F) (stored : List (Cookie F))
      → retain (λ o. same_cookie o c) (add f now (c ∷ []) stored)
        ≡ (if expired f now c then [] else c ∷ [])
  unfolding add add_loop
  add_self c stored =
      retain_comm (λ o. same_cookie o c) (λ o. not (expired f now o)) _
      ∙ ap (retain (λ o. not (expired f now o))) (
          retain-append (λ o. same_cookie o c) (retain (λ o. not (same_cookie o c)) stored)
            (c ∷ []))
      ∙ ground (
        arith,
        retain-retain_none (λ o. same_cookie o c) (λ o. not (same_cookie o c)) stored
            (λ x e. ground arith),
        same_cookie_refl c,
      )

  -- Adding a cookie leaves the cookies of every other name, domain and path as a reading at that
  -- time shows them.
  pub add_ne :
      (c d : Cookie F) (stored : List (Cookie F))
      → same_cookie c d ≡ false
      → retain (λ o. same_cookie o d) (add f now (c ∷ []) stored)
        ≡ retain (λ o. same_cookie o d) (all f now stored)
  unfolding add add_loop all
  add_ne c d stored n =
      retain_comm (λ o. same_cookie o d) (λ o. not (expired f now o)) _
      ∙ ap (retain (λ o. not (expired f now o))) (
          retain-append (λ o. same_cookie o d) (retain (λ o. not (same_cookie o c)) stored) (c ∷ [])
          ∙ ground (
            arith,
            append-nil (retain (λ o. same_cookie o d) stored),
            retain-retain_all (λ o. same_cookie o d) (λ o. not (same_cookie o c)) stored
                (λ x e. ground (arith, same_cookie_comm x c, same_cookie_trans c x d)),
          ))
      ∙ retain_comm (λ o. not (expired f now o)) (λ o. same_cookie o d) stored
