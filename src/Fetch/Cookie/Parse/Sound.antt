-- ===== src/Fetch/Cookie/Parse/Sound.antt =====
-- What the cookies that are parsed out of a response satisfy.
use ferrijs.Prelude.{
  ◌≡◌, ◌⊎◌, inl, inr, refl, sym, subst, true, false, List, [], ◌∷◌, Option, none, some, arith,
  list_eq, nat_eq, ◌==◌, list_beq_iff, is_empty, All, Bool-cases, Option-cases,
}
use ferrijs.Text.{Text, text, starts_with, contains_char, to_ascii_lowercase}
use ferrijs.Fetch.Cookie.{Cookie, Url, Seconds, or_empty, cookie_domain_matches}
use ferrijs.Fetch.Cookie.Parse.{
  pairs, domain_attr, attribute, attributes, bare_cookie, parse_raw_set_cookie, default_path,
  accept, headers_loop, parse_set_cookie_headers,
}

-- A domain as it is stored: none, with a dot in front, or without any dot.
pub IsDomain : Text → Type 0
IsDomain d =
    (is_empty d ≡ true) ⊎ (starts_with d (text ".") ≡ true) ⊎ (contains_char d b'.' ≡ false)

domain_attr-IsDomain : (v : Text) → IsDomain (domain_attr v)
unfolding domain_attr IsDomain starts_with
domain_attr-IsDomain v = elim (Bool-cases (is_empty (to_ascii_lowercase v))) [
  | inl e ↦ inl (ground arith)
  | inr e ↦ elim (Bool-cases (starts_with (to_ascii_lowercase v) (text "."))) [
    | inl s ↦ inr (inl (ground arith))
    | inr s ↦ elim (Bool-cases (contains_char (to_ascii_lowercase v) b'.')) [
      | inl c ↦ inr (inl (ground arith))
      | inr c ↦ inr (inr (ground arith))
    ]
  ]
]

module _ {F : Type 0} (f : Seconds F) (now : F) where
  domain-attribute :
      (attr v : Text) (c : Cookie F)
      → ((attribute f now attr v c).domain ≡ c.domain)
        ⊎ ((attribute f now attr v c).domain ≡ domain_attr v)
  unfolding attribute
  domain-attribute attr v c = elim (Bool-cases (to_ascii_lowercase attr == text "domain")) [
    | inl e ↦ inr (ground (arith, list_beq_iff (to_ascii_lowercase attr) (text "domain")))
    | inr e ↦ inl (ground arith)
  ]

  attributes-IsDomain :
      (attrs : List (Text × Text)) (c : Cookie F)
      → IsDomain c.domain
      → IsDomain (attributes f now attrs c).domain
  unfolding attributes
  attributes-IsDomain [] c h = h
  attributes-IsDomain ((attr, v) ∷ attrs) c h =
      attributes-IsDomain attrs (attribute f now attr v c) (elim (domain-attribute attr v c) [
        | inl e ↦ subst IsDomain (sym e) h
        | inr e ↦ subst IsDomain (sym e) (domain_attr-IsDomain v)
      ])

  -- The domain of a parsed header, whatever attributes it has and however often, is empty, begins
  -- with a dot, or holds no dot.
  pub parse_raw_set_cookie-IsDomain :
      (header : Text) (c : Cookie F)
      → parse_raw_set_cookie f now header ≡ some c
      → IsDomain c.domain
  unfolding parse_raw_set_cookie bare_cookie IsDomain
  parse_raw_set_cookie-IsDomain header c h = from (pairs header) h
    where
      from :
          (ps : List (Text × Text))
          → ◌≡◌ {A = Option (Cookie F)}
              (elim ps [
                | [] ↦ none
                | (name, value) ∷ attrs ↦ some (attributes f now attrs (bare_cookie name value))
              ])
              (some c)
          → IsDomain c.domain
      from [] e = cc
      from ((name, value) ∷ attrs) e =
          let same : attributes f now attrs (bare_cookie name value) ≡ c = ground arith in
          subst (λ (o : Cookie F). IsDomain o.domain) same
            (attributes-IsDomain attrs (bare_cookie name value) (inl refl))

  -- A cookie that is kept belongs to the host and has an absolute path.
  pub IsKept : Text → Cookie F → Type 0
  IsKept host c =
      (cookie_domain_matches host c.domain ≡ true) × (starts_with c.path (text "/") ≡ true)

  accept-IsKept :
      (host default : Text) (c k : Cookie F)
      → starts_with default (text "/") ≡ true
      → accept host default c ≡ some k
      → IsKept host k
  unfolding accept IsKept
  accept-IsKept host default c k d h = ground arith

  headers_loop-dropped :
      (host default raw : Text) (values : List (Option Text))
      → (c : Option (Cookie F)) × (parse_raw_set_cookie f now raw ≡ c)
        × ((k : Cookie F) → c ≡ some k → accept host default k ≡ none)
      → headers_loop f now host default (some raw ∷ values) ≡ headers_loop f now host default values
  unfolding headers_loop
  headers_loop-dropped host default raw values (none, e, n) = ground arith
  headers_loop-dropped host default raw values (some c, e, n) = ground (arith, n c refl)

  headers_loop-kept :
      (host default raw : Text) (values : List (Option Text)) (c k : Cookie F)
      → parse_raw_set_cookie f now raw ≡ some c
      → accept host default c ≡ some k
      → headers_loop f now host default (some raw ∷ values)
        ≡ k ∷ headers_loop f now host default values
  unfolding headers_loop
  headers_loop-kept host default raw values c k e a = ground arith

  headers_loop-IsKept :
      (host default : Text) (values : List (Option Text))
      → starts_with default (text "/") ≡ true
      → All (IsKept host) (headers_loop f now host default values)
  unfolding headers_loop
  headers_loop-IsKept host default [] d = tt
  headers_loop-IsKept host default (none ∷ values) d = headers_loop-IsKept host default values d
  headers_loop-IsKept host default (some raw ∷ values) d =
      let rest = headers_loop-IsKept host default values d in
      elim (Option-cases (parse_raw_set_cookie f now raw)) [
        | inl e ↦
            subst (All (IsKept host))
              (sym (headers_loop-dropped host default raw values (none, e, λ k i. cc))) rest
        | inr (c, e) ↦ elim (Option-cases (accept host default c)) [
          | inl n ↦
              subst (All (IsKept host))
                (sym
                  (headers_loop-dropped host default raw values (some c, e, λ k i. ground arith)))
                rest
          | inr (k, a) ↦
              subst (All (IsKept host)) (sym (headers_loop-kept host default raw values c k e a))
                (accept-IsKept host default c k d a, rest)
        ]
      ]

  -- Every cookie that is taken from the headers of a response has a domain that covers the host of
  -- the response and a path that begins with a slash, whatever the headers say.
  pub parse_set_cookie_headers-IsKept :
      (url : Url) (values : List (Option Text))
      → All
          (λ c.
            (cookie_domain_matches (or_empty url.host_str) c.domain ≡ true)
            × (starts_with c.path (text "/") ≡ true))
          (parse_set_cookie_headers f now url values)
  unfolding parse_set_cookie_headers IsKept default_path starts_with
  parse_set_cookie_headers-IsKept url values =
      headers_loop-IsKept (or_empty url.host_str) (default_path url.path) values refl
