-- ===== src/Fetch/Cookie/Matching.antt =====
-- Which requests a cookie goes with: the domain, the path and the rest of `cookie_matches_url`.
use mathlib.Core.List.{append-nil}
use ferrijs.Prelude.{
  ◌≡◌, ◌↔◌, ◌⊎◌, inl, inr, sym, ap, ◌∙◌, true, false, [], ◌∷◌, ◌++◌, arith, ◌==◌, list_eq, nat_eq,
  list_beq_iff, Bool-cases,
}
use ferrijs.Text.{Text, text, starts_with, ends_with}
use ferrijs.Text.Affix.{starts_with_sound, starts_with-append, ends_with_sound, ends_with-append}
use ferrijs.Fetch.Cookie.{
  Cookie, Url, Seconds, or_empty, is_local_hostname, cookie_domain_matches, cookie_path_matches,
  with_slash, expired, cookie_matches_url,
}

-- A suffix that begins with a dot, of a text with a dot before it.
dotted_sound :
    (h d : Text)
    → (p : Text) × (b'.' ∷ h ≡ p ++ b'.' ∷ d)
    → (h ≡ d) ⊎ ((p : Text) × (h ≡ p ++ b'.' ∷ d))
dotted_sound h d ([], e) = inl (ground arith)
dotted_sound h d (c ∷ p, e) = inr (p, ground arith)

cookie_domain_matches_sound :
    (h d : Text)
    → cookie_domain_matches h (b'.' ∷ d) ≡ true
    → (h ≡ d) ⊎ ((p : Text) × (h ≡ p ++ b'.' ∷ d))
unfolding cookie_domain_matches starts_with
cookie_domain_matches_sound h d m = elim (Bool-cases (h == b'.' ∷ d)) [
  | inl e ↦ inr ([], (list_beq_iff h (b'.' ∷ d)).0 e)
  | inr e ↦ dotted_sound h d (ends_with_sound (b'.' ∷ h) (b'.' ∷ d) (ground arith))
]

cookie_domain_matches_complete :
    (h d p : Text) → b'.' ∷ h ≡ p ++ b'.' ∷ d → cookie_domain_matches h (b'.' ∷ d) ≡ true
unfolding cookie_domain_matches starts_with
cookie_domain_matches_complete h d p e =
    let k : ends_with (b'.' ∷ h) (b'.' ∷ d) ≡ true =
      ap (λ (t : Text). ends_with t (b'.' ∷ d)) e ∙ ends_with-append p (b'.' ∷ d) in
    ground arith

-- A cookie of the domain `.d` goes to the host `d` and to the hosts that end in `.d`, and to no
-- other: a host that ends in `d` within a label is refused.
pub cookie_domain_matches_iff :
    (h d : Text)
    → (cookie_domain_matches h (b'.' ∷ d) ≡ true) ↔ ((h ≡ d) ⊎ ((p : Text) × (h ≡ p ++ b'.' ∷ d)))
cookie_domain_matches_iff h d = (
  cookie_domain_matches_sound h d,
  λ x. elim x [
    | inl e ↦ cookie_domain_matches_complete h d [] (ap (λ (t : Text). b'.' ∷ t) e)
    | inr (p, e) ↦ cookie_domain_matches_complete h d (b'.' ∷ p) (ap (λ (t : Text). b'.' ∷ t) e)
  ],
)

-- A cookie whose domain does not begin with a dot goes to that host only.
cookie_domain_matches-exact :
    (h d : Text) → starts_with d (text ".") ≡ false → (cookie_domain_matches h d ≡ true) ↔ (h ≡ d)
unfolding cookie_domain_matches
cookie_domain_matches-exact h d n = ground (arith, list_beq_iff h d)

-- A request path lies under a cookie path.
pub PathUnder : Text → Text → Type 0
PathUnder r q = (rest : Text) × (with_slash r ≡ with_slash q ++ rest)

path_matches_sound : (r q : Text) → cookie_path_matches r q ≡ true → PathUnder r q
unfolding cookie_path_matches PathUnder
path_matches_sound r q h = elim (Bool-cases (r == q)) [
  | inl e ↦ ([], ap with_slash ((list_beq_iff r q).0 e) ∙ sym (append-nil (with_slash q)))
  | inr e ↦ starts_with_sound (with_slash r) (with_slash q) (ground arith)
]

path_matches_complete : (r q : Text) → PathUnder r q → cookie_path_matches r q ≡ true
unfolding cookie_path_matches PathUnder
path_matches_complete r q (rest, e) =
    let k : starts_with (with_slash r) (with_slash q) ≡ true =
      ap (λ (t : Text). starts_with t (with_slash q)) e ∙ starts_with-append (with_slash q) rest in
    ground arith

-- The path of a cookie covers exactly the paths that continue it after a slash, whether or not
-- either of them ends in one.
pub cookie_path_matches_iff :
    (r q : Text)
    → (cookie_path_matches r q ≡ true) ↔ ((rest : Text) × (with_slash r ≡ with_slash q ++ rest))
unfolding PathUnder
cookie_path_matches_iff r q = (path_matches_sound r q, path_matches_complete r q)

-- What a cookie that is sent satisfies.
pub record IsSendable {F : Type 0} (f : Seconds F) (now : F) (cookie : Cookie F) (url : Url)
    : Type 0 where
  pub secure :
      cookie.secure ≡ true
      → (url.scheme ≡ text "https") ⊎ (is_local_hostname (or_empty url.host_str) ≡ true)
  pub domain : cookie_domain_matches (or_empty url.host_str) cookie.domain ≡ true
  pub path : PathUnder url.path cookie.path
  pub fresh : expired f now cookie ≡ false

-- A cookie goes with a request exactly if it has not expired, the domain and the path cover the
-- URL, and it is not secure, or the URL is https or its host is local.
pub cookie_matches_url_iff :
    {F : Type 0} (f : Seconds F) (now : F) (cookie : Cookie F) (url : Url)
    → (cookie_matches_url f now cookie url ≡ true) ↔ IsSendable f now cookie url
unfolding cookie_matches_url
cookie_matches_url_iff f now cookie url = (
  (λ h. record {
    secure = λ s. ground (arith, list_beq_iff url.scheme (text "https"));
    domain = ground arith;
    path = path_matches_sound url.path cookie.path (ground arith);
    fresh = ground arith;
  }),
  (λ s. ground (
    arith,
    s.secure,
    s.domain,
    s.fresh,
    path_matches_complete url.path cookie.path s.path,
    list_beq_iff url.scheme (text "https"),
  )),
)
