-- ===== src/Permissions/Path/Prefix.antt =====
-- `Path::starts_with` is an order, so a rule inside another covers no more than that one.
use ferrijs.Prelude.{◌≡◌, refl, true, [], ◌∷◌, ◌++◌, arith}
use ferrijs.Permissions.Path.{
  component_eq, PathBuf, PathRule, CheckedPath, path_starts_with, path_covers, path_subsumes,
}

pub path_starts_with_sound :
    (p q : PathBuf) → path_starts_with p q ≡ true → (r : PathBuf) × (p ≡ q ++ r)
unfolding path_starts_with
path_starts_with_sound p [] h = (p, refl)
path_starts_with_sound [] (c ∷ q) h = cc
path_starts_with_sound (d ∷ p) (c ∷ q) h =
    let (r, e) = path_starts_with_sound p q (ground arith) in
    (r, ground (arith, component_eq.eq_iff d c))

pub path_starts_with-append : (q r : PathBuf) → path_starts_with (q ++ r) q ≡ true
unfolding path_starts_with
path_starts_with-append [] r = refl
path_starts_with-append (c ∷ q) r =
    ground (arith, path_starts_with-append q r, component_eq.eq_iff c c)

pub path_starts_with_trans :
    (p q r : PathBuf)
    → path_starts_with p q ≡ true
    → path_starts_with q r ≡ true
    → path_starts_with p r ≡ true
unfolding path_starts_with
path_starts_with_trans p q [] h k = refl
path_starts_with_trans p [] (c ∷ r) h k = cc
path_starts_with_trans [] (d ∷ q) (c ∷ r) h k = cc
path_starts_with_trans (e ∷ p) (d ∷ q) (c ∷ r) h k = ground (
  arith,
  path_starts_with_trans p q r,
  component_eq.eq_iff e d,
  component_eq.eq_iff d c,
  component_eq.eq_iff e c,
)

-- A rule that subsumes another covers every path that the other covers.
pub path_covers-path_subsumes :
    (a b : PathRule) (c : CheckedPath)
    → path_subsumes a b ≡ true
    → path_covers b c ≡ true
    → path_covers a c ≡ true
unfolding path_covers path_subsumes
path_covers-path_subsumes a b c h k = ground (
  arith,
  path_starts_with_trans c.lexical b.lexical a.lexical,
  path_starts_with_trans c.resolved b.resolved a.resolved,
)
