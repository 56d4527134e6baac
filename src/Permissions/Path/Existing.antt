-- ===== src/Permissions/Path/Existing.antt =====
-- `resolve_existing` finds the longest prefix that exists, for any file system.
use mathlib.Core.List.{append_assoc, reverse, reverse-append, reverse-reverse, append-nil}
use ferrijs.Prelude.{
  ◌≡◌, ◌≢◌, sym, subst, ap, ◌∙◌, [], ◌∷◌, ◌++◌, none, some, arith, All, All-append,
}
use ferrijs.Permissions.Path.{
  Component, root_dir, cur_dir, parent_dir, normal, PathBuf, FileSystem, resolve_loop,
  resolve_existing,
}
use ferrijs.Permissions.Path.Normal.{IsName}

reverse-snoc : (n : Component) (ns : PathBuf) → reverse (n ∷ ns) ≡ reverse ns ++ n ∷ []
reverse-snoc n ns = reverse-append (n ∷ []) ns

reverse_cons : (n : Component) (ns l : PathBuf) → reverse (n ∷ ns) ++ l ≡ reverse ns ++ n ∷ l
reverse_cons n ns l =
    ap (λ (t : PathBuf). t ++ l) (reverse-snoc n ns) ∙ append_assoc (reverse ns) (n ∷ []) l

reverse-ne : (n : Component) (ns : PathBuf) → reverse (n ∷ ns) ≢ []
reverse-ne n ns e = cc (sym (reverse-reverse (n ∷ ns)) ∙ ap (λ (t : PathBuf). reverse t) e)

All-reverse : (p : PathBuf) → All IsName p → All IsName (reverse p)
All-reverse [] h = tt
All-reverse (c ∷ p) h =
    subst (All IsName) (sym (reverse-snoc c p))
      (All-append IsName (reverse p) (c ∷ []) (All-reverse p h.1) (h.0, tt))

reverse_split : (e ns : PathBuf) → reverse (ns ++ reverse e) ≡ e ++ reverse ns
reverse_split e ns =
    reverse-append ns (reverse e) ∙ ap (λ (t : PathBuf). t ++ reverse ns) (reverse-reverse e)

module _ (fs : FileSystem) where
  loop_hit :
      (r rest : PathBuf) (c : PathBuf)
      → fs.canonicalize (reverse r) ≡ some c
      → resolve_loop fs r rest ≡ some (c ++ rest)
  unfolding resolve_loop
  loop_hit [] rest c h = ground arith
  loop_hit (d ∷ r) rest c h = ground arith

  loop_miss :
      (n : Component) (r rest : PathBuf)
      → IsName n
      → fs.canonicalize (reverse (n ∷ r)) ≡ none
      → resolve_loop fs (n ∷ r) rest ≡ resolve_loop fs r (n ∷ rest)
  unfolding resolve_loop
  loop_miss (normal n) r rest h e = ground arith
  loop_miss root_dir r rest h e = absurd h
  loop_miss cur_dir r rest h e = absurd h
  loop_miss parent_dir r rest h e = absurd h

  loop_longest :
      (e rest c : PathBuf)
      → fs.canonicalize e ≡ some c
      → ((k l : PathBuf) → k ++ l ≡ rest → k ≢ [] → fs.canonicalize (e ++ k) ≡ none)
      → (ns l : PathBuf) → reverse ns ++ l ≡ rest
      → All IsName ns
      → resolve_loop fs (ns ++ reverse e) l ≡ some (c ++ rest)
  loop_longest e rest c h miss [] l eq names =
      loop_hit (reverse e) l c (ap fs.canonicalize (reverse-reverse e) ∙ h)
      ∙ ap (λ (t : PathBuf). some (c ++ t)) eq
  loop_longest e rest c h miss (n ∷ ns) l eq names =
      loop_miss n (ns ++ reverse e) l names.0 (
        ap fs.canonicalize (reverse_split e (n ∷ ns))
        ∙ miss (reverse (n ∷ ns)) l eq (reverse-ne n ns))
      ∙ loop_longest e rest c h miss ns (n ∷ l) (sym (reverse_cons n ns l) ∙ eq) names.1

  -- Of a path that splits into `e` and the names `rest`, where `e` exists and no longer prefix
  -- does, the result is the real location of `e` with `rest` behind it.
  pub resolve_existing-longest :
      (e rest c : PathBuf)
      → All IsName rest
      → fs.canonicalize e ≡ some c
      → ((k l : PathBuf) → k ++ l ≡ rest → k ≢ [] → fs.canonicalize (e ++ k) ≡ none)
      → resolve_existing fs (e ++ rest) ≡ c ++ rest
  unfolding resolve_existing
  resolve_existing-longest e rest c names h miss =
      let found : resolve_loop fs (reverse (e ++ rest)) [] ≡ some (c ++ rest) =
        ap (λ (t : PathBuf). resolve_loop fs t []) (reverse-append e rest)
        ∙ loop_longest e rest c h miss (reverse rest) []
            (append-nil (reverse (reverse rest)) ∙ reverse-reverse rest) (All-reverse rest names) in
      ground arith
