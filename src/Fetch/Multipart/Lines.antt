-- ===== src/Fetch/Multipart/Lines.antt =====
-- The headers of a part: where they end, and the lines that they are cut into.
use mathlib.Core.List.{append_assoc}
use ferrijs.Prelude.{
  ℕ, ◌≡◌, refl, sym, ap, ◌∙◌, false, List, [], ◌∷◌, ◌++◌, some, arith, is_empty, length,
  length-append, ◌==◌, nat_eq,
}
use ferrijs.Text.{Text, starts_with, split, contains_char}
use ferrijs.Text.Affix.{strip_suffix-append}
use ferrijs.Fetch.Multipart.{crlf, find, line_pieces, lines}
use ferrijs.Fetch.Multipart.Search.{find-cons, find_clear, find_here, shift}
use ferrijs.Fetch.Multipart.Params.{contains_char-append, split_whole, split-append}

pub one_line : (s : Text) → contains_char s 10 ≡ false → is_empty s ≡ false → lines s ≡ s ∷ []
unfolding lines line_pieces
one_line s h n = rw (split_whole s 10 h, lines, n) refl

pub two_lines :
    (s t : Text)
    → contains_char s 10 ≡ false
    → contains_char t 10 ≡ false
    → is_empty t ≡ false
    → lines (s ++ (crlf ++ t)) ≡ s ∷ t ∷ []
unfolding lines line_pieces contains_char
two_lines s t h k n =
    ap line_pieces pieces ∙ rw (strip_suffix-append s (13 ∷ []), line_pieces, n) refl
  where
    pieces : split (s ++ (crlf ++ t)) 10 ≡ (s ++ 13 ∷ []) ∷ t ∷ []
    pieces =
        ap (λ (l : Text). split l 10) (sym (append_assoc s (13 ∷ []) (10 ∷ t)))
        ∙ split-append (s ++ 13 ∷ []) t 10 (ground (arith, contains_char-append s (13 ∷ []) 10))
        ∙ ap (λ (l : List Text). (s ++ 13 ∷ []) ∷ l) (split_whole t 10 k)

pub find_one :
    (h rest : List ℕ)
    → contains_char h 13 ≡ false
    → find (h ++ ((crlf ++ crlf) ++ rest)) (crlf ++ crlf) ≡ some (length h)
find_one h rest e =
    find_clear h ((crlf ++ crlf) ++ rest) 13 (10 ∷ crlf) e
    ∙ ap (shift (length h)) (find_here 13 (10 ∷ crlf) rest)
    ∙ ap some (omega arith)

-- A line break that no other follows is passed over.
find_break :
    (c : ℕ) (t : List ℕ)
    → (c == 13) ≡ false
    → find (13 ∷ 10 ∷ c ∷ t) (crlf ++ crlf) ≡ shift 2 (find (c ∷ t) (crlf ++ crlf))
unfolding starts_with
find_break c t h =
    ground (arith, find-cons 13 (10 ∷ c ∷ t) (crlf ++ crlf), find-cons 10 (c ∷ t) (crlf ++ crlf))

pub find_two :
    (g : List ℕ) (c : ℕ) (h rest : List ℕ)
    → contains_char g 13 ≡ false
    → contains_char (c ∷ h) 13 ≡ false
    → find ((g ++ (crlf ++ c ∷ h)) ++ ((crlf ++ crlf) ++ rest)) (crlf ++ crlf)
      ≡ some (length (g ++ (crlf ++ c ∷ h)))
unfolding contains_char
find_two g c h rest e k =
    ap (λ (l : List ℕ). find l (crlf ++ crlf))
      (append_assoc g (crlf ++ c ∷ h) ((crlf ++ crlf) ++ rest))
    ∙ find_clear g (crlf ++ ((c ∷ h) ++ ((crlf ++ crlf) ++ rest))) 13 (10 ∷ crlf) e
    ∙ ap (shift (length g)) (
        find_break c (h ++ ((crlf ++ crlf) ++ rest)) (ground arith)
        ∙ ap (shift 2) (find_one (c ∷ h) rest k))
    ∙ ap some (omega (arith, length-append {0} g (crlf ++ c ∷ h)))
