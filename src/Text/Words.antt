-- ===== src/Text/Words.antt =====
-- src/internal.hh: laws of `split_words`.
use archspec.Base.{
  ◌≡◌, refl, ◌∙◌, false, List, [], ◌∷◌, ◌++◌, append_assoc, append-nil, Bytes, All, is_empty, arith,
}
use archspec.Text.{read_words, split_words}
use archspec.Text.Trim.{IsSpace, IsInk}

-- The end of a text, or a space.
abbrev pub Breaks : Bytes → Type 0
Breaks [] = Unit
Breaks (c ∷ s) = IsSpace c

read_words-spaces : (ws s : Bytes) → All IsSpace ws → read_words (ws ++ s) [] ≡ read_words s []
unfolding read_words
read_words-spaces [] s _ = refl
read_words-spaces (c ∷ ws) s (h, hs) = rw (h, read_words) (read_words-spaces ws s hs)

read_words-ink :
    (w s word : Bytes) → All IsInk w → read_words (w ++ s) word ≡ read_words s (word ++ w)
unfolding read_words
read_words-ink [] s word _ = rw append-nil refl
read_words-ink (c ∷ w) s word (h, hs) =
    rw (h, read_words) (read_words-ink w s (word ++ c ∷ []) hs ∙ rw append_assoc refl)

read_words-break :
    (s word : Bytes)
    → Breaks s
    → is_empty word ≡ false
    → (rest : List Bytes) × (read_words s word ≡ word ∷ rest)
unfolding read_words
read_words-break s [] h e = absurd (ground arith)
read_words-break [] (c ∷ word) h e = ([], refl)
read_words-break (d ∷ s) (c ∷ word) h e = (read_words s [], rw (h, read_words) refl)

-- Behind spaces, the first word is what stands before the next space.
pub split_words-first :
    (ws w s : Bytes)
    → All IsSpace ws
    → All IsInk w
    → is_empty w ≡ false
    → Breaks s
    → (rest : List Bytes) × (split_words (ws ++ (w ++ s)) ≡ w ∷ rest)
unfolding split_words
split_words-first ws w s hws hw e hs =
    let (rest, p) = read_words-break s w hs e in
    (rest, read_words-spaces ws (w ++ s) hws ∙ (read_words-ink w s [] hw ∙ p))
