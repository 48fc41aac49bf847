-- ===== src/Text/Lines.antt =====
-- src/internal.hh: laws of the split at a delimiter.
use archspec.Base.{◌≡◌, refl, [], ◌∷◌, ◌++◌, ℕ, Bytes, Lacks, false, is_empty, arith}
use archspec.Text.{lines, extend_line}

pub lines-append :
    (b : ℕ) (line rest : Bytes) → Lacks b line → lines b (line ++ b ∷ rest) ≡ line ∷ lines b rest
unfolding lines extend_line
lines-append b [] rest _ = ground arith
lines-append b (c ∷ line) rest (h, hs) = ground (arith, lines-append b line rest hs)

pub lines-Lacks :
    (b : ℕ) (line : Bytes) → Lacks b line → is_empty line ≡ false → lines b line ≡ line ∷ []
unfolding lines extend_line
lines-Lacks b [] _ h = absurd (ground arith)
lines-Lacks b (c ∷ []) (h, hs) _ = ground arith
lines-Lacks b (c ∷ d ∷ line) (h, hs) _ = ground (arith, lines-Lacks b (d ∷ line) hs refl)
