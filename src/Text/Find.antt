-- ===== src/Text/Find.antt =====
-- src/internal.hh: laws of `find`, and of `c_str` on texts without NUL.
use archspec.Base.{
  Option-cases, inl, inr, ◌<◌, ℕ, [], ◌∷◌, ◌++◌, ◌≡◌, refl, none, some, arith, Bytes, Lacks, length,
}
use archspec.Text.{find, c_str}

pub find-append : (b : ℕ) (s rest : Bytes) → Lacks b s → find b (s ++ b ∷ rest) ≡ some (length s)
unfolding find
find-append b [] rest _ = ground arith
find-append b (c ∷ s) rest (h, hs) = ground (arith, find-append b s rest hs)

pub find-Lacks : (b : ℕ) (s : Bytes) → Lacks b s → find b s ≡ none
unfolding find
find-Lacks b [] _ = refl
find-Lacks b (c ∷ s) (h, hs) = ground (arith, find-Lacks b s hs)

-- A position that is found lies in the text.
pub find-lt : (b : ℕ) (s : Bytes) {i : ℕ} → find b s ≡ some i → i < length s
unfolding find
find-lt b [] h = ground arith
find-lt b (c ∷ s) h = elim (Option-cases (find b s)) [
  | inl e ↦ ground arith
  | inr (j, e) ↦ let deeper = find-lt b s e in ground arith
]

pub c_str-Lacks : (s : Bytes) → Lacks 0 s → c_str s ≡ s
unfolding c_str
c_str-Lacks [] _ = refl
c_str-Lacks (c ∷ s) (h, hs) = ground (arith, c_str-Lacks s hs)
