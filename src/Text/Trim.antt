-- ===== src/Text/Trim.antt =====
-- src/internal.hh: laws of `trim`.
use archspec.Base.{
  ap, sym, ◌∙◌, append-nil, [], ℕ, true, false, [], ◌∷◌, ◌++◌, ◌≡◌, refl, arith, Bytes, All,
}
use archspec.Text.{is_space, trim_start, trim_end, trim}

abbrev pub IsSpace : ℕ → Type 0
IsSpace c = is_space c ≡ true

abbrev pub IsInk : ℕ → Type 0
IsInk c = is_space c ≡ false

trim_start-append : (ws s : Bytes) → All IsSpace ws → trim_start (ws ++ s) ≡ trim_start s
unfolding trim_start
trim_start-append [] s _ = refl
trim_start-append (c ∷ ws) s (h, hs) = rw h (trim_start-append ws s hs)

pub trim_end-spaces : (ws : Bytes) → All IsSpace ws → trim_end ws ≡ []
unfolding trim_end
trim_end-spaces [] _ = refl
trim_end-spaces (c ∷ ws) (h, hs) = rw (trim_end-spaces ws hs, trim_end) (rw h)

-- Spaces behind a text of which no byte is a space go away.
trim_end-append : (s ws : Bytes) → All IsInk s → All IsSpace ws → trim_end (s ++ ws) ≡ s
unfolding trim_end
trim_end-append [] ws _ hw = trim_end-spaces ws hw
trim_end-append (c ∷ s) ws (h, hs) hw = ground (arith, trim_end-append s ws hs hw)

trim_start-spaces : (ws : Bytes) → All IsSpace ws → trim_start ws ≡ []
unfolding trim_start
trim_start-spaces [] _ = refl
trim_start-spaces (c ∷ ws) (h, hs) = rw h (trim_start-spaces ws hs)

trim_start-ink : (s ws : Bytes) → All IsInk s → All IsSpace ws → trim_end (trim_start (s ++ ws)) ≡ s
unfolding trim_start
trim_start-ink [] ws _ hw = rw (trim_start-spaces ws hw) (unfold trim_end in refl)
trim_start-ink (c ∷ s) ws h hw = rw h.0 (trim_end-append (c ∷ s) ws h hw)

-- Spaces on both sides of a text of which no byte is a space go away.
pub trim_padded :
    (before s after : Bytes)
    → All IsSpace before
    → All IsInk s
    → All IsSpace after
    → trim (before ++ (s ++ after)) ≡ s
unfolding trim
trim_padded before s after hb hs ha =
    rw (trim_start-append before (s ++ after) hb) (trim_start-ink s after hs ha)

pub trim-ink : (s : Bytes) → All IsInk s → trim s ≡ s
trim-ink s ink = ap trim (sym (append-nil s)) ∙ trim_padded [] s [] tt ink tt

trim_end-ink : (c : ℕ) (s : Bytes) → IsInk c → trim_end (c ∷ s) ≡ c ∷ trim_end s
unfolding trim_end
trim_end-ink c s h = ground arith

-- The first byte that is no space stays in front.
pub trim_ink :
    (before : Bytes) (c : ℕ) (s : Bytes)
    → All IsSpace before
    → IsInk c
    → trim (before ++ c ∷ s) ≡ c ∷ trim_end s
unfolding trim
trim_ink before c s hb h =
    rw (trim_start-append before (c ∷ s) hb) (unfold trim_start in rw h (trim_end-ink c s h))
