-- ===== src/Text/Unquote.antt =====
-- src/internal.hh: `unquote_value` on quoted and on plain texts.
use archspec.Base.{
  ◌≡◌, refl, ap, Lacks, ◌∙◌, ℕ, false, ◌||◌, [], ◌∷◌, ◌++◌, Bytes, All, arith, ◌==◌, if◌then◌else◌,
}
use archspec.Text.{trim_end, split_last, unquote_loop, unquote, unquote_value}
use archspec.Text.Trim.{IsSpace, IsInk, trim_ink, trim-ink, trim_end-spaces}

-- a backslash before every quote and backslash
abbrev pub escaped : Bytes → Bytes
escaped [] = []
escaped (c ∷ s) = if c == b'"' || c == b'\\' then b'\\' ∷ c ∷ escaped s else c ∷ escaped s

pub trim_end-last :
    (s : Bytes) (c : ℕ) (after : Bytes)
    → IsInk c
    → All IsSpace after
    → trim_end (s ++ c ∷ after) ≡ s ++ c ∷ []
unfolding trim_end
trim_end-last [] c after h ha = rw (trim_end-spaces after ha) (rw h refl)
trim_end-last (d ∷ []) c after h ha = rw (trim_end-last [] c after h ha) refl
trim_end-last (d ∷ e ∷ s) c after h ha = rw (trim_end-last (e ∷ s) c after h ha) refl

split_last-append : (s : Bytes) (c d : ℕ) → split_last c (s ++ d ∷ []) ≡ (c ∷ s, d)
unfolding split_last
split_last-append [] c d = refl
split_last-append (e ∷ s) c d = rw (split_last-append s e d) refl

unquote_loop-escaped : (s : Bytes) → unquote_loop b'"' (escaped s) false ≡ s
unfolding unquote_loop
unquote_loop-escaped [] = refl
unquote_loop-escaped (c ∷ s) = ground (arith, unquote_loop-escaped s)

unquote-quoted : (s : Bytes) → unquote (b'"' ∷ (s ++ b'"' ∷ [])) ≡ unquote_loop b'"' s false
unfolding unquote split_last
unquote-quoted [] = refl
unquote-quoted (c ∷ s) = rw (split_last-append s c b'"') refl

-- A text between double quotes, with a backslash before every quote and backslash of it and any
-- padding of spaces around it, is read as that text.
pub unquote_value-escaped :
    (before s after : Bytes)
    → All IsSpace before
    → All IsSpace after
    → unquote_value (before ++ b'"' ∷ (escaped s ++ b'"' ∷ after)) ≡ s
unfolding unquote_value
unquote_value-escaped before s after hb ha =
    rw
      (
        trim_ink before b'"' (escaped s ++ b'"' ∷ after) hb refl,
        trim_end-last (escaped s) b'"' after refl ha,
      )
      (unquote-quoted (escaped s) ∙ unquote_loop-escaped s)

unquote_loop-single : (s : Bytes) → unquote_loop b'\'' s false ≡ s
unfolding unquote_loop
unquote_loop-single [] = refl
unquote_loop-single (c ∷ s) = ap (◌∷◌ c) (unquote_loop-single s)

unquote-single : (s : Bytes) → unquote (b'\'' ∷ (s ++ b'\'' ∷ [])) ≡ unquote_loop b'\'' s false
unfolding unquote split_last
unquote-single [] = refl
unquote-single (c ∷ s) = rw (split_last-append s c b'\'') refl

-- What stands between single quotes is not changed.
pub unquote_value-single : (s : Bytes) → unquote_value (b'\'' ∷ (s ++ b'\'' ∷ [])) ≡ s
unfolding unquote_value
unquote_value-single s =
    rw (trim_ink [] b'\'' (s ++ b'\'' ∷ []) tt refl, trim_end-last s b'\'' [] refl tt)
      (unquote-single s ∙ unquote_loop-single s)

unquote-plain : (s : Bytes) → Lacks b'"' s → Lacks b'\'' s → unquote s ≡ s
unfolding unquote
unquote-plain [] _ _ = refl
unquote-plain (c ∷ []) _ _ = refl
unquote-plain (c ∷ d ∷ s) (h, _) (g, _) =
    let first : (c == b'"') ≡ false = ground arith in
    let second : (c == b'\'') ≡ false = ground arith in rw (first, second) refl

-- A text without spaces and quotes is not changed.
pub unquote_value-plain :
    (s : Bytes) → All IsInk s → Lacks b'"' s → Lacks b'\'' s → unquote_value s ≡ s
unfolding unquote_value
unquote_value-plain s ink h g = rw (trim-ink s ink) (unquote-plain s h g)
