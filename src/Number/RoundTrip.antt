-- ===== src/Number/RoundTrip.antt =====
-- src/internal.hh: reading a printed number.
use mathlib.Core.List.{cons-ne-nil}
use archspec.Base.{
  length, ap, Bool, true, false, leb, ◌≢◌, ℕ, zero, suc, ◌<◌, ◌≡◌, refl, some, none, [], ◌∷◌, ◌++◌,
  arith, Bytes, All, codes, ◌∙◌, if◌then◌else◌, ltb, lt→ltb, ℤ, pos, negsuc, ◌≤◌,
}
use archspec.Text.{c_str}
use archspec.Text.Trim.{IsSpace, IsInk, trim_padded}
use archspec.Number.{
  strto, parse_u64, u64_mod, all_space, to_decimal, parse_i64, int_to_decimal, negate, i64_half,
}
use archspec.Number.Digits.{
  LeadsNonzero, decimal_loop-LeadsNonzero, value-to_decimal, to_decimal-IsDigit,
}
use archspec.Number.Parse.{parse_u64-digits, strto-digits, strto-minus, digits-IsInk, c_str-digits}

pub to_decimal-LeadsNonzero : (n : ℕ) → 0 < n → LeadsNonzero (to_decimal n)
unfolding to_decimal
to_decimal-LeadsNonzero n h = ground (arith, decimal_loop-LeadsNonzero n n [])

pub LeadsNonzero-length : (s : Bytes) → LeadsNonzero s → 0 < length s
LeadsNonzero-length [] h = absurd h
LeadsNonzero-length (c ∷ s) h = omega arith

parse_u64-zero :
    (before after : Bytes)
    → All IsSpace before
    → All IsSpace after
    → parse_u64 (before ++ (to_decimal 0 ++ after)) ≡ some 0
unfolding parse_u64 to_decimal
parse_u64-zero before after hb ha =
    rw (trim_padded before (codes "0") after hb (refl, tt) ha)
      (unfold strto c_str all_space in refl)

-- Every 64-bit number is read back from its decimal print, in any padding of spaces.
pub parse_u64-to_decimal :
    (before : Bytes) (n : ℕ) (after : Bytes)
    → All IsSpace before
    → n < u64_mod
    → All IsSpace after
    → parse_u64 (before ++ (to_decimal n ++ after)) ≡ some n
parse_u64-to_decimal before zero after hb h ha = parse_u64-zero before after hb ha
parse_u64-to_decimal before (suc n) after hb h ha = rw (
  parse_u64-digits before (to_decimal (suc n)) after hb
      (to_decimal-LeadsNonzero (suc n) (omega arith)) (to_decimal-IsDigit (suc n)) ha,
  value-to_decimal (suc n),
  lt→ltb (suc n) u64_mod h,
)

abbrev pub FitsI64 : ℤ → Type 0
FitsI64 (pos n) = n < i64_half
FitsI64 (negsuc n) = suc n ≤ i64_half

-- `parse_i64` on a padded text that the C library converts whole
parse_i64-strto :
    (before s after : Bytes) (negative : Bool) (n : ℕ)
    → s ≢ []
    → All IsSpace before
    → All IsInk s
    → All IsSpace after
    → c_str s ≡ s
    → strto 0 s ≡ some (record { negative = negative; magnitude = n; rest = [] })
    → parse_i64 (before ++ (s ++ after)) ≡ (
        if (if negative then ltb i64_half n else leb i64_half n)
        then none
        else some (if negative then negate n else pos n))
unfolding parse_i64 all_space
parse_i64-strto before [] after negative n h hb hs ha hc hr = absurd (h refl)
parse_i64-strto before (c ∷ s) after negative n h hb hs ha hc hr =
    rw (trim_padded before (c ∷ s) after hb hs ha, hc, hr) (ground arith)

LeadsNonzero-ne-nil : (s : Bytes) → LeadsNonzero s → s ≢ []
LeadsNonzero-ne-nil [] h = absurd h
LeadsNonzero-ne-nil (c ∷ s) h = cons-ne-nil c s

-- Every signed 64-bit number is read back from its decimal print, in any padding of spaces.
pub parse_i64-int_to_decimal :
    (before : Bytes) (n : ℤ) (after : Bytes)
    → All IsSpace before
    → FitsI64 n
    → All IsSpace after
    → parse_i64 (before ++ (int_to_decimal n ++ after)) ≡ some n
unfolding int_to_decimal
parse_i64-int_to_decimal before (pos zero) after hb h ha =
    parse_i64-strto before (to_decimal 0) after false 0 (unfold to_decimal in cons-ne-nil b'0' [])
      hb (digits-IsInk _ (to_decimal-IsDigit 0)) ha (c_str-digits _ (to_decimal-IsDigit 0))
      (unfold strto to_decimal in refl)
parse_i64-int_to_decimal before (pos (suc n)) after hb h ha =
    let digits = to_decimal-IsDigit (suc n) in
    let leads = to_decimal-LeadsNonzero (suc n) (omega arith) in
    parse_i64-strto before (to_decimal (suc n)) after false (suc n) (LeadsNonzero-ne-nil _ leads) hb
      (digits-IsInk _ digits) ha (c_str-digits _ digits)
      (strto-digits _ leads digits ∙ rw (value-to_decimal (suc n)))
    ∙ ground arith
parse_i64-int_to_decimal before (negsuc n) after hb h ha =
    let digits = to_decimal-IsDigit (suc n) in
    let leads = to_decimal-LeadsNonzero (suc n) (omega arith) in
    parse_i64-strto before (b'-' ∷ to_decimal (suc n)) after true (suc n) (cons-ne-nil _ _) hb
      (refl, digits-IsInk _ digits) ha (unfold c_str in ap (◌∷◌ b'-') (c_str-digits _ digits))
      (strto-minus _ leads digits ∙ rw (value-to_decimal (suc n)))
    ∙ unfold negate in ground arith
