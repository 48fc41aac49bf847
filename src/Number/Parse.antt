-- ===== src/Number/Parse.antt =====
-- src/internal.hh: what `parse_u64` and `parse_size_bytes` return.
use archspec.Base.{
  if◌then◌else◌, ltb, ℕ, ◌+◌, ◌-◌, ◌*◌, ◌<◌, ◌≡◌, refl, none, some, [], ◌∷◌, ◌++◌, arith, Bytes,
  All, true, false,
}
use archspec.Text.{c_str, trim_start}
use archspec.Text.Trim.{IsSpace, IsInk, trim_padded, trim_ink}
use archspec.Number.{
  scan_digits, Conversion, strto, convert_digits, detect_base, sign, parse_u64, u64_mod, all_space,
  u64_of, parse_size_bytes,
}
use archspec.Number.Digits.{IsDigit, value, LeadsNonzero}

pub digits-IsInk : (s : Bytes) → All IsDigit s → All IsInk s
digits-IsInk [] _ = tt
digits-IsInk (c ∷ s) (h, hs) = (ground arith, digits-IsInk s hs)

pub c_str-digits : (s : Bytes) → All IsDigit s → c_str s ≡ s
unfolding c_str
c_str-digits [] _ = refl
c_str-digits (c ∷ s) (h, hs) = ground (arith, c_str-digits s hs)

scan_digits-All : (s : Bytes) (n : ℕ) → All IsDigit s → scan_digits 10 s n ≡ (value n s, [])
unfolding scan_digits
scan_digits-All [] n _ = refl
scan_digits-All (c ∷ s) n (h, hs) = ground (arith, scan_digits-All s (n * 10 + (c - b'0')) hs)

-- A text that begins with a digit other than zero is read in base ten, with base 0 given too.
pub strto-digits :
    (s : Bytes)
    → LeadsNonzero s
    → All IsDigit s
    → strto 0 s ≡ some (record { negative = false; magnitude = value 0 s; rest = [] })
unfolding strto convert_digits detect_base sign trim_start
strto-digits [] h _ = absurd h
strto-digits (c ∷ s) h hs = ground (arith, scan_digits-All (c ∷ s) 0 hs)

pub strto-minus :
    (s : Bytes)
    → LeadsNonzero s
    → All IsDigit s
    → strto 0 (b'-' ∷ s) ≡ some (record { negative = true; magnitude = value 0 s; rest = [] })
unfolding strto convert_digits detect_base sign trim_start
strto-minus [] h _ = absurd h
strto-minus (c ∷ s) h hs = ground (arith, scan_digits-All (c ∷ s) 0 hs)

-- Decimal digits that do not begin with a zero, in any padding of spaces, are read as the number
-- they spell, if that fits 64 bits, and refused otherwise.
pub parse_u64-digits :
    (before s after : Bytes)
    → All IsSpace before
    → LeadsNonzero s
    → All IsDigit s
    → All IsSpace after
    → parse_u64 (before ++ (s ++ after))
      ≡ (if ltb (value 0 s) u64_mod then some (value 0 s) else none)
unfolding parse_u64 all_space
parse_u64-digits before [] after hb h hs ha = absurd h
parse_u64-digits before (c ∷ s) after hb h hs ha =
    rw
      (
        trim_padded before (c ∷ s) after hb (digits-IsInk (c ∷ s) hs) ha,
        c_str-digits (c ∷ s) hs,
        strto-digits (c ∷ s) h hs,
      )
      (ground arith)

u64_of_lt : (r : Conversion) → r.magnitude < u64_mod → u64_of r < u64_mod
u64_of_lt r h = ground arith

-- What `parse_u64` returns is a 64-bit number.
pub parse_u64_bound : (text : Bytes) {n : ℕ} → parse_u64 text ≡ some n → n < u64_mod
unfolding parse_u64
parse_u64_bound text h = ground arith

-- A text whose first byte behind the spaces is a minus sign is refused, whatever follows.
parse_u64_minus : (before s : Bytes) → All IsSpace before → parse_u64 (before ++ b'-' ∷ s) ≡ none
unfolding parse_u64
parse_u64_minus before s hb = rw (trim_ink before b'-' s hb refl) refl

-- A size that is read is a 64-bit number.
pub parse_size_bytes_bound : (text : Bytes) {n : ℕ} → parse_size_bytes text ≡ some n → n < u64_mod
unfolding parse_size_bytes
parse_size_bytes_bound text h = ground arith
