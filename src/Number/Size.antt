-- ===== src/Number/Size.antt =====
-- src/internal.hh: sizes with a suffix.
use native.Mathlib.Nat.{le-div_iff_mul-le}
use archspec.Base.{
  List, Bool, ◌||◌, ◌^◌, eq_bytes, zero, suc, if◌then◌else◌, ltb, leb, ℕ, ◌-◌, ◌*◌, ◌/◌, ◌%◌, ◌≤◌,
  ◌<◌, ◌≡◌, ◌≢◌, ◌>>=◌, refl, ◌∙◌, none, some, [], ◌∷◌, ◌++◌, arith, Bytes, All, All-append, Lacks,
  false, ◌==◌, append-nil, Option, Option-cases, Bool-cases, inl, inr,
}
use archspec.Text.Find.{c_str-Lacks}
use archspec.Text.{trim, trim_start, lower_copy}
use archspec.Text.Trim.{IsSpace, IsInk, trim_padded}
use archspec.Number.{
  scan_digits, strto, convert_digits, sign, u64_mod, parse_size_bytes, suffix_multiplier, is_digit,
  digit_value,
}
use archspec.Number.Digits.{IsDigit, value, scan_digits-value}
use archspec.Number.Parse.{digits-IsInk}

-- The first byte is no digit.
abbrev pub NoDigit : Bytes → Type 0
NoDigit [] = Unit
NoDigit (c ∷ s) = is_digit 10 c ≡ false

digits-Lacks : (s : Bytes) → All IsDigit s → Lacks 0 s
digits-Lacks [] _ = tt
digits-Lacks (c ∷ s) (h, hs) = ((λ e. absurd (omega arith)), digits-Lacks s hs)

scan_digits-stop : (s : Bytes) (n : ℕ) → NoDigit s → scan_digits 10 s n ≡ (n, s)
unfolding scan_digits
scan_digits-stop [] n h = refl
scan_digits-stop (c ∷ s) n h = rw h refl

-- Base ten given, digits are read to the first byte that is none.
strto-prefix :
    (c : ℕ) (s suffix : Bytes)
    → All IsDigit (c ∷ s)
    → NoDigit suffix
    → strto 10 (c ∷ s ++ suffix)
      ≡ some (record { negative = false; magnitude = value 0 (c ∷ s); rest = suffix })
unfolding strto convert_digits sign trim_start digit_value
strto-prefix c s suffix (h, hs) stop = ground (
  arith,
  scan_digits-value (c ∷ s) suffix 0 (h, hs),
  scan_digits-stop suffix (value 0 (c ∷ s)) stop,
)

-- the product, if it fits 64 bits
abbrev pub checked_times : ℕ → ℕ → Option ℕ
checked_times n multiplier = if ltb (n * multiplier) u64_mod then some (n * multiplier) else none

times_fits :
    (n multiplier : ℕ)
    → 0 < multiplier
    → (if ltb ((u64_mod - 1) / multiplier) n then none else some (n * multiplier % u64_mod))
      ≡ checked_times n multiplier
times_fits n multiplier p = ground (
  arith,
  (le-div_iff_mul-le {k = multiplier} {x = n} {y = u64_mod - 1} p).0,
  (le-div_iff_mul-le {k = multiplier} {x = n} {y = u64_mod - 1} p).1,
)

suffix_multiplier-pos : (suffix : Bytes) (m : ℕ) → suffix_multiplier suffix ≡ some m → 0 < m
unfolding suffix_multiplier
suffix_multiplier-pos suffix m h = ground arith

le-mul-of-pos : (n m : ℕ) → n ≤ n * suc m
le-mul-of-pos n m = omega arith

checked_times-large : (n m : ℕ) → u64_mod ≤ n → 0 < m → checked_times n m ≡ none
checked_times-large n zero h p = absurd (omega arith)
checked_times-large n (suc m) h p = ground (arith, le-mul-of-pos n m)

-- the second half of the function, behind the conversion
after_digits :
    (n : ℕ) (suffix : Bytes)
    → (if leb u64_mod n
        then none
        else suffix_multiplier suffix >>= λ m.
            if ltb ((u64_mod - 1) / m) n then none else some (n * m % u64_mod))
      ≡ (suffix_multiplier suffix >>= checked_times n)
after_digits n suffix = elim (Option-cases (suffix_multiplier suffix)) [
  | inl e ↦ rw e (ground arith)
  | inr (m, e) ↦
      rw (e, times_fits n m (suffix_multiplier-pos suffix m e))
        (large (suffix_multiplier-pos suffix m e))
]
  where
    large :
        {m : ℕ} → 0 < m → (if leb u64_mod n then none else checked_times n m) ≡ checked_times n m
    large {m} p = elim (Bool-cases (leb u64_mod n)) [
      | inl h ↦ rw (h, checked_times-large n m (ground arith) p) refl
      | inr h ↦ rw h refl
    ]

-- The ways to write a unit of 1024, 1024 * 1024 or 1024 * 1024 * 1024 bytes.
abbrev unit_names : ℕ → List Bytes
unit_names letter = (letter ∷ []) ∷ (letter ∷ b'b' ∷ []) ∷ (letter ∷ b'i' ∷ b'b' ∷ []) ∷ []

abbrev among : Bytes → List Bytes → Bool
among text [] = false
among text (name ∷ names) = eq_bytes text name || among text names

-- The power of 1024 that a suffix in small letters stands for.
abbrev pub power_of : Bytes → Option ℕ
power_of suffix =
    if among suffix ([] ∷ (b'b' ∷ []) ∷ [])
    then some 0
    else if among suffix (unit_names b'k')
    then some 1
    else if among suffix (unit_names b'm')
    then some 2
    else if among suffix (unit_names b'g')
    then some 3
    else none

suffix_multiplier-power_of :
    (suffix : Bytes) → suffix_multiplier suffix ≡ (power_of suffix >>= λ p. some (1024 ^ p))
unfolding suffix_multiplier eq_bytes
suffix_multiplier-power_of [] = refl
suffix_multiplier-power_of (c ∷ s) = ground arith

by_power :
    (n : ℕ) (suffix : Bytes)
    → (suffix_multiplier suffix >>= checked_times n)
      ≡ (power_of suffix >>= λ p. checked_times n (1024 ^ p))
by_power n suffix =
    rw (suffix_multiplier-power_of suffix)
      (elim (Option-cases (power_of suffix)) [ inl e ↦ rw e refl | inr (p, e) ↦ rw e refl ])

-- At least one decimal digit and a suffix, in any padding of spaces, are read as the product of the
-- number that the digits spell and 1024 ^ p, where the suffix, in capitals or not, is b or empty for
-- p = 0, k, kb or kib for 1, m, mb or mib for 2, and g, gb or gib for 3; they are refused where it
-- is none of these and where the product does not fit 64 bits. The suffix may be empty; it does not begin with a digit and
-- holds neither a space nor a zero byte.
pub parse_size_bytes-suffix :
    (before digits suffix after : Bytes)
    → All IsSpace before
    → digits ≢ []
    → All IsDigit digits
    → All IsInk suffix
    → NoDigit suffix
    → Lacks 0 suffix
    → All IsSpace after
    → parse_size_bytes (before ++ (digits ++ suffix ++ after))
      ≡ (power_of (lower_copy suffix) >>= λ p. checked_times (value 0 digits) (1024 ^ p))
unfolding parse_size_bytes
parse_size_bytes-suffix before [] suffix after hb some_digit hd hs stop no_nul ha =
    absurd (some_digit refl)
parse_size_bytes-suffix before (c ∷ s) suffix after hb some_digit hd hs stop no_nul ha =
    rw
      (
        trim_padded before (c ∷ s ++ suffix) after hb
            (All-append IsInk (c ∷ s) suffix (digits-IsInk (c ∷ s) hd) hs) ha,
        c_str-Lacks (c ∷ s ++ suffix)
            (All-append _ (c ∷ s) suffix (digits-Lacks (c ∷ s) hd) no_nul),
        strto-prefix c s suffix hd stop,
        trimmed,
        no_minus,
      )
      (after_digits (value 0 (c ∷ s)) (lower_copy suffix)
        ∙ by_power (value 0 (c ∷ s)) (lower_copy suffix))
  where
    no_minus : (c == b'-') ≡ false
    no_minus = ground (arith, hd.0)

    trimmed : trim suffix ≡ suffix
    trimmed = rw append-nil at (trim_padded [] suffix [] tt hs tt)
