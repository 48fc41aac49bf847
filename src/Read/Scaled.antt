-- ===== src/Read/Scaled.antt =====
-- src/internal.hh: the readers of numbers, on the files that the kernel prints.
use native.Mathlib.Nat.{le-div_iff_mul-le}
use archspec.Base.{
  ◌≡◌, refl, ℕ, ◌*◌, ◌/◌, ◌-◌, ◌<◌, ◌≤◌, false, [], ◌∷◌, ◌++◌, Bytes, some, arith, if◌then◌else◌,
  ltb, All, is_empty, append-nil,
}
use archspec.Text.{lines, extend_line}
use archspec.Number.{u64_mod, u32_mod, to_decimal, parse_u64}
use archspec.Number.Digits.{IsDigit, to_decimal-IsDigit}
use archspec.Number.RoundTrip.{parse_u64-to_decimal}
use archspec.Report.Field.{of_value, unavailable, ok, parse_error, available, nat_default}
use archspec.Host.{Files, Stream}
use archspec.Read.{read_first_line, read_scaled_u64_field, read_u32_field}

-- A file whose first line is a number.
abbrev pub number_file : ℕ → Bytes → Stream
number_file n rest = record {
  content = to_decimal n ++ b'\n' ∷ rest;
  bad_after_copy = false;
  bad_after_line = false;
}

lines-digits :
    (line rest : Bytes)
    → All IsDigit line
    → lines b'\n' (line ++ b'\n' ∷ rest) ≡ line ∷ lines b'\n' rest
unfolding lines extend_line
lines-digits [] rest _ = refl
lines-digits (c ∷ line) rest (h, hs) = ground (arith, lines-digits line rest hs)

read_first_line-number :
    (h : Files) (path : Bytes) (n : ℕ) (rest : Bytes)
    → h.open_file path ≡ some (number_file n rest)
    → read_first_line h path ≡ record { status = ok; value = to_decimal n }
unfolding read_first_line
read_first_line-number h path n rest e =
    rw
      (
        e,
        read_first_line,
        lines-digits (to_decimal n) rest (to_decimal-IsDigit n),
        filled (to_decimal n),
      )
      refl
  where
    filled : (s : Bytes) → is_empty (s ++ b'\n' ∷ rest) ≡ false
    filled [] = refl
    filled (c ∷ s) = refl

pub parse_u64-number : (n : ℕ) → n < u64_mod → parse_u64 (to_decimal n) ≡ some n
parse_u64-number n fits = rw append-nil at (parse_u64-to_decimal [] n [] tt fits tt)

-- A readable file whose first line is a 64-bit number, with a line break behind it, gives the
-- product of the number and a positive multiplier, if that fits 64 bits, and a parse error
-- otherwise: no product wraps around.
pub read_scaled_u64_field-number :
    (h : Files) (multiplier : ℕ) (path : Bytes) (n : ℕ) (rest : Bytes)
    → 0 < multiplier
    → n < u64_mod
    → h.open_file path ≡ some (number_file n rest)
    → read_scaled_u64_field h multiplier path ≡ (
        if ltb (n * multiplier) u64_mod then of_value (n * multiplier) else unavailable parse_error)
unfolding read_scaled_u64_field available
read_scaled_u64_field-number h multiplier path n rest p fits e =
    rw (read_first_line-number h path n rest e, parse_u64-number n fits)
      (ground (arith, small, large))
  where
    small : n ≤ (u64_mod - 1) / multiplier → n * multiplier ≤ u64_mod - 1
    small = (le-div_iff_mul-le {k = multiplier} {x = n} {y = u64_mod - 1} p).0

    large : n * multiplier ≤ u64_mod - 1 → n ≤ (u64_mod - 1) / multiplier
    large = (le-div_iff_mul-le {k = multiplier} {x = n} {y = u64_mod - 1} p).1

-- A readable file whose first line is a 64-bit number, with a line break behind it, gives that
-- number where 32 bits hold it, and a parse error otherwise.
pub read_u32_field-number :
    (h : Files) (path : Bytes) (n : ℕ) (rest : Bytes)
    → n < u64_mod
    → h.open_file path ≡ some (number_file n rest)
    → read_u32_field h path ≡ (if ltb n u32_mod then of_value n else unavailable parse_error)
unfolding read_u32_field available
read_u32_field-number h path n rest fits e =
    rw (read_first_line-number h path n rest e, parse_u64-number n fits) (ground arith)
