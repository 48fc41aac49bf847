-- ===== src/Number.antt =====
-- src/internal.hh: reading numbers, over the C library's `strtoull` and `strtoll`, and the decimal
-- print of `std::to_string` and of the output streams.
pub mod Digits
pub mod Parse
pub mod RoundTrip
pub mod Size
use archspec.Base.{
  ℕ, zero, suc, ◌+◌, ◌-◌, ◌*◌, ◌/◌, ◌%◌, ◌^◌, Bool, true, false, not, ◌&&◌, ◌||◌, [], ◌∷◌, ◌++◌,
  Option, none, some, ℤ, pos, negsuc, Bytes, codes, ltb, leb, ◌==◌, if◌then◌else◌, ◌>>=◌, drop,
  is_empty, head_or, eq_bytes,
}
use archspec.Text.{is_space, trim_start, trim, c_str, lower_copy}

-- `UINT64_MAX + 1`, `INT64_MAX + 1` and `UINT32_MAX + 1`
abbrev pub u64_mod : ℕ
u64_mod = 2 ^ 64

abbrev pub i64_half : ℕ
i64_half = 2 ^ 63

abbrev pub u32_mod : ℕ
u32_mod = 2 ^ 32

-- The value of a byte as a digit; 36 where it is none in any base.
unfoldable pub digit_value : ℕ → ℕ
digit_value c =
    if leb b'0' c && leb c b'9'
    then c - b'0'
    else if leb b'a' c && leb c b'z'
    then c - b'a' + 10
    else if leb b'A' c && leb c b'Z'
    then c - b'A' + 10
    else 36

abbrev pub is_digit : ℕ → ℕ → Bool
is_digit base c = ltb (digit_value c) base

-- the digits in front of a text, behind those that make `n`
unfoldable pub scan_digits : ℕ → Bytes → ℕ → ℕ × Bytes
unfolding digit_value
scan_digits base [] n = (n, [])
scan_digits base (c ∷ s) n =
    if is_digit base c then scan_digits base s (n * base + digit_value c) else (n, c ∷ s)

unfoldable pub hex_follows : Bytes → Bool
unfolding digit_value
hex_follows (x ∷ d ∷ s) = (x == b'x' || x == b'X') && is_digit 16 d
hex_follows _ = false

-- the base that the argument 0 stands for, and the digits behind its prefix
unfoldable pub detect_base : Bytes → ℕ × Bytes
unfolding hex_follows
detect_base [] = (10, [])
detect_base (c ∷ s) =
    if c == b'0' then (if hex_follows s then (16, drop 1 s) else (8, c ∷ s)) else (10, c ∷ s)

unfoldable pub sign : Bytes → Bool × Bytes
sign [] = (false, [])
sign (c ∷ s) = if c == b'-' then (true, s) else if c == b'+' then (false, s) else (false, c ∷ s)

-- what `strtoull` and `strtoll` read, before they test the range
pub record Conversion : Type 0 where
  pub negative : Bool
  pub magnitude : ℕ
  pub rest : Bytes

unfoldable pub convert_digits : Bool → ℕ → Bytes → Option Conversion
unfolding scan_digits
convert_digits negative base [] = none
convert_digits negative base (c ∷ s) =
    let (n, rest) = scan_digits base (c ∷ s) 0 in
    if is_digit base c
    then some (record { negative = negative; magnitude = n; rest = rest })
    else none

-- `strtoull(s, &end, base)`; `none` where it converts nothing, `end == s`
unfoldable pub strto : ℕ → Bytes → Option Conversion
unfolding detect_base sign trim_start convert_digits
strto base s =
    let (negative, unsigned) = sign (trim_start s) in
    let (radix, digits) = if base == 0 then detect_base unsigned else (base, unsigned) in
    convert_digits negative radix digits

unfoldable pub all_space : Bytes → Bool
all_space [] = true
all_space (c ∷ s) = is_space c && all_space s

-- `-m` in 64 bits
abbrev pub u64_of : Conversion → ℕ
u64_of r = if r.negative then (u64_mod - r.magnitude) % u64_mod else r.magnitude

unfoldable pub parse_u64 : Bytes → Option ℕ
parse_u64 text =
    let trimmed = trim text in
    if is_empty trimmed || head_or trimmed 0 == b'-'
    then none
    else strto 0 (c_str trimmed) >>= λ r.
        if leb u64_mod r.magnitude || not (all_space r.rest) then none else some (u64_of r)

-- `errno == ERANGE` of `strtoll`
abbrev pub i64_overflows : Conversion → Bool
i64_overflows r = if r.negative then ltb i64_half r.magnitude else leb i64_half r.magnitude

unfoldable pub negate : ℕ → ℤ
negate zero = pos 0
negate (suc n) = negsuc n

unfoldable pub parse_i64 : Bytes → Option ℤ
parse_i64 text =
    let trimmed = trim text in
    if is_empty trimmed
    then none
    else strto 0 (c_str trimmed) >>= λ r.
        if i64_overflows r || not (all_space r.rest)
        then none
        else some (if r.negative then negate r.magnitude else pos r.magnitude)

-- the multiplier of a size's suffix
unfoldable pub suffix_multiplier : Bytes → Option ℕ
unfolding eq_bytes
suffix_multiplier suffix =
    if eq_bytes suffix (codes "k") || eq_bytes suffix (codes "kb") || eq_bytes suffix (codes "kib")
    then some 1024
    else if eq_bytes suffix (codes "m")
        || eq_bytes suffix (codes "mb")
        || eq_bytes suffix (codes "mib")
    then some (1024 * 1024)
    else if eq_bytes suffix (codes "g")
        || eq_bytes suffix (codes "gb")
        || eq_bytes suffix (codes "gib")
    then some (1024 * 1024 * 1024)
    else if not (is_empty suffix) && not (eq_bytes suffix (codes "b"))
    then none
    else some 1

unfoldable pub parse_size_bytes : Bytes → Option ℕ
parse_size_bytes text =
    let value = trim text in
    if is_empty value || head_or value 0 == b'-'
    then none
    else strto 10 (c_str value) >>= λ r.
        if leb u64_mod r.magnitude
        then none
        else suffix_multiplier (lower_copy (trim r.rest)) >>= λ multiplier.
            if ltb ((u64_mod - 1) / multiplier) (u64_of r)
            then none
            else some (u64_of r * multiplier % u64_mod)

-- Each round takes the last digit. The number itself is fuel enough: it has no more digits.
unfoldable pub decimal_loop : ℕ → ℕ → Bytes → Bytes
decimal_loop zero n out = out
decimal_loop (suc fuel) n out =
    let rest = decimal_loop fuel (n / 10) ((b'0' + n % 10) ∷ out) in if n == 0 then out else rest

-- `std::to_string(n)`
unfoldable pub to_decimal : ℕ → Bytes
unfolding decimal_loop
to_decimal n = if n == 0 then codes "0" else decimal_loop n n []

-- `out << n` for an `int64_t`
unfoldable pub int_to_decimal : ℤ → Bytes
int_to_decimal (pos n) = to_decimal n
int_to_decimal (negsuc n) = b'-' ∷ to_decimal (suc n)
