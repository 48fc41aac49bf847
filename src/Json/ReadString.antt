-- ===== src/Json/ReadString.antt =====
-- src/json.cc: reading an escaped string.
use archspec.Number.{digit_value}
use archspec.Base.{
  ◌/◌, ◌%◌, ℕ, zero, suc, ◌<◌, ◌≤◌, ◌≡◌, refl, some, [], ◌∷◌, ◌++◌, append_assoc, arith, Bytes,
  length, length-append,
}
use archspec.Json.Writer.{hex_digit, hex4, escape_char, escape_json}
use archspec.Json.Reader.{read_hex4, read_char, read_chars, read_string}

digit_value-hex_digit : (d : ℕ) → d < 16 → digit_value (hex_digit d) ≡ d
unfolding digit_value hex_digit
digit_value-hex_digit d h = ground arith

read_hex4-hex4 : (c : ℕ) (rest : Bytes) → c < 128 → read_hex4 (hex4 c ++ rest) ≡ some (c, rest)
unfolding read_hex4
read_hex4-hex4 c rest h =
    simp
      (
        digit_value-hex_digit (c / 4096 % 16) (omega arith),
        digit_value-hex_digit (c / 256 % 16) (omega arith),
        digit_value-hex_digit (c / 16 % 16) (omega arith),
        digit_value-hex_digit (c % 16) (omega arith),
      )
      (ground arith)

read_char-escape_char :
    (c : ℕ) (rest : Bytes) → read_char (escape_char c ++ rest) ≡ some (some c, rest)
unfolding read_char escape_char
read_char-escape_char c rest = ground (arith, read_hex4-hex4 c rest)

read_chars-escape_json :
    (f : ℕ) (s rest : Bytes)
    → length s < f
    → read_chars f (escape_json s ++ b'"' ∷ rest) ≡ some (s, rest)
unfolding read_chars escape_json
read_chars-escape_json zero s rest h = absurd (omega arith)
read_chars-escape_json (suc f) [] rest h = unfold read_char in refl
read_chars-escape_json (suc f) (c ∷ s) rest h = rw (
  append_assoc,
  read_char-escape_char c (escape_json s ++ b'"' ∷ rest),
  read_chars-escape_json f s rest (omega arith),
)

length-escape_char : (c : ℕ) → 0 < length (escape_char c)
unfolding escape_char
length-escape_char c = ground arith

pub length-escape_json : (s : Bytes) → length s ≤ length (escape_json s)
unfolding escape_json
length-escape_json [] = omega arith
length-escape_json (c ∷ s) = omega (
  arith,
  length-append (escape_char c) (escape_json s),
  length-escape_char c,
  length-escape_json s,
)

-- Behind its opening quote, an escaped string is read back up to its closing quote.
pub read_string-escape_json :
    (s rest : Bytes) → read_string (escape_json s ++ b'"' ∷ rest) ≡ some (s, rest)
unfolding read_string
read_string-escape_json s rest =
    read_chars-escape_json _ s rest
      (omega (arith, length-append (escape_json s) (b'"' ∷ rest), length-escape_json s))
