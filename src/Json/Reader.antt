-- ===== src/Json/Reader.antt =====
-- A reader of JSON, as an independent description of what the writer's output means. It follows the
-- grammar of RFC 8259 without blanks, `null`, fractions and exponents, and decodes `\u` below U+0080.
use archspec.Base.{
  ℕ, zero, suc, ◌+◌, ◌*◌, Bool, true, false, not, ◌&&◌, ◌||◌, [], ◌∷◌, Option, none, some, Bytes,
  codes, ℤ, pos, ltb, ◌==◌, if◌then◌else◌, ◌>>=◌, is_empty, length, drop, head_or,
}
use archspec.Number.{is_digit, digit_value, scan_digits, negate}
use archspec.Json.Value.{Value, Items, Fields, str, num, bool, arr, obj, nil, cons, end, field}

-- the byte that four hexadecimal digits stand for
unfoldable pub read_hex4 : Bytes → Option (ℕ × Bytes)
read_hex4 (a ∷ b ∷ c ∷ d ∷ s) =
    let n = digit_value a * 4096 + digit_value b * 256 + digit_value c * 16 + digit_value d in
    if is_digit 16 a && is_digit 16 b && is_digit 16 c && is_digit 16 d && ltb n 128
    then some (n, s)
    else none
read_hex4 _ = none

-- what stands behind a backslash
unfoldable pub read_escape : Bytes → Option (ℕ × Bytes)
read_escape [] = none
read_escape (e ∷ s) =
    if e == b'"' || e == b'\\' || e == b'/'
    then some (e, s)
    else if e == b'b'
    then some (8, s)
    else if e == b'f'
    then some (12, s)
    else if e == b'n'
    then some (10, s)
    else if e == b'r'
    then some (13, s)
    else if e == b't'
    then some (9, s)
    else if e == b'u'
    then read_hex4 s
    else none

-- one character of a string: the character, or the closing quote as `none`
unfoldable pub read_char : Bytes → Option (Option ℕ × Bytes)
unfolding read_escape
read_char [] = none
read_char (c ∷ s) =
    if c == b'"'
    then some (none, s)
    else if c == b'\\'
    then (read_escape s >>= λ (e, rest). some (some e, rest))
    else if ltb c 0x20
    then none
    else some (some c, s)

-- the string up to its closing quote
unfoldable pub read_chars : ℕ → Bytes → Option (Bytes × Bytes)
read_chars zero s = none
read_chars (suc f) s = read_char s >>= λ (found, rest). elim found [
  | none ↦ some ([], rest)
  | some c ↦ read_chars f rest >>= λ (t, left). some (c ∷ t, left)
]

-- behind the opening quote
unfoldable pub read_string : Bytes → Option (Bytes × Bytes)
read_string s = read_chars (length s) s

-- A number is `0`, or digits of which the first is not `0`, behind an optional minus sign.
unfoldable pub read_digits : Bool → Bytes → Option (ℤ × Bytes)
read_digits negative [] = none
read_digits negative (c ∷ s) =
    let (n, rest) = scan_digits 10 (c ∷ s) 0 in
    if not (is_digit 10 c) || (c == b'0' && is_digit 10 (head_or s 0))
    then none
    else some (if negative then negate n else pos n, rest)

unfoldable pub read_number : Bytes → Option (ℤ × Bytes)
read_number [] = none
read_number (c ∷ s) = if c == b'-' then read_digits true s else read_digits false (c ∷ s)

-- takes a given text off the front
unfoldable pub expect : Bytes → Bytes → Option Bytes
expect [] s = some s
expect (p ∷ ps) [] = none
expect (p ∷ ps) (c ∷ s) = if c == p then expect ps s else none

-- the comma in front of all but the first
unfoldable pub read_sep : Bool → Bytes → Option Bytes
unfolding expect
read_sep first s = if first then some s else expect (b',' ∷ []) s

pub data Start : Type 0 where
  string_start array_start object_start true_start false_start number_start : Start

-- what the first byte of a value begins
unfoldable pub start_of : ℕ → Start
start_of c =
    if c == b'"'
    then string_start
    else if c == b'['
    then array_start
    else if c == b'{'
    then object_start
    else if c == b't'
    then true_start
    else if c == b'f'
    then false_start
    else number_start

unfoldable pub starts : ℕ → Bytes → Bool
starts b [] = false
starts b (c ∷ s) = c == b

unfoldable mutual
  pub read_value : ℕ → Bytes → Option (Value × Bytes)
  read_value zero s = none
  read_value (suc f) [] = none
  read_value (suc f) (c ∷ s) = elim (start_of c) [
    | string_start ↦ read_string s >>= λ (t, rest). some (str t, rest)
    | array_start ↦ read_items f true s >>= λ (xs, rest). some (arr xs, rest)
    | object_start ↦ read_fields f true s >>= λ (fs, rest). some (obj fs, rest)
    | true_start ↦ expect (codes "rue") s >>= λ rest. some (bool true, rest)
    | false_start ↦ expect (codes "alse") s >>= λ rest. some (bool false, rest)
    | number_start ↦ read_number (c ∷ s) >>= λ (n, rest). some (num n, rest)
  ]

  pub read_items : ℕ → Bool → Bytes → Option (Items × Bytes)
  read_items zero first s = none
  read_items (suc f) first s = elim (starts b']' s) [
    | true ↦ some (nil, drop 1 s)
    | false ↦ read_sep first s >>= λ s₁.
        read_value f s₁ >>= λ (v, s₂). read_items f false s₂ >>= λ (xs, s₃). some (cons v xs, s₃)
  ]

  pub read_fields : ℕ → Bool → Bytes → Option (Fields × Bytes)
  read_fields zero first s = none
  read_fields (suc f) first s = elim (starts b'}' s) [
    | true ↦ some (end, drop 1 s)
    | false ↦ read_sep first s >>= λ s₁. expect (b'"' ∷ []) s₁ >>= λ s₂.
        read_string s₂ >>= λ (k, s₃). expect (b':' ∷ []) s₃ >>= λ s₄. read_value f s₄ >>= λ (v, s₅).
        read_fields f false s₅ >>= λ (fs, s₆). some (field k v fs, s₆)
  ]

-- The whole text is one value.
unfoldable pub read_json : Bytes → Option Value
read_json s = read_value (suc (length s)) s >>= λ (v, rest). if is_empty rest then some v else none
