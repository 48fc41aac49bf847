-- ===== src/Json/ReadNumber.antt =====
-- src/json.cc: reading a printed number, up to a byte that is no digit.
use archspec.Base.{
  ℕ, zero, suc, ◌<◌, ◌≡◌, refl, ◌∙◌, some, [], ◌∷◌, ◌++◌, arith, Bytes, All, true, false, ℤ, pos,
  negsuc, Bool, if◌then◌else◌,
}
use archspec.Number.{digit_value, is_digit, scan_digits, to_decimal, int_to_decimal, negate}
use archspec.Number.Digits.{
  IsDigit, value, LeadsNonzero, scan_digits-value, value-to_decimal, to_decimal-IsDigit,
}
use archspec.Number.RoundTrip.{to_decimal-LeadsNonzero}
use archspec.Json.Reader.{read_digits, read_number, number_start, start_of}

-- A number ends in front of such a text.
abbrev pub Stops : Bytes → Type 0
Stops [] = Unit
Stops (c ∷ s) = is_digit 10 c ≡ false

scan_digits-Stops : (rest : Bytes) (n : ℕ) → Stops rest → scan_digits 10 rest n ≡ (n, rest)
unfolding scan_digits
scan_digits-Stops [] n h = refl
scan_digits-Stops (c ∷ s) n h = rw h

read_digits-digits :
    (negative : Bool) (s rest : Bytes)
    → LeadsNonzero s
    → All IsDigit s
    → Stops rest
    → read_digits negative (s ++ rest)
      ≡ some (if negative then negate (value 0 s) else pos (value 0 s), rest)
unfolding read_digits digit_value
read_digits-digits negative [] rest h hs stop = absurd h
read_digits-digits negative (c ∷ s) rest h hs stop =
    let scanned =
      scan_digits-value (c ∷ s) rest 0 hs ∙ scan_digits-Stops rest (value 0 (c ∷ s)) stop in
    ground arith

read_digits-zero :
    (rest : Bytes) → Stops rest → read_digits false (to_decimal 0 ++ rest) ≡ some (pos 0, rest)
unfolding read_digits to_decimal scan_digits
read_digits-zero [] h = refl
read_digits-zero (c ∷ s) h = ground arith

unfold_zero : (rest : Bytes) → Stops rest → read_number (b'0' ∷ rest) ≡ some (pos 0, rest)
unfolding read_number to_decimal
unfold_zero rest h = read_digits-zero rest h

unsigned :
    (s rest : Bytes) {n : ℕ}
    → value 0 s ≡ n
    → LeadsNonzero s
    → All IsDigit s
    → Stops rest
    → read_number (s ++ rest) ≡ some (pos n, rest)
unfolding read_number
unsigned [] rest e h hs stop = absurd h
unsigned (c ∷ s) rest e h hs stop = ground (arith, read_digits-digits false (c ∷ s) rest h hs stop)

leading :
    (s : Bytes)
    → LeadsNonzero s
    → (c : ℕ) × (t : Bytes) × (s ≡ c ∷ t) × (start_of c ≡ number_start) × (c < b'[')
unfolding start_of
leading [] h = absurd h
leading (c ∷ s) h = (c, s, refl, ground arith, omega arith)

pub read_number-int_to_decimal :
    (n : ℤ) (rest : Bytes) → Stops rest → read_number (int_to_decimal n ++ rest) ≡ some (n, rest)
unfolding read_number int_to_decimal
read_number-int_to_decimal (pos zero) rest h = unfold to_decimal in unfold_zero rest h
read_number-int_to_decimal (pos (suc n)) rest h =
    unsigned (to_decimal (suc n)) rest (value-to_decimal (suc n))
      (to_decimal-LeadsNonzero (suc n) (omega arith)) (to_decimal-IsDigit (suc n)) h
read_number-int_to_decimal (negsuc n) rest h =
    read_digits-digits true (to_decimal (suc n)) rest
      (to_decimal-LeadsNonzero (suc n) (omega arith)) (to_decimal-IsDigit (suc n)) h
    ∙ rw (value-to_decimal (suc n)) (unfold negate in refl)

-- The first byte of a printed number begins a number, and closes no bracket.
pub number_head :
    (n : ℤ)
    → (c : ℕ) × (s : Bytes) × (int_to_decimal n ≡ c ∷ s) × (start_of c ≡ number_start) × (c < b'[')
unfolding int_to_decimal start_of
number_head (pos zero) = (b'0', [], unfold to_decimal in refl, refl, omega arith)
number_head (pos (suc n)) =
    leading (to_decimal (suc n)) (to_decimal-LeadsNonzero (suc n) (omega arith))
number_head (negsuc n) = (b'-', to_decimal (suc n), refl, refl, omega arith)
