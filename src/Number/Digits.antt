-- ===== src/Number/Digits.antt =====
-- Digits: what they spell, and the decimal print.
use native.Mathlib.Decide.{ℕ_discrete}
use archspec.Base.{
  ap, ℕ, zero, suc, ◌+◌, ◌-◌, ◌*◌, ◌/◌, ◌%◌, ◌≤◌, ◌<◌, ◌≡◌, refl, [], ◌∷◌, ◌++◌, arith, Bytes, All,
}
use archspec.Number.{scan_digits, decimal_loop, to_decimal}

abbrev pub IsDigit : ℕ → Type 0
IsDigit c = (b'0' ≤ c) × (c ≤ b'9')

-- the number that decimal digits spell behind `n`, with no bound
abbrev pub value : ℕ → Bytes → ℕ
value n [] = n
value n (c ∷ s) = value (n * 10 + (c - b'0')) s

pub scan_digits-value :
    (s rest : Bytes) (n : ℕ)
    → All IsDigit s
    → scan_digits 10 (s ++ rest) n ≡ scan_digits 10 rest (value n s)
unfolding scan_digits
scan_digits-value [] rest n _ = refl
scan_digits-value (c ∷ s) rest n (h, hs) =
    ground (arith, scan_digits-value s rest (n * 10 + (c - b'0')) hs)

-- What the loop puts in front of `out`, it puts in front of the end of a text.
pub value-decimal_loop :
    (fuel n : ℕ) (out : Bytes) → n ≤ fuel → value 0 (decimal_loop fuel n out) ≡ value n out
unfolding decimal_loop
value-decimal_loop zero zero out h = refl
value-decimal_loop zero (suc n) out h = absurd (omega arith)
value-decimal_loop (suc fuel) n out h =
    ground (arith, value-decimal_loop fuel (n / 10) ((b'0' + n % 10) ∷ out))

pub decimal_loop-IsDigit :
    (fuel n : ℕ) (out : Bytes) → All IsDigit out → All IsDigit (decimal_loop fuel n out)
unfolding decimal_loop
decimal_loop-IsDigit zero n out h = h
decimal_loop-IsDigit (suc fuel) n out h =
    ground (arith, decimal_loop-IsDigit fuel (n / 10) ((b'0' + n % 10) ∷ out))

-- The text begins with a digit other than zero.
abbrev pub LeadsNonzero : Bytes → Type 0
LeadsNonzero [] = ⊥
LeadsNonzero (c ∷ s) = (b'1' ≤ c) × (c ≤ b'9')

decimal_loop-zero : (fuel : ℕ) (out : Bytes) → decimal_loop fuel 0 out ≡ out
unfolding decimal_loop
decimal_loop-zero zero out = refl
decimal_loop-zero (suc fuel) out = refl

pub decimal_loop-LeadsNonzero :
    (fuel n : ℕ) (out : Bytes) → n ≤ fuel → 0 < n → LeadsNonzero (decimal_loop fuel n out)
unfolding decimal_loop
decimal_loop-LeadsNonzero zero n out h p = absurd (omega arith)
decimal_loop-LeadsNonzero (suc fuel) n out h p = elim (ℕ_discrete (n / 10) 0) [
  | yes done ↦ ground (
    arith,
    ap (λ k. decimal_loop fuel k ((b'0' + n % 10) ∷ out)) done,
    decimal_loop-zero fuel ((b'0' + n % 10) ∷ out),
  )
  | no more ↦ ground (arith, decimal_loop-LeadsNonzero fuel (n / 10) ((b'0' + n % 10) ∷ out))
]

pub value-to_decimal : (n : ℕ) → value 0 (to_decimal n) ≡ n
unfolding to_decimal
value-to_decimal n = ground (arith, value-decimal_loop n n [])

pub to_decimal-IsDigit : (n : ℕ) → All IsDigit (to_decimal n)
unfolding to_decimal
to_decimal-IsDigit n = ground (arith, decimal_loop-IsDigit n n [] tt)
