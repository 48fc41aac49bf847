-- ===== src/Report/Options/Bits.antt =====
-- include/aview.hh: the category flags as a set. The bits of a number, one by one.
use Prim.Native.Nat.{min, max, digits, bit_and-bitwise, bit_or-bitwise}
use native.Mathlib.Nat.{pow-suc}
use archspec.Base.{
  ℕ, zero, suc, ◌+◌, ◌*◌, ◌/◌, ◌%◌, ◌^◌, ◌≤◌, ◌≡◌, refl, sym, ◌∙◌, ap, arith, bit_and, bit_or, Bool,
  not, ◌||◌, ◌==◌,
}
use archspec.Report.Options.{
  Category, bit_index, union, intersection, has_category, CollectCategory,
}

-- More rounds than a number has digits change nothing.
digits_enough :
    (z : ℕ → ℕ) (f : ℕ → ℕ → ℕ) (n m a b : ℕ) → a ≤ n → a ≤ m → digits z f n a b ≡ digits z f m a b
digits_enough z f zero zero a b p q = refl
digits_enough z f zero (suc m) zero b p q = refl
digits_enough z f zero (suc m) (suc a) b p q = absurd (omega arith)
digits_enough z f (suc n) zero zero b p q = refl
digits_enough z f (suc n) zero (suc a) b p q = absurd (omega arith)
digits_enough z f (suc n) (suc m) zero b p q = refl
digits_enough z f (suc n) (suc m) (suc a) b p q =
    ap (λ d. d * 2 + f (suc a % 2) (b % 2))
      (digits_enough z f n m (suc a / 2) (b / 2) (omega arith) (omega arith))

and_step : (a b : ℕ) → bit_and a b ≡ bit_and (a / 2) (b / 2) * 2 + min (a % 2) (b % 2)
and_step zero b = omega (arith, bit_and-bitwise 0 b, bit_and-bitwise 0 (b / 2))
and_step (suc a) b =
    bit_and-bitwise (suc a) b
    ∙ ap (λ d. d * 2 + min (suc a % 2) (b % 2))
        (digits_enough (λ _. 0) min a (suc a / 2) (suc a / 2) (b / 2) (omega arith) (omega arith)
          ∙ sym (bit_and-bitwise (suc a / 2) (b / 2)))

or_step : (a b : ℕ) → bit_or a b ≡ bit_or (a / 2) (b / 2) * 2 + max (a % 2) (b % 2)
or_step zero b = omega (arith, bit_or-bitwise 0 b, bit_or-bitwise 0 (b / 2))
or_step (suc a) b =
    bit_or-bitwise (suc a) b
    ∙ ap (λ d. d * 2 + max (suc a % 2) (b % 2))
        (digits_enough (λ y. y) max a (suc a / 2) (suc a / 2) (b / 2) (omega arith) (omega arith)
          ∙ sym (bit_or-bitwise (suc a / 2) (b / 2)))

-- the bit at a place
bit : ℕ → ℕ → Bool
bit zero a = a % 2 == 1
bit (suc k) a = bit k (a / 2)

bit_and-zero : (n a : ℕ) → a ≤ n → bit_and a 0 ≡ 0
bit_and-zero n zero h = bit_and-bitwise 0 0
bit_and-zero zero (suc a) h = absurd (omega arith)
bit_and-zero (suc n) (suc a) h =
    omega (arith, and_step (suc a) 0, bit_and-zero n (suc a / 2) (omega arith))

bit_and-pow : (k a : ℕ) → not (bit_and a (2 ^ k) == 0) ≡ bit k a
unfolding bit
bit_and-pow zero a = ground (arith, and_step a 1, bit_and-zero (a / 2) (a / 2))
bit_and-pow (suc k) a = ground (arith, and_step a (2 ^ suc k), bit_and-pow k (a / 2), half, even)
  where
    half : 2 ^ suc k / 2 ≡ 2 ^ k
    half = omega (arith, pow-suc 2 k)

    even : 2 ^ suc k % 2 ≡ 0
    even = omega (arith, pow-suc 2 k)

bit-bit_or : (k a b : ℕ) → bit k (bit_or a b) ≡ bit k a || bit k b
unfolding bit
bit-bit_or zero a b = ground (arith, or_step a b)
bit-bit_or (suc k) a b = rw half (bit-bit_or k (a / 2) (b / 2))
  where
    half : bit_or a b / 2 ≡ bit_or (a / 2) (b / 2)
    half = omega (arith, or_step a b)

has_category-bit :
    (flags : CollectCategory) (c : Category) → has_category flags c ≡ bit (bit_index c) flags
unfolding has_category intersection
has_category-bit flags c = bit_and-pow (bit_index c) flags

-- A category is in the union of two sets when it is in one of them.
pub has_category-union :
    (a b : CollectCategory) (c : Category)
    → has_category (union a b) c ≡ has_category a c || has_category b c
unfolding union
has_category-union a b c =
    rw (has_category-bit, has_category-bit, has_category-bit) (bit-bit_or (bit_index c) a b)
