-- ===== src/CpuList/Total.antt =====
-- src/internal.hh: `cpu_list_count` on a list as the kernel prints it.
use archspec.Base.{
  ℕ, zero, suc, ◌+◌, ◌-◌, ◌<◌, ◌≤◌, ◌≡◌, ◌≢◌, refl, ◌∙◌, Option, Bool-cases, inl, inr, ltb→lt, none,
  some, arith, Bytes, length, List, [], ◌∷◌, ◌++◌, All, Lacks, append-nil, length-append,
  take_prefix, drop_prefix, ltb, if◌then◌else◌, is_empty, false, All-append,
}
use archspec.Text.{trim}
use archspec.Text.Trim.{IsInk, trim_padded}
use archspec.Text.Find.{find-append, find-Lacks}
use archspec.Number.{u64_mod, to_decimal, parse_u64}
use archspec.Number.Digits.{IsDigit, to_decimal-IsDigit}
use archspec.Number.Parse.{digits-IsInk}
use archspec.Number.RoundTrip.{parse_u64-to_decimal, to_decimal-LeadsNonzero, LeadsNonzero-length}
use archspec.CpuList.{add_token, cpu_list_loop, cpu_list_count}

-- An item of a list: a processor, or the first and the last of a range.
pub data CpuRange : Type 0 where
  single : ℕ → CpuRange
  range : ℕ → ℕ → CpuRange

abbrev pub IsRange : CpuRange → Type 0
IsRange (single n) = n < u64_mod
IsRange (range a b) = (a ≤ b) × (b < u64_mod)

abbrev pub size : CpuRange → ℕ
size (single n) = 1
size (range a b) = b - a + 1

abbrev pub total : List CpuRange → ℕ
total [] = 0
total (r ∷ rs) = size r + total rs

unfoldable pub print_range : CpuRange → Bytes
print_range (single n) = to_decimal n
print_range (range a b) = to_decimal a ++ b'-' ∷ to_decimal b

unfoldable pub print_ranges : List CpuRange → Bytes
unfolding print_range
print_ranges [] = []
print_ranges (r ∷ []) = print_range r
print_ranges (r ∷ q ∷ rs) = print_range r ++ b',' ∷ print_ranges (q ∷ rs)

-- Digits hold no byte that is no digit.
digits-Lacks : (b : ℕ) (s : Bytes) → b < b'0' → All IsDigit s → Lacks b s
digits-Lacks b [] h _ = tt
digits-Lacks b (c ∷ s) h (hc, hs) = (omega arith, digits-Lacks b s h hs)

read_back : (n : ℕ) → n < u64_mod → parse_u64 (to_decimal n) ≡ some n
read_back n h = rw append-nil at (parse_u64-to_decimal [] n [] tt h tt)

-- what a token adds, or that it does not fit
abbrev counted : ℕ → ℕ → Option ℕ
counted count n = if ltb (count + n) u64_mod then some (count + n) else none

add_token-print_range :
    (r : CpuRange) (count : ℕ)
    → IsRange r
    → count < u64_mod
    → add_token (print_range r) count ≡ counted count (size r)
unfolding add_token print_range
add_token-print_range (single n) count h hc =
    rw
      (
        find-Lacks b'-' (to_decimal n) (digits-Lacks b'-' _ (omega arith) (to_decimal-IsDigit n)),
        add_token,
        read_back n h,
      )
      (ground arith)
add_token-print_range (range a b) count h hc =
    rw
      (
        find-append b'-' (to_decimal a) (to_decimal b)
            (digits-Lacks b'-' _ (omega arith) (to_decimal-IsDigit a)),
        add_token,
        take_prefix,
        drop_prefix,
        read_back a (omega arith),
        read_back b h.1,
      )
      (ground arith)

print_range-IsInk : (r : CpuRange) → All IsInk (print_range r)
unfolding print_range
print_range-IsInk (single n) = digits-IsInk _ (to_decimal-IsDigit n)
print_range-IsInk (range a b) =
    All-append IsInk (to_decimal a) _ (digits-IsInk _ (to_decimal-IsDigit a))
      (refl, digits-IsInk _ (to_decimal-IsDigit b))

print_range-Lacks : (r : CpuRange) → Lacks b',' (print_range r)
unfolding print_range
print_range-Lacks (single n) = digits-Lacks b',' _ (omega arith) (to_decimal-IsDigit n)
print_range-Lacks (range a b) =
    All-append (λ c. c ≢ b',') (to_decimal a) _
      (digits-Lacks b',' _ (omega arith) (to_decimal-IsDigit a))
      (omega arith, digits-Lacks b',' _ (omega arith) (to_decimal-IsDigit b))

trim-print_range : (r : CpuRange) → trim (print_range r) ≡ print_range r
trim-print_range r =
    rw append-nil at (trim_padded [] (print_range r) [] tt (print_range-IsInk r) tt)

cpu_list_loop-print_ranges :
    (f count : ℕ) (r : CpuRange) (rs : List CpuRange)
    → length rs < f
    → All IsRange (r ∷ rs)
    → count < u64_mod
    → cpu_list_loop f (print_ranges (r ∷ rs)) count ≡ counted count (total (r ∷ rs))
unfolding cpu_list_loop print_ranges
cpu_list_loop-print_ranges zero count r rs h ok hc = absurd (omega arith)
cpu_list_loop-print_ranges (suc f) count r [] h ok hc =
    rw
      (
        find-Lacks b',' (print_range r) (print_range-Lacks r),
        cpu_list_loop,
        trim-print_range r,
        add_token-print_range r count ok.0 hc,
      )
      (ground arith)
cpu_list_loop-print_ranges (suc f) count r (q ∷ rs) h ok hc =
    let found = find-append b',' (print_range r) (print_ranges (q ∷ rs)) (print_range-Lacks r) in
    rw
      (
        found,
        cpu_list_loop,
        take_prefix,
        drop_prefix,
        trim-print_range r,
        add_token-print_range r count ok.0 hc,
      )
      (elim (Bool-cases (ltb (count + size r) u64_mod)) [
        | inl fits ↦ rw fits (
            cpu_list_loop-print_ranges f (count + size r) q rs (omega arith) ok.1 (ltb→lt _ _ fits)
            ∙ ground arith)
        | inr over ↦ rw over (ground arith)
      ])

print_ranges-IsInk : (rs : List CpuRange) → All IsInk (print_ranges rs)
unfolding print_ranges
print_ranges-IsInk [] = tt
print_ranges-IsInk (r ∷ []) = print_range-IsInk r
print_ranges-IsInk (r ∷ q ∷ rs) =
    All-append IsInk (print_range r) _ (print_range-IsInk r) (refl, print_ranges-IsInk (q ∷ rs))

to_decimal-ne-nil : (n : ℕ) → 0 < length (to_decimal n)
unfolding to_decimal
to_decimal-ne-nil zero = omega arith
to_decimal-ne-nil (suc n) =
    LeadsNonzero-length _ (unfold to_decimal in to_decimal-LeadsNonzero (suc n) (omega arith))

-- A list prints at least one byte for each item.
length-print_ranges : (rs : List CpuRange) → length rs ≤ length (print_ranges rs)
unfolding print_ranges
length-print_ranges [] = omega arith
length-print_ranges (single n ∷ []) = omega (arith, to_decimal-ne-nil n)
length-print_ranges (range a b ∷ []) =
    omega (arith, length-append (to_decimal a) (b'-' ∷ to_decimal b))
length-print_ranges (r ∷ q ∷ rs) = omega (
  arith,
  length-append (print_range r) (b',' ∷ print_ranges (q ∷ rs)),
  length-print_ranges (q ∷ rs),
)

nonempty : (s : Bytes) → 0 < length s → is_empty s ≡ false
nonempty [] h = absurd (omega arith)
nonempty (c ∷ s) h = refl

-- A printed list of at least one number or range, where every range ascends and every number fits
-- 64 bits, is counted as the sum of the ranges' sizes, and refused where that does not fit 64 bits.
pub cpu_list_count-print_ranges :
    (r : CpuRange) (rs : List CpuRange)
    → All IsRange (r ∷ rs)
    → cpu_list_count (print_ranges (r ∷ rs))
      ≡ (if ltb (total (r ∷ rs)) u64_mod then some (total (r ∷ rs)) else none)
unfolding cpu_list_count
cpu_list_count-print_ranges r rs ok =
    let text = print_ranges (r ∷ rs) in
    let enough = length-print_ranges (r ∷ rs) in
    rw
      (
        rw append-nil at (trim_padded [] text [] tt (print_ranges-IsInk (r ∷ rs)) tt),
        nonempty text (omega arith),
      )
      (cpu_list_loop-print_ranges (suc (length text)) 0 r rs (omega arith) ok (omega arith)
        ∙ ground arith)
