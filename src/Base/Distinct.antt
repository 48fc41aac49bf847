-- ===== src/Base/Distinct.antt =====
-- Lists of texts without repetition.
use mathlib.Core.Path.{◌≡◌, refl}
use mathlib.Core.Bool.{true, false, ◌||◌}
use mathlib.Core.List.{List, [], ◌∷◌, ◌++◌}
use native.Mathlib.Omega.{arith}
use archspec.Base.Lists.{Bytes, eq_bytes, eq_bytes_refl, contains}

abbrev pub Distinct : List Bytes → Type 0
Distinct [] = Unit
Distinct (k ∷ ks) = (contains ks k ≡ false) × Distinct ks

pub eq_bytes_sym : (a b : Bytes) → eq_bytes a b ≡ eq_bytes b a
unfolding eq_bytes
eq_bytes_sym (x ∷ a) (y ∷ b) = ground (arith, eq_bytes_sym a b)
eq_bytes_sym [] [] = refl
eq_bytes_sym [] (y ∷ b) = refl
eq_bytes_sym (x ∷ a) [] = refl

pub contains-append :
    (xs ys : List Bytes) (a : Bytes) → contains (xs ++ ys) a ≡ contains xs a || contains ys a
unfolding contains
contains-append [] ys a = refl
contains-append (x ∷ xs) ys a = ground (arith, contains-append xs ys a)

-- A new text behind the others leaves them distinct.
pub Distinct-append :
    (ks : List Bytes) (k : Bytes) → Distinct ks → contains ks k ≡ false → Distinct (ks ++ k ∷ [])
unfolding contains
Distinct-append [] k d new = (refl, tt)
Distinct-append (x ∷ ks) k (old, d) new =
    (rw contains-append (ground (arith, eq_bytes_sym k x)), Distinct-append ks k d (ground arith))

-- Two lists with no text in common.
pub Distinct-concat :
    (xs ys : List Bytes)
    → Distinct xs
    → Distinct ys
    → ((a : Bytes) → contains ys a ≡ true → contains xs a ≡ false)
    → Distinct (xs ++ ys)
unfolding contains
Distinct-concat [] ys dx dy apart = dy
Distinct-concat (x ∷ xs) ys (new, dx) dy apart = (
  rw contains-append (ground (arith, apart x, eq_bytes_refl x)),
  Distinct-concat xs ys dx dy (λ a h. ground (arith, apart a h)),
)
