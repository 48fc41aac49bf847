-- ===== src/Text/Path.antt =====
-- src/internal.hh: `basename` behind `join_path`.
use archspec.Base.{
  ◌≡◌, ◌≢◌, refl, ap, ℕ, suc, ◌+◌, ◌-◌, false, ◌||◌, not, List, [], ◌∷◌, ◌++◌, Bytes, All, none,
  some, arith, ◌==◌, is_empty, length, take, take_prefix, drop_prefix, length-append, eq_bytes,
  Bool-cases, inl, inr, codes, append-nil,
}
use archspec.Text.{find_last, is_separator, basename, join_path}

-- A path's component: no byte of it is a separator.
abbrev pub IsComponent : Bytes → Type 0
IsComponent = All (λ c. is_separator c ≡ false)

find_last-none : (s : Bytes) → IsComponent s → find_last is_separator s ≡ none
unfolding find_last
find_last-none [] h = refl
find_last-none (c ∷ s) (h, hs) = rw (find_last-none s hs) (ground arith)

-- the last separator
find_last-separator :
    (root name : Bytes)
    → IsComponent name
    → find_last is_separator (root ++ b'/' ∷ name) ≡ some (length root)
unfolding find_last
find_last-separator [] name h = rw (find_last-none name h) refl
find_last-separator (c ∷ root) name h = rw (find_last-separator root name h) refl

-- the last byte that is no separator
find_last-ink :
    (c : ℕ) (name : Bytes)
    → IsComponent (c ∷ name)
    → find_last (λ c. not (is_separator c)) (c ∷ name) ≡ some (length name)
unfolding find_last
find_last-ink c [] (h, _) = ground arith
find_last-ink c (d ∷ name) (h, hs) = rw (find_last-ink d name hs) refl

find_last-end :
    (root : Bytes) (c : ℕ) (name : Bytes)
    → IsComponent (c ∷ name)
    → find_last (λ c. not (is_separator c)) (root ++ b'/' ∷ c ∷ name)
      ≡ some (length root + suc (length name))
unfolding find_last
find_last-end [] c name h = rw (find_last-ink c name h) (ap some (omega arith))
find_last-end (d ∷ root) c name h = rw (find_last-end root c name h) (ap some (omega arith))

take_all : {A : Type 0} (xs : List A) (n : ℕ) → n ≡ length xs → take n xs ≡ xs
take_all xs n e = rw e (rw append-nil at (take_prefix xs []))

basename-separator :
    (root : Bytes) (c : ℕ) (name : Bytes)
    → IsComponent (c ∷ name)
    → basename (root ++ b'/' ∷ c ∷ name) ≡ c ∷ name
unfolding basename
basename-separator root c name h =
    rw
      (
        filled root,
        find_last-end root c name h,
        take_all (root ++ b'/' ∷ c ∷ name) (suc (length root + suc (length name)))
            (omega (arith, length-append root (b'/' ∷ c ∷ name))),
        find_last-separator root (c ∷ name) h,
        drop_prefix root b'/' (c ∷ name),
        take_all (c ∷ name) (length root + suc (length name) - length root) (omega arith),
      )
      refl
  where
    filled : (x : Bytes) → is_empty (x ++ b'/' ∷ c ∷ name) ≡ false
    filled [] = refl
    filled (d ∷ x) = refl

-- The last component of a path that `join_path` makes is the component that it was given, if that
-- is not empty and no byte of it is a slash or a backslash.
pub basename-join_path :
    (root name : Bytes) → name ≢ [] → IsComponent name → basename (join_path root name) ≡ name
unfolding join_path
basename-join_path root [] some_byte h = absurd (some_byte refl)
basename-join_path root (c ∷ name) some_byte (hc, h) =
    elim (Bool-cases (is_empty root || eq_bytes root (codes "/"))) [
      | inl e ↦ rw (e, no_slash) (basename-separator [] c name (hc, h))
      | inr e ↦ rw (e, no_slash) (basename-separator root c name (hc, h))
    ]
  where
    no_slash : (c == b'/') ≡ false
    no_slash = ground (arith, hc)
