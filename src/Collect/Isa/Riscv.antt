-- ===== src/Collect/Isa/Riscv.antt =====
-- src/isa.cc: the extensions that an ISA string of RISC-V names.
use archspec.Base.{
  ◌≡◌, refl, ap, ◌∙◌, ℕ, Bool, true, false, ◌&&◌, ◌||◌, ◌==◌, Option, List, [], ◌∷◌, ◌++◌,
  append-nil, Bytes, none, some, codes, if◌then◌else◌, All, Lacks, take_prefix, drop, is_empty,
  head_or, Option-cases, inl, inr, arith,
}
use archspec.Text.{lower_copy, find, find_text, starts_with}
use archspec.Text.Find.{find-append, find-Lacks}
use archspec.Collect.Isa.{riscv_base, has_byte, extension_in, riscv_has_extension}

-- A width, the letters behind it and the named extensions.
pub record RiscvIsa : Type 0 where
  pub wide : Bool
  pub letters : Bytes
  pub names : List Bytes

abbrev pub print_names : List Bytes → Bytes
print_names [] = []
print_names (name ∷ more) = b'_' ∷ (name ++ print_names more)

abbrev pub print_isa : RiscvIsa → Bytes
print_isa r = codes (if r.wide then "rv64" else "rv32") ++ (r.letters ++ print_names r.names)

abbrev pub IsName : Bytes → Type 0
IsName name = (is_empty name ≡ false) × Lacks b'_' name

-- `_` stands before the names alone, and no second prefix behind the first.
abbrev pub IsIsa : RiscvIsa → Type 0
IsIsa r =
    Lacks b'_' r.letters
    × (All IsName r.names × (find_text (codes "rv32") (r.letters ++ print_names r.names) ≡ none))

abbrev pub mem : ℕ → Bytes → Bool
mem c [] = false
mem c (d ∷ s) = d == c || mem c s

abbrev pub begins_one : ℕ → List Bytes → Bool
begins_one c [] = false
begins_one c (name ∷ more) = head_or name 0 == c || begins_one c more

-- A letter is an extension where G stands for it, among the letters, or at a name's beginning.
abbrev pub has_extension : RiscvIsa → ℕ → Bool
has_extension r c =
    (mem b'g' r.letters && mem c (codes "imafd")) || mem c r.letters || begins_one c r.names

abbrev found : Option ℕ → Bool
found o = elim o [ none ↦ false | some i ↦ true ]

has_byte-mem : (c : ℕ) (s : Bytes) → has_byte c s ≡ mem c s
unfolding find
has_byte-mem c [] = refl
has_byte-mem c (d ∷ s) = elim (Option-cases (find c s)) [
  | inl e ↦ let deeper = has_byte-mem c s in ground arith
  | inr (i, e) ↦ let deeper = has_byte-mem c s in ground arith
]

found-step :
    (p : Bytes) (d : ℕ) (s : Bytes)
    → found (find_text p (d ∷ s)) ≡ starts_with (d ∷ s) p || found (find_text p s)
unfolding find_text
found-step p d s = elim (Option-cases (find_text p s)) [
  | inl e ↦ ground arith
  | inr (i, e) ↦ ground arith
]

found-skip :
    (c : ℕ) (s t : Bytes)
    → Lacks b'_' s
    → found (find_text (b'_' ∷ c ∷ []) (s ++ t)) ≡ found (find_text (b'_' ∷ c ∷ []) t)
unfolding starts_with
found-skip c [] t _ = refl
found-skip c (d ∷ s) t (h, hs) =
    let deeper = found-skip c s t hs in found-step _ d (s ++ t) ∙ ground arith

nowhere : (c : ℕ) → found (find_text (b'_' ∷ c ∷ []) []) ≡ false
unfolding find_text
nowhere c = refl

found-print_names :
    (c : ℕ) (names : List Bytes)
    → All IsName names
    → found (find_text (b'_' ∷ c ∷ []) (print_names names)) ≡ begins_one c names
unfolding starts_with
found-print_names c [] _ = nowhere c
found-print_names c ([] ∷ more) ((h, _), hs) = absurd (ground arith)
found-print_names c ((d ∷ name) ∷ more) ((_, lacks), hs) =
    found-step _ b'_' ((d ∷ name) ++ print_names more)
    ∙ let deeper = found-skip c (d ∷ name) (print_names more) lacks in
      let last = found-print_names c more hs in ground arith

riscv_base-letters :
    (letters : Bytes) (names : List Bytes)
    → Lacks b'_' letters
    → riscv_base (letters ++ print_names names) ≡ letters
unfolding riscv_base
riscv_base-letters letters [] h = rw append-nil (rw (riscv_base, find-Lacks b'_' letters h) refl)
riscv_base-letters letters (name ∷ more) h =
    rw (riscv_base, find-append b'_' letters (name ++ print_names more) h) (take_prefix letters _)

prefix-Lacks : (wide : Bool) → Lacks b'_' (codes (if wide then "rv64" else "rv32"))
prefix-Lacks true = (omega arith, (omega arith, (omega arith, (omega arith, tt))))
prefix-Lacks false = (omega arith, (omega arith, (omega arith, (omega arith, tt))))

found-print_isa :
    (r : RiscvIsa) (c : ℕ)
    → IsIsa r
    → found (find_text (b'_' ∷ c ∷ []) (print_isa r)) ≡ begins_one c r.names
found-print_isa r c (lacks, (named, _)) =
    found-skip c (codes (if r.wide then "rv64" else "rv32")) _ (prefix-Lacks r.wide)
    ∙ (found-skip c r.letters _ lacks ∙ found-print_names c r.names named)

implied-mem :
    (c : ℕ)
    → (c == b'i' || c == b'm' || c == b'a' || c == b'f' || c == b'd') ≡ mem c (codes "imafd")
implied-mem c = ground arith

extension_in-letters :
    (r : RiscvIsa) (c : ℕ)
    → IsIsa r
    → extension_in (print_isa r) (r.letters ++ print_names r.names) c ≡ has_extension r c
unfolding extension_in
extension_in-letters r c h =
    let (hl, (hn, _)) = h in
    rw
      (
        riscv_base-letters r.letters r.names hl,
        has_byte-mem b'g' r.letters,
        has_byte-mem c r.letters,
        implied-mem c,
        found-print_isa r c h,
      )
      refl

start-wide :
    (s : Bytes)
    → find_text (codes "rv32") s ≡ none
    → find_text (codes "rv32") (codes "rv64" ++ s) ≡ none
unfolding find_text starts_with
start-wide s h = rw h refl

riscv_has_extension-prefix :
    (wide : Bool) (isa s : Bytes) (c : ℕ)
    → find_text (codes "rv32") s ≡ none
    → lower_copy isa ≡ codes (if wide then "rv64" else "rv32") ++ s
    → riscv_has_extension isa c ≡ extension_in (codes (if wide then "rv64" else "rv32") ++ s) s c
unfolding riscv_has_extension find_text starts_with
riscv_has_extension-prefix true isa s c h e =
    rw (riscv_has_extension, e, start-wide s h, e)
      (ap (λ lower. extension_in lower (drop 4 lower) c) e)
riscv_has_extension-prefix false isa s c h e =
    rw (riscv_has_extension, e) (ap (λ lower. extension_in lower (drop 4 lower) c) e)

-- For an ISA string of a width, letters and named extensions, in capitals or not, a letter is
-- found exactly where it is one of the letters, one of IMAFD with G among the letters, or the
-- first of a name.
pub riscv_has_extension-print_isa :
    (r : RiscvIsa) (isa : Bytes) (c : ℕ)
    → IsIsa r
    → lower_copy isa ≡ print_isa r
    → riscv_has_extension isa c ≡ has_extension r c
riscv_has_extension-print_isa r isa c h e =
    let (_, (_, lone)) = h in
    riscv_has_extension-prefix r.wide isa (r.letters ++ print_names r.names) c lone e
    ∙ extension_in-letters r c h
