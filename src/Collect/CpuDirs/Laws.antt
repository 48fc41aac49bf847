-- ===== src/Collect/CpuDirs/Laws.antt =====
-- src/cpu.cc and src/cache.cc: the directories of the processors.
use archspec.Base.{
  ◌≡◌, ℕ, ◌<◌, ◌≤◌, ◌&&◌, ◌||◌, ◌==◌, Bool, true, false, List, [], ◌∷◌, Bytes, none, some, All,
  Bool-cases, Option-cases, inl, inr, arith, ltb, if◌then◌else◌,
}
use archspec.Number.{parse_u64, u32_mod}
use archspec.Read.Sort.{less}
use archspec.Report.Options.{CollectOptions}
use archspec.Host.{Files}
use archspec.Collect.CpuDirs.{u32_from_text, cpu_number, insert_dir, cpu_dir_list, cpu_dirs}

pub u32_from_text_bound : (text : Bytes) {n : ℕ} → u32_from_text text ≡ some n → n < u32_mod
unfolding u32_from_text
u32_from_text_bound text {n} h = elim (Option-cases (parse_u64 text)) [
  | inl e ↦ absurd (ground arith)
  | inr (v, e) ↦ ground arith
]

number_behind :
    (b : Bool) (rest : Bytes) {n : ℕ}
    → (if b then elim rest [ [] ↦ none | c ∷ s ↦ u32_from_text (c ∷ s) ] else none) ≡ some n
    → n < u32_mod
number_behind false rest h = absurd (ground arith)
number_behind true [] h = absurd (ground arith)
number_behind true (c ∷ s) h = u32_from_text_bound (c ∷ s) h

cpu_number_bound : (name : Bytes) {n : ℕ} → cpu_number name ≡ some n → n < u32_mod
unfolding cpu_number
cpu_number_bound name h = number_behind _ _ h

-- The directories of processors with numbers of 32 bits.
abbrev pub HasU32 : ℕ × Bytes → Type 0
HasU32 dir = dir.0 < u32_mod

-- The numbers ascend from a given one.
abbrev pub Ascends : ℕ → List (ℕ × Bytes) → Type 0
Ascends n [] = Unit
Ascends n ((i, p) ∷ dirs) = (n ≤ i) × Ascends i dirs

insert_dir-HasU32 :
    (id : ℕ) (path : Bytes) (dirs : List (ℕ × Bytes))
    → id < u32_mod
    → All HasU32 dirs
    → All HasU32 (insert_dir id path dirs)
unfolding insert_dir
insert_dir-HasU32 id path [] h _ = (h, tt)
insert_dir-HasU32 id path ((i, p) ∷ dirs) h (k, ks) =
    elim (Bool-cases (ltb i id || (i == id && less p path))) [
      | inl e ↦ rw (e, insert_dir) (k, insert_dir-HasU32 id path dirs h ks)
      | inr e ↦ rw (e, insert_dir) (h, (k, ks))
    ]

insert_dir-Ascends :
    (n id : ℕ) (path : Bytes) (dirs : List (ℕ × Bytes))
    → n ≤ id
    → Ascends n dirs
    → Ascends n (insert_dir id path dirs)
unfolding insert_dir
insert_dir-Ascends n id path [] h _ = (h, tt)
insert_dir-Ascends n id path ((i, p) ∷ dirs) h (k, ks) =
    elim (Bool-cases (ltb i id || (i == id && less p path))) [
      | inl e ↦ rw (e, insert_dir) (k, insert_dir-Ascends i id path dirs (ground arith) ks)
      | inr e ↦ rw (e, insert_dir) (h, (ground arith, ks))
    ]

cpu_dir_list-laws :
    (root : Bytes) (names : List Bytes)
    → Ascends 0 (cpu_dir_list root names) × All HasU32 (cpu_dir_list root names)
unfolding cpu_dir_list
cpu_dir_list-laws root [] = (tt, tt)
cpu_dir_list-laws root (name ∷ names) = elim (Option-cases (cpu_number name)) [
  | inl e ↦ rw (e, cpu_dir_list) (cpu_dir_list-laws root names)
  | inr (id, e) ↦
      let (sorted, small) = cpu_dir_list-laws root names in
      rw (e, cpu_dir_list)
        (
          insert_dir-Ascends 0 id _ _ (omega arith) sorted,
          insert_dir-HasU32 id _ _ (cpu_number_bound name e) small,
        )
]

-- The processors' directories come in ascending order of their numbers, which are numbers of 32 bits.
pub cpu_dirs-Ascends :
    (h : Files) (o : CollectOptions) → Ascends 0 (cpu_dirs h o) × All HasU32 (cpu_dirs h o)
unfolding cpu_dirs
cpu_dirs-Ascends h o = cpu_dir_list-laws _ _
