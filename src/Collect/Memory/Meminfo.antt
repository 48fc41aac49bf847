-- ===== src/Collect/Memory/Meminfo.antt =====
-- src/memory.cc: what the collector makes of the kernel's `meminfo`.
use archspec.Base.{
  ◌≡◌, ◌≢◌, refl, ap, ◌∙◌, ℕ, ◌<◌, false, List, [], ◌∷◌, ◌++◌, Bytes, All, Lacks, All-append, codes,
  Option, none, some, take_prefix, drop_prefix, arith, is_empty, Bool-cases, inl, inr, ◌==◌,
}
use archspec.Base.Dict.{Dict, insert, view, update, view-insert, view_empty}
use archspec.Text.{lines, trim}
use archspec.Text.Trim.{IsSpace, IsInk}
use archspec.Text.Find.{find-append}
use archspec.Text.Lines.{lines-append}
use archspec.Text.Words.{Breaks, split_words-first}
use archspec.Number.{decimal_loop, u64_mod, to_decimal}
use archspec.Number.Digits.{IsDigit, to_decimal-IsDigit, LeadsNonzero, decimal_loop-LeadsNonzero}
use archspec.Read.{read_file, proc_path}
use archspec.Report.Field.{U64Field, ok, not_found, of_value, unavailable, available, nat_default}
use archspec.Report.Options.{CollectOptions}
use archspec.Host.{Host, Files, Stream}
use archspec.Read.Scaled.{parse_u64-number}
use archspec.Collect.Memory.{
  first_number, meminfo_step, meminfo_loop, parse_meminfo_values, meminfo_field, meminfo_or_status,
  collect_memory,
}

-- A line of the file: a name, spaces, a number, and what follows it, such as ` kB`.
pub record MeminfoLine : Type 0 where
  pub name : Bytes
  pub spaces : Bytes
  pub number : ℕ
  pub unit : Bytes

abbrev amount : MeminfoLine → Bytes
amount l = l.spaces ++ (to_decimal l.number ++ l.unit)

abbrev pub print_meminfo : List MeminfoLine → Bytes
print_meminfo [] = []
print_meminfo (l ∷ ls) = (l.name ++ b':' ∷ amount l) ++ b'\n' ∷ print_meminfo ls

-- The name has no colon, the number fits 64 bits and ends its word, and nothing has a line break.
abbrev pub IsMeminfo : MeminfoLine → Type 0
IsMeminfo l =
    Lacks b':' l.name
    × Lacks b'\n' l.name
    × All IsSpace l.spaces
    × Lacks b'\n' l.spaces
    × (l.number < u64_mod)
    × Breaks l.unit
    × Lacks b'\n' l.unit

-- what the lines say, on a function from trimmed names to numbers
abbrev pub amounts : List MeminfoLine → (Bytes → Option ℕ) → Bytes → Option ℕ
amounts [] f = f
amounts (l ∷ ls) f = amounts ls (update (trim l.name) l.number f)

digits-IsInk : (s : Bytes) → All IsDigit s → All IsInk s
digits-IsInk [] _ = tt
digits-IsInk (c ∷ s) (h, hs) = (ground arith, digits-IsInk s hs)

digits-Lacks : (s : Bytes) → All IsDigit s → Lacks b'\n' s
digits-Lacks [] _ = tt
digits-Lacks (c ∷ s) (h, hs) = (ground arith, digits-Lacks s hs)

LeadsNonzero-filled : (s : Bytes) → LeadsNonzero s → is_empty s ≡ false
LeadsNonzero-filled [] h = absurd h
LeadsNonzero-filled (c ∷ s) h = refl

to_decimal-filled : (n : ℕ) → is_empty (to_decimal n) ≡ false
unfolding to_decimal
to_decimal-filled n = elim (Bool-cases (n == 0)) [
  | inl e ↦ rw (e, to_decimal) refl
  | inr e ↦
      rw (e, to_decimal)
        (LeadsNonzero-filled (decimal_loop n n [])
          (decimal_loop-LeadsNonzero n n [] (omega arith) (ground arith)))
]

first_number-amount : (l : MeminfoLine) → IsMeminfo l → first_number (amount l) ≡ some l.number
unfolding first_number
first_number-amount l (_, _, sp, _, fits, b, _) =
    let (rest, p) =
      split_words-first l.spaces (to_decimal l.number) l.unit sp
        (digits-IsInk _ (to_decimal-IsDigit l.number)) (to_decimal-filled l.number) b in
    rw (p, first_number) (parse_u64-number l.number fits)

meminfo_step-line :
    (l : MeminfoLine) (m : Dict ℕ)
    → IsMeminfo l
    → meminfo_step (l.name ++ b':' ∷ amount l) m ≡ insert (trim l.name) l.number m
unfolding meminfo_step
meminfo_step-line l m h =
    rw
      (
        find-append b':' l.name (amount l) h.0,
        meminfo_step,
        drop_prefix l.name b':' (amount l),
        first_number-amount l h,
        take_prefix l.name (b':' ∷ amount l),
      )
      refl

line-Lacks : (l : MeminfoLine) → IsMeminfo l → Lacks b'\n' (l.name ++ b':' ∷ amount l)
line-Lacks l (_, name, _, spaces, _, _, unit) =
    All-append (λ c. c ≢ b'\n') l.name _ name
      (
        ground arith,
        All-append (λ c. c ≢ b'\n') l.spaces _ spaces
            (All-append (λ c. c ≢ b'\n') (to_decimal l.number) _
              (digits-Lacks _ (to_decimal-IsDigit l.number)) unit),
      )

meminfo_loop-amounts :
    (ls : List MeminfoLine) (m : Dict ℕ)
    → All IsMeminfo ls
    → view (meminfo_loop (lines b'\n' (print_meminfo ls)) m) ≡ amounts ls (view m)
unfolding meminfo_loop lines
meminfo_loop-amounts [] m _ = refl
meminfo_loop-amounts (l ∷ ls) m (h, hs) =
    rw
      (
        lines-append b'\n' (l.name ++ b':' ∷ amount l) (print_meminfo ls) (line-Lacks l h),
        meminfo_loop,
        meminfo_step-line l m h,
      )
      (meminfo_loop-amounts ls (insert (trim l.name) l.number m) hs
        ∙ ap (amounts ls) (view-insert (trim l.name) l.number m))

-- A file of names and numbers is parsed into a map that gives every trimmed name the last of its
-- numbers, where no name has a colon, every number fits 64 bits and ends its word, and nothing has a
-- line break.
parse_meminfo_values-refines :
    (ls : List MeminfoLine)
    → All IsMeminfo ls
    → view (parse_meminfo_values (print_meminfo ls)) ≡ amounts ls (λ _. none)
unfolding parse_meminfo_values
parse_meminfo_values-refines ls h = meminfo_loop-amounts ls [] h ∙ ap (amounts ls) view_empty

-- the field for a name
abbrev pub amount_field : List MeminfoLine → Bytes → U64Field
amount_field ls name = elim (amounts ls (λ _. none) name) [
  | none ↦ unavailable not_found
  | some number ↦ of_value number
]

-- a file with these lines that can be read
abbrev pub meminfo_file : List MeminfoLine → Stream
meminfo_file ls = record {
  content = print_meminfo ls;
  bad_after_copy = false;
  bad_after_line = false;
}

meminfo_or_status-amount :
    (ls : List MeminfoLine) (name : Bytes)
    → All IsMeminfo ls
    → meminfo_or_status (record { status = ok; value = print_meminfo ls }) name
      ≡ amount_field ls name
unfolding meminfo_or_status meminfo_field available
meminfo_or_status-amount ls name h =
    ap
      (λ f. elim (f name) as (λ _. U64Field) [ none ↦ unavailable not_found | some n ↦ of_value n ])
      (parse_meminfo_values-refines ls h)

read_meminfo :
    (h : Files) (path : Bytes) (ls : List MeminfoLine)
    → h.open_file path ≡ some (meminfo_file ls)
    → read_file h path ≡ record { status = ok; value = print_meminfo ls }
unfolding read_file
read_meminfo h path ls e = rw (e, read_file) refl

-- Where the kernel's file can be read and holds names and numbers, the fields for the memory, the swap
-- and the huge pages hold the last number under their name, and say `not_found` where it is missing.
-- No name has a colon, every number fits 64 bits and ends its word, and nothing has a line break.
pub collect_memory-meminfo :
    (h : Host) (o : CollectOptions) (ls : List MeminfoLine)
    → h.files.open_file (proc_path o (codes "/meminfo")) ≡ some (meminfo_file ls)
    → All IsMeminfo ls
    → ((collect_memory h o).total_kb ≡ amount_field ls (codes "MemTotal"))
      × ((collect_memory h o).free_kb ≡ amount_field ls (codes "MemFree"))
      × ((collect_memory h o).available_kb ≡ amount_field ls (codes "MemAvailable"))
      × ((collect_memory h o).buffers_kb ≡ amount_field ls (codes "Buffers"))
      × ((collect_memory h o).cached_kb ≡ amount_field ls (codes "Cached"))
      × ((collect_memory h o).swap_total_kb ≡ amount_field ls (codes "SwapTotal"))
      × ((collect_memory h o).swap_free_kb ≡ amount_field ls (codes "SwapFree"))
      × ((collect_memory h o).hugepage_size_kb ≡ amount_field ls (codes "Hugepagesize"))
      × ((collect_memory h o).hugepages_total ≡ amount_field ls (codes "HugePages_Total"))
      × ((collect_memory h o).hugepages_free ≡ amount_field ls (codes "HugePages_Free"))
unfolding collect_memory
collect_memory-meminfo h o ls e hs =
    let field : (name : Bytes)
        → meminfo_or_status (read_file h.files (proc_path o (codes "/meminfo"))) name
          ≡ amount_field ls name =
      λ name.
        ap (λ r. meminfo_or_status r name) (read_meminfo h.files _ ls e)
        ∙ meminfo_or_status-amount ls name hs in
    (
      field (codes "MemTotal"),
      field (codes "MemFree"),
      field (codes "MemAvailable"),
      field (codes "Buffers"),
      field (codes "Cached"),
      field (codes "SwapTotal"),
      field (codes "SwapFree"),
      field (codes "Hugepagesize"),
      field (codes "HugePages_Total"),
      field (codes "HugePages_Free"),
    )
