-- ===== src/Collect/CpuDirs.antt =====
-- `cpu_dirs` of src/cpu.cc and of src/cache.cc, which are one function twice.
pub mod Laws
use archspec.Base.{
  ℕ, ◌&&◌, ◌||◌, List, [], ◌∷◌, Bytes, Option, none, some, codes, if◌then◌else◌, drop, ltb, leb,
  ◌==◌,
}
use archspec.Text.{join_path, starts_with}
use archspec.Number.{parse_u64, u32_mod}
use archspec.Report.Options.{CollectOptions}
use archspec.Host.{Files}
use archspec.Read.{sys_path, list_dir}
use archspec.Read.Sort.{less}

-- a number of 32 bits, or nothing
unfoldable pub u32_from_text : Bytes → Option ℕ
u32_from_text text = elim (parse_u64 text) [
  | none ↦ none
  | some value ↦ if leb u32_mod value then none else some value
]

-- the number of a directory `cpu…`; a bare `cpu` has none, since no number is empty
unfoldable pub cpu_number : Bytes → Option ℕ
unfolding u32_from_text
cpu_number name =
    if starts_with name (codes "cpu")
    then elim (drop 3 name) [ [] ↦ none | c ∷ s ↦ u32_from_text (c ∷ s) ]
    else none

-- `std::sort` on pairs of a number and a path
unfoldable pub insert_dir : ℕ → Bytes → List (ℕ × Bytes) → List (ℕ × Bytes)
insert_dir id path [] = (id, path) ∷ []
insert_dir id path ((i, p) ∷ dirs) =
    if ltb i id || (i == id && less p path)
    then (i, p) ∷ insert_dir id path dirs
    else (id, path) ∷ (i, p) ∷ dirs

unfoldable pub cpu_dir_list : Bytes → List Bytes → List (ℕ × Bytes)
unfolding insert_dir
cpu_dir_list root [] = []
cpu_dir_list root (name ∷ names) = elim (cpu_number name) [
  | none ↦ cpu_dir_list root names
  | some id ↦ insert_dir id (join_path root name) (cpu_dir_list root names)
]

unfoldable pub cpu_dirs : Files → CollectOptions → List (ℕ × Bytes)
unfolding cpu_dir_list
cpu_dirs h o =
    let root = sys_path o (codes "/devices/system/cpu") in cpu_dir_list root (list_dir h root)
