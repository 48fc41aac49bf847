-- ===== src/Cli/Names.antt =====
-- tools/archspec-inspect.cc: category lists as a user writes them.
use archspec.Base.{
  ◌≡◌, refl, false, List, [], ◌∷◌, ◌++◌, Bytes, Lacks, some, codes, eq_bytes, is_empty, arith,
}
use archspec.Text.{lines}
use archspec.Text.Lines.{lines-append, lines-Lacks}
use archspec.Report.Options.{
  CollectCategory, Category, os, cpu, isa, cache, memory, pci, gpu, perf, block, net, thermal,
  power, virtualization, platform, flag, union, no_categories,
}
use archspec.Json.Report.{category_entries}
use archspec.Cli.{good, find_category, categories_loop, parse_categories}
use archspec.Cli.Laws.{category_name}

-- the names of categories with a comma between them
abbrev pub join_names : Category → List Category → Bytes
join_names c [] = category_name c
join_names c (d ∷ ds) = category_name c ++ b',' ∷ join_names d ds

-- the set of some categories
abbrev pub union_of : List Category → CollectCategory → CollectCategory
union_of [] flags = flags
union_of (c ∷ cs) flags = union_of cs (union flags (flag c))

pub find_category-category_name :
    (c : Category) → find_category (category_name c) category_entries ≡ some c
unfolding find_category eq_bytes
find_category-category_name os = refl
find_category-category_name cpu = refl
find_category-category_name isa = refl
find_category-category_name cache = refl
find_category-category_name memory = refl
find_category-category_name pci = refl
find_category-category_name gpu = refl
find_category-category_name perf = refl
find_category-category_name block = refl
find_category-category_name net = refl
find_category-category_name thermal = refl
find_category-category_name power = refl
find_category-category_name virtualization = refl
find_category-category_name platform = refl

-- no list of names is one of the words that stand for other sets
IsOrdinary : Bytes → Type 0
IsOrdinary text =
    (eq_bytes text (codes "all") ≡ false)
    × (eq_bytes text (codes "none") ≡ false)
    × (is_empty text ≡ false)

category_name-IsOrdinary : (c : Category) → IsOrdinary (category_name c)
unfolding IsOrdinary eq_bytes
category_name-IsOrdinary os = (refl, refl, refl)
category_name-IsOrdinary cpu = (refl, refl, refl)
category_name-IsOrdinary isa = (refl, refl, refl)
category_name-IsOrdinary cache = (refl, refl, refl)
category_name-IsOrdinary memory = (refl, refl, refl)
category_name-IsOrdinary pci = (refl, refl, refl)
category_name-IsOrdinary gpu = (refl, refl, refl)
category_name-IsOrdinary perf = (refl, refl, refl)
category_name-IsOrdinary block = (refl, refl, refl)
category_name-IsOrdinary net = (refl, refl, refl)
category_name-IsOrdinary thermal = (refl, refl, refl)
category_name-IsOrdinary power = (refl, refl, refl)
category_name-IsOrdinary virtualization = (refl, refl, refl)
category_name-IsOrdinary platform = (refl, refl, refl)

category_name_comma-IsOrdinary :
    (c : Category) (rest : Bytes) → IsOrdinary (category_name c ++ b',' ∷ rest)
unfolding IsOrdinary eq_bytes
category_name_comma-IsOrdinary os rest = (refl, refl, refl)
category_name_comma-IsOrdinary cpu rest = (refl, refl, refl)
category_name_comma-IsOrdinary isa rest = (refl, refl, refl)
category_name_comma-IsOrdinary cache rest = (refl, refl, refl)
category_name_comma-IsOrdinary memory rest = (refl, refl, refl)
category_name_comma-IsOrdinary pci rest = (refl, refl, refl)
category_name_comma-IsOrdinary gpu rest = (refl, refl, refl)
category_name_comma-IsOrdinary perf rest = (refl, refl, refl)
category_name_comma-IsOrdinary block rest = (refl, refl, refl)
category_name_comma-IsOrdinary net rest = (refl, refl, refl)
category_name_comma-IsOrdinary thermal rest = (refl, refl, refl)
category_name_comma-IsOrdinary power rest = (refl, refl, refl)
category_name_comma-IsOrdinary virtualization rest = (refl, refl, refl)
category_name_comma-IsOrdinary platform rest = (refl, refl, refl)

category_name-Lacks : (c : Category) → Lacks b',' (category_name c)
category_name-Lacks os = ground arith
category_name-Lacks cpu = ground arith
category_name-Lacks isa = ground arith
category_name-Lacks cache = ground arith
category_name-Lacks memory = ground arith
category_name-Lacks pci = ground arith
category_name-Lacks gpu = ground arith
category_name-Lacks perf = ground arith
category_name-Lacks block = ground arith
category_name-Lacks net = ground arith
category_name-Lacks thermal = ground arith
category_name-Lacks power = ground arith
category_name-Lacks virtualization = ground arith
category_name-Lacks platform = ground arith

join_names-IsOrdinary : (c : Category) (cs : List Category) → IsOrdinary (join_names c cs)
join_names-IsOrdinary c [] = category_name-IsOrdinary c
join_names-IsOrdinary c (d ∷ ds) = category_name_comma-IsOrdinary c (join_names d ds)

categories_loop-join_names :
    (c : Category) (cs : List Category) (flags : CollectCategory)
    → categories_loop (lines b',' (join_names c cs)) flags ≡ good (union_of (c ∷ cs) flags)
unfolding categories_loop IsOrdinary
categories_loop-join_names c [] flags =
    rw
      (
        lines-Lacks b',' (category_name c) (category_name-Lacks c) (category_name-IsOrdinary c).2,
        categories_loop,
        find_category-category_name c,
      )
      refl
categories_loop-join_names c (d ∷ ds) flags =
    rw
      (
        lines-append b',' (category_name c) (join_names d ds) (category_name-Lacks c),
        categories_loop,
        find_category-category_name c,
      )
      (categories_loop-join_names d ds (union flags (flag c)))

pub parse_categories-join_names :
    (c : Category) (cs : List Category)
    → parse_categories (join_names c cs) ≡ good (union_of (c ∷ cs) no_categories)
unfolding parse_categories IsOrdinary
parse_categories-join_names c cs =
    let (all, none, empty) = join_names-IsOrdinary c cs in
    rw (all, none, empty) (categories_loop-join_names c cs no_categories)
