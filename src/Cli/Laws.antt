-- ===== src/Cli/Laws.antt =====
-- tools/archspec-inspect.cc: what the arguments select.
use archspec.Base.{
  ◌≡◌, refl, ◌∙◌, sym, ap, ℕ, zero, suc, Bool, true, false, ◌&&◌, ◌||◌, not, List, [], ◌∷◌, Bytes,
  some, String, codes, contains, eq_bytes, eq_bytes_iff, Bool-cases, Option-cases, inl, inr, arith,
  get_elem?, All,
}
use archspec.Text.{lines}
use archspec.Report.Options.{
  CollectCategory, Category, os, cpu, isa, cache, memory, pci, gpu, perf, block, net, thermal,
  power, virtualization, platform, flag, bit_index, union, intersection, no_categories,
  all_categories, has_category,
}
use archspec.Report.Options.Bits.{has_category-union}
use archspec.Json.Report.{category_entries}
use archspec.Cli.{good, find_category, categories_loop, parse_categories}

-- the name by which the command line and the report know a category
abbrev pub category_name : Category → Bytes
category_name os = codes "os"
category_name cpu = codes "cpu"
category_name isa = codes "isa"
category_name cache = codes "cache"
category_name memory = codes "memory"
category_name pci = codes "pci"
category_name gpu = codes "gpu"
category_name perf = codes "perf"
category_name block = codes "block"
category_name net = codes "net"
category_name thermal = codes "thermal"
category_name power = codes "power"
category_name virtualization = codes "virtualization"
category_name platform = codes "platform"

every_category : List Category
every_category =
    os ∷ cpu ∷ isa ∷ cache ∷ memory ∷ pci ∷ gpu ∷ perf ∷ block ∷ net ∷ thermal ∷ power
    ∷ virtualization ∷ platform ∷ []

every_category-bit_index : (c : Category) → get_elem? every_category (bit_index c) ≡ some c
unfolding every_category
every_category-bit_index os = refl
every_category-bit_index cpu = refl
every_category-bit_index isa = refl
every_category-bit_index cache = refl
every_category-bit_index memory = refl
every_category-bit_index pci = refl
every_category-bit_index gpu = refl
every_category-bit_index perf = refl
every_category-bit_index block = refl
every_category-bit_index net = refl
every_category-bit_index thermal = refl
every_category-bit_index power = refl
every_category-bit_index virtualization = refl
every_category-bit_index platform = refl

abbrev test_all : (Category → Bool) → List Category → Bool
test_all p [] = true
test_all p (c ∷ cs) = p c && test_all p cs

test_all-at :
    (p : Category → Bool) (cs : List Category) (i : ℕ) {c : Category}
    → test_all p cs ≡ true
    → get_elem? cs i ≡ some c
    → p c ≡ true
test_all-at p [] i h e = absurd (ground arith)
test_all-at p (d ∷ cs) zero h e = ground arith
test_all-at p (d ∷ cs) (suc i) h e = test_all-at p cs i (ground arith) e

abbrev same : Bool → Bool → Bool
same true b = b
same false b = not b

same_eq : (a b : Bool) → same a b ≡ true → a ≡ b
same_eq true b h = ground arith
same_eq false b h = ground arith

-- A single flag is the category of one name.
flag_table :
    test_all
      (λ c.
        test_all
          (λ d. same (has_category (flag c) d) (eq_bytes (category_name c) (category_name d)))
          every_category)
      every_category
    ≡ true
unfolding has_category intersection eq_bytes every_category
flag_table = refl

pub has_category-flag :
    (c d : Category) → has_category (flag c) d ≡ eq_bytes (category_name c) (category_name d)
has_category-flag c d = same_eq _ _ (
    test_all-at _ every_category (bit_index d)
      (test_all-at
        (λ c.
          test_all
            (λ d. same (has_category (flag c) d) (eq_bytes (category_name c) (category_name d)))
            every_category)
        every_category (bit_index c) flag_table (every_category-bit_index c))
      (every_category-bit_index d))

Named : Category × String → Type 0
Named entry = codes entry.1 ≡ category_name entry.0

find_category-Named :
    (name : Bytes) (entries : List (Category × String)) {c : Category}
    → All Named entries
    → find_category name entries ≡ some c
    → name ≡ category_name c
unfolding find_category Named
find_category-Named name [] h e = absurd (ground arith)
find_category-Named name ((d, entry) ∷ entries) (n, ns) e =
    elim (Bool-cases (eq_bytes name (codes entry))) [
      | inl p ↦ (eq_bytes_iff name (codes entry)).0 p ∙ (n ∙ ground arith)
      | inr p ↦ find_category-Named name entries ns (ground arith)
    ]

category_entries-Named : All Named category_entries
unfolding Named
category_entries-Named = (
  refl,
  (
    refl,
    (
      refl,
      (refl, (refl, (refl, (refl, (refl, (refl, (refl, (refl, (refl, (refl, (refl, tt))))))))))),
    ),
  ),
)

pub find_category-name :
    (name : Bytes) {c : Category}
    → find_category name category_entries ≡ some c
    → name ≡ category_name c
find_category-name name h = find_category-Named name category_entries category_entries-Named h

pub join : (r u s f m n : Bool) → r ≡ u || m → u ≡ s || f → f ≡ n → r ≡ s || (n || m)
join r u s f m n p q e = ground arith

-- An accepted list adds the categories that it names, and no others.
categories_loop-names :
    (names : List Bytes) (selected r : CollectCategory) (c : Category)
    → categories_loop names selected ≡ good r
    → has_category r c ≡ has_category selected c || contains names (category_name c)
unfolding categories_loop contains
categories_loop-names [] selected r c h = ground arith
categories_loop-names (name ∷ names) selected r c h =
    elim (Option-cases (find_category name category_entries)) [
      | inl e ↦ absurd (ground arith)
      | inr (d, e) ↦
          join _ _ _ _ _ _
            (categories_loop-names names (union selected (flag d)) r c (ground arith))
            (has_category-union selected (flag d) c)
            (has_category-flag d c
              ∙ ap (λ n. eq_bytes n (category_name c)) (sym (find_category-name name e)))
    ]

-- Every category is in `all`, and none in `none`.
all_table :
    test_all
      (λ c. has_category all_categories c && not (has_category no_categories c))
      every_category
    ≡ true
unfolding has_category intersection every_category
all_table = refl

pub has_category-constants :
    (c : Category) → (has_category all_categories c ≡ true) × (has_category no_categories c ≡ false)
has_category-constants c =
    let row = test_all-at _ every_category (bit_index c) all_table (every_category-bit_index c) in
    ground (arith, row)

-- An accepted category list selects a category when it is `all`, or when one of its parts between
-- commas is the category's name, and only then.
pub parse_categories-names :
    (text : Bytes) (r : CollectCategory) (c : Category)
    → parse_categories text ≡ good r
    → has_category r c ≡ eq_bytes text (codes "all") || contains (lines b',' text) (category_name c)
unfolding parse_categories
parse_categories-names text r c h = elim (Bool-cases (eq_bytes text (codes "all"))) [
  | inl e ↦ rw e (ap (λ f. has_category f c) (ground arith) ∙ (has_category-constants c).0)
  | inr e ↦ rw e (
      categories_loop-names (lines b',' text) no_categories r c (ground arith)
      ∙ ap (◌|| contains (lines b',' text) (category_name c)) (has_category-constants c).1)
]
