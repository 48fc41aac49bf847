-- ===== src/Python/Names.antt =====
-- src/python/archspec_inspect/_native.cc: which categories the names of a call select.
use archspec.Base.{
  ◌≢◌, ℕ, ◌==◌, All, Lacks, subst, ◌≡◌, ◌⊎◌, refl, ap, ◌∙◌, sym, suc, Bool, true, false, ◌||◌, List,
  [], ◌∷◌, Bytes, Option, none, some, String, codes, if◌then◌else◌, contains, eq_bytes, length,
  Bool-cases, Option-cases, inl, inr, arith,
}
use archspec.Text.{c_str, extend_line}
use archspec.Text.Find.{c_str-Lacks}
use archspec.Report.Options.{
  CollectCategory, Category, flag, union, all_categories, no_categories, has_category,
}
use archspec.Report.Options.Bits.{has_category-union}
use archspec.Json.Report.{category_entries}
use archspec.Cli.{find_category}
use archspec.Cli.Laws.{category_name, has_category-flag, has_category-constants, find_category-name}
use archspec.Python.{Interpreter, native_categories, add_category, parse_category_name}
use archspec.Python.Call.{item_loop, named_item, native_parse_categories}
use archspec.Python.Trace.{>>-result}
use archspec.Text.Pieces.{pieces}
use archspec.Python.Pieces.{name_loop, comma_loop-pieces}

abbrev all_name : Bytes
all_name = codes "all"

add_category-find :
    (name : Bytes) (entries : List (Category × String)) (flags : CollectCategory)
    → add_category name entries flags
      ≡ elim (find_category name entries) [ none ↦ none | some d ↦ some (union flags (flag d)) ]
unfolding add_category find_category
add_category-find name [] flags = refl
add_category-find name ((d, entry) ∷ entries) flags =
    elim (Bool-cases (eq_bytes name (codes entry))) [
      | inl e ↦ rw (e) refl
      | inr e ↦ rw (e) (add_category-find name entries flags)
    ]

-- A name that is accepted is `all`, or the name of a category.
parse_category_name-cases :
    (name : Bytes) (flags r : CollectCategory)
    → (parse_category_name name flags).result ≡ some r
    → ((eq_bytes name all_name ≡ true) × (r ≡ all_categories))
      ⊎ ((d : Category) × (eq_bytes name all_name ≡ false)
          × (name ≡ category_name d)
          × (r ≡ union flags (flag d)))
unfolding parse_category_name
parse_category_name-cases name flags r h = elim (Bool-cases (eq_bytes name all_name)) [
  | inl q ↦ inl (q, ground arith)
  | inr q ↦ elim (Option-cases (find_category name category_entries)) [
    | inl e ↦ absurd (ground (arith, add_category-find name native_categories flags))
    | inr (d, e) ↦ inr (
      d,
      q,
      find_category-name name e,
      ground (arith, add_category-find name native_categories flags),
    )
  ]
]

pub name_loop-names :
    (names : List Bytes) (flags r : CollectCategory) (c : Category)
    → (name_loop names flags).result ≡ some r
    → has_category r c
      ≡ has_category flags c || (contains names all_name || contains names (category_name c))
unfolding name_loop contains
name_loop-names [] flags r c h = ground arith
name_loop-names (name ∷ names) flags r c h =
    let (selected, p, q) = >>-result (parse_category_name name flags) _ h in
    let names_after = name_loop-names names selected r c q in
    elim (parse_category_name-cases name flags selected p) [
      | inl (all, e) ↦ ground (arith, has_category-constants c)
      | inr (d, other, e, s) ↦
          ground (arith, has_category-union flags (flag d) c, has_category-flag d c)
    ]

-- the items of an iterable, each up to its first NUL
abbrev cut_items : (py : Interpreter) → List py.Object → List Bytes
cut_items py [] = []
cut_items py (item ∷ items) = elim (py.as_utf8 item) [
  | none ↦ cut_items py items
  | some name ↦ c_str name ∷ cut_items py items
]

item_loop-name_loop :
    (py : Interpreter) (items : List py.Object) (failed : Bool) (flags r : CollectCategory)
    → (item_loop py items failed flags).result ≡ some r
    → (name_loop (cut_items py items) flags).result ≡ some r
unfolding item_loop named_item name_loop
item_loop-name_loop py [] failed flags r h = ground arith
item_loop-name_loop py (item ∷ items) failed flags r h = elim (Bool-cases (py.is_unicode item)) [
  | inl u ↦ elim (Option-cases (py.as_utf8 item)) [
    | inl e ↦ absurd (ground arith)
    | inr (name, e) ↦ elim (Option-cases (parse_category_name (c_str name) flags).result) [
      | inl p ↦ absurd (ground arith)
      | inr (selected, p) ↦
          rw (e, cut_items, name_loop, p)
            (item_loop-name_loop py items failed selected r (ground arith))
    ]
  ]
  | inr u ↦ absurd (ground arith)
]

-- the names that the call reads, which `c_str` cuts at a NUL
abbrev cut : (py : Interpreter) → Option py.Object → List Bytes
cut py none = all_name ∷ []
cut py (some value) =
    if py.is_none value
    then all_name ∷ []
    else if py.is_unicode value
    then elim (py.as_utf8 value) [ none ↦ [] | some text ↦ pieces (c_str text) ]
    else elim (py.iterate value) [ none ↦ [] | some (items, _) ↦ cut_items py items ]

cut-name_loop :
    (py : Interpreter) (value : Option py.Object) (r : CollectCategory)
    → (native_parse_categories py value).result ≡ some r
    → (name_loop (cut py value) no_categories).result ≡ some r
unfolding native_parse_categories name_loop parse_category_name eq_bytes
cut-name_loop py none r h = h
cut-name_loop py (some value) r h = elim (Bool-cases (py.is_none value)) [
  | inl e ↦ rw (e, name_loop) (ground arith)
  | inr e ↦ elim (Bool-cases (py.is_unicode value)) [
    | inl u ↦ elim (Option-cases (py.as_utf8 value)) [
      | inl n ↦ absurd (ground arith)
      | inr (text, t) ↦
          rw
            (
              e,
              u,
              t,
              sym (
                  comma_loop-pieces (suc (length (c_str text))) (c_str text) no_categories
                    (omega arith)),
            )
            (ground arith)
    ]
    | inr u ↦ elim (Option-cases (py.iterate value)) [
      | inl n ↦ absurd (ground arith)
      | inr ((items, failed), t) ↦
          rw (e, u, t) (item_loop-name_loop py items failed no_categories r (ground arith))
    ]
  ]
]

-- the texts that the items of an iterable are
abbrev pub item_names : (py : Interpreter) → List py.Object → List Bytes
item_names py [] = []
item_names py (item ∷ items) = elim (py.as_utf8 item) [
  | none ↦ item_names py items
  | some name ↦ name ∷ item_names py items
]

-- the names that the argument `categories` of a call holds
abbrev pub asked : (py : Interpreter) → Option py.Object → List Bytes
asked py none = all_name ∷ []
asked py (some value) =
    if py.is_none value
    then all_name ∷ []
    else if py.is_unicode value
    then elim (py.as_utf8 value) [ none ↦ [] | some text ↦ pieces text ]
    else elim (py.iterate value) [ none ↦ [] | some (items, _) ↦ item_names py items ]

extend_line-Lacks :
    (c : ℕ) (ls : List Bytes) → All (Lacks 0) (extend_line c ls) → (c ≢ 0) × All (Lacks 0) ls
unfolding extend_line
extend_line-Lacks c [] ((h, _), _) = (h, tt)
extend_line-Lacks c (l ∷ ls) ((h, hs), hls) = (h, (hs, hls))

pieces-Lacks : (s : Bytes) → All (Lacks 0) (pieces s) → Lacks 0 s
unfolding pieces
pieces-Lacks [] _ = tt
pieces-Lacks (c ∷ s) h = elim (Bool-cases (c == b',')) [
  | inl e ↦ (ground arith, pieces-Lacks s (rw e at h).1)
  | inr e ↦
      let (some_byte, rest) = extend_line-Lacks c (pieces s) (rw e at h) in
      (some_byte, pieces-Lacks s rest)
]

cut_items-item_names :
    (py : Interpreter) (items : List py.Object)
    → All (Lacks 0) (item_names py items)
    → cut_items py items ≡ item_names py items
cut_items-item_names py [] _ = refl
cut_items-item_names py (item ∷ items) h = elim (Option-cases (py.as_utf8 item)) [
  | inl e ↦ rw (e, cut_items, item_names) (cut_items-item_names py items (rw (e, item_names) at h))
  | inr (name, e) ↦
      let (plain, rest) = rw (e, item_names) at h in
      rw (e, cut_items, item_names, c_str-Lacks name plain)
        (ap (◌∷◌ name) (cut_items-item_names py items rest))
]

cut-asked :
    (py : Interpreter) (value : Option py.Object)
    → All (Lacks 0) (asked py value)
    → cut py value ≡ asked py value
cut-asked py none _ = refl
cut-asked py (some value) h = elim (Bool-cases (py.is_none value)) [
  | inl e ↦ rw e refl
  | inr e ↦ elim (Bool-cases (py.is_unicode value)) [
    | inl u ↦ elim (Option-cases (py.as_utf8 value)) [
      | inl n ↦ rw (e, u, n) refl
      | inr (text, t) ↦
          rw (e, u, t) (ap pieces (c_str-Lacks text (pieces-Lacks text (rw (e, u, t) at h))))
    ]
    | inr u ↦ elim (Option-cases (py.iterate value)) [
      | inl n ↦ rw (e, u, n) refl
      | inr ((items, failed), t) ↦ rw (e, u, t) (cut_items-item_names py items (rw (e, u, t) at h))
    ]
  ]
]

-- An accepted argument, be it nothing, a text or an iterable, in which no text holds a NUL, selects
-- a category when `all` or the category's name is one of the names it holds, and only then.
pub native_parse_categories-names :
    (py : Interpreter) (value : Option py.Object) (r : CollectCategory) (c : Category)
    → All (Lacks 0) (asked py value)
    → (native_parse_categories py value).result ≡ some r
    → has_category r c
      ≡ contains (asked py value) (codes "all") || contains (asked py value) (category_name c)
native_parse_categories-names py value r c plain h =
    let names = asked py value in
    name_loop-names names no_categories r c (
      subst (λ ns. (name_loop ns no_categories).result ≡ some r) (cut-asked py value plain)
        (cut-name_loop py value r h))
    ∙ ap (◌|| (contains names (codes "all") || contains names (category_name c)))
        (has_category-constants c).1
