-- ===== src/Python/Agreement.antt =====
-- src/python/archspec_inspect/_native.cc and tools/archspec-inspect.cc: the two readers of a category
-- list.
use archspec.Base.{
  ◌≡◌, refl, ap, ◌∙◌, ℕ, suc, Bool, true, false, List, [], ◌∷◌, Bytes, some, codes, eq_bytes,
  eq_bytes_iff, is_empty, length, Bool-cases, Option-cases, inl, inr, arith, ◌==◌, Lacks,
}
use archspec.Text.Find.{c_str-Lacks}
use archspec.Text.{lines, extend_line}
use archspec.Report.Options.{
  CollectCategory, Category, os, cpu, isa, cache, memory, pci, gpu, perf, block, net, thermal,
  power, virtualization, platform, flag, union, no_categories, all_categories,
}
use archspec.Json.Report.{category_entries}
use archspec.Cli.{good, find_category, categories_loop, parse_categories}
use archspec.Cli.Laws.{category_name, find_category-name}
use archspec.Python.{Interpreter, succeed, add_category, parse_category_name}
use archspec.Python.Call.{native_parse_categories}
use archspec.Text.Pieces.{pieces}
use archspec.Python.Pieces.{name_loop, comma_loop-pieces}

parse_category_name-category_name :
    (d : Category) (flags : CollectCategory)
    → parse_category_name (category_name d) flags ≡ succeed (union flags (flag d))
unfolding parse_category_name add_category eq_bytes
parse_category_name-category_name os flags = refl
parse_category_name-category_name cpu flags = refl
parse_category_name-category_name isa flags = refl
parse_category_name-category_name cache flags = refl
parse_category_name-category_name memory flags = refl
parse_category_name-category_name pci flags = refl
parse_category_name-category_name gpu flags = refl
parse_category_name-category_name perf flags = refl
parse_category_name-category_name block flags = refl
parse_category_name-category_name net flags = refl
parse_category_name-category_name thermal flags = refl
parse_category_name-category_name power flags = refl
parse_category_name-category_name virtualization flags = refl
parse_category_name-category_name platform flags = refl

name_loop-all : name_loop (pieces (codes "all")) no_categories ≡ succeed all_categories
unfolding name_loop pieces parse_category_name eq_bytes extend_line
name_loop-all = refl

name_loop-categories_loop :
    (names : List Bytes) (flags r : CollectCategory)
    → categories_loop names flags ≡ good r
    → name_loop names flags ≡ succeed r
unfolding name_loop categories_loop
name_loop-categories_loop [] flags r h = ground arith
name_loop-categories_loop (name ∷ names) flags r h =
    elim (Option-cases (find_category name category_entries)) [
      | inl e ↦ absurd (ground arith)
      | inr (d, e) ↦
          rw
            (
              find_category-name name e,
              parse_category_name-category_name d flags,
              name_loop-categories_loop names (union flags (flag d)) r (ground arith),
            )
            refl
    ]

-- the last byte is the given one
abbrev pub ends_in : ℕ → Bytes → Bool
ends_in b [] = false
ends_in b (c ∷ []) = c == b
ends_in b (c ∷ d ∷ s) = ends_in b (d ∷ s)

pieces-lines : (s : Bytes) → is_empty s ≡ false → ends_in b',' s ≡ false → pieces s ≡ lines b',' s
unfolding pieces lines extend_line
pieces-lines [] h e = absurd (ground arith)
pieces-lines (c ∷ []) h e = ground arith
pieces-lines (c ∷ d ∷ s) h e = ground (arith, pieces-lines (d ∷ s) refl e)

-- A category list that the command line accepts, and that does not end in a comma and holds no NUL,
-- is accepted by the Python binding as a text, without an event in the interpreter, and selects the
-- same categories.
pub native_parse_categories-command_line :
    (py : Interpreter) (value : py.Object) (text : Bytes) (r : CollectCategory)
    → py.is_none value ≡ false
    → py.is_unicode value ≡ true
    → py.as_utf8 value ≡ some text
    → Lacks 0 text
    → ends_in b',' text ≡ false
    → parse_categories text ≡ good r
    → native_parse_categories py (some value) ≡ succeed r
unfolding native_parse_categories parse_categories
native_parse_categories-command_line py value text r n u t nul comma h =
    rw
      (
        n,
        u,
        t,
        c_str-Lacks text nul,
        comma_loop-pieces (suc (length text)) text no_categories (omega arith),
      )
      (elim (Bool-cases (eq_bytes text (codes "all"))) [
        | inl e ↦
            ap (λ t. name_loop (pieces t) no_categories) ((eq_bytes_iff text (codes "all")).0 e)
            ∙ (name_loop-all ∙ ap succeed (ground arith))
        | inr e ↦
            rw (pieces-lines text (ground arith) comma)
              (name_loop-categories_loop (lines b',' text) no_categories r (ground arith))
      ])
