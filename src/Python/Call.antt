-- ===== src/Python/Call.antt =====
-- src/python/archspec_inspect/_native.cc: the functions of the module.
use archspec.Base.{
  ℕ, suc, Bool, not, List, [], ◌∷◌, ◌++◌, Bytes, Option, none, some, String, codes, if◌then◌else◌,
  ◌==◌, length,
}
use archspec.Text.{c_str}
use archspec.Report.Options.{
  CollectCategory, no_categories, all_categories, CollectOptions, default_options,
}
use archspec.Host.{Host}
use archspec.Collect.Collector.{collect_report}
use archspec.Json.Report.{report_to_json, version}
use archspec.Python.{
  Interpreter, value_error, type_error, runtime_error, new_iterator, drop_iterator, new_item,
  drop_item, set_error, raised, release_lock, acquire_lock, make_text, Traced, succeed, fail, after,
  ◌>>◌, parse_category_name, comma_loop,
}

-- what the collection throws
pub data Thrown : Type 0 where
  nothing something_else : Thrown
  exception : Bytes → Thrown

-- an item that is a text, and the rest of the loop
unfoldable pub named_item :
    Traced CollectCategory → (CollectCategory → Traced CollectCategory) → Traced CollectCategory
named_item parsed rest = elim parsed.result [
  | none ↦ fail (new_item ∷ (parsed.events ++ drop_item ∷ drop_iterator ∷ []))
  | some selected ↦ after (new_item ∷ (parsed.events ++ drop_item ∷ [])) (rest selected)
]

module _ (py : Interpreter) where
  -- the loop over the items of an iterator, and what follows it
  unfoldable pub item_loop : List py.Object → Bool → CollectCategory → Traced CollectCategory
  item_loop [] failed flags =
      if failed
      then fail (raised ∷ drop_iterator ∷ [])
      else if flags == no_categories
      then fail (drop_iterator ∷ set_error value_error (codes "categories must not be empty") ∷ [])
      else after (drop_iterator ∷ []) (succeed flags)
  item_loop (item ∷ items) failed flags =
      if py.is_unicode item
      then elim (py.as_utf8 item) [
        | none ↦ fail (new_item ∷ raised ∷ drop_item ∷ drop_iterator ∷ [])
        | some name ↦
            named_item (parse_category_name (c_str name) flags)
              λ selected. item_loop items failed selected
      ]
      else fail (
          new_item
          ∷ drop_item
          ∷ drop_iterator
          ∷ set_error type_error (codes "each category must be a string")
          ∷ [])

  -- `parse_categories`; `none` is `nullptr`
  unfoldable pub native_parse_categories : Option py.Object → Traced CollectCategory
  native_parse_categories none = succeed all_categories
  native_parse_categories (some value) =
      if py.is_none value
      then succeed all_categories
      else if py.is_unicode value
      then elim (py.as_utf8 value) [
        | none ↦ fail (raised ∷ [])
        | some text ↦ comma_loop (suc (length (c_str text))) (c_str text) no_categories
      ]
      else elim (py.iterate value) [
        | none ↦ fail (
            raised
            ∷ set_error type_error
                (codes "categories must be a string, iterable of strings, or None")
            ∷ [])
        | some (items, failed) ↦ after (new_iterator ∷ []) (item_loop items failed no_categories)
      ]

  unfoldable pub assign_root : Option py.Object → String → Bytes → Traced Bytes
  assign_root none argument destination = succeed destination
  assign_root (some value) argument destination =
      if py.is_none value
      then succeed destination
      else if not (py.is_unicode value)
      then fail (set_error type_error (codes argument ++ codes " must be a string or None") ∷ [])
      else elim (py.as_utf8 value) [ none ↦ fail (raised ∷ []) | some text ↦ succeed (c_str text) ]

  -- what `PyArg_ParseTupleAndKeywords` stores; `p` stores 0 or 1
  pub record Arguments : Type 0 where
    pub categories : Option py.Object
    pub include_sensitive : ℕ
    pub allow_perf_open : ℕ
    pub allow_slow_probes : ℕ
    pub allow_vendor_libraries : ℕ
    pub procfs_root : Option py.Object
    pub sysfs_root : Option py.Object
    pub etc_root : Option py.Object
    pub dev_root : Option py.Object

  -- the options of a call, up to the `try`
  unfoldable pub options_of : Arguments → Traced CollectOptions
  options_of a = native_parse_categories a.categories >> λ categories.
      assign_root a.procfs_root "procfs_root" default_options.procfs_root >> λ procfs_root.
      assign_root a.sysfs_root "sysfs_root" default_options.sysfs_root >> λ sysfs_root.
      assign_root a.etc_root "etc_root" default_options.etc_root >> λ etc_root.
      assign_root a.dev_root "dev_root" default_options.dev_root >> λ dev_root. succeed (record {
        categories = categories;
        procfs_root = procfs_root;
        sysfs_root = sysfs_root;
        etc_root = etc_root;
        dev_root = dev_root;
        allow_slow_probes = not (a.allow_slow_probes == 0);
        allow_vendor_libraries = not (a.allow_vendor_libraries == 0);
        allow_perf_open = not (a.allow_perf_open == 0);
        include_sensitive = not (a.include_sensitive == 0);
      })

  -- a call of `PyUnicode_FromStringAndSize` or `PyUnicode_FromString`
  unfoldable pub text_object : Bytes → Traced py.Object
  text_object text = elim (py.new_text text) [
    | none ↦ fail (make_text ∷ raised ∷ [])
    | some object ↦ after (make_text ∷ []) (succeed object)
  ]

  -- the `try` and its handlers
  unfoldable pub report_text : Host → Thrown → CollectOptions → Traced py.Object
  report_text h nothing o =
      after (release_lock ∷ acquire_lock ∷ []) (text_object (report_to_json (collect_report h o)))
  report_text h (exception what) o = fail (release_lock ∷ set_error runtime_error what ∷ [])
  report_text h something_else o =
      fail (release_lock ∷ set_error runtime_error (codes "archspec collection failed") ∷ [])

  -- `collect_json`; `none` where `PyArg_ParseTupleAndKeywords` refuses its arguments
  unfoldable pub collect_json : Host → Thrown → Option Arguments → Traced py.Object
  collect_json h thrown none = fail (raised ∷ [])
  collect_json h thrown (some a) = options_of a >> report_text h thrown

  -- `version`
  unfoldable pub native_version : Traced py.Object
  native_version = text_object version
