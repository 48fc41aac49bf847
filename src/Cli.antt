-- ===== src/Cli.antt =====
-- tools/archspec-inspect.cc: the command line.
pub mod Laws
pub mod Names
pub mod Print
pub mod Run
pub mod Spelled
pub mod Privacy
pub mod Refused
use archspec.Base.{
  ℕ, Bool, true, false, not, ◌&&◌, ◌||◌, List, [], ◌∷◌, ◌++◌, Bytes, Option, none, some, String,
  codes, if◌then◌else◌, eq_bytes, is_empty,
}
use archspec.Text.{lines}
use archspec.Report.Options.{
  CollectCategory, Category, flag, union, no_categories, all_categories, CollectOptions,
  default_options,
}
use archspec.Json.Report.{category_entries}

-- a result, or the text of an error
pub data Parsed (A : Type 0) : Type 0 where
  good : A → Parsed A
  bad : Bytes → Parsed A

-- the entry of a name in the table `categories`
unfoldable pub find_category : Bytes → List (Category × String) → Option Category
find_category name [] = none
find_category name ((category, entry) ∷ entries) =
    if eq_bytes name (codes entry) then some category else find_category name entries

-- the loop over the names of the list
unfoldable pub categories_loop : List Bytes → CollectCategory → Parsed CollectCategory
categories_loop [] selected = good selected
categories_loop (name ∷ names) selected = elim (find_category name category_entries) [
  | none ↦ bad (codes "unknown category '" ++ (name ++ codes "'"))
  | some category ↦ categories_loop names (union selected (flag category))
]

unfoldable pub parse_categories : Bytes → Parsed CollectCategory
parse_categories text =
    if eq_bytes text (codes "all")
    then good all_categories
    else if eq_bytes text (codes "none") || is_empty text
    then bad (codes "category list must contain at least one category")
    else categories_loop (lines b',' text) no_categories

-- the variables of the loop over the arguments; `json` is `format == "json"`
pub record Settings : Type 0 where
  pub options : CollectOptions
  pub json : Bool

-- `CollectOptions options; options.include_sensitive = false; format = "text";`
abbrev pub initial_settings : Settings
initial_settings = record {
  options = record default_options { include_sensitive = false };
  json = false;
}

-- the options that take a value
pub data ValueOption : Type 0 where
  format categories procfs_root sysfs_root etc_root dev_root : ValueOption

-- how the loop ends: a text that is printed and 0, an error and 2, or the report
pub data Outcome : Type 0 where
  show_help show_version show_capabilities : Outcome
  usage_error : Bytes → Outcome
  report : Settings → Outcome

-- what an argument does
pub data Action : Type 0 where
  finish : Outcome → Action
  switch : Settings → Action
  takes : ValueOption → Action

abbrev with_options : Settings → CollectOptions → Action
with_options s o = switch (record s { options = o })

unfoldable pub action_of : Bytes → Settings → Action
action_of argument s =
    let o = s.options in
    let is = λ (text : String). eq_bytes argument (codes text) in
    if is "--help" || is "-h"
    then finish show_help
    else if is "--version"
    then finish show_version
    else if is "--capabilities"
    then finish show_capabilities
    else if is "--json"
    then switch (record s { json = true })
    else if is "--redact"
    then with_options s (record o { include_sensitive = false })
    else if is "--include-sensitive"
    then with_options s (record o { include_sensitive = true })
    else if is "--allow-perf"
    then with_options s (record o { allow_perf_open = true })
    else if is "--allow-slow"
    then with_options s (record o { allow_slow_probes = true })
    else if is "--allow-vendor-libs"
    then with_options s (record o { allow_vendor_libraries = true })
    else if is "--format"
    then takes format
    else if is "--categories"
    then takes categories
    else if is "--procfs-root"
    then takes procfs_root
    else if is "--sysfs-root"
    then takes sysfs_root
    else if is "--etc-root"
    then takes etc_root
    else if is "--dev-root"
    then takes dev_root
    else finish (usage_error (codes "unknown option '" ++ (argument ++ codes "' (try --help)")))

-- the value of an option
unfoldable pub take_option : ValueOption → Bytes → Settings → Parsed Settings
take_option format value s =
    if eq_bytes value (codes "text")
    then good (record s { json = false })
    else if eq_bytes value (codes "json")
    then good (record s { json = true })
    else bad (codes "unknown format '" ++ (value ++ codes "'"))
take_option categories value s = elim (parse_categories value) [
  | bad message ↦ bad message
  | good selected ↦ good (record s { options = record s.options { categories = selected } })
]
take_option procfs_root value s =
    good (record s { options = record s.options { procfs_root = value } })
take_option sysfs_root value s =
    good (record s { options = record s.options { sysfs_root = value } })
take_option etc_root value s = good (record s { options = record s.options { etc_root = value } })
take_option dev_root value s = good (record s { options = record s.options { dev_root = value } })

-- the loop over `argv`
unfoldable pub parse_args : List Bytes → Settings → Outcome
parse_args [] s = report s
parse_args (argument ∷ []) s = elim (action_of argument s) [
  | finish outcome ↦ outcome
  | switch t ↦ report t
  | takes option ↦ usage_error (argument ++ codes " requires a value")
]
parse_args (argument ∷ value ∷ rest) s = elim (action_of argument s) [
  | finish outcome ↦ outcome
  | switch t ↦ parse_args (value ∷ rest) t
  | takes option ↦ elim (take_option option value s) [
    | bad message ↦ usage_error message
    | good t ↦ parse_args rest t
  ]
]

-- `main` up to the collection, on the arguments behind the program's name
unfoldable pub main_args : List Bytes → Outcome
main_args args = parse_args args initial_settings

-- the exit status
unfoldable pub exit_status : Outcome → ℕ
exit_status (usage_error message) = 2
exit_status _ = 0
