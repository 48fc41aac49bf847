-- ===== src/Cli/Spelled.antt =====
-- tools/archspec-inspect.cc: the command lines that the program accepts, and what they ask for.
use archspec.Base.{
  ◌≡◌, refl, ◌∙◌, ap, true, false, List, [], ◌∷◌, ◌++◌, append_assoc, append-nil, sym, Bytes, codes,
  eq_bytes,
}
use archspec.Report.Options.{CollectCategory, Category, no_categories, all_categories}
use archspec.Cli.{
  Parsed, good, bad, usage_error, parse_categories, Settings, report, show_help, action_of,
  take_option, parse_args, main_args, initial_settings,
}
use archspec.Cli.Names.{join_names, union_of, parse_categories-join_names}

-- What a user can ask for, and every way to ask for it.
pub data Choice : Type 0 where
  json json_format text_format redact include_sensitive : Choice
  allow_perf allow_slow allow_vendor_libs every_category : Choice
  only : Category → List Category → Choice
  procfs_root sysfs_root etc_root dev_root : Bytes → Choice

-- the arguments that ask for a choice
abbrev pub spelled : Choice → List Bytes
spelled json = codes "--json" ∷ []
spelled json_format = codes "--format" ∷ codes "json" ∷ []
spelled text_format = codes "--format" ∷ codes "text" ∷ []
spelled redact = codes "--redact" ∷ []
spelled include_sensitive = codes "--include-sensitive" ∷ []
spelled allow_perf = codes "--allow-perf" ∷ []
spelled allow_slow = codes "--allow-slow" ∷ []
spelled allow_vendor_libs = codes "--allow-vendor-libs" ∷ []
spelled every_category = codes "--categories" ∷ codes "all" ∷ []
spelled (only c cs) = codes "--categories" ∷ join_names c cs ∷ []
spelled (procfs_root path) = codes "--procfs-root" ∷ path ∷ []
spelled (sysfs_root path) = codes "--sysfs-root" ∷ path ∷ []
spelled (etc_root path) = codes "--etc-root" ∷ path ∷ []
spelled (dev_root path) = codes "--dev-root" ∷ path ∷ []

abbrev pub spelled_all : List Choice → List Bytes
spelled_all [] = []
spelled_all (choice ∷ choices) = spelled choice ++ spelled_all choices

-- what a choice changes
abbrev pub apply : Choice → Settings → Settings
apply json s = record s { json = true }
apply json_format s = record s { json = true }
apply text_format s = record s { json = false }
apply redact s = record s { options = record s.options { include_sensitive = false } }
apply include_sensitive s = record s { options = record s.options { include_sensitive = true } }
apply allow_perf s = record s { options = record s.options { allow_perf_open = true } }
apply allow_slow s = record s { options = record s.options { allow_slow_probes = true } }
apply allow_vendor_libs s = record s {
  options = record s.options { allow_vendor_libraries = true };
}
apply every_category s = record s { options = record s.options { categories = all_categories } }
apply (only c cs) s = record s {
  options = record s.options { categories = union_of (c ∷ cs) no_categories };
}
apply (procfs_root path) s = record s { options = record s.options { procfs_root = path } }
apply (sysfs_root path) s = record s { options = record s.options { sysfs_root = path } }
apply (etc_root path) s = record s { options = record s.options { etc_root = path } }
apply (dev_root path) s = record s { options = record s.options { dev_root = path } }

-- one choice after the other
abbrev pub apply_all : List Choice → Settings → Settings
apply_all [] s = s
apply_all (choice ∷ choices) s = apply_all choices (apply choice s)

parse_args-categories :
    (text : Bytes) (r : CollectCategory) (rest : List Bytes) (s : Settings)
    → parse_categories text ≡ good r
    → parse_args (codes "--categories" ∷ text ∷ rest) s
      ≡ parse_args rest (record s { options = record s.options { categories = r } })
unfolding parse_args action_of take_option eq_bytes
parse_args-categories text r rest s e =
    ap
      (λ parsed.
        elim (elim parsed as (λ _. Parsed Settings) [
          | bad message ↦ bad message
          | good selected ↦ good (record s { options = record s.options { categories = selected } })
        ]) [ bad message ↦ usage_error message | good t ↦ parse_args rest t ])
      e

-- A choice at the front of the arguments has its effect, and the loop goes on behind it.
parse_args-step :
    (choice : Choice) (rest : List Bytes) (s : Settings)
    → parse_args (spelled choice ++ rest) s ≡ parse_args rest (apply choice s)
unfolding parse_args action_of take_option parse_categories eq_bytes
parse_args-step json [] s = refl
parse_args-step json (_ ∷ _) s = refl
parse_args-step redact [] s = refl
parse_args-step redact (_ ∷ _) s = refl
parse_args-step include_sensitive [] s = refl
parse_args-step include_sensitive (_ ∷ _) s = refl
parse_args-step allow_perf [] s = refl
parse_args-step allow_perf (_ ∷ _) s = refl
parse_args-step allow_slow [] s = refl
parse_args-step allow_slow (_ ∷ _) s = refl
parse_args-step allow_vendor_libs [] s = refl
parse_args-step allow_vendor_libs (_ ∷ _) s = refl
parse_args-step json_format rest s = refl
parse_args-step text_format rest s = refl
parse_args-step every_category rest s = refl
parse_args-step (procfs_root path) rest s = refl
parse_args-step (sysfs_root path) rest s = refl
parse_args-step (etc_root path) rest s = refl
parse_args-step (dev_root path) rest s = refl
parse_args-step (only c cs) rest s =
    parse_args-categories (join_names c cs) _ rest s (parse_categories-join_names c cs)

pub parse_args-spelled :
    (choices : List Choice) (rest : List Bytes) (s : Settings)
    → parse_args (spelled_all choices ++ rest) s ≡ parse_args rest (apply_all choices s)
parse_args-spelled [] rest s = refl
parse_args-spelled (choice ∷ choices) rest s =
    rw (append_assoc, parse_args-step choice (spelled_all choices ++ rest) s)
      (parse_args-spelled choices rest (apply choice s))

parse_args-help :
    (rest : List Bytes) (s : Settings) → parse_args (codes "--help" ∷ rest) s ≡ show_help
unfolding parse_args action_of eq_bytes
parse_args-help [] s = refl
parse_args-help (_ ∷ _) s = refl

-- Arguments that spell some choices make a report with the settings that the choices give one after
-- the other, a later one over an earlier one. Followed by `--help` and any further arguments, they
-- show the help.
pub main_args-spelled :
    (choices : List Choice) (rest : List Bytes)
    → (main_args (spelled_all choices) ≡ report (apply_all choices initial_settings))
      × (main_args (spelled_all choices ++ codes "--help" ∷ rest) ≡ show_help)
unfolding main_args parse_args
main_args-spelled choices rest = (
  ap (λ args. parse_args args initial_settings) (sym (append-nil (spelled_all choices)))
      ∙ parse_args-spelled choices [] initial_settings,
  parse_args-spelled choices (codes "--help" ∷ rest) initial_settings ∙ parse_args-help rest _,
)
