-- ===== src/Cli/Refused.antt =====
-- tools/archspec-inspect.cc: the command lines that the program refuses.
use archspec.Base.{
  ◌≡◌, refl, ◌∙◌, ap, false, List, [], ◌∷◌, ◌++◌, Bytes, String, codes, eq_bytes, All,
}
use archspec.Host.{Host}
use archspec.Cli.{
  Outcome, Parsed, good, bad, usage_error, finish, Settings, action_of, take_option, parse_args,
  parse_categories, main_args, initial_settings,
}
use archspec.Cli.Spelled.{Choice, spelled_all, apply_all, main_args-spelled, parse_args-spelled}
use archspec.Cli.Print.{newline}
use archspec.Cli.Run.{output_of, main}

-- The options that stand alone, and those that take a value.
abbrev pub switches : List String
switches =
    "--help" ∷ "-h" ∷ "--version" ∷ "--capabilities" ∷ "--json" ∷ "--redact" ∷ "--include-sensitive"
    ∷ "--allow-perf" ∷ "--allow-slow" ∷ "--allow-vendor-libs" ∷ []

pub data Valued : Type 0 where
  format categories procfs_root sysfs_root etc_root dev_root : Valued

abbrev pub valued_name : Valued → String
valued_name format = "--format"
valued_name categories = "--categories"
valued_name procfs_root = "--procfs-root"
valued_name sysfs_root = "--sysfs-root"
valued_name etc_root = "--etc-root"
valued_name dev_root = "--dev-root"

abbrev Differs : Bytes → String → Type 0
Differs text name = eq_bytes text (codes name) ≡ false

-- What a user can get wrong.
pub data Mistake : Type 0 where
  unknown_option : Bytes → Mistake
  missing_value : Valued → Mistake
  unknown_format : Bytes → Mistake
  no_category empty_categories : Mistake

-- The arguments of a mistake, before any others where it is not at the end.
abbrev pub mistaken : Mistake → List Bytes → List Bytes
mistaken (unknown_option text) rest = text ∷ rest
mistaken (missing_value option) rest = codes (valued_name option) ∷ []
mistaken (unknown_format text) rest = codes "--format" ∷ text ∷ rest
mistaken no_category rest = codes "--categories" ∷ codes "none" ∷ rest
mistaken empty_categories rest = codes "--categories" ∷ [] ∷ rest

abbrev pub IsMistake : Mistake → Type 0
IsMistake (unknown_option text) =
    All (Differs text) switches × ((option : Valued) → Differs text (valued_name option))
IsMistake (unknown_format text) = Differs text "text" × Differs text "json"
IsMistake _ = Unit

-- What the program says of a mistake.
abbrev pub complaint : Mistake → Bytes
complaint (unknown_option text) = codes "unknown option '" ++ (text ++ codes "' (try --help)")
complaint (missing_value option) = codes (valued_name option) ++ codes " requires a value"
complaint (unknown_format text) = codes "unknown format '" ++ (text ++ codes "'")
complaint no_category = codes "category list must contain at least one category"
complaint empty_categories = codes "category list must contain at least one category"

action_of-unknown :
    (text : Bytes) (s : Settings)
    → IsMistake (unknown_option text)
    → action_of text s ≡ finish (usage_error (complaint (unknown_option text)))
unfolding action_of
action_of-unknown text s (alone, valued) =
    let (h0, (h1, (h2, (h3, (h4, (h5, (h6, (h7, (h8, (h9, _)))))))))) = alone in
    rw
      (
        h0,
        h1,
        h2,
        h3,
        h4,
        h5,
        h6,
        h7,
        h8,
        h9,
        valued format,
        valued categories,
        valued procfs_root,
        valued sysfs_root,
        valued etc_root,
        valued dev_root,
      )
      refl

take_option-unknown :
    (text : Bytes) (s : Settings)
    → IsMistake (unknown_format text)
    → take_option archspec.Cli.format text s ≡ bad (complaint (unknown_format text))
unfolding take_option
take_option-unknown text s (h, j) = rw (h, j) refl

parse_args-format :
    (text : Bytes) (rest : List Bytes) (s : Settings) {message : Bytes}
    → take_option archspec.Cli.format text s ≡ bad message
    → parse_args (codes "--format" ∷ text ∷ rest) s ≡ usage_error message
unfolding parse_args action_of eq_bytes
parse_args-format text rest s e =
    ap
      (λ parsed. elim parsed as (λ _. Outcome) [
        | bad message ↦ usage_error message
        | good t ↦ parse_args rest t
      ])
      e

parse_args-mistaken :
    (m : Mistake) (rest : List Bytes) (s : Settings)
    → IsMistake m
    → parse_args (mistaken m rest) s ≡ usage_error (complaint m)
unfolding parse_args action_of take_option parse_categories eq_bytes
parse_args-mistaken (unknown_option text) [] s h = rw (parse_args, action_of-unknown text s h) refl
parse_args-mistaken (unknown_option text) (_ ∷ _) s h =
    rw (parse_args, action_of-unknown text s h) refl
parse_args-mistaken (missing_value format) rest s h = refl
parse_args-mistaken (missing_value categories) rest s h = refl
parse_args-mistaken (missing_value procfs_root) rest s h = refl
parse_args-mistaken (missing_value sysfs_root) rest s h = refl
parse_args-mistaken (missing_value etc_root) rest s h = refl
parse_args-mistaken (missing_value dev_root) rest s h = refl
parse_args-mistaken (unknown_format text) rest s wrong =
    parse_args-format text rest s (take_option-unknown text s wrong)
parse_args-mistaken no_category rest s h = refl
parse_args-mistaken empty_categories rest s h = refl

-- Behind arguments that spell choices, an unknown option, an option without its value, an unknown
-- format or an empty category list ends the run with status 2, an empty standard output and a
-- complaint on the error stream, whatever follows; without such a mistake the run ends with status
-- 0 and an empty error stream.
pub main-mistaken :
    (choices : List Choice) (m : Mistake) (rest : List Bytes) (h : Host)
    → IsMistake m
    → (main (spelled_all choices ++ mistaken m rest) h ≡ record {
      stdout = [];
      stderr = codes "archspec-inspect: " ++ (complaint m ++ newline);
      status = 2;
    })
      × (((main (spelled_all choices) h).status ≡ 0) × ((main (spelled_all choices) h).stderr ≡ []))
unfolding main output_of main_args
main-mistaken choices m rest h wrong = (
  ap (λ outcome. output_of outcome h)
      (parse_args-spelled choices (mistaken m rest) initial_settings
        ∙ parse_args-mistaken m rest (apply_all choices initial_settings) wrong),
  rw ((main_args-spelled choices []).0, output_of) (refl, refl),
)
