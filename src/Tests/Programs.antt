-- ===== src/Tests/Programs.antt =====
-- The command line, the Python binding and the summary program on a small host.
use archspec.Base.{
  ◌≡◌, ◌⊎◌, refl, arith, true, false, List, [], ◌∷◌, ◌++◌, some, none, codes, contains, ◌||◌, arith,
  eq_bytes,
}
use archspec.Collect.Collector.{collect_report}
use archspec.Json.Report.Document.{report_tree}
use archspec.Json.Report.System.{system_info_tree}
use archspec.Cli.{usage_error, show_help, show_capabilities}
use archspec.Cli.Print.{newline}
use archspec.Cli.Run.{main}
use archspec.Cli.Run.Laws.{IsDocument}
use archspec.Cli.Run.Json.{main-json}
use archspec.Cli.Refused.{
  Valued, format, categories, procfs_root, sysfs_root, etc_root, dev_root, IsMistake,
  unknown_option, valued_name, complaint, main-mistaken,
}
use archspec.Python.{Event, set_error, runtime_error}
use archspec.Cli.Spelled.{
  Choice, json, only, procfs_root, spelled_all, apply_all, main_args-spelled,
}
use archspec.Python.{succeed}
use archspec.Python.Call.{native_parse_categories, options_of, collect_json, nothing, exception}
use archspec.Python.Names.{asked, native_parse_categories-names}
use archspec.Python.Agreement.{native_parse_categories-command_line}
use archspec.Python.Replay.{replay, raises}
use archspec.Python.Replay.Calls.{held, is_none}
use archspec.Python.Replay.Json.{accepted, replay-collect_json, collect_json_misuse}
use archspec.Summary.{summary_main}
use archspec.Summary.Laws.{summary_main-json, summarised}
use archspec.Tests.Samples.{sample_host, sample_python, sample_arguments}
use archspec.Report.Field.{nat_default, list_default}
use archspec.Report.Options.{os, net, cache, CollectOptions, has_category, union}
use archspec.Text.{basename, join_path, unquote_value, lower_copy, trim, lines}
use archspec.Cli.{Settings, initial_settings, main_args, report, parse_categories, good}
use archspec.Cli.Laws.{parse_categories-names, category_name}

abbrev json_settings : Settings
json_settings = record initial_settings { json = true }

json_args : main_args (codes "--json" ∷ []) ≡ report json_settings
unfolding main_args archspec.Cli.parse_args archspec.Cli.action_of eq_bytes
json_args = refl

json_args_private : contains (codes "--json" ∷ []) (codes "--include-sensitive") ≡ false
unfolding contains eq_bytes
json_args_private = refl

parsed_categories : parse_categories (codes "os,net") ≡ good 513
unfolding parse_categories archspec.Cli.categories_loop archspec.Cli.find_category eq_bytes lines
    union archspec.Text.extend_line
parsed_categories = refl

parse_categories-names_example :
    has_category 513 cache
    ≡ eq_bytes (codes "os,net") (codes "all")
      || contains (lines b',' (codes "os,net")) (category_name cache)
parse_categories-names_example = parse_categories-names (codes "os,net") 513 cache parsed_categories

abbrev some_choices : List Choice
some_choices = only os (net ∷ []) ∷ procfs_root (codes "/tmp") ∷ json ∷ []

main_args-spelled_example :
    (main_args (spelled_all some_choices) ≡ report (apply_all some_choices initial_settings))
    × (main_args (spelled_all some_choices ++ codes "--help" ∷ codes "-x" ∷ []) ≡ show_help)
main_args-spelled_example = main_args-spelled some_choices (codes "-x" ∷ [])

os_and_net : (native_parse_categories sample_python sample_arguments.categories).result ≡ some 513
unfolding native_parse_categories archspec.Python.Call.item_loop archspec.Python.Call.named_item
    archspec.Python.parse_category_name archspec.Python.add_category eq_bytes archspec.Text.c_str
    union
os_and_net = refl

native_parse_categories-command_line_example :
    native_parse_categories sample_python (some (codes "os,net" ∷ [])) ≡ succeed 513
native_parse_categories-command_line_example =
    native_parse_categories-command_line sample_python (codes "os,net" ∷ []) (codes "os,net") 513
      refl refl refl (ground arith) refl parsed_categories

replay-collect_json_example :
    (replay
        (collect_json sample_python sample_host nothing (some sample_arguments)).events
        (held 0 0)
      ≡ some (held 0 0))
    × (raises (collect_json sample_python sample_host nothing (some sample_arguments)).events
        ≡ is_none (collect_json sample_python sample_host nothing (some sample_arguments)).result)
replay-collect_json_example =
    replay-collect_json sample_python sample_host (some sample_arguments) 0 0

summary_main-json_example :
    IsDocument
      (summary_main (codes "--json" ∷ []) sample_host)
      (system_info_tree (summarised sample_host))
summary_main-json_example = summary_main-json [] sample_host

main-json_example :
    let run = main (spelled_all some_choices) sample_host in
    IsDocument run.stdout
      (report_tree (collect_report sample_host (apply_all some_choices initial_settings).options))
    × ((run.stderr ≡ []) × (run.status ≡ 0))
main-json_example =
    main-json (only os (net ∷ []) ∷ procfs_root (codes "/tmp") ∷ []) [] sample_host tt

unknown_switch : IsMistake (unknown_option (codes "-x"))
unfolding eq_bytes
unknown_switch =
    ((refl, (refl, (refl, (refl, (refl, (refl, (refl, (refl, (refl, (refl, tt)))))))))), unvalued)
  where
    unvalued : (option : Valued) → eq_bytes (codes "-x") (codes (valued_name option)) ≡ false
    unvalued format = refl
    unvalued categories = refl
    unvalued procfs_root = refl
    unvalued sysfs_root = refl
    unvalued etc_root = refl
    unvalued dev_root = refl

main-mistaken_example :
    (main (spelled_all some_choices ++ codes "-x" ∷ []) sample_host ≡ record {
      stdout = [];
      stderr = codes "archspec-inspect: " ++ (complaint (unknown_option (codes "-x")) ++ newline);
      status = 2;
    })
    × (((main (spelled_all some_choices) sample_host).status ≡ 0)
        × ((main (spelled_all some_choices) sample_host).stderr ≡ []))
main-mistaken_example =
    main-mistaken some_choices (unknown_option (codes "-x")) [] sample_host unknown_switch

native_parse_categories-names_example :
    has_category 513 cache
    ≡ contains (asked sample_python sample_arguments.categories) (codes "all")
      || contains (asked sample_python sample_arguments.categories) (category_name cache)
native_parse_categories-names_example =
    native_parse_categories-names sample_python sample_arguments.categories 513 cache
      ((omega arith, (omega arith, tt)), ((omega arith, (omega arith, (omega arith, tt))), tt))
      os_and_net

collect_json_misuse_example :
    let call =
      collect_json sample_python sample_host
        (exception (codes "bad_alloc"))
        (some sample_arguments) in
    (call.result ≡ none)
    × (((accepted sample_python (some sample_arguments) ≡ none)
          × (replay call.events (held 0 0) ≡ some (held 0 0)))
        ⊎ ((o : CollectOptions) × (accepted sample_python (some sample_arguments) ≡ some o)
            × (before : List Event) × (call.events
                ≡ before ++ set_error runtime_error (codes "bad_alloc") ∷ [])
            × (replay before (held 0 0) ≡ some (record (held 0 0) { lock = false }))))
collect_json_misuse_example =
    collect_json_misuse sample_python sample_host (some sample_arguments)
      (exception (codes "bad_alloc")) 0 0 (λ e. absurd (ground arith))
