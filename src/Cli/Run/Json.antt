-- ===== src/Cli/Run/Json.antt =====
-- tools/archspec-inspect.cc: a run with `--json` among its arguments.
use archspec.Base.{◌≡◌, ◌≢◌, refl, true, List, [], ◌∷◌, ◌++◌, All}
use archspec.Host.{Host}
use archspec.Json.Report.{report_to_json}
use archspec.Json.Report.Document.{report_tree, read_json-report_to_json}
use archspec.Collect.Collector.{collect_report}
use archspec.Cli.{Settings, initial_settings}
use archspec.Cli.Spelled.{
  Choice, json, json_format, text_format, redact, include_sensitive, allow_perf, allow_slow,
  allow_vendor_libs, every_category, only, procfs_root, sysfs_root, etc_root, dev_root, spelled_all,
  apply, apply_all, main_args-spelled,
}
use archspec.Cli.Run.{output_of, main}
use archspec.Cli.Run.Laws.{IsDocument}

apply-json :
    (choice : Choice) (s : Settings)
    → choice ≢ text_format
    → s.json ≡ true
    → (apply choice s).json ≡ true
apply-json text_format s h e = absurd (h refl)
apply-json json s h e = refl
apply-json json_format s h e = refl
apply-json redact s h e = e
apply-json include_sensitive s h e = e
apply-json allow_perf s h e = e
apply-json allow_slow s h e = e
apply-json allow_vendor_libs s h e = e
apply-json every_category s h e = e
apply-json (only c cs) s h e = e
apply-json (procfs_root path) s h e = e
apply-json (sysfs_root path) s h e = e
apply-json (etc_root path) s h e = e
apply-json (dev_root path) s h e = e

apply_all-json :
    (after : List Choice) (s : Settings)
    → All (λ choice. choice ≢ text_format) after
    → s.json ≡ true
    → (apply_all after s).json ≡ true
apply_all-json [] s h e = e
apply_all-json (choice ∷ after) s (h, hs) e =
    apply_all-json after (apply choice s) hs (apply-json choice s h e)

apply_all-asked :
    (before after : List Choice) (s : Settings)
    → All (λ choice. choice ≢ text_format) after
    → (apply_all (before ++ json ∷ after) s).json ≡ true
apply_all-asked [] after s h = apply_all-json after (apply json s) h refl
apply_all-asked (choice ∷ before) after s h = apply_all-asked before after (apply choice s) h

-- Arguments that spell choices, with `--json` among them and no `--format text` behind it, make a
-- run that ends with status 0 and an empty error stream, and whose standard output is a document and
-- a line break; the document is read back as that of the report collected with the choices' options.
pub main-json :
    (before after : List Choice) (h : Host)
    → All (λ choice. choice ≢ text_format) after
    → let choices = before ++ json ∷ after in
      let run = main (spelled_all choices) h in
      IsDocument run.stdout
        (report_tree (collect_report h (apply_all choices initial_settings).options))
      × ((run.stderr ≡ []) × (run.status ≡ 0))
unfolding main output_of IsDocument
main-json before after h plain =
    let choices = before ++ json ∷ after in
    let collected = collect_report h (apply_all choices initial_settings).options in
    rw
      (
        (main_args-spelled choices []).0,
        output_of,
        apply_all-asked before after initial_settings plain,
      )
      ((report_to_json collected, refl, read_json-report_to_json collected), (refl, refl))
