-- ===== src/Cli/Run.antt =====
-- tools/archspec-inspect.cc: a run of the program.
pub mod Laws
pub mod Json
use archspec.Base.{[], ◌++◌, ◌∷◌, ℕ, List, Bytes, codes, if◌then◌else◌}
use archspec.Host.{Host}
use archspec.Collect.Collector.{collect_report}
use archspec.Json.Report.{report_to_json}
use archspec.Cli.{
  Outcome, show_help, show_version, show_capabilities, usage_error, report, main_args, exit_status,
}
use archspec.Cli.Print.{newline, help_text, version_text, print_text, print_capabilities}

-- what a run writes to its two streams, and the status it ends with
pub record Output : Type 0 where
  pub stdout : Bytes
  pub stderr : Bytes
  pub status : ℕ

-- `main` from the end of its loop on
unfoldable pub output_of : Outcome → Host → Output
unfolding exit_status
output_of show_help h = record { stdout = help_text; stderr = []; status = exit_status show_help }
output_of show_version h = record {
  stdout = version_text;
  stderr = [];
  status = exit_status show_version;
}
output_of show_capabilities h = record {
  stdout = print_capabilities;
  stderr = [];
  status = exit_status show_capabilities;
}
output_of (usage_error message) h = record {
  stdout = [];
  stderr = codes "archspec-inspect: " ++ (message ++ newline);
  status = exit_status (usage_error message);
}
output_of (report s) h =
    let collected = collect_report h s.options in
    record {
      stdout = if s.json then report_to_json collected ++ newline else print_text collected;
      stderr = [];
      status = exit_status (report s);
    }

-- `main`
unfoldable pub main : List Bytes → Host → Output
main args h = output_of (main_args args) h
