-- ===== src/Tests/Privacy.antt =====
-- A host in disguise: another name, no addresses, and another file of one hardware address.
use archspec.Base.{
  ◌≡◌, refl, false, [], ◌∷◌, some, none, codes, contains, eq_bytes, eq_bytes_iff, Bool-cases, inl,
  inr, if◌then◌else◌,
}
use archspec.Report.Options.{CollectOptions}
use archspec.Read.Scaled.{number_file}
use archspec.Collect.Hidden.{hardware_path}
use archspec.Collect.Hidden.Reads.{Readdressed}
use archspec.Collect.Redaction.{disguised, collect_report-disguised}
use archspec.Collect.Collector.{collect_report}
use archspec.Cli.{main_args}
use archspec.Cli.Privacy.{outcome_options}
use archspec.Cli.Run.{main}
use archspec.Cli.Run.Laws.{main-disguised}
use archspec.Python.Call.{collect_json, nothing}
use archspec.Python.Privacy.{call_options, collect_json-disguised}
use archspec.Tests.Samples.{
  sample_files, sample_host, private_options, sample_python, sample_arguments,
}

-- the interface `card0` with another hardware address
abbrev other_card : (o : CollectOptions) → Readdressed o sample_files
other_card o = record {
  opened = λ path.
      if eq_bytes path (hardware_path o (codes "card0"))
      then some (number_file 7 [])
      else some (number_file 42 []);
  same = λ path other. elim (Bool-cases (eq_bytes path (hardware_path o (codes "card0")))) [
    | inl e ↦
        absurd (other (codes "card0") ((eq_bytes_iff path (hardware_path o (codes "card0"))).0 e))
    | inr e ↦ rw e refl
  ];
}

collect_report-disguised_example :
    collect_report
      (disguised sample_host (codes "beta") none (other_card private_options))
      private_options
    ≡ collect_report sample_host private_options
collect_report-disguised_example =
    collect_report-disguised sample_host (codes "beta") none (other_card private_options) refl

json_args_private : contains (codes "--json" ∷ []) (codes "--include-sensitive") ≡ false
unfolding contains eq_bytes
json_args_private = refl

abbrev json_card : Readdressed (outcome_options (main_args (codes "--json" ∷ []))) sample_files
json_card = other_card _

main-disguised_example :
    main (codes "--json" ∷ []) (disguised sample_host (codes "beta") none json_card)
    ≡ main (codes "--json" ∷ []) sample_host
main-disguised_example =
    main-disguised (codes "--json" ∷ []) sample_host (codes "beta") none json_card json_args_private

abbrev called_card : Readdressed (call_options sample_python sample_arguments) sample_files
called_card = other_card _

collect_json-disguised_example :
    collect_json sample_python
      (disguised sample_host (codes "beta") none called_card)
      nothing
      (some sample_arguments)
    ≡ collect_json sample_python sample_host nothing (some sample_arguments)
collect_json-disguised_example =
    collect_json-disguised sample_python sample_host nothing sample_arguments (codes "beta") none
      called_card refl
