-- ===== src/Summary/Laws.antt =====
-- examples/summary.cc: what the summary program writes.
use archspec.Base.{◌≡◌, refl, ap, ◌∙◌, some, eq_bytes, List, ◌∷◌, Bytes, codes}
use archspec.Host.{Host}
use archspec.Report.System.{SystemInfo, system_info_with}
use archspec.Report.Options.{has_category, union, intersection}
use archspec.Collect.Os.{collect_os}
use archspec.Collect.Cpu.{collect_cpu}
use archspec.Collect.Memory.{collect_memory}
use archspec.Collect.Collector.{collect, collect_system_with, collector_with}
use archspec.Json.Report.{system_info_to_json}
use archspec.Json.Report.System.{system_info_tree, read_json-system_info_to_json}
use archspec.Cli.Run.Laws.{IsDocument}
use archspec.Summary.{summary_options, summary_main}

-- the system that the program describes
abbrev pub summarised : Host → SystemInfo
summarised h = record (system_info_with h.stale_arch) {
  os_info = collect_os h summary_options;
  cpu_info = collect_cpu h summary_options;
  memory_info = collect_memory h summary_options;
}

summary_collected : (h : Host) → collect_system_with h summary_options ≡ summarised h
unfolding collect_system_with collector_with collect has_category union intersection
summary_collected h = refl

-- With `--json` as its first argument the summary program writes a document, read back as that of a
-- system with the operating system, the processors and the memory collected and every other category
-- at its initial value, and a line break.
pub summary_main-json :
    (arguments : List Bytes) (h : Host)
    → IsDocument (summary_main (codes "--json" ∷ arguments) h) (system_info_tree (summarised h))
unfolding summary_main IsDocument eq_bytes
summary_main-json arguments h = (
  system_info_to_json (collect_system_with h summary_options),
  refl,
  read_json-system_info_to_json (collect_system_with h summary_options)
      ∙ ap (λ info. some (system_info_tree info)) (summary_collected h),
)
