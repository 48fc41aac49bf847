-- ===== src/Cli/Print.antt =====
-- tools/archspec-inspect.cc: what the program prints.
use archspec.Base.{
  ℕ, Bool, true, false, List, [], ◌∷◌, ◌++◌, Bytes, String, codes, if◌then◌else◌, length,
}
use archspec.Number.{to_decimal}
use archspec.Report.Field.{Field, of_value, status_code}
use archspec.Report.Cpu.{arch_text}
use archspec.Report.Options.{
  CollectCategory, Category, os, cpu, memory, cache, pci, gpu, block, net, thermal, has_category,
  Report,
}
use archspec.Json.Report.{version, report_schema_version, category_entries}

-- `out << value`; a Boolean is printed as a number
pub record Printed (A : Type 0) : Type 0 where
  pub shown : A → Bytes

instance abbrev pub bytes_printed : Printed Bytes
bytes_printed = record { shown = λ s. s }

instance abbrev pub nat_printed : Printed ℕ
nat_printed = record { shown = to_decimal }

instance abbrev pub bool_printed : Printed Bool
bool_printed = record { shown = λ b. to_decimal (if b then 1 else 0) }

abbrev pub newline : Bytes
newline = b'\n' ∷ []

-- the lines of `print_help` below the first
abbrev help_lines : List String
help_lines =
    "Collect a safe, structured description of the local system." ∷ ""
    ∷ "Usage: archspec-inspect [options]" ∷ ""
    ∷ "  --format text|json       Output format (default: text)"
    ∷ "  --json                   Alias for --format json"
    ∷ "  --categories LIST        Comma-separated categories or 'all'"
    ∷ "  --include-sensitive      Include hostname, command line, and addresses"
    ∷ "  --redact                 Hide sensitive fields (the default)"
    ∷ "  --allow-perf             Permit perf_event_open capability probes"
    ∷ "  --allow-slow             Permit opt-in slow probes"
    ∷ "  --allow-vendor-libs      Permit opt-in vendor library probes"
    ∷ "  --procfs-root PATH       Read Linux procfs data below PATH"
    ∷ "  --sysfs-root PATH        Read Linux sysfs data below PATH"
    ∷ "  --etc-root PATH          Read operating-system metadata below PATH"
    ∷ "  --dev-root PATH          Resolve device paths below PATH"
    ∷ "  --capabilities           Print the machine-readable CLI contract"
    ∷ "  --version                Print the program version"
    ∷ "  --help                   Show this help" ∷ ""
    ∷ "Categories: os,cpu,isa,cache,memory,pci,gpu,perf,block,net,thermal,power,virtualization,platform"
    ∷ []

abbrev print_lines : List String → Bytes
print_lines [] = []
print_lines (line ∷ rest) = codes line ++ (newline ++ print_lines rest)

-- `print_help`
abbrev pub help_text : Bytes
help_text = codes "archspec-inspect " ++ (version ++ (newline ++ print_lines help_lines))

abbrev pub version_text : Bytes
version_text = codes "archspec-inspect " ++ (version ++ newline)

-- `print_field`
unfoldable pub print_field : {A : Type 0} ⦃p : Printed A⦄ → String → Field A → Bytes
print_field ⦃p⦄ label f =
    codes "  "
    ++ (codes label
        ++ (codes ": "
            ++ ((if f.valid
                  then p.shown f.value
                  else codes "unavailable (" ++ (status_code f.status ++ codes ")"))
                ++ newline)))

-- a heading and its lines, where the category is selected
abbrev pub section : Bool → String → List Bytes → List Bytes
section selected title body = if selected then (newline ++ (codes title ++ newline)) ∷ body else []

-- an entry of `counts`
pub record CountEntry : Type 0 where
  pub category : Category
  pub label : String
  pub count : ℕ

-- the loop over `counts`
unfoldable pub print_counts : CollectCategory → List CountEntry → List Bytes
print_counts flags [] = []
print_counts flags (entry ∷ entries) =
    let rest = print_counts flags entries in
    if has_category flags entry.category
    then (newline ++ (codes entry.label ++ (codes ": " ++ (to_decimal entry.count ++ newline))))
      ∷ rest
    else rest

-- the pieces that are printed, put together
unfoldable pub concat : List Bytes → Bytes
concat [] = []
concat (piece ∷ pieces) = piece ++ concat pieces

-- `print_text`
unfoldable pub print_text : Report → Bytes
unfolding print_field print_counts
print_text report =
    let info = report.system in
    let has = has_category report.categories in
    let o = info.os_info in
    let c = info.cpu_info in
    let m = info.memory_info in
    concat (
      (codes "ArchSpec Inspect " ++ (version ++ newline))
      ∷ (section (has os) "OS" (
            print_field "kernel" o.kernel_name
            ∷ print_field "kernel release" o.kernel_release
            ∷ print_field "distribution" o.distro_name
            ∷ print_field "hostname" o.hostname
            ∷ [])
          ++ (section (has cpu) "CPU" (
                (codes "  architecture: " ++ (arch_text c.arch ++ newline))
                ∷ print_field "model" c.model_name
                ∷ print_field "online CPUs" c.online_cpu_count
                ∷ print_field "sockets" c.sockets
                ∷ print_field "cores per socket" c.cores_per_socket
                ∷ print_field "threads per core" c.threads_per_core
                ∷ [])
              ++ (section (has memory) "Memory" (
                    print_field "total KiB" m.total_kb
                    ∷ print_field "available KiB" m.available_kb
                    ∷ print_field "NUMA nodes" (of_value (length m.numa_nodes))
                    ∷ [])
                  ++ print_counts report.categories (
                      record {
                        category = cache;
                        label = "cache entries";
                        count = length info.cache_list.entries;
                      }
                      ∷ record {
                        category = pci;
                        label = "PCI devices";
                        count = length info.pci_devices.entries;
                      }
                      ∷ record {
                        category = gpu;
                        label = "GPUs";
                        count = length info.gpu_list.entries;
                      }
                      ∷ record {
                        category = block;
                        label = "block devices";
                        count = length info.block_devices.entries;
                      }
                      ∷ record {
                        category = net;
                        label = "network interfaces";
                        count = length info.net_interfaces.entries;
                      }
                      ∷ record {
                        category = thermal;
                        label = "thermal zones";
                        count = length info.thermal_info.entries;
                      }
                      ∷ [])))))

-- the loop of `print_capabilities`; the flag is `i != 0`
unfoldable pub capability_names : Bool → List (Category × String) → Bytes
capability_names later [] = []
capability_names later ((category, name) ∷ entries) =
    (if later then b',' ∷ [] else [])
    ++ (b'"' ∷ (codes name ++ b'"' ∷ capability_names true entries))

-- `print_capabilities`
unfoldable pub print_capabilities : Bytes
unfolding capability_names
print_capabilities =
    codes "{\"name\":\"archspec-inspect\",\"version\":\""
    ++ (version
        ++ (codes "\",\"report_schema_version\":\""
            ++ (report_schema_version
                ++ (codes "\",\"formats\":[\"text\",\"json\"],\"categories\":["
                    ++ (capability_names false category_entries
                        ++ codes "],\"safe_by_default\":true,\"supports_redaction\":true}\n")))))
