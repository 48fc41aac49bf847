-- ===== src/Tests/Machine.antt =====
-- The collectors on a small host.
use archspec.Base.{
  ◌≡◌, refl, subst, ℕ, ◌*◌, All, List, [], ◌∷◌, Bytes, none, some, codes, if◌then◌else◌, ltb, map,
  arith, contains, eq_bytes, length,
}
use archspec.Base.Distinct.{Distinct}
use archspec.Report.Field.{of_value, unavailable, parse_error, nat_default, list_default}
use archspec.Report.Cpu.{CpuTopologyEntry}
use archspec.Report.Options.{default_options}
use archspec.Number.{u64_mod, u32_mod}
use archspec.Read.{read_scaled_u64_field, read_u32_field, list_dir}
use archspec.Read.Laws.{list_dir-Sorted, Sorted}
use archspec.Read.Scaled.{read_scaled_u64_field-number, read_u32_field-number}
use archspec.Collect.Os.{collect_os}
use archspec.Collect.Net.{collect_net}
use archspec.Collect.Redaction.{collect_withheld, withheld, IsPrivate}
use archspec.Collect.Gpu.{collect_gpu}
use archspec.Collect.Gpu.Unique.{collect_gpu-Distinct}
use archspec.Collect.Cpu.Topology.{count_topology}
use archspec.Collect.Cpu.Topology.Totals.{count_topology_totals, located, sum_threads, sum_cores}
use archspec.Report.Sound.System.{SystemInfoIsSound}
use archspec.Collect.Collector.{collect}
use archspec.Collect.Sound.System.{collect-IsSound}
use archspec.Base.Dict.{view, lookup}
use archspec.Collect.Memory.{collect_memory}
use archspec.Collect.Memory.Meminfo.{
  MeminfoLine, IsMeminfo, meminfo_file, amount_field, collect_memory-meminfo,
}
use archspec.Collect.Os.{parse_os_release}
use archspec.Collect.Os.Release.{
  ReleaseLine, single, double, plain, assign, remark, IsLine, print_release, meaning,
  parse_os_release-refines,
}
use archspec.Collect.Net.{add_addresses}
use archspec.Collect.Net.Grouped.{joined, texts_of, ipv4_text, ipv6_text, lookup-add_addresses}
use archspec.Collect.CpuDirs.{cpu_dirs}
use archspec.Collect.CpuDirs.Laws.{Ascends, HasU32, cpu_dirs-Ascends}
use archspec.Collect.Width.{SystemIsU32}
use archspec.Collect.Width.System.{collect-IsU32}
use archspec.Host.{Host, Files, Address, inet, inet6}
use archspec.Tests.Samples.{sample_files, sample_host, private_options}

cards-Distinct :
    (names : List Bytes) → some (codes "card1" ∷ codes "card0" ∷ []) ≡ some names → Distinct names
unfolding contains eq_bytes
cards-Distinct names e = subst Distinct same (refl, (refl, tt))
  where
    same : codes "card1" ∷ codes "card0" ∷ [] ≡ names
    same = ground arith

collect_gpu-Distinct_example :
    Distinct (map (λ gpu. gpu.pci_address.value) (collect_gpu sample_files default_options).entries)
collect_gpu-Distinct_example = collect_gpu-Distinct sample_files default_options cards-Distinct

abbrev entry_of : ℕ → CpuTopologyEntry
entry_of core = record {
  logical_id = of_value core;
  core_id = of_value core;
  package_id = of_value 0;
  numa_node = unavailable parse_error;
  thread_siblings_mask = unavailable parse_error;
  core_siblings_mask = unavailable parse_error;
}

abbrev two_cores : List CpuTopologyEntry
two_cores = entry_of 0 ∷ entry_of 1 ∷ entry_of 1 ∷ []

count_topology_totals_example :
    (sum_threads (count_topology two_cores).threads_by_core ≡ located two_cores)
    × ((sum_cores (count_topology two_cores).cores_by_package
          ≡ length (count_topology two_cores).threads_by_core)
        × (length (count_topology two_cores).cores_by_package
            ≡ length (count_topology two_cores).packages))
count_topology_totals_example = count_topology_totals two_cores

abbrev two_cards : List Bytes
two_cards = codes "card1" ∷ codes "card0" ∷ []

list_dir-Sorted_example :
    Sorted (list_dir sample_files (codes "/sys"))
    × ((a : Bytes) → contains (list_dir sample_files (codes "/sys")) a ≡ contains two_cards a)
list_dir-Sorted_example = list_dir-Sorted sample_files (codes "/sys") two_cards refl

read_scaled_u64_field-number_example :
    read_scaled_u64_field sample_files 512 (codes "size")
    ≡ (if ltb (42 * 512) u64_mod then of_value (42 * 512) else unavailable parse_error)
read_scaled_u64_field-number_example =
    read_scaled_u64_field-number sample_files 512 (codes "size") 42 [] (omega arith) (omega arith)
      refl

read_u32_field-number_example :
    read_u32_field sample_files (codes "level")
    ≡ (if ltb 42 u32_mod then of_value 42 else unavailable parse_error)
read_u32_field-number_example =
    read_u32_field-number sample_files (codes "level") 42 [] (omega arith) refl

collect_withheld_example :
    ((collect_os sample_host private_options).hostname ≡ withheld)
    × ((collect_os sample_host private_options).cmdline ≡ withheld)
    × All IsPrivate (collect_net sample_host private_options).entries
collect_withheld_example = collect_withheld sample_host private_options refl

collect-IsSound_example : SystemInfoIsSound (collect sample_host default_options)
collect-IsSound_example = collect-IsSound sample_host default_options

abbrev memory_lines : List MeminfoLine
memory_lines =
    record { name = codes "MemTotal"; spaces = codes "  "; number = 2048; unit = codes " kB" }
    ∷ record { name = codes "HugePages_Total"; spaces = codes " "; number = 0; unit = [] }
    ∷ []

memory_lines-IsMeminfo : All IsMeminfo memory_lines
memory_lines-IsMeminfo = ground arith

abbrev memory_host : Host
memory_host = record sample_host {
  files = record sample_files { open_file = λ _. some (meminfo_file memory_lines) };
}

collect_memory-meminfo_example :
    ((collect_memory memory_host default_options).total_kb
      ≡ amount_field memory_lines (codes "MemTotal"))
    × ((collect_memory memory_host default_options).free_kb
        ≡ amount_field memory_lines (codes "MemFree"))
    × ((collect_memory memory_host default_options).available_kb
        ≡ amount_field memory_lines (codes "MemAvailable"))
    × ((collect_memory memory_host default_options).buffers_kb
        ≡ amount_field memory_lines (codes "Buffers"))
    × ((collect_memory memory_host default_options).cached_kb
        ≡ amount_field memory_lines (codes "Cached"))
    × ((collect_memory memory_host default_options).swap_total_kb
        ≡ amount_field memory_lines (codes "SwapTotal"))
    × ((collect_memory memory_host default_options).swap_free_kb
        ≡ amount_field memory_lines (codes "SwapFree"))
    × ((collect_memory memory_host default_options).hugepage_size_kb
        ≡ amount_field memory_lines (codes "Hugepagesize"))
    × ((collect_memory memory_host default_options).hugepages_total
        ≡ amount_field memory_lines (codes "HugePages_Total"))
    × ((collect_memory memory_host default_options).hugepages_free
        ≡ amount_field memory_lines (codes "HugePages_Free"))
collect_memory-meminfo_example =
    collect_memory-meminfo memory_host default_options memory_lines refl memory_lines-IsMeminfo

abbrev release_lines : List ReleaseLine
release_lines =
    remark (codes " a system")
    ∷ assign b'I' (codes "D") single (codes "an old one")
    ∷ assign b'I' (codes "D") double (codes "a \"b\"")
    ∷ assign b'V' (codes "ERSION_ID") plain (codes "12")
    ∷ []

release_lines-IsLine : All IsLine release_lines
release_lines-IsLine = ground arith

parse_os_release-refines_example :
    view (parse_os_release (print_release release_lines)) ≡ meaning release_lines (λ _. none)
parse_os_release-refines_example = parse_os_release-refines release_lines release_lines-IsLine

abbrev three_addresses : List (Bytes × Address)
three_addresses =
    (codes "eth0", inet (some (codes "10.0.0.1")))
    ∷ (codes "lo", inet6 (some (codes "::1")))
    ∷ (codes "eth0", inet (some (codes "10.0.0.2")))
    ∷ []

lookup-add_addresses_example :
    lookup (codes "eth0") (add_addresses three_addresses [])
    ≡ joined none
        (texts_of ipv4_text (codes "eth0") three_addresses)
        (texts_of ipv6_text (codes "eth0") three_addresses)
lookup-add_addresses_example = lookup-add_addresses (codes "eth0") three_addresses

abbrev cpu_files : Files
cpu_files = record sample_files {
  directory = λ _. some (codes "cpu10" ∷ codes "cpufreq" ∷ codes "cpu2" ∷ []);
}

cpu_dirs-Ascends_example :
    Ascends 0 (cpu_dirs cpu_files default_options) × All HasU32 (cpu_dirs cpu_files default_options)
cpu_dirs-Ascends_example = cpu_dirs-Ascends cpu_files default_options

collect-IsU32_example : SystemIsU32 (collect sample_host default_options)
collect-IsU32_example = collect-IsU32 sample_host default_options
