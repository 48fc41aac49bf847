-- ===== src/Summary.antt =====
-- examples/summary.cc: the program that prints a summary.
pub mod Laws
use archspec.Base.{
  ℕ, List, [], ◌∷◌, ◌++◌, Bytes, String, codes, if◌then◌else◌, Bool, false, eq_bytes,
}
use archspec.Report.Field.{Field, status_text}
use archspec.Report.Os.{OsInfo}
use archspec.Report.Cpu.{CpuInfo, arch_text}
use archspec.Report.Memory.{MemoryInfo}
use archspec.Report.System.{SystemInfo}
use archspec.Report.Options.{CollectOptions, default_options, os, cpu, memory, flag, union}
use archspec.Host.{Host}
use archspec.Collect.Collector.{collect_system_with}
use archspec.Json.Report.{system_info_to_json}
use archspec.Cli.Print.{Printed, bytes_printed, nat_printed, bool_printed, newline, concat}

-- `print_field`
unfoldable pub summary_field : {A : Type 0} ⦃p : Printed A⦄ → String → Field A → Bytes
summary_field ⦃p⦄ label f =
    codes label
    ++ (codes ": "
        ++ ((if f.valid
              then p.shown f.value
              else codes "unavailable (" ++ (status_text f.status ++ codes ")"))
            ++ newline))

unfoldable pub os_summary : OsInfo → List Bytes
unfolding summary_field
os_summary o =
    summary_field "  Kernel name" o.kernel_name
    ∷ summary_field "  Kernel release" o.kernel_release
    ∷ summary_field "  Kernel version" o.kernel_version
    ∷ summary_field "  Machine" o.machine
    ∷ summary_field "  Hostname" o.hostname
    ∷ summary_field "  Distro" o.distro_name
    ∷ summary_field "  Distro version" o.distro_version
    ∷ summary_field "  Page size" o.page_size
    ∷ summary_field "  Word size" o.word_size
    ∷ summary_field "  Endianness" o.endianness
    ∷ []

unfoldable pub cpu_summary : CpuInfo → List Bytes
unfolding summary_field
cpu_summary c =
    (codes "  Architecture enum: " ++ (arch_text c.arch ++ newline))
    ∷ summary_field "  Architecture name" c.arch_name
    ∷ summary_field "  Vendor" c.vendor
    ∷ summary_field "  Brand" c.brand
    ∷ summary_field "  Model name" c.model_name
    ∷ summary_field "  Present CPUs" c.present_cpu_count
    ∷ summary_field "  Online CPUs" c.online_cpu_count
    ∷ summary_field "  Possible CPUs" c.possible_cpu_count
    ∷ summary_field "  Physical address bits" c.physical_address_bits
    ∷ summary_field "  Virtual address bits" c.virtual_address_bits
    ∷ summary_field "  Virtualized" c.is_virtualized
    ∷ []

unfoldable pub memory_summary : MemoryInfo → List Bytes
unfolding summary_field
memory_summary m =
    summary_field "  Total KiB" m.total_kb
    ∷ summary_field "  Free KiB" m.free_kb
    ∷ summary_field "  Available KiB" m.available_kb
    ∷ summary_field "  Buffers KiB" m.buffers_kb
    ∷ summary_field "  Cached KiB" m.cached_kb
    ∷ summary_field "  Swap total KiB" m.swap_total_kb
    ∷ summary_field "  Swap free KiB" m.swap_free_kb
    ∷ summary_field "  Page size bytes" m.page_size_bytes
    ∷ summary_field "  Hugepage size KiB" m.hugepage_size_kb
    ∷ []

-- `print_summary`
unfoldable pub print_summary : SystemInfo → Bytes
unfolding os_summary cpu_summary memory_summary
print_summary info =
    codes "ArchSpec Summary\n================\n\nOS\n"
    ++ (concat (os_summary info.os_info)
        ++ (codes "\nCPU\n"
            ++ (concat (cpu_summary info.cpu_info)
                ++ (codes "\nMemory\n" ++ concat (memory_summary info.memory_info)))))

-- the options of `main`
abbrev pub summary_options : CollectOptions
summary_options = record default_options {
  categories = union (union (flag os) (flag cpu)) (flag memory);
}

-- `argc > 1 && std::strcmp(argv[1], "--json") == 0`
abbrev pub wants_json : List Bytes → Bool
wants_json [] = false
wants_json (argument ∷ arguments) = eq_bytes argument (codes "--json")

-- the standard output of `main`, on the arguments behind the program's name
unfoldable pub summary_main : List Bytes → Host → Bytes
summary_main args h =
    let info = collect_system_with h summary_options in
    if wants_json args then system_info_to_json info ++ newline else print_summary info
