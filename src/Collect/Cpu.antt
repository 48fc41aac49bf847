-- ===== src/Collect/Cpu.antt =====
-- src/cpu.cc, on a POSIX host.
pub mod Topology
pub mod Identity
use archspec.Base.{
  ℕ, ◌/◌, ◌==◌, Bool, true, false, not, ◌&&◌, List, [], ◌∷◌, Bytes, Option, none, some, codes,
  if◌then◌else◌, is_empty, length, contains, head_or,
}
use archspec.Report.Field.{
  available, not_found, of_value, unavailable, BoolField, U64Field, StringField, nat_default,
  list_default, bool_default,
}
use archspec.Report.Cpu.{CpuTopologyEntry, CpuInfo}
use archspec.Report.Options.{CollectOptions}
use archspec.Host.{Host}
use archspec.Read.{ReadResult, proc_path, sys_path, read_file, read_cpu_list_count_field}
use archspec.KeyValue.{KeyValueMap, parse_colon_blocks, string_from_map, u64_from_map}
use archspec.Collect.CpuDirs.{cpu_dirs}
use archspec.Collect.Cpu.Identity.{
  arch_name_of, arch_of, AddressSizes, parse_address_sizes, first_flags,
  first_existing_hypervisor_vendor,
}
use archspec.Collect.Cpu.Topology.{Counts, count_topology, max_cores, max_threads, topology_of}

-- a count that falls back on the blocks of `/proc/cpuinfo`, and then on the threads of the hardware
unfoldable pub count_or : U64Field → List KeyValueMap → ℕ → U64Field
count_or field blocks hardware_threads =
    let from_blocks =
      if not field.valid && not (is_empty blocks) then of_value (length blocks) else field in
    if not from_blocks.valid && not (hardware_threads == 0)
    then of_value hardware_threads
    else from_blocks

unfoldable pub sockets_of : Counts → U64Field
sockets_of c = if is_empty c.packages then unavailable not_found else of_value (length c.packages)

unfoldable pub cores_per_socket_of : U64Field → Counts → U64Field
cores_per_socket_of cpu_cores c =
    if cpu_cores.valid
    then cpu_cores
    else if not (is_empty c.cores_by_package)
    then of_value (max_cores c.cores_by_package)
    else unavailable not_found

unfoldable pub threads_per_core_of : U64Field → U64Field → Counts → U64Field
threads_per_core_of siblings cpu_cores c =
    if siblings.valid && cpu_cores.valid && not (cpu_cores.value == 0)
    then of_value (siblings.value / cpu_cores.value)
    else if not (is_empty c.threads_by_core)
    then of_value (max_threads c.threads_by_core)
    else unavailable not_found

unfoldable pub is_virtualized_of : List Bytes → ReadResult → BoolField
is_virtualized_of flags cpuinfo =
    if not (is_empty flags)
    then of_value (contains flags (codes "hypervisor"))
    else unavailable (if available cpuinfo.status then not_found else cpuinfo.status)

unfoldable pub collect_cpu : Host → CollectOptions → CpuInfo
collect_cpu h o =
    let cpuinfo = read_file h.files (proc_path o (codes "/cpuinfo")) in
    let blocks = if available cpuinfo.status then parse_colon_blocks cpuinfo.value else [] in
    let first = head_or blocks [] in
    let sizes = parse_address_sizes first in
    let count = λ (name : Bytes).
      count_or (read_cpu_list_count_field h.files (sys_path o name)) blocks
        h.hardware_concurrency in
    let topology = topology_of h.files blocks (cpu_dirs h.files o) in
    let counts = count_topology topology in
    let cpu_cores = u64_from_map first (codes "cpu cores" ∷ []) in
    let siblings = u64_from_map first (codes "siblings" ∷ []) in
    let model_name =
      string_from_map first (codes "model name" ∷ codes "Processor" ∷ codes "cpu" ∷ []) in
    let is_virtualized = is_virtualized_of (first_flags first) cpuinfo in
    let hypervisor_vendor = string_from_map first (codes "Hypervisor vendor" ∷ []) in
    record {
      arch = arch_of h;
      arch_name = arch_name_of h;
      vendor =
          string_from_map first (codes "vendor_id" ∷ codes "CPU implementer" ∷ codes "uarch" ∷ []);
      brand = model_name;
      model_name = model_name;
      present_cpu_count = count (codes "/devices/system/cpu/present");
      online_cpu_count = count (codes "/devices/system/cpu/online");
      possible_cpu_count = count (codes "/devices/system/cpu/possible");
      sockets = sockets_of counts;
      cores_per_socket = cores_per_socket_of cpu_cores counts;
      threads_per_core = threads_per_core_of siblings cpu_cores counts;
      family = u64_from_map first (codes "cpu family" ∷ codes "CPU architecture" ∷ []);
      model = u64_from_map first (codes "model" ∷ codes "CPU part" ∷ []);
      stepping = u64_from_map first (codes "stepping" ∷ codes "CPU revision" ∷ []);
      microcode = string_from_map first (codes "microcode" ∷ []);
      physical_address_bits = sizes.physical;
      virtual_address_bits = sizes.virtual_bits;
      is_virtualized = is_virtualized;
      hypervisor_vendor =
          if hypervisor_vendor.valid
          then hypervisor_vendor
          else if is_virtualized.valid && is_virtualized.value
          then first_existing_hypervisor_vendor h.files o
          else unavailable not_found;
      topology = topology;
    }
