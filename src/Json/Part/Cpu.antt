-- ===== src/Json/Part/Cpu.antt =====
-- src/json.cc: the processors as JSON, and as a document.
use archspec.Base.{◌≡◌, [], ◌∷◌, Bytes, codes, map}
use archspec.Report.Cpu.{CpuInfo, CpuTopologyEntry, arch_text}
use archspec.Json.Writer.{
  add_bool_field, add_raw, add_string, add_string_field, add_u32_field, add_u64_field, new_object,
  object_text, vector_to_json, ◌▷◌,
}
use archspec.Json.Value.{Value, array, object, print, str}
use archspec.Json.Builder.{builder_laws, bool_tree, number_tree, string_tree, vector_to_json-tree}

unfoldable pub cpu_topology_to_json : CpuTopologyEntry → Bytes
cpu_topology_to_json entry = object_text (
    new_object
    ▷ add_u32_field "logical_id" entry.logical_id
    ▷ add_u32_field "core_id" entry.core_id
    ▷ add_u32_field "package_id" entry.package_id
    ▷ add_u32_field "numa_node" entry.numa_node
    ▷ add_string_field "thread_siblings_mask" entry.thread_siblings_mask
    ▷ add_string_field "core_siblings_mask" entry.core_siblings_mask)

abbrev pub cpu_topology_tree : CpuTopologyEntry → Value
cpu_topology_tree entry = object (
    (codes "logical_id", number_tree entry.logical_id)
    ∷ (codes "core_id", number_tree entry.core_id)
    ∷ (codes "package_id", number_tree entry.package_id)
    ∷ (codes "numa_node", number_tree entry.numa_node)
    ∷ (codes "thread_siblings_mask", string_tree entry.thread_siblings_mask)
    ∷ (codes "core_siblings_mask", string_tree entry.core_siblings_mask)
    ∷ [])

pub cpu_topology_to_json-tree :
    (entry : CpuTopologyEntry) → cpu_topology_to_json entry ≡ print (cpu_topology_tree entry)
unfolding cpu_topology_to_json
cpu_topology_to_json-tree entry = simp (builder_laws)

-- `to_json(CpuInfo)`
unfoldable pub cpu_info_to_json : CpuInfo → Bytes
cpu_info_to_json info = object_text (
    new_object
    ▷ add_string "arch" (arch_text info.arch)
    ▷ add_string_field "arch_name" info.arch_name
    ▷ add_string_field "vendor" info.vendor
    ▷ add_string_field "brand" info.brand
    ▷ add_string_field "model_name" info.model_name
    ▷ add_u64_field "present_cpu_count" info.present_cpu_count
    ▷ add_u64_field "online_cpu_count" info.online_cpu_count
    ▷ add_u64_field "possible_cpu_count" info.possible_cpu_count
    ▷ add_u64_field "sockets" info.sockets
    ▷ add_u64_field "cores_per_socket" info.cores_per_socket
    ▷ add_u64_field "threads_per_core" info.threads_per_core
    ▷ add_u64_field "family" info.family
    ▷ add_u64_field "model" info.model
    ▷ add_u64_field "stepping" info.stepping
    ▷ add_string_field "microcode" info.microcode
    ▷ add_u64_field "physical_address_bits" info.physical_address_bits
    ▷ add_u64_field "virtual_address_bits" info.virtual_address_bits
    ▷ add_bool_field "is_virtualized" info.is_virtualized
    ▷ add_string_field "hypervisor_vendor" info.hypervisor_vendor
    ▷ add_raw "topology" (vector_to_json cpu_topology_to_json info.topology))

abbrev pub cpu_info_tree : CpuInfo → Value
cpu_info_tree info = object (
    (codes "arch", str (arch_text info.arch))
    ∷ (codes "arch_name", string_tree info.arch_name)
    ∷ (codes "vendor", string_tree info.vendor)
    ∷ (codes "brand", string_tree info.brand)
    ∷ (codes "model_name", string_tree info.model_name)
    ∷ (codes "present_cpu_count", number_tree info.present_cpu_count)
    ∷ (codes "online_cpu_count", number_tree info.online_cpu_count)
    ∷ (codes "possible_cpu_count", number_tree info.possible_cpu_count)
    ∷ (codes "sockets", number_tree info.sockets)
    ∷ (codes "cores_per_socket", number_tree info.cores_per_socket)
    ∷ (codes "threads_per_core", number_tree info.threads_per_core)
    ∷ (codes "family", number_tree info.family)
    ∷ (codes "model", number_tree info.model)
    ∷ (codes "stepping", number_tree info.stepping)
    ∷ (codes "microcode", string_tree info.microcode)
    ∷ (codes "physical_address_bits", number_tree info.physical_address_bits)
    ∷ (codes "virtual_address_bits", number_tree info.virtual_address_bits)
    ∷ (codes "is_virtualized", bool_tree info.is_virtualized)
    ∷ (codes "hypervisor_vendor", string_tree info.hypervisor_vendor)
    ∷ (codes "topology", array (map cpu_topology_tree info.topology))
    ∷ [])

pub cpu_info_to_json-tree : (info : CpuInfo) → cpu_info_to_json info ≡ print (cpu_info_tree info)
unfolding cpu_info_to_json
cpu_info_to_json-tree info = simp (
  builder_laws,
  vector_to_json-tree cpu_topology_to_json cpu_topology_tree cpu_topology_to_json-tree,
)
