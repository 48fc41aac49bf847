-- ===== src/Json/Part/Memory.antt =====
-- src/json.cc: the memory as JSON, and as a document.
use archspec.Base.{◌≡◌, [], ◌∷◌, Bytes, codes, map}
use archspec.Report.Memory.{MemoryInfo, NumaNodeInfo}
use archspec.Json.Writer.{
  add_bool_field, add_raw, add_string_field, add_u32_field, add_u64_field, new_object, object_text,
  vector_to_json, ◌▷◌,
}
use archspec.Json.Value.{Value, array, object, print}
use archspec.Json.Builder.{builder_laws, bool_tree, number_tree, string_tree, vector_to_json-tree}

unfoldable pub numa_node_to_json : NumaNodeInfo → Bytes
numa_node_to_json node = object_text (
    new_object
    ▷ add_u32_field "node_id" node.node_id
    ▷ add_u64_field "total_kb" node.total_kb
    ▷ add_u64_field "free_kb" node.free_kb
    ▷ add_string_field "cpu_list" node.cpu_list)

abbrev pub numa_node_tree : NumaNodeInfo → Value
numa_node_tree node = object (
    (codes "node_id", number_tree node.node_id)
    ∷ (codes "total_kb", number_tree node.total_kb)
    ∷ (codes "free_kb", number_tree node.free_kb)
    ∷ (codes "cpu_list", string_tree node.cpu_list)
    ∷ [])

pub numa_node_to_json-tree :
    (node : NumaNodeInfo) → numa_node_to_json node ≡ print (numa_node_tree node)
unfolding numa_node_to_json
numa_node_to_json-tree node = simp (builder_laws)

-- `to_json(MemoryInfo)`
unfoldable pub memory_info_to_json : MemoryInfo → Bytes
memory_info_to_json memory_info = object_text (
    new_object
    ▷ add_u64_field "total_kb" memory_info.total_kb
    ▷ add_u64_field "free_kb" memory_info.free_kb
    ▷ add_u64_field "available_kb" memory_info.available_kb
    ▷ add_u64_field "buffers_kb" memory_info.buffers_kb
    ▷ add_u64_field "cached_kb" memory_info.cached_kb
    ▷ add_u64_field "swap_total_kb" memory_info.swap_total_kb
    ▷ add_u64_field "swap_free_kb" memory_info.swap_free_kb
    ▷ add_u64_field "page_size_bytes" memory_info.page_size_bytes
    ▷ add_u64_field "hugepage_size_kb" memory_info.hugepage_size_kb
    ▷ add_u64_field "hugepages_total" memory_info.hugepages_total
    ▷ add_u64_field "hugepages_free" memory_info.hugepages_free
    ▷ add_bool_field "transparent_hugepages_enabled" memory_info.transparent_hugepages_enabled
    ▷ add_raw "numa_nodes" (vector_to_json numa_node_to_json memory_info.numa_nodes))

abbrev pub memory_info_tree : MemoryInfo → Value
memory_info_tree memory_info = object (
    (codes "total_kb", number_tree memory_info.total_kb)
    ∷ (codes "free_kb", number_tree memory_info.free_kb)
    ∷ (codes "available_kb", number_tree memory_info.available_kb)
    ∷ (codes "buffers_kb", number_tree memory_info.buffers_kb)
    ∷ (codes "cached_kb", number_tree memory_info.cached_kb)
    ∷ (codes "swap_total_kb", number_tree memory_info.swap_total_kb)
    ∷ (codes "swap_free_kb", number_tree memory_info.swap_free_kb)
    ∷ (codes "page_size_bytes", number_tree memory_info.page_size_bytes)
    ∷ (codes "hugepage_size_kb", number_tree memory_info.hugepage_size_kb)
    ∷ (codes "hugepages_total", number_tree memory_info.hugepages_total)
    ∷ (codes "hugepages_free", number_tree memory_info.hugepages_free)
    ∷ (codes "transparent_hugepages_enabled", bool_tree memory_info.transparent_hugepages_enabled)
    ∷ (codes "numa_nodes", array (map numa_node_tree memory_info.numa_nodes))
    ∷ [])

pub memory_info_to_json-tree :
    (memory_info : MemoryInfo)
    → memory_info_to_json memory_info ≡ print (memory_info_tree memory_info)
unfolding memory_info_to_json
memory_info_to_json-tree memory_info =
    simp (builder_laws, vector_to_json-tree numa_node_to_json numa_node_tree numa_node_to_json-tree)
