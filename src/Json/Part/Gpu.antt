-- ===== src/Json/Part/Gpu.antt =====
-- src/json.cc: the graphics devices as JSON, and as a document.
use archspec.Base.{◌≡◌, [], ◌∷◌, Bytes, codes, map}
use archspec.Report.Gpu.{GpuInfo, GpuList, gpu_vendor_text}
use archspec.Json.Writer.{
  add_bool_field, add_raw, add_string, add_string_field, add_u64_field, new_object, object_text,
  vector_to_json, ◌▷◌,
}
use archspec.Json.Value.{Value, array, object, print, str}
use archspec.Json.Builder.{builder_laws, bool_tree, number_tree, string_tree, vector_to_json-tree}

unfoldable pub gpu_info_to_json : GpuInfo → Bytes
gpu_info_to_json gpu = object_text (
    new_object
    ▷ add_string "vendor" (gpu_vendor_text gpu.vendor)
    ▷ add_string_field "name" gpu.name
    ▷ add_string_field "drm_card" gpu.drm_card
    ▷ add_string_field "render_node" gpu.render_node
    ▷ add_string_field "pci_address" gpu.pci_address
    ▷ add_string_field "vendor_id" gpu.vendor_id
    ▷ add_string_field "device_id" gpu.device_id
    ▷ add_string_field "driver" gpu.driver
    ▷ add_u64_field "vram_total_bytes" gpu.vram_total_bytes
    ▷ add_u64_field "vram_used_bytes" gpu.vram_used_bytes
    ▷ add_u64_field "temp_millidegree_c" gpu.temp_millidegree_c
    ▷ add_u64_field "power_mw" gpu.power_mw
    ▷ add_u64_field "graphics_clock_mhz" gpu.graphics_clock_mhz
    ▷ add_u64_field "memory_clock_mhz" gpu.memory_clock_mhz
    ▷ add_bool_field "cuda_available" gpu.cuda_available
    ▷ add_string_field "cuda_compute_capability" gpu.cuda_compute_capability)

abbrev pub gpu_info_tree : GpuInfo → Value
gpu_info_tree gpu = object (
    (codes "vendor", str (gpu_vendor_text gpu.vendor))
    ∷ (codes "name", string_tree gpu.name)
    ∷ (codes "drm_card", string_tree gpu.drm_card)
    ∷ (codes "render_node", string_tree gpu.render_node)
    ∷ (codes "pci_address", string_tree gpu.pci_address)
    ∷ (codes "vendor_id", string_tree gpu.vendor_id)
    ∷ (codes "device_id", string_tree gpu.device_id)
    ∷ (codes "driver", string_tree gpu.driver)
    ∷ (codes "vram_total_bytes", number_tree gpu.vram_total_bytes)
    ∷ (codes "vram_used_bytes", number_tree gpu.vram_used_bytes)
    ∷ (codes "temp_millidegree_c", number_tree gpu.temp_millidegree_c)
    ∷ (codes "power_mw", number_tree gpu.power_mw)
    ∷ (codes "graphics_clock_mhz", number_tree gpu.graphics_clock_mhz)
    ∷ (codes "memory_clock_mhz", number_tree gpu.memory_clock_mhz)
    ∷ (codes "cuda_available", bool_tree gpu.cuda_available)
    ∷ (codes "cuda_compute_capability", string_tree gpu.cuda_compute_capability)
    ∷ [])

pub gpu_info_to_json-tree : (gpu : GpuInfo) → gpu_info_to_json gpu ≡ print (gpu_info_tree gpu)
unfolding gpu_info_to_json
gpu_info_to_json-tree gpu = simp (builder_laws)

-- `to_json(GpuList)`
unfoldable pub gpu_list_to_json : GpuList → Bytes
gpu_list_to_json gpu_list =
    object_text (new_object ▷ add_raw "entries" (vector_to_json gpu_info_to_json gpu_list.entries))

abbrev pub gpu_list_tree : GpuList → Value
gpu_list_tree gpu_list = object ((codes "entries", array (map gpu_info_tree gpu_list.entries)) ∷ [])

pub gpu_list_to_json-tree :
    (gpu_list : GpuList) → gpu_list_to_json gpu_list ≡ print (gpu_list_tree gpu_list)
unfolding gpu_list_to_json
gpu_list_to_json-tree gpu_list =
    simp (builder_laws, vector_to_json-tree gpu_info_to_json gpu_info_tree gpu_info_to_json-tree)
