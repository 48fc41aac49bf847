-- ===== src/Json/Report/System.antt =====
-- src/json.cc: the JSON of a `SystemInfo` alone.
use archspec.Base.{◌≡◌, some, [], ◌∷◌, codes}
use archspec.Report.System.{SystemInfo}
use archspec.Json.Value.{Value, object, print}
use archspec.Json.Builder.{builder_laws}
use archspec.Json.Reader.{read_json}
use archspec.Json.RoundTrip.{read_json-print}
use archspec.Json.Report.{system_info_to_json}
use archspec.Json.Report.Document.{part_laws}
use archspec.Json.Part.Os.{os_info_tree}
use archspec.Json.Part.Cpu.{cpu_info_tree}
use archspec.Json.Part.Isa.{isa_features_tree}
use archspec.Json.Part.Cache.{cache_list_tree}
use archspec.Json.Part.Memory.{memory_info_tree}
use archspec.Json.Part.Pci.{pci_device_list_tree}
use archspec.Json.Part.Gpu.{gpu_list_tree}
use archspec.Json.Part.Perf.{perf_counter_info_tree}
use archspec.Json.Part.Block.{block_device_list_tree}
use archspec.Json.Part.Net.{net_interface_list_tree}
use archspec.Json.Part.Power.{thermal_info_tree, power_info_tree}
use archspec.Json.Part.Platform.{virtualization_info_tree, platform_info_tree}

-- The document of a system, with a member for every category.
abbrev pub system_info_tree : SystemInfo → Value
system_info_tree info = object (
    (codes "os_info", os_info_tree info.os_info)
    ∷ (codes "cpu_info", cpu_info_tree info.cpu_info)
    ∷ (codes "isa_features", isa_features_tree info.isa_features)
    ∷ (codes "cache_list", cache_list_tree info.cache_list)
    ∷ (codes "memory_info", memory_info_tree info.memory_info)
    ∷ (codes "pci_devices", pci_device_list_tree info.pci_devices)
    ∷ (codes "gpu_list", gpu_list_tree info.gpu_list)
    ∷ (codes "perf_info", perf_counter_info_tree info.perf_info)
    ∷ (codes "block_devices", block_device_list_tree info.block_devices)
    ∷ (codes "net_interfaces", net_interface_list_tree info.net_interfaces)
    ∷ (codes "thermal_info", thermal_info_tree info.thermal_info)
    ∷ (codes "power_info", power_info_tree info.power_info)
    ∷ (codes "virtualization_info", virtualization_info_tree info.virtualization_info)
    ∷ (codes "platform_info", platform_info_tree info.platform_info)
    ∷ [])

system_info_to_json-tree :
    (info : SystemInfo) → system_info_to_json info ≡ print (system_info_tree info)
unfolding system_info_to_json
system_info_to_json-tree info = simp (builder_laws, part_laws)

-- The JSON of a system is read back as its document, which has a member for every category.
pub read_json-system_info_to_json :
    (info : SystemInfo) → read_json (system_info_to_json info) ≡ some (system_info_tree info)
read_json-system_info_to_json info = rw (system_info_to_json-tree info) (read_json-print _)
