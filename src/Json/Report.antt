-- ===== src/Json/Report.antt =====
-- src/json.cc: the whole report as JSON.
pub mod Document
pub mod Names
pub mod System
use archspec.Base.{ℕ, Bool, true, false, List, [], ◌∷◌, ◌++◌, Bytes, String, codes, if◌then◌else◌}
use archspec.Report.System.{SystemInfo}
use archspec.Report.Options.{
  CollectCategory, Category, os, cpu, isa, cache, memory, pci, gpu, perf, block, net, thermal,
  power, virtualization, platform, has_category, Report,
}
use archspec.Json.Writer.{
  JsonObject, new_object, add_raw, add_string, object_text, json_string, ◌▷◌,
}
use archspec.Json.Part.Os.{os_info_to_json}
use archspec.Json.Part.Cpu.{cpu_info_to_json}
use archspec.Json.Part.Isa.{isa_features_to_json}
use archspec.Json.Part.Cache.{cache_list_to_json}
use archspec.Json.Part.Memory.{memory_info_to_json}
use archspec.Json.Part.Pci.{pci_device_list_to_json}
use archspec.Json.Part.Gpu.{gpu_list_to_json}
use archspec.Json.Part.Perf.{perf_counter_info_to_json}
use archspec.Json.Part.Block.{block_device_list_to_json}
use archspec.Json.Part.Net.{net_interface_list_to_json}
use archspec.Json.Part.Power.{thermal_info_to_json, power_info_to_json}
use archspec.Json.Part.Platform.{virtualization_info_to_json, platform_info_to_json}

-- `version` and `report_schema_version`
abbrev pub version : Bytes
version = codes "0.2.0"

abbrev pub report_schema_version : Bytes
report_schema_version = codes "1.0.0"

-- the array `categories`
abbrev pub category_entries : List (Category × String)
category_entries =
    (os, "os")
    ∷ (cpu, "cpu")
    ∷ (isa, "isa")
    ∷ (cache, "cache")
    ∷ (memory, "memory")
    ∷ (pci, "pci")
    ∷ (gpu, "gpu")
    ∷ (perf, "perf")
    ∷ (block, "block")
    ∷ (net, "net")
    ∷ (thermal, "thermal")
    ∷ (power, "power")
    ∷ (virtualization, "virtualization")
    ∷ (platform, "platform")
    ∷ []

-- the loop over the entries; the flag is `first`
unfoldable pub selected_loop : CollectCategory → Bool → List (Category × String) → Bytes
selected_loop flags first [] = []
selected_loop flags first ((category, name) ∷ entries) = elim (has_category flags category) [
  | false ↦ selected_loop flags first entries
  | true ↦
      (if first then [] else b',' ∷ [])
      ++ (json_string (codes name) ++ selected_loop flags false entries)
]

unfoldable pub selected_to_json : CollectCategory → Bytes
unfolding selected_loop
selected_to_json flags = b'[' ∷ (selected_loop flags true category_entries ++ b']' ∷ [])

-- `if (has_category(…)) data.add_raw(…)`
unfoldable pub add_if : Bool → String → Bytes → JsonObject → JsonObject
add_if selected key raw_value o = if selected then add_raw key raw_value o else o

unfoldable pub data_to_json : CollectCategory → SystemInfo → Bytes
data_to_json flags info = object_text (
    new_object
    ▷ add_if (has_category flags os) "os" (os_info_to_json info.os_info)
    ▷ add_if (has_category flags cpu) "cpu" (cpu_info_to_json info.cpu_info)
    ▷ add_if (has_category flags isa) "isa" (isa_features_to_json info.isa_features)
    ▷ add_if (has_category flags cache) "cache" (cache_list_to_json info.cache_list)
    ▷ add_if (has_category flags memory) "memory" (memory_info_to_json info.memory_info)
    ▷ add_if (has_category flags pci) "pci" (pci_device_list_to_json info.pci_devices)
    ▷ add_if (has_category flags gpu) "gpu" (gpu_list_to_json info.gpu_list)
    ▷ add_if (has_category flags perf) "perf" (perf_counter_info_to_json info.perf_info)
    ▷ add_if (has_category flags block) "block" (block_device_list_to_json info.block_devices)
    ▷ add_if (has_category flags net) "net" (net_interface_list_to_json info.net_interfaces)
    ▷ add_if (has_category flags thermal) "thermal" (thermal_info_to_json info.thermal_info)
    ▷ add_if (has_category flags power) "power" (power_info_to_json info.power_info)
    ▷ add_if (has_category flags virtualization) "virtualization"
        (virtualization_info_to_json info.virtualization_info)
    ▷ add_if (has_category flags platform) "platform" (platform_info_to_json info.platform_info))

unfoldable pub producer_to_json : Bytes
producer_to_json =
    object_text
      (new_object ▷ add_string "name" (codes "archspec-inspect") ▷ add_string "version" version)

-- `to_json(Report)`
unfoldable pub report_to_json : Report → Bytes
report_to_json report = object_text (
    new_object
    ▷ add_string "schema_version" report_schema_version
    ▷ add_raw "producer" producer_to_json
    ▷ add_raw "collected_categories" (selected_to_json report.categories)
    ▷ add_raw "data" (data_to_json report.categories report.system))

-- `to_json(SystemInfo)`
unfoldable pub system_info_to_json : SystemInfo → Bytes
system_info_to_json info = object_text (
    new_object
    ▷ add_raw "os_info" (os_info_to_json info.os_info)
    ▷ add_raw "cpu_info" (cpu_info_to_json info.cpu_info)
    ▷ add_raw "isa_features" (isa_features_to_json info.isa_features)
    ▷ add_raw "cache_list" (cache_list_to_json info.cache_list)
    ▷ add_raw "memory_info" (memory_info_to_json info.memory_info)
    ▷ add_raw "pci_devices" (pci_device_list_to_json info.pci_devices)
    ▷ add_raw "gpu_list" (gpu_list_to_json info.gpu_list)
    ▷ add_raw "perf_info" (perf_counter_info_to_json info.perf_info)
    ▷ add_raw "block_devices" (block_device_list_to_json info.block_devices)
    ▷ add_raw "net_interfaces" (net_interface_list_to_json info.net_interfaces)
    ▷ add_raw "thermal_info" (thermal_info_to_json info.thermal_info)
    ▷ add_raw "power_info" (power_info_to_json info.power_info)
    ▷ add_raw "virtualization_info" (virtualization_info_to_json info.virtualization_info)
    ▷ add_raw "platform_info" (platform_info_to_json info.platform_info))
