-- ===== src/Json/Report/Document.antt =====
-- src/json.cc: the report is a JSON document, and which one.
use archspec.Base.{
  ◌≡◌, refl, ap, some, Bool, true, false, List, [], ◌∷◌, ◌++◌, append_assoc, append-nil, Bytes,
  String, codes, map, if◌then◌else◌, Bool-cases, inl, inr,
}
use archspec.Report.System.{SystemInfo}
use archspec.Report.Options.{
  CollectCategory, Category, os, cpu, isa, cache, memory, pci, gpu, perf, block, net, thermal,
  power, virtualization, platform, has_category, Report,
}
use archspec.Json.Value.{Value, str, array, object, print, print_items, items_of}
use archspec.Json.Builder.{Members, builder, builder_laws}
use archspec.Json.Reader.{read_json}
use archspec.Json.RoundTrip.{read_json-print}
use archspec.Json.Report.{
  version, report_schema_version, category_entries, selected_loop, selected_to_json, add_if,
  data_to_json, producer_to_json, report_to_json,
}
use archspec.Json.Part.Os.{os_info_tree, os_info_to_json-tree}
use archspec.Json.Part.Cpu.{cpu_info_tree, cpu_info_to_json-tree}
use archspec.Json.Part.Isa.{isa_features_tree, isa_features_to_json-tree}
use archspec.Json.Part.Cache.{cache_list_tree, cache_list_to_json-tree}
use archspec.Json.Part.Memory.{memory_info_tree, memory_info_to_json-tree}
use archspec.Json.Part.Pci.{pci_device_list_tree, pci_device_list_to_json-tree}
use archspec.Json.Part.Gpu.{gpu_list_tree, gpu_list_to_json-tree}
use archspec.Json.Part.Perf.{perf_counter_info_tree, perf_counter_info_to_json-tree}
use archspec.Json.Part.Block.{block_device_list_tree, block_device_list_to_json-tree}
use archspec.Json.Part.Net.{net_interface_list_tree, net_interface_list_to_json-tree}
use archspec.Json.Part.Power.{
  thermal_info_tree, power_info_tree, thermal_info_to_json-tree, power_info_to_json-tree,
}
use archspec.Json.Part.Platform.{
  virtualization_info_tree, platform_info_tree, virtualization_info_to_json-tree,
  platform_info_to_json-tree,
}

-- the names of the selected categories, in the order of the table
abbrev pub selected_names : CollectCategory → List (Category × String) → List Bytes
selected_names flags [] = []
selected_names flags ((category, name) ∷ entries) =
    (if has_category flags category then codes name ∷ [] else []) ++ selected_names flags entries

selected_loop-names :
    (flags : CollectCategory) (first : Bool) (entries : List (Category × String))
    → selected_loop flags first entries ++ b']' ∷ []
      ≡ print_items first (items_of (map str (selected_names flags entries)))
unfolding selected_loop print
selected_loop-names flags first [] = refl
selected_loop-names flags first ((category, name) ∷ entries) =
    elim (Bool-cases (has_category flags category)) [
      | inl e ↦
          rw (e, selected_loop)
            (rw (append_assoc, append_assoc, selected_loop-names flags false entries))
      | inr e ↦ rw (e, selected_loop) (selected_loop-names flags first entries)
    ]

selected_to_json-tree :
    (flags : CollectCategory)
    → selected_to_json flags ≡ print (array (map str (selected_names flags category_entries)))
unfolding selected_to_json print
selected_to_json-tree flags = ap (◌∷◌ b'[') (selected_loop-names flags true category_entries)

-- the member of a category, if it is selected
abbrev pub member_if : Bool → String → Value → Members
member_if selected key v = if selected then (codes key, v) ∷ [] else []

add_if-builder :
    (selected : Bool) (key : String) (v : Value) (ms : Members)
    → add_if selected key (print v) (builder ms) ≡ builder (ms ++ member_if selected key v)
unfolding add_if
add_if-builder true key v ms = simp builder_laws
add_if-builder false key v ms = rw append-nil

pub ruleset part_laws = (
  os_info_to_json-tree, cpu_info_to_json-tree, isa_features_to_json-tree, cache_list_to_json-tree,
  memory_info_to_json-tree, pci_device_list_to_json-tree, gpu_list_to_json-tree,
  perf_counter_info_to_json-tree, block_device_list_to_json-tree, net_interface_list_to_json-tree,
  thermal_info_to_json-tree, power_info_to_json-tree, virtualization_info_to_json-tree,
  platform_info_to_json-tree,
)

-- the members of `data`
abbrev pub data_members : CollectCategory → SystemInfo → Members
data_members flags info =
    member_if (has_category flags os) "os" (os_info_tree info.os_info)
    ++ (member_if (has_category flags cpu) "cpu" (cpu_info_tree info.cpu_info)
        ++ (member_if (has_category flags isa) "isa" (isa_features_tree info.isa_features)
            ++ (member_if (has_category flags cache) "cache" (cache_list_tree info.cache_list)
                ++ (member_if (has_category flags memory) "memory"
                      (memory_info_tree info.memory_info)
                    ++ (member_if (has_category flags pci) "pci"
                          (pci_device_list_tree info.pci_devices)
                        ++ (member_if (has_category flags gpu) "gpu" (gpu_list_tree info.gpu_list)
                            ++ (member_if (has_category flags perf) "perf"
                                  (perf_counter_info_tree info.perf_info)
                                ++ (member_if (has_category flags block) "block"
                                      (block_device_list_tree info.block_devices)
                                    ++ (member_if (has_category flags net) "net"
                                          (net_interface_list_tree info.net_interfaces)
                                        ++ (member_if (has_category flags thermal) "thermal"
                                              (thermal_info_tree info.thermal_info)
                                            ++ (member_if (has_category flags power) "power"
                                                  (power_info_tree info.power_info)
                                                ++ (member_if (has_category flags virtualization)
                                                      "virtualization"
                                                      (virtualization_info_tree
                                                        info.virtualization_info)
                                                    ++ (member_if (has_category flags platform)
                                                        "platform"
                                                        (platform_info_tree
                                                          info.platform_info))))))))))))))

data_to_json-tree :
    (flags : CollectCategory) (info : SystemInfo)
    → data_to_json flags info ≡ print (object (data_members flags info))
unfolding data_to_json
data_to_json-tree flags info = simp (builder_laws, part_laws, add_if-builder, append_assoc)

-- The document of a report.
abbrev pub report_tree : Report → Value
report_tree report = object (
    (codes "schema_version", str report_schema_version)
    ∷ (
      codes "producer",
      object ((codes "name", str (codes "archspec-inspect")) ∷ (codes "version", str version) ∷ []),
    )
    ∷ (
      codes "collected_categories",
      array (map str (selected_names report.categories category_entries)),
    )
    ∷ (codes "data", object (data_members report.categories report.system))
    ∷ [])

producer_to_json-tree :
    producer_to_json
    ≡ print (
        object
          ((codes "name", str (codes "archspec-inspect")) ∷ (codes "version", str version) ∷ []))
unfolding producer_to_json
producer_to_json-tree = simp builder_laws

report_to_json-tree : (report : Report) → report_to_json report ≡ print (report_tree report)
unfolding report_to_json
report_to_json-tree report =
    simp (builder_laws, producer_to_json-tree, selected_to_json-tree, data_to_json-tree)

-- The JSON of a report is read back as the document of that report, with the schema version, the
-- producer, the names of the selected categories and the data of those categories.
pub read_json-report_to_json :
    (report : Report) → read_json (report_to_json report) ≡ some (report_tree report)
read_json-report_to_json report = rw (report_to_json-tree report) (read_json-print _)
