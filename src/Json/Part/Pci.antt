-- ===== src/Json/Part/Pci.antt =====
-- src/json.cc: the PCI devices as JSON, and as a document.
use archspec.Base.{◌≡◌, [], ◌∷◌, Bytes, codes, map}
use archspec.Report.Pci.{PciDeviceInfo, PciDeviceList}
use archspec.Json.Writer.{
  add_i64_field, add_raw, add_string_field, new_object, object_text, vector_to_json, ◌▷◌,
}
use archspec.Json.Value.{Value, array, object, print}
use archspec.Json.Builder.{builder_laws, int_tree, string_tree, vector_to_json-tree}

unfoldable pub pci_device_to_json : PciDeviceInfo → Bytes
pci_device_to_json device = object_text (
    new_object
    ▷ add_string_field "pci_address" device.pci_address
    ▷ add_string_field "vendor_id" device.vendor_id
    ▷ add_string_field "device_id" device.device_id
    ▷ add_string_field "subsystem_vendor_id" device.subsystem_vendor_id
    ▷ add_string_field "subsystem_device_id" device.subsystem_device_id
    ▷ add_string_field "class_id" device.class_id
    ▷ add_string_field "driver" device.driver
    ▷ add_i64_field "numa_node" device.numa_node
    ▷ add_string_field "iommu_group" device.iommu_group
    ▷ add_string_field "resource_path" device.resource_path)

abbrev pub pci_device_tree : PciDeviceInfo → Value
pci_device_tree device = object (
    (codes "pci_address", string_tree device.pci_address)
    ∷ (codes "vendor_id", string_tree device.vendor_id)
    ∷ (codes "device_id", string_tree device.device_id)
    ∷ (codes "subsystem_vendor_id", string_tree device.subsystem_vendor_id)
    ∷ (codes "subsystem_device_id", string_tree device.subsystem_device_id)
    ∷ (codes "class_id", string_tree device.class_id)
    ∷ (codes "driver", string_tree device.driver)
    ∷ (codes "numa_node", int_tree device.numa_node)
    ∷ (codes "iommu_group", string_tree device.iommu_group)
    ∷ (codes "resource_path", string_tree device.resource_path)
    ∷ [])

pub pci_device_to_json-tree :
    (device : PciDeviceInfo) → pci_device_to_json device ≡ print (pci_device_tree device)
unfolding pci_device_to_json
pci_device_to_json-tree device = simp (builder_laws)

-- `to_json(PciDeviceList)`
unfoldable pub pci_device_list_to_json : PciDeviceList → Bytes
pci_device_list_to_json pci_devices =
    object_text
      (new_object ▷ add_raw "entries" (vector_to_json pci_device_to_json pci_devices.entries))

abbrev pub pci_device_list_tree : PciDeviceList → Value
pci_device_list_tree pci_devices =
    object ((codes "entries", array (map pci_device_tree pci_devices.entries)) ∷ [])

pub pci_device_list_to_json-tree :
    (pci_devices : PciDeviceList)
    → pci_device_list_to_json pci_devices ≡ print (pci_device_list_tree pci_devices)
unfolding pci_device_list_to_json
pci_device_list_to_json-tree pci_devices =
    simp
      (builder_laws, vector_to_json-tree pci_device_to_json pci_device_tree pci_device_to_json-tree)
